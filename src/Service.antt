-- ===== src/Service.antt =====
-- What the engine says to the validator and to the other nodes: the calls of the SDK's `ZmqService`
-- (a parameter, as is its answers), blocks, and the messages of consensus/protos/service.proto and
-- consensus_data.proto.
use sawtooth_ddpoa.Prelude.{ℕ, String, List, Option, Key, BlockId, Exn}

-- The fields of the SDK's `Block` that the engine reads, ids and signer in hex.
pub record Block : Type 0 where
  pub block_id : BlockId
  pub previous_id : BlockId
  pub signer_id : Key
  pub block_num : ℕ
  pub payload : String

pub record ConsensusData : Type 0 where
  pub timestamp : ℕ
  pub epoch : ℕ
  pub witness_idx : ℕ
  pub candidates : List Key
  pub consensus : String
  pub num_slots : ℕ

pub record Bootstrap : Type 0 where
  pub chain_head_id : BlockId
  pub num_blocks : ℕ
  pub pre_id : BlockId

-- A `ConsensusMessage` by its type, with the fields that the type uses.
pub data Body : Type 0 where
  vote : (epoch : ℕ) → (votes : List Key) → Body
  vote_result : (epoch : ℕ) → (result : List Key) → Body
  empty_slot : Body
  bootstrap_message : Bootstrap → Body
  bootstrap_request : Body
  sync_request : Body

pub record Message : Type 0 where
  pub timestamp : ℕ
  pub signer : Key
  pub body : Body

-- Calls of the service, in the order in which they are made.
pub data Call : Type 0 where
  check_blocks : List BlockId → Call
  commit_block : BlockId → Call
  fail_block : BlockId → Call
  ignore_block : BlockId → Call
  cancel_block : Call
  initialize_block : Call
  summarize_block : Call
  finalize_block : ConsensusData → Call

-- The service's answers while one event is handled: `none` and `Exn` stand for an exception.
pub record Answers : Type 0 where
  pub chain_head : Option Block
  pub blocks : BlockId → Option Block
  pub on_cancel : Option Exn
  pub on_initialize : Option Exn
  pub on_summarize : Option Exn
  pub on_finalize : Option Exn
