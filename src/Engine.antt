-- ===== src/Engine.antt =====
-- The state of `DDPoAEngine` (consensus/pkg/engine/ddpoa_engine.py), its slots and its own blocks.
pub mod Catchup
pub mod Blocks
pub mod Inbox
pub mod Loop
pub mod Safety
pub mod Faults
pub mod Frame
pub mod Commits
pub mod Counters
pub mod Fork
pub mod Heads
pub mod Missed
pub mod Views
pub mod Arrival
pub mod Handover
pub mod NewBlock
pub mod Memory
pub mod Validations
use sawtooth_ddpoa.Prelude.{
  ℕ, ◌+◌, ◌-◌, ◌*◌, ◌/◌, ◌++◌, String, List, [], ◌∷◌, Option, none, some, Bool, true, false, not,
  ◌&&◌, ◌||◌, ltb, Key, BlockId, M, Exn, ok, raise, type_error, invalid_state, block_not_ready,
  skip, modify, gets, return, throw, or_raise, on_part, when, catch, ◌>>=◌, ◌>>◌,
}
use sawtooth_ddpoa.Prelude.Int.{ℤ, add_ℕ, is_positive}
use sawtooth_ddpoa.Config.{second, block_interval, slot_timeout}
use sawtooth_ddpoa.Service.{
  Block, Bootstrap, Call, Answers, ConsensusData, cancel_block, initialize_block, summarize_block,
  finalize_block,
}
use sawtooth_ddpoa.Cache.{BlockCache}
use sawtooth_ddpoa.Cache
use sawtooth_ddpoa.Epoch
use sawtooth_ddpoa.Host.{Host}
use sawtooth_ddpoa.Node.{Node}
use sawtooth_ddpoa.Node.Methods.{expected_signer, is_current_witness, penalize, downgrade}
use sawtooth_ddpoa.Node.Handlers.{next_slot}

-- `pre_id` and `pre_num` are `pre_committed_block`; `calls` lists the calls of the service, oldest
-- first. The last three fields are variables of `start`.
pub record Engine : Type 0 where
  pub node : Node
  pub block_cache : BlockCache
  pub local_id : Key
  pub members : List Key
  pub ips : List (Key × String)
  pub pre_id : BlockId
  pub pre_num : ℕ
  pub exit : Bool
  pub slot_started_at : ℕ
  pub waiting_for_own_block : Bool
  pub waiting_for_commit : ℤ
  pub waiting_for_validation : ℤ
  pub bootstrap_messages_received : List Bootstrap
  pub bootstrap_cache : List (BlockId × Block)
  pub fastforward_target : Option ℤ
  pub fastforward_target_id : Option BlockId
  pub has_requested_bootstrap : Bool
  pub last_bootstrap_request : ℕ
  pub calls : List Call
  pub starting_up : Bool
  pub engine_start : ℕ
  pub pre_bootstrap_request : ℕ

-- What the outside gives while one event is handled: a clock reading, who answers a ping, and the
-- answers of the service.
pub record Env : Type 0 where
  pub now : ℕ
  pub answers : Key → Bool
  pub service : Answers

abbrev pub on_node : {A : Type 0} → M Node A → M Engine A
on_node = on_part (λ (s : Engine). s.node) (λ n s. record s { node = n })

abbrev pub log_call : Call → Engine → Engine
log_call c s = record s { calls = s.calls ++ (c ∷ []) }

abbrev pub expect_validations : ℕ → Engine → Engine
expect_validations k s = record s { waiting_for_validation = add_ℕ s.waiting_for_validation k }

unfoldable pub stop : Engine → Engine
stop s = record s { exit = true }

unfoldable pub waiting : Engine → Bool
waiting s =
    s.waiting_for_own_block
    || (is_positive s.waiting_for_validation || is_positive s.waiting_for_commit)

module _ (env : Env) where
  unfoldable pub time_for_next_block : Engine → Bool
  time_for_next_block s = ltb block_interval (env.now - s.slot_started_at)

  unfoldable pub slot_is_missed : Engine → Bool
  unfolding waiting Epoch.is_initialized
  slot_is_missed s =
      ltb (block_interval + slot_timeout) (env.now - s.slot_started_at)
      && (not (waiting s) && Epoch.is_initialized s.node.epoch)

  -- A call of the service that raises or not.
  unfoldable pub call : Call → Option Exn → M Engine (Unit {0})
  call c none s = (ok tt, log_call c s)
  call c (some e) s = (raise e, log_call c s)

  unfoldable pub ignore_invalid_state : Exn → M Engine (Unit {0})
  ignore_invalid_state invalid_state = skip
  ignore_invalid_state e = throw e

  unfoldable pub try_cancel : M Engine (Unit {0})
  try_cancel = catch (call cancel_block env.service.on_cancel) ignore_invalid_state

  -- `None` for the two exceptions that are caught.
  unfoldable pub not_summarized : Exn → M Engine Bool
  not_summarized invalid_state = return false
  not_summarized block_not_ready = return false
  not_summarized e = throw e

  -- Whether there is a summary.
  unfoldable pub summarize : M Engine Bool
  summarize = catch (call summarize_block env.service.on_summarize >> return true) not_summarized

  unfoldable pub not_finalized : Exn → M Engine (Unit {0})
  not_finalized invalid_state = skip
  not_finalized block_not_ready = skip
  not_finalized e = throw e

  unfoldable pub consensus_data : Engine → ConsensusData
  unfolding Epoch.full_candidate_list
  consensus_data s = record {
    timestamp = env.now / second;
    epoch = s.node.epoch.number;
    witness_idx = s.node.epoch.current_witness_idx;
    candidates = Epoch.full_candidate_list s.node.epoch;
    consensus = "ddpoa:0.1";
    num_slots = s.node.epoch.num_slots;
  }

  unfoldable pub finalize : M Engine (Unit {0})
  unfolding consensus_data
  finalize s =
      catch
        (call (finalize_block (consensus_data s)) env.service.on_finalize
          >> modify (λ t. record t { waiting_for_own_block = true }))
        not_finalized s

  module _ (h : Host) where
    unfoldable pub engine_next_slot : ℕ → M Engine (Unit {0})
    unfolding next_slot try_cancel is_current_witness
    engine_next_slot start_ts = do
      (λ s. on_node (next_slot h.sha256 s.pre_id) s)
      modify (λ s. record s { slot_started_at = start_ts * second })
      try_cancel
      mine ← gets (λ s. is_current_witness s.node)
      when mine (call initialize_block env.service.on_initialize)

    -- With no current witness the log line of `penalize` raises.
    unfoldable pub handle_missed_slot : M Engine (Unit {0})
    unfolding expected_signer penalize downgrade engine_next_slot
    handle_missed_slot = do
      penalized ← (λ s. or_raise type_error (expected_signer s.node) s)
      on_node (penalize h.mul penalized)
      downgraded ← (λ s. or_raise type_error (expected_signer s.node) s)
      on_node (downgrade downgraded)
      engine_next_slot (env.now / second)
