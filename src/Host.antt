-- ===== src/Host.antt =====
-- What the node calls and does not implement: SHA-256, float multiplication, `random.choices`, the
-- library of the single transferable vote, protobuf's `ParseFromString`, and
-- the comparison of an id with one of the SDK's blocks.
use sawtooth_ddpoa.Prelude.{ℕ, String, Option, Bool, BlockId}
use sawtooth_ddpoa.Floats.{Float}
use sawtooth_ddpoa.Service.{Block, ConsensusData}
use sawtooth_ddpoa.Voting.Election.{Choose, Stv}

-- `none` stands for an exception.
pub record Host : Type 0 where
  pub sha256 : String → ℕ
  pub mul : Float → Float → Float
  pub choose : Choose
  pub stv : Stv
  -- `id == block`, by the SDK's `Block`.
  pub equals_block : BlockId → Block → Bool
  pub parse : String → Option ConsensusData
