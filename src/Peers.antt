-- ===== src/Peers.antt =====
-- `PeerNode` of consensus/pkg/engine/consensus_node.py: what a node knows of another one.
use sawtooth_ddpoa.Prelude.{ℕ, Key, Bool, true, false}
use sawtooth_ddpoa.Floats.{Float, float_one}

-- `last_seen` is a clock reading.
pub record PeerNode : Type 0 where
  pub key : Key
  pub score : Float
  pub last_seen : ℕ
  pub online : Bool

unfoldable pub init : Key → ℕ → PeerNode
init key now = record { key = key; score = float_one; last_seen = now; online = false }

unfoldable pub seen : ℕ → PeerNode → PeerNode
seen now p = record p { online = true; last_seen = now }

unfoldable pub set_online : Bool → PeerNode → PeerNode
set_online online p = record p { online = online }
