-- ===== src/Engine/Commits/History.antt =====
-- The runs of an engine: rounds of its loop, with what other threads do in between
-- (consensus/pkg/engine/ddpoa_engine.py, the timer of consensus/pkg/engine/ddpoa_node.py and the server
-- and the threads that connect to new peers of consensus/pkg/engine/consensus_messaging.py).
use sawtooth_ddpoa.Prelude.{ℕ, ◌≡◌, ◌⊎◌, All, Option, some, BlockId, Key, Bool, List}
use sawtooth_ddpoa.Host.{Host}
use sawtooth_ddpoa.Service.{Block, Message}
use sawtooth_ddpoa.Messaging
use sawtooth_ddpoa.Node.{catching_up}
use sawtooth_ddpoa.Node.Handlers.{timer_fires}
use sawtooth_ddpoa.Engine.{Engine, Env, on_node, stop}
use sawtooth_ddpoa.Engine.Loop.{Update, round}
use sawtooth_ddpoa.Engine.Safety.{IsNext}
use sawtooth_ddpoa.Engine.Commits.{commits}

-- One event, with what the outside does then.
pub data Step (host : Host) (s t : Engine) : Type 0 where
  a_round : (env : Env) (u : Option Update) → t ≡ (round host env u s).1 → Step host s t
  -- The timer's thread broadcasts a result.
  timer : (now : ℕ) → t ≡ (on_node (timer_fires host now) s).1 → Step host s t
  -- The server's thread queues a message.
  received :
      (m : Message)
      → t ≡ record s {
        node = record s.node { communicator = Messaging.receive m s.node.communicator };
      }
      → Step host s t
  -- The thread that connects a new peer pings it, and has had these answers.
  connecting :
      (peer : Key) (answers : List Bool)
      → t ≡ record s {
        node = record s.node {
          communicator = Messaging.connect_peer peer answers s.node.communicator;
        };
      }
      → Step host s t
  stopped : t ≡ stop s → Step host s t

pub data Run (host : Host) (s : Engine) : Engine → Type 0 where
  start : Run host s s
  more : {t u : Engine} → Run host s t → Step host t u → Run host s u

-- When `id` was asked to be committed, in the run from `s0`: the engine was in a state whose head the
-- block follows, and catching up, or the block had the next number and the expected signer.
pub record Justified (host : Host) (s0 : Engine) (id : BlockId) : Type 0 where
  pub at : Engine
  pub reached : Run host s0 at
  pub env : Env
  pub block : Block
  pub found : env.service.blocks id ≡ some block
  pub after_head : block.previous_id ≡ at.pre_id
  pub allowed : (at.node.state ≡ catching_up) ⊎ IsNext at block

module _ (host : Host) (s0 : Engine) where
  abbrev Ok : Engine → Type 0
  Ok t = All (Justified host s0) (commits t.calls)
