-- ===== src/Engine/Validations/Runs.antt =====
-- The counter of awaited validations over the rounds and runs of an engine
-- (consensus/pkg/engine/ddpoa_engine.py).
use sawtooth_ddpoa.Prelude.{
  ℕ, suc, Option, none, some, Bool, true, false, Outcome, ok, raise, hang, ◌&&◌,
}
use sawtooth_ddpoa.Host.{Host}
use sawtooth_ddpoa.Engine.{Engine, Env}
use sawtooth_ddpoa.Engine.Loop.{
  Update, block_new, block_valid, block_invalid, block_commit, peer_connected, peer_disconnected,
  unknown, handle_updates,
}
use sawtooth_ddpoa.Cache
use sawtooth_ddpoa.Node
use sawtooth_ddpoa.Engine.Frame.{Keeps}
use sawtooth_ddpoa.Engine.Commits.History.{
  a_round, timer, received, connecting, stopped, Run, start, more,
}
use sawtooth_ddpoa.Engine.Validations.{Balanced, Balanced-Keeps}

-- The answers of the validator to validations.
abbrev pub is_answer : Option Update → Bool
is_answer none = false
is_answer (some (block_new b)) = false
is_answer (some (block_valid id)) = true
is_answer (some (block_invalid id)) = true
is_answer (some (block_commit id)) = false
is_answer (some (peer_connected k)) = false
is_answer (some (peer_disconnected k)) = false
is_answer (some unknown) = false

abbrev pub has_returned : {A : Type 0} → Outcome A → Bool
has_returned (ok a) = true
has_returned (raise e) = false
has_returned hang = false

abbrev pub one_more : Bool → ℕ → ℕ
one_more true n = suc n
one_more false n = n

-- The handler of an answer counts it if it returns, and not if it raises.
abbrev Ends : ℕ → Outcome (Unit {0}) × Engine → Type 0
Ends n (ok a, t) = Balanced (suc n) t
Ends n (raise e, t) = Balanced n t
Ends n (hang, t) = Balanced n t

-- The update is an answer to a validation, and its handler returns.
unfoldable pub answered : Host → Env → Option Update → Engine → Bool
answered host env u s = is_answer u && has_returned (handle_updates host env u s).0

module _ (host : Host) (env : Env) (n : ℕ) where
  abbrev k : Keeps (Balanced n)
  k = Balanced-Keeps n

module _ (host : Host) where
  -- How many answers to validations the rounds of a run had whose handlers returned.
  unfoldable pub answers : {s t : Engine} → Run host s t → ℕ
  answers start = 0
  answers (more {t = m} r (a_round env u e)) = one_more (answered host env u m) (answers r)
  answers (more r (timer now e)) = answers r
  answers (more r (received m e)) = answers r
  answers (more r (connecting p l e)) = answers r
  answers (more r (stopped e)) = answers r
