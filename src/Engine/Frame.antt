-- ===== src/Engine/Frame.antt =====
-- What a method of the engine keeps of its state when it commits no block, moves no head and answers
-- no validation
-- (consensus/pkg/engine/ddpoa_engine.py): the rules, by which the children go through the methods.
pub mod Caching
pub mod Slots
pub mod Catchup
pub mod Blocks
pub mod Inbox
pub mod Rounds
use sawtooth_ddpoa.Prelude.{
  and_then-keeps, Option, none, some, Bool, true, false, ◌≡◌, refl, Outcome, Exn, ok, raise, hang,
  M, and_then, recover, when, if◌then◌else◌, or_raise, List, BlockId,
}
use sawtooth_ddpoa.Service.{
  Block, Call, check_blocks, commit_block, fail_block, ignore_block, cancel_block, initialize_block,
  summarize_block, finalize_block,
}
use sawtooth_ddpoa.Node.{Node}
use sawtooth_ddpoa.Engine.Catchup.{request_checks}
use sawtooth_ddpoa.Engine.Blocks.{cache_block}
use sawtooth_ddpoa.Engine.{Engine, Env, on_node, log_call, call}

-- Commits and validations.
unfoldable pub is_counted : Call → Bool
is_counted (commit_block id) = true
is_counted (check_blocks ids) = true
is_counted (fail_block id) = false
is_counted (ignore_block id) = false
is_counted cancel_block = false
is_counted initialize_block = false
is_counted summarize_block = false
is_counted (finalize_block c) = false

-- A property of the calls, the head, the counter of validations and the block cache that holds on when a
-- call is logged that asks neither for commits nor for validations, when a block is cached, and when
-- validations are asked for and counted.
pub record Keeps (P : Engine → Type 0) : Type 0 where
  pub silent :
      (s t : Engine)
      → t.calls ≡ s.calls
      → t.pre_id ≡ s.pre_id
      → t.pre_num ≡ s.pre_num
      → t.waiting_for_validation ≡ s.waiting_for_validation
      → t.block_cache ≡ s.block_cache
      → P s
      → P t
  pub logs : (c : Call) (s : Engine) → is_counted c ≡ false → P s → P (log_call c s)
  pub caches : (b : Block) (s : Engine) → P s → P (cache_block b s).1
  pub asks : (ids : List BlockId) (s : Engine) → P s → P (request_checks ids s)

-- What holds where a call that keeps `P` has not returned.
pub record Fails {B : Type 0} (P : Engine → Type 0) (Q : Outcome B × Engine → Type 0) : Type 0 where
  pub on_raise : (e : Exn) (t : Engine) → P t → Q (raise e, t)
  pub on_hang : (t : Engine) → P t → Q (hang, t)

-- A call that keeps `P`, and then one that ends in `Q`.
pub bind-ends :
    {A B : Type 0} (P : Engine → Type 0) (Q : Outcome B × Engine → Type 0)
    → Fails P Q
    → (r : Outcome A × Engine) (f : A → M Engine B) → P r.1
    → ((a : A) (t : Engine) → P t → Q (f a t))
    → Q (and_then r f)
unfolding and_then
bind-ends P Q fails (ok a, t) f h g = g a t h
bind-ends P Q fails (raise e, t) f h g = fails.on_raise e t h
bind-ends P Q fails (hang, t) f h g = fails.on_hang t h

module _ (P : Engine → Type 0) (k : Keeps P) where
  pub bind-keeps :
      {A B : Type 0} (r : Outcome A × Engine) (f : A → M Engine B)
      → P r.1
      → ((a : A) (t : Engine) → P t → P (f a t).1)
      → P (and_then r f).1
  bind-keeps r f h g = and_then-keeps P r f h g

  pub recover-keeps :
      {A : Type 0} (f : Exn → M Engine A) (r : Outcome A × Engine)
      → P r.1
      → ((e : Exn) (t : Engine) → P t → P (f e t).1)
      → P (recover f r).1
  unfolding recover
  recover-keeps f (ok a, t) h g = h
  recover-keeps f (raise e, t) h g = g e t h
  recover-keeps f (hang, t) h g = h

  pub on_node-keeps : {A : Type 0} (m : M Node A) (s : Engine) → P s → P (on_node m s).1
  on_node-keeps m s h = k.silent s _ refl refl refl refl refl h

  pub or_raise-keeps :
      {A : Type 0} (e : Exn) (o : Option A) (s : Engine) → P s → P (or_raise {S = Engine} e o s).1
  unfolding or_raise
  or_raise-keeps e none s h = h
  or_raise-keeps e (some a) s h = h

  pub when-keeps :
      (b : Bool) (m : M Engine (Unit {0})) (s : Engine) → P s → P (m s).1 → P (when b m s).1
  unfolding when
  when-keeps true m s h g = g
  when-keeps false m s h g = h

  pub if-keeps :
      {A : Type 0} (b : Bool) (x y : Outcome A × Engine) → P x.1 → P y.1 → P (if b then x else y).1
  if-keeps true x y h g = h
  if-keeps false x y h g = g

  -- The same for two calls at one state.
  pub if_call-keeps :
      {A : Type 0} (b : Bool) (m n : M Engine A) (s : Engine)
      → P (m s).1
      → P (n s).1
      → P ((if b then m else n) s).1
  if_call-keeps true m n s h g = h
  if_call-keeps false m n s h g = g

  pub call-keeps :
      (env : Env) (c : Call) (o : Option Exn) (s : Engine)
      → is_counted c ≡ false
      → P s
      → P (call env c o s).1
  unfolding call
  call-keeps env c none s q h = k.logs c s q h
  call-keeps env c (some e) s q h = k.logs c s q h
