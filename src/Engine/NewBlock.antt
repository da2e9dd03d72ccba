-- ===== src/Engine/NewBlock.antt =====
-- What `_handle_new_block` of consensus/pkg/engine/ddpoa_engine.py does with a block:
-- the calls and the counter. `Handled` puts them together.
pub mod Handled
use mathlib.Core.List.{append_assoc, append-nil}
use sawtooth_ddpoa.Prelude.{
  ℕ, ◌+◌, ◌≡◌, refl, sym, subst, ap, ◌∙◌, inl, inr, arith, true, false, not, ◌&&◌, ltb, some, none,
  Option, List, [], ◌∷◌, ◌++◌, Bool, Bool-cases, Option-cases, Outcome-cases, Outcome, ok, raise,
  hang, M, and_then, and_then-keeps, when, or_raise, BlockId,
}
use sawtooth_ddpoa.Prelude.Int.{ℤ, pos, negsuc, add_ℕ}
use sawtooth_ddpoa.Host.{Host}
use sawtooth_ddpoa.Service.{Block, Call, check_blocks}
use sawtooth_ddpoa.Cache.{BlockCache, traversable}
use sawtooth_ddpoa.Node.{is_state, waiting_for_bootstrap}
use sawtooth_ddpoa.Node.Methods.{expected_signer, is_key}
use sawtooth_ddpoa.Node.Catching.{is_catching}
use sawtooth_ddpoa.Engine.{Engine, Env, log_call, waiting}
use sawtooth_ddpoa.Engine.Catchup.{request_checks}
use sawtooth_ddpoa.Engine.Blocks.{follows, log_calls, check_next, check_ahead, place_block}

-- Whether the block follows the head, in its signer's slot.
abbrev pub is_next : Block → Engine → Bool
is_next b s = follows b s && is_key (expected_signer s.node) b.signer_id

abbrev pub finds : Outcome Bool → Bool
finds (ok found) = found
finds (raise e) = false
finds hang = false

-- Whether the cached blocks lead from the block to the target.
abbrev pub reaches : Block → BlockCache → Option BlockId → Bool
reaches b c none = false
reaches b c (some target) = finds (traversable b.block_id target c)

abbrev pub once : Bool → BlockId → List Call
once true id = check_blocks (id ∷ []) ∷ []
once false id = []

abbrev pub one_if : Bool → ℕ
one_if true = 1
one_if false = 0

-- The calls and the validations that are awaited, after some calls more and some validations more.
pub record Grown (calls : List Call) (n : ℕ) (s t : Engine) : Type 0 where
  pub calls_after : t.calls ≡ s.calls ++ calls
  pub awaited : t.waiting_for_validation ≡ add_ℕ s.waiting_for_validation n
  pub same_cache : t.block_cache ≡ s.block_cache

add_ℕ_zero : (a : ℤ) → a ≡ add_ℕ a 0
add_ℕ_zero (pos a) = ground arith
add_ℕ_zero (negsuc a) = ground arith

add_ℕ_add : (a : ℤ) (m n : ℕ) → add_ℕ (add_ℕ a m) n ≡ add_ℕ a (m + n)
add_ℕ_add (pos a) m n = ground arith
add_ℕ_add (negsuc a) m n = ground arith

none_more :
    (s t : Engine)
    → t.calls ≡ s.calls
    → t.waiting_for_validation ≡ s.waiting_for_validation
    → t.block_cache ≡ s.block_cache
    → Grown [] 0 s t
none_more s t c w k = record {
  same_cache = k;
  calls_after = c ∙ sym (append-nil s.calls);
  awaited = w ∙ add_ℕ_zero s.waiting_for_validation;
}

Grown-trans :
    (xs ys : List Call) (m n : ℕ) (s t u : Engine)
    → Grown xs m s t
    → Grown ys n t u
    → Grown (xs ++ ys) (m + n) s u
Grown-trans xs ys m n s t u p q = record {
  calls_after = q.calls_after ∙ ap (λ l. l ++ ys) p.calls_after ∙ append_assoc s.calls xs ys;
  same_cache = q.same_cache ∙ p.same_cache;
  awaited = q.awaited ∙ ap (λ a. add_ℕ a n) p.awaited ∙ add_ℕ_add s.waiting_for_validation m n;
}

pub log_calls_lem :
    (cs : List Call) (s : Engine) → log_calls cs s ≡ record s { calls = s.calls ++ cs }
log_calls_lem [] s = ap (λ l. record s { calls = l }) (sym (append-nil s.calls))
log_calls_lem (c ∷ cs) s =
    log_calls_lem cs (log_call c s)
    ∙ ap (λ l. record s { calls = l }) (append_assoc s.calls (c ∷ []) cs)

one_check :
    (b : Block) (s t : Engine)
    → t ≡ request_checks (b.block_id ∷ []) s
    → Grown (once true b.block_id) 1 s t
unfolding request_checks
one_check b s t e = record {
  calls_after = ap (λ (x : Engine). x.calls) e;
  awaited = ap (λ (x : Engine). x.waiting_for_validation) e;
  same_cache = ap (λ (x : Engine). x.block_cache) e;
}

when-Grown :
    (s : Engine) (b : Bool) (m : M Engine (Unit {0})) (t : Engine)
    → Grown [] 0 s t
    → Grown [] 0 s (m t).1
    → Grown [] 0 s (when b m t).1
unfolding when
when-Grown s true m t p q = q
when-Grown s false m t p q = p

module _ (h : Host) (env : Env) where
  check_next-Grown :
      (b : Block) (s : Engine)
      → Grown (once (is_next b s) b.block_id) (one_if (is_next b s)) s (check_next h env b s)
  unfolding check_next request_checks
  check_next-Grown b s = elim (Bool-cases (is_next b s)) [
    | inl next ↦
        rw (next, check_next) (record { calls_after = refl; awaited = refl; same_cache = refl })
    | inr other ↦ rw (other, check_next) (none_more s s refl refl refl)
  ]

  check_ahead-Grown : (b : Block) (s : Engine) → Grown [] 0 s (check_ahead h env b s).1
  unfolding check_ahead
  check_ahead-Grown b s = elim (Bool-cases (ltb (s.pre_num + 1) b.block_num && not (waiting s))) [
    | inr near ↦ rw (near, check_ahead) (none_more s s refl refl refl)
    | inl ahead ↦
        rw (ahead, check_ahead)
          (and_then-keeps (Grown [] 0 s) _ _ (none_more s s refl refl refl) (λ logged t p.
            and_then-keeps (Grown [] 0 s) _ _ p (λ due u q. when-Grown s due _ u q (record {
              calls_after = q.calls_after;
              awaited = q.awaited;
              same_cache = q.same_cache;
            }))))
  ]

  -- Whether the block belongs to the part of the chain that is caught up to.
  abbrev pub leads : Block → BlockCache → Engine → Bool
  leads b c s = is_catching s.node && reaches b c s.fastforward_target_id

  place_block-Grown :
      (b : Block) (s : Engine)
      → Grown
          (once (leads b s.block_cache s) b.block_id)
          (one_if (leads b s.block_cache s))
          s
          (place_block h env b s).1
  unfolding place_block and_then or_raise
  place_block-Grown b s = elim (Bool-cases (is_state s.node.state waiting_for_bootstrap)) [
    | inl waits ↦
        let other : is_catching s.node ≡ false = ground (arith, waits) in
        rw (waits, other, place_block) (none_more s _ refl refl refl)
    | inr apart ↦ elim (Bool-cases (is_catching s.node)) [
      | inr other ↦ rw (apart, other, place_block) (check_ahead-Grown b s)
      | inl catches ↦ elim (Option-cases s.fastforward_target_id) [
        | inl e ↦
            rw (apart, catches, e, place_block)
              (none_more (record s { fastforward_target_id = none }) _ refl refl refl)
        | inr (target, e) ↦
            let aims : Engine = record s { fastforward_target_id = some target } in
            elim (Outcome-cases (traversable b.block_id target s.block_cache)) [
              | inr (inl (x, f)) ↦
                  rw (apart, catches, e, f, place_block) (none_more aims aims refl refl refl)
              | inr (inr f) ↦
                  rw (apart, catches, e, f, place_block) (none_more aims aims refl refl refl)
              | inl (found, f) ↦ elim (Bool-cases found) [
                | inl part ↦ rw (apart, catches, e, f, part, place_block) (one_check b aims _ refl)
                | inr astray ↦
                    rw (apart, catches, e, f, astray, place_block) (check_ahead-Grown b aims)
              ]
            ]
      ]
    ]
  ]

  check_next-rest :
      (b : Block) (s : Engine)
      → let t = check_next h env b s in
        (t.node ≡ s.node) × (t.fastforward_target_id ≡ s.fastforward_target_id)
  unfolding check_next request_checks
  check_next-rest b s = elim (Bool-cases (is_next b s)) [
    | inl next ↦ rw (next, check_next) (refl, refl)
    | inr other ↦ rw (other, check_next) (refl, refl)
  ]

  -- From the state in which the block is cached.
  pub asked :
      (b : Block) (s : Engine)
      → Grown
          (once (is_next b s) b.block_id ++ once (leads b s.block_cache s) b.block_id)
          (one_if (is_next b s) + one_if (leads b s.block_cache s))
          s
          (place_block h env b (check_next h env b s)).1
  asked b s =
      let v = check_next h env b s in
      let first = check_next-Grown b s in
      let (node, target) = check_next-rest b s in
      let same : leads b v.block_cache v ≡ leads b s.block_cache s =
        ap (λ n. is_catching n && reaches b v.block_cache v.fastforward_target_id) node
        ∙ ap (λ c. is_catching s.node && reaches b c v.fastforward_target_id) first.same_cache
        ∙ ap (λ o. is_catching s.node && reaches b s.block_cache o) target in
      Grown-trans (once (is_next b s) b.block_id) (once (leads b s.block_cache s) b.block_id)
        (one_if (is_next b s)) (one_if (leads b s.block_cache s)) s v _ first
        (subst (λ x. Grown (once x b.block_id) (one_if x) v (place_block h env b v).1) same
          (place_block-Grown b v))
