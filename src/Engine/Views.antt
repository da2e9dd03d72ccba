-- ===== src/Engine/Views.antt =====
-- A part of the engine's state that the calls of the service do not touch
-- (consensus/pkg/engine/ddpoa_engine.py), over a step to the next slot.
use sawtooth_ddpoa.Prelude.{
  List, ℕ, ◌≡◌, refl, ap, ◌∙◌, inl, inr, true, false, Bool, Option, none, some, Option-cases,
  Outcome, ok, raise, hang, Exn, M, and_then-keeps, when, recover, BlockId, invalid_state,
}
use sawtooth_ddpoa.Host.{Host}
use sawtooth_ddpoa.Service.{Call, cancel_block}
use sawtooth_ddpoa.Node.Methods.{expected_signer}
use sawtooth_ddpoa.Node.Handlers.{next_slot}
use sawtooth_ddpoa.Cache.{block_by_num_and_signer}
use sawtooth_ddpoa.Engine.{
  Engine, Env, on_node, log_call, try_cancel, engine_next_slot, call, ignore_invalid_state,
}
use sawtooth_ddpoa.Engine.Catchup.{request_checks}
use sawtooth_ddpoa.Engine.Blocks.{check_early}

pub record Holds {A : Type 0} (view : Engine → A) (a : A) (s : Engine) : Type 0 where
  pub same : view s ≡ a

-- What the view does not depend on.
pub record IsView {A : Type 0} (view : Engine → A) : Type 0 where
  pub logged : (c : Call) (s : Engine) → view (log_call c s) ≡ view s
  pub started : (t : ℕ) (s : Engine) → view (record s { slot_started_at = t }) ≡ view s
  pub requested : (ids : List BlockId) (s : Engine) → view (request_checks ids s) ≡ view s

module _ {A : Type 0} (view : Engine → A) (v : IsView view) (a : A) (env : Env) where
  call-Holds :
      (c : Call) (o : Option Exn) (s : Engine) → Holds view a s → Holds view a (call env c o s).1
  unfolding call
  call-Holds c none s h = record { same = v.logged c s ∙ h.same }
  call-Holds c (some e) s h = record { same = v.logged c s ∙ h.same }

  ignore-state : (e : Exn) (s : Engine) → (ignore_invalid_state env e s).1 ≡ s
  unfolding ignore_invalid_state
  ignore-state invalid_state s = refl
  ignore-state e s = refl

  recovered-Holds :
      (r : Outcome (Unit {0}) × Engine)
      → Holds view a r.1
      → Holds view a (recover (ignore_invalid_state env) r).1
  unfolding recover
  recovered-Holds (ok x, s) h = h
  recovered-Holds (raise e, s) h = record { same = ap view (ignore-state e s) ∙ h.same }
  recovered-Holds (hang, s) h = h

  when-Holds :
      (b : Bool) (m : M Engine (Unit {0})) (s : Engine)
      → Holds view a s
      → Holds view a (m s).1
      → Holds view a (when b m s).1
  unfolding when
  when-Holds true m s h g = g
  when-Holds false m s h g = h

  -- The view after the step of the node is the one after the step of the engine.
  pub engine_next_slot-Holds :
      (h : Host) (ts : ℕ) (s : Engine)
      → Holds view a (on_node (next_slot h.sha256 s.pre_id) s).1
      → Holds view a (engine_next_slot env h ts s).1
  unfolding engine_next_slot try_cancel
  engine_next_slot-Holds h ts s moved =
      let P = Holds view a in
      and_then-keeps P (on_node (next_slot h.sha256 s.pre_id) s) _ moved (λ x t p.
        and_then-keeps P _ _ (record { same = v.started _ t ∙ p.same })
          (λ y u q.
            and_then-keeps P _ _ (recovered-Holds _ (call-Holds cancel_block _ u q)) (λ z w r.
              and_then-keeps P _ _ r (λ mine k e. when-Holds mine _ k e (call-Holds _ _ k e)))))

  pub check_early-Holds :
      (h : Host) (num : ℕ) (s : Engine) → Holds view a s → Holds view a (check_early h env num s)
  unfolding check_early
  check_early-Holds h num s p = elim (Option-cases (expected_signer s.node)) [
    | inl e ↦ rw (e, check_early) p
    | inr (signer, e) ↦ elim (Option-cases (block_by_num_and_signer num signer s.block_cache)) [
      | inl f ↦ rw (e, f, check_early) p
      | inr (b, f) ↦ rw (e, f, check_early) (record { same = v.requested _ s ∙ p.same })
    ]
  ]
