-- ===== src/Engine/Frame/Slots.antt =====
-- Slots and own blocks keep what commits and head decide (consensus/pkg/engine/ddpoa_engine.py).
use sawtooth_ddpoa.Prelude.{ℕ, refl, arith, Exn}
use sawtooth_ddpoa.Host.{Host}
use sawtooth_ddpoa.Service.{cancel_block, summarize_block, initialize_block, finalize_block}
use sawtooth_ddpoa.Engine.{
  Engine, Env, try_cancel, summarize, finalize, consensus_data, engine_next_slot,
  handle_missed_slot, ignore_invalid_state, not_summarized, not_finalized,
}
use sawtooth_ddpoa.Engine.Frame.{
  is_counted, Keeps, bind-keeps, recover-keeps, or_raise-keeps, when-keeps, call-keeps,
}

module _ (P : Engine → Type 0) (k : Keeps P) (env : Env) where
  ignore_invalid_state-keeps : (e : Exn) (t : Engine) → P t → P (ignore_invalid_state env e t).1
  unfolding ignore_invalid_state
  ignore_invalid_state-keeps e t h = ground (arith, h)

  pub try_cancel-keeps : (s : Engine) → P s → P (try_cancel env s).1
  unfolding try_cancel is_counted
  try_cancel-keeps s h =
      recover-keeps P k _ _ (call-keeps P k env cancel_block _ s refl h) ignore_invalid_state-keeps

  not_summarized-keeps : (e : Exn) (t : Engine) → P t → P (not_summarized env e t).1
  unfolding not_summarized
  not_summarized-keeps e t h = ground (arith, h)

  pub summarize-keeps : (s : Engine) → P s → P (summarize env s).1
  unfolding summarize is_counted
  summarize-keeps s h =
      recover-keeps P k _ _
        (bind-keeps P k _ _ (call-keeps P k env summarize_block _ s refl h) (λ a t p. p))
        not_summarized-keeps

  not_finalized-keeps : (e : Exn) (t : Engine) → P t → P (not_finalized env e t).1
  unfolding not_finalized
  not_finalized-keeps e t h = ground (arith, h)

  pub finalize-keeps : (s : Engine) → P s → P (finalize env s).1
  unfolding finalize is_counted
  finalize-keeps s h =
      recover-keeps P k _ _
        (bind-keeps P k _ _ (call-keeps P k env (finalize_block (consensus_data env s)) _ s refl h)
          (λ a t p. k.silent t _ refl refl refl refl refl p))
        not_finalized-keeps

  module _ (host : Host) where
    pub engine_next_slot-keeps : (ts : ℕ) (s : Engine) → P s → P (engine_next_slot env host ts s).1
    unfolding engine_next_slot is_counted
    engine_next_slot-keeps ts s h =
        bind-keeps P k _ _ (k.silent s _ refl refl refl refl refl h) (λ a t p.
          bind-keeps P k _ _ (k.silent t _ refl refl refl refl refl p) (λ b u q.
            bind-keeps P k _ _ (try_cancel-keeps u q) (λ c v r.
              bind-keeps P k _ _ r (λ d w x.
                when-keeps P k _ _ w x (call-keeps P k env initialize_block _ w refl x)))))

    pub handle_missed_slot-keeps : (s : Engine) → P s → P (handle_missed_slot env host s).1
    unfolding handle_missed_slot
    handle_missed_slot-keeps s h = bind-keeps P k _ _ (or_raise-keeps P k _ _ s h) (λ a t p.
        bind-keeps P k _ _ (k.silent t _ refl refl refl refl refl p) (λ b u q.
          bind-keeps P k _ _ (or_raise-keeps P k _ _ u q) (λ c v r.
            bind-keeps P k _ _ (k.silent v _ refl refl refl refl refl r)
              (λ d w x. engine_next_slot-keeps _ w x))))
