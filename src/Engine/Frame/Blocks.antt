-- ===== src/Engine/Frame/Blocks.antt =====
-- The handlers of new and invalid blocks keep what commits and head decide
-- (consensus/pkg/engine/ddpoa_engine.py).
use sawtooth_ddpoa.Prelude.{
  ℕ, refl, arith, [], ◌∷◌, true, false, BlockId, Outcome, ok, inl, inr, ltb, ◌+◌, ◌*◌, ◌&&◌, not,
  ite, contains, dec_key, Option-cases,
}
use sawtooth_ddpoa.Prelude.Dict.{set_item}
use sawtooth_ddpoa.Prelude.Int.{pred_ℤ}
use sawtooth_ddpoa.Config.{second}
use sawtooth_ddpoa.Node.{is_state, waiting_for_bootstrap, catching_up}
use sawtooth_ddpoa.Node.Methods.{expected_signer, bootstrap}
use sawtooth_ddpoa.Cache.{block_by_num_and_signer}
use sawtooth_ddpoa.Host.{Host}
use sawtooth_ddpoa.Service.{Block, ConsensusData, fail_block}
use sawtooth_ddpoa.Engine.{Engine, Env, log_call, waiting}
use sawtooth_ddpoa.Engine.Catchup.{request_checks}
use sawtooth_ddpoa.Engine.Blocks.{
  check_next, check_ahead, place_block, handle_new_block, handle_invalid_block, check_early, arrive,
}
use sawtooth_ddpoa.Engine.Frame.{
  is_counted, Keeps, Fails, bind-ends, bind-keeps, or_raise-keeps, when-keeps, if-keeps,
  if_call-keeps,
}
use sawtooth_ddpoa.Engine.Frame.Slots.{engine_next_slot-keeps}
use sawtooth_ddpoa.Engine.Frame.Catchup.{request_checks-keeps}

module _ (P : Engine → Type 0) (k : Keeps P) where
  module _ (host : Host) (env : Env) where
    check_next-keeps : (b : Block) (s : Engine) → P s → P (check_next host env b s)
    unfolding check_next
    check_next-keeps b s h =
        let ready : Engine = record s {
          waiting_for_own_block =
              s.waiting_for_own_block && not (ite (dec_key b.signer_id s.local_id) true false);
        } in
        let checked : P (request_checks (b.block_id ∷ []) ready) =
          request_checks-keeps P k (b.block_id ∷ []) ready
            (k.silent s ready refl refl refl refl refl h) in
        ground (arith, h, checked)

    check_ahead-keeps : (b : Block) (s : Engine) → P s → P (check_ahead host env b s).1
    unfolding check_ahead
    check_ahead-keeps b s h =
        if-keeps P k (ltb (s.pre_num + 1) b.block_num && not (waiting s)) _ (ok tt, s)
          (bind-keeps P k _ _ h (λ a t p.
            bind-keeps P k _ _ p
              (λ due u q. when-keeps P k _ _ u q (k.silent u _ refl refl refl refl refl q))))
          h

    place_block-keeps : (b : Block) (s : Engine) → P s → P (place_block host env b s).1
    unfolding place_block
    place_block-keeps b s h =
        let stored : Engine = record s {
          bootstrap_cache = set_item dec_key b.block_id b s.bootstrap_cache;
        } in
        if-keeps P k (is_state s.node.state waiting_for_bootstrap) (ok tt, stored) _
          (k.silent s stored refl refl refl refl refl h)
          (if-keeps P k (is_state s.node.state catching_up) _ _
            (bind-keeps P k _ _ (or_raise-keeps P k _ _ s h) (λ target t p.
              bind-keeps P k _ _ p (λ part u q.
                if_call-keeps P k part _ _ u (request_checks-keeps P k _ u q)
                  (check_ahead-keeps b u q))))
            (check_ahead-keeps b s h))

    pub handle_new_block-keeps :
        (b : Block) (s : Engine) → P s → P (handle_new_block host env b s).1
    unfolding handle_new_block is_counted
    handle_new_block-keeps b s h =
        if-keeps P k (not (contains dec_key b.signer_id s.members))
          (ok tt, log_call (fail_block b.block_id) s) _ (k.logs (fail_block b.block_id) s refl h)
          (bind-keeps P k _ _ (or_raise-keeps P k _ _ s h) (λ consensus t p.
            if_call-keeps P k (ltb env.now (consensus.timestamp * second)) _ _ t
              (bind-keeps P k _ _ (k.silent t _ refl refl refl refl refl p)
                (λ a u q. k.logs (fail_block b.block_id) u refl q))
              (bind-keeps P k _ _ (k.silent t _ refl refl refl refl refl p) (λ a u q.
                bind-keeps P k _ _ (k.caches b u q) (λ c v r.
                  bind-keeps P k _ _ (check_next-keeps b v r)
                    (λ d w x. place_block-keeps b w x))))))

    -- If it returns it has counted the answer, and if it raises it has not.
    pub handle_invalid_block-ends :
        (Q : Outcome (Unit {0}) × Engine → Type 0) (id : BlockId) (s : Engine)
        → Fails P Q
        → ((t : Engine)
            → P t
            → Q (ok tt, record t { waiting_for_validation = pred_ℤ t.waiting_for_validation }))
        → P s
        → Q (handle_invalid_block host env id s)
    unfolding handle_invalid_block
    handle_invalid_block-ends Q id s fails counted h =
        bind-ends P Q fails _ _ (or_raise-keeps P k _ _ s h) (λ b t p.
          bind-ends P Q fails _ _ (or_raise-keeps P k _ _ t p) (λ consensus u q.
            bind-ends P Q fails _ _ (k.silent u _ refl refl refl refl refl q) (λ c v r.
              bind-ends P Q fails _ _ (k.silent v _ refl refl refl refl refl r) (λ d w x.
                bind-ends P Q fails _ _ (engine_next_slot-keeps P k env host _ w x)
                  (λ e y z. counted y z)))))

    pub handle_invalid_block-keeps :
        (id : BlockId) (s : Engine)
        → ((t : Engine)
            → P t
            → P (record t { waiting_for_validation = pred_ℤ t.waiting_for_validation }))
        → P s
        → P (handle_invalid_block host env id s).1
    handle_invalid_block-keeps id s counted h =
        handle_invalid_block-ends (λ r. P r.1) id s
          (record { on_raise = λ e t p. p; on_hang = λ t p. p }) counted h

    pub check_early-keeps : (num : ℕ) (s : Engine) → P s → P (check_early host env num s)
    unfolding check_early
    check_early-keeps num s h = elim (Option-cases (expected_signer s.node)) [
      | inl e ↦ rw (e, check_early) h
      | inr (signer, e) ↦ elim (Option-cases (block_by_num_and_signer num signer s.block_cache)) [
        | inl f ↦ rw (e, f, check_early) h
        | inr (b, f) ↦ rw (e, f, check_early) (request_checks-keeps P k _ s h)
      ]
    ]

    pub arrive-keeps :
        (b : Block) (c : ConsensusData) (s : Engine) → P s → P (arrive host env b c s)
    unfolding arrive
    arrive-keeps b c s h =
        let taken : P (record s {
          node = bootstrap c.epoch c.witness_idx c.candidates c.num_slots s.node;
          bootstrap_messages_received = [];
          has_requested_bootstrap = false;
        }) =
          k.silent s _ refl refl refl refl refl h in
        ground (arith, h, taken)
