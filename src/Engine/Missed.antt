-- ===== src/Engine/Missed.antt =====
-- A slot that its witness misses: `_handle_missed_slot` of consensus/pkg/engine/ddpoa_engine.py.
use sawtooth_ddpoa.Prelude.{
  ℕ, ◌*◌, ◌/◌, ◌≡◌, refl, sym, subst, ap, ◌∙◌, ◌⊎◌, inl, inr, List, ◌∷◌, Option, some, none, Bool,
  true, false, Key, dec_key, Outcome, Exn, ok, invalid_state, type_error, M, and_then, and_then_ok,
  recover, when, or_raise, arith, String,
}
use sawtooth_ddpoa.Prelude.Dict.{get}
use sawtooth_ddpoa.Prelude.Distinct.{Distinct}
use sawtooth_ddpoa.Config.{second}
use sawtooth_ddpoa.Floats.{Float}
use sawtooth_ddpoa.Peers.{PeerNode}
use sawtooth_ddpoa.Service.{Call, initialize_block}
use sawtooth_ddpoa.Epoch.{
  current_witness, Epoch, is_over, increment_witness, downgrade_witness, full_candidate_list,
}
use sawtooth_ddpoa.Epoch.Replaced.{Replaced, downgraded, passed, downgrade-turn}
use sawtooth_ddpoa.Host.{Host}
use sawtooth_ddpoa.Node.{Node, update_peer}
use sawtooth_ddpoa.Node.Methods.{expected_signer, penalize, downgrade, is_current_witness}
use sawtooth_ddpoa.Node.Handlers.{next_slot, after_increment}
use sawtooth_ddpoa.Engine.{
  Engine, Env, on_node, call, ignore_invalid_state, try_cancel, engine_next_slot,
  handle_missed_slot,
}

-- The epoch once the slot of the witness has passed on.
abbrev pub after : Host → Key → Engine → Epoch
after h k s = passed h.sha256 s.pre_id k s.node.epoch

penalize_lem :
    (mul : Float → Float → Float) (k : Key) (p : PeerNode) (n : Node)
    → get dec_key k n.peers ≡ some p
    → ((penalize mul k n).0 ≡ ok tt) × ((penalize mul k n).1.epoch ≡ n.epoch)
unfolding penalize update_peer
penalize_lem mul k p n e = (ground (arith, e), ground (arith, e))

next_slot-within :
    (sha256 : String → ℕ) (id : String) (n : Node) (g : Epoch)
    → increment_witness sha256 id n.epoch ≡ (ok tt, g)
    → is_over g ≡ false
    → next_slot sha256 id n ≡ (ok tt, record n { epoch = g })
unfolding next_slot after_increment
next_slot-within sha256 id n g e within = rw (e, within, next_slot, after_increment) refl

-- The engine after calls of the service, which returned.
record OnlyCalls (s : Engine) (r : Outcome (Unit {0}) × Engine) : Type 0 where
  returns : r.0 ≡ ok tt
  node : r.1.node ≡ s.node
  started : r.1.slot_started_at ≡ s.slot_started_at
  head : r.1.pre_id ≡ s.pre_id

module _ (env : Env) where
  call-OnlyCalls :
      (c : Call) (o : Option Exn) (s : Engine) → o ≡ none → OnlyCalls s (call env c o s)
  unfolding call
  call-OnlyCalls c none s e = record { returns = refl; node = refl; started = refl; head = refl }
  call-OnlyCalls c (some x) s e = cc

  try_cancel-OnlyCalls :
      (s : Engine)
      → (env.service.on_cancel ≡ none) ⊎ (env.service.on_cancel ≡ some invalid_state)
      → OnlyCalls s (try_cancel env s)
  unfolding try_cancel call recover ignore_invalid_state
  try_cancel-OnlyCalls s (inl e) =
      rw (e, try_cancel) (record { returns = refl; node = refl; started = refl; head = refl })
  try_cancel-OnlyCalls s (inr e) =
      rw (e, try_cancel) (record { returns = refl; node = refl; started = refl; head = refl })

  when-OnlyCalls :
      (b : Bool) (m : M Engine (Unit {0})) (s : Engine)
      → OnlyCalls s (m s)
      → OnlyCalls s (when b m s)
  unfolding when
  when-OnlyCalls true m s h = h
  when-OnlyCalls false m s h = record { returns = refl; node = refl; started = refl; head = refl }

  OnlyCalls-trans :
      (s t : Engine) (r : Outcome (Unit {0}) × Engine)
      → t.node ≡ s.node
      → t.slot_started_at ≡ s.slot_started_at
      → t.pre_id ≡ s.pre_id
      → OnlyCalls t r
      → OnlyCalls s r
  OnlyCalls-trans s t r n a p c = record {
    returns = c.returns;
    node = c.node ∙ n;
    started = c.started ∙ a;
    head = c.head ∙ p;
  }

  -- The service's calls at the turn of a slot do not fail but for an invalid state on cancelling.
  pub record Serves : Type 0 where
    pub cancels : (env.service.on_cancel ≡ none) ⊎ (env.service.on_cancel ≡ some invalid_state)
    pub initializes : env.service.on_initialize ≡ none

  module _ (h : Host) (serves : Serves) where
    engine_next_slot_lem :
        (ts : ℕ) (s : Engine) (n : Node)
        → next_slot h.sha256 s.pre_id s.node ≡ (ok tt, n)
        → OnlyCalls
            (record s { node = n; slot_started_at = ts * second })
            (engine_next_slot env h ts s)
    unfolding engine_next_slot and_then
    engine_next_slot_lem ts s n e =
        let u : Engine = record s { node = n; slot_started_at = ts * second } in
        let c = try_cancel-OnlyCalls u serves.cancels in
        let t = (try_cancel env u).1 in
        let init = λ (x : Engine).
          when (is_current_witness x.node) (call env initialize_block env.service.on_initialize)
            x in
        let run : engine_next_slot env h ts s ≡ and_then (try_cancel env u) (λ _. init) =
          rw (e, engine_next_slot) refl in
        let rest =
          when-OnlyCalls (is_current_witness t.node) _ t
            (call-OnlyCalls initialize_block _ t serves.initializes) in
        subst (OnlyCalls u) (sym (run ∙ and_then_ok (try_cancel env u) tt (λ _. init) c.returns))
          (OnlyCalls-trans u t _ c.node c.started c.head rest)

  module _ (h : Host) (serves : Serves) (k c : Key) (cs : List Key) (p : PeerNode)
      (s : Engine) where
    abbrev next : M Engine (Unit {0})
    next = engine_next_slot env h (env.now / second)

    abbrev then_downgrade : M Engine (Unit {0})
    then_downgrade t =
        and_then (or_raise type_error (expected_signer t.node) t)
          (λ d u. and_then (on_node (downgrade d) u) (λ _. next))

    abbrev penalized : Engine
    penalized = (on_node (penalize h.mul k) s).1

    abbrev demoted : Engine
    demoted = (on_node (downgrade k) penalized).1

    module _ (in_turn : expected_signer s.node ≡ some k)
        (known : get dec_key k s.node.peers ≡ some p) where
      same_epoch : penalized.node.epoch ≡ s.node.epoch
      same_epoch = (penalize_lem h.mul k p s.node known).1

      to_downgrade : handle_missed_slot env h s ≡ then_downgrade penalized
      unfolding handle_missed_slot or_raise and_then
      to_downgrade =
          let run : handle_missed_slot env h s
              ≡ and_then (on_node (penalize h.mul k) s) (λ _. then_downgrade) =
            rw (in_turn, handle_missed_slot) refl in
          run ∙ and_then_ok _ tt (λ _. then_downgrade) (penalize_lem h.mul k p s.node known).0

      to_next :
          (downgrade_witness k s.node.epoch).0 ≡ ok tt → handle_missed_slot env h s ≡ next demoted
      unfolding and_then or_raise expected_signer downgrade
      to_next done =
          let turn : expected_signer penalized.node ≡ some k =
            ap current_witness same_epoch ∙ in_turn in
          let run : then_downgrade penalized
              ≡ and_then (on_node (downgrade k) penalized) (λ _. next) =
            rw turn refl in
          to_downgrade
          ∙ run
          ∙ and_then_ok _ tt (λ _. next) (ap (λ e. (downgrade_witness k e).0) same_epoch ∙ done)

      -- A missed slot does not stop the chain. Where the witness in turn is a known peer, nobody stands
      -- or serves twice, somebody stands by, the epoch has a slot left, and the service initializes
      -- blocks, the handler returns: the silent witness is out and the first candidate is in, the
      -- members of the epoch are the same, the next slot begins at the time of the clock, in seconds, and
      -- the head stays.
      pub missed_slot-Replaced :
          s.node.epoch.candidates ≡ c ∷ cs
          → Distinct dec_key (full_candidate_list s.node.epoch)
          → is_over (after h k s) ≡ false
          → let r = handle_missed_slot env h s in
            (r.0 ≡ ok tt)
            × (r.1.node.epoch ≡ after h k s)
            × Replaced k c s.node.epoch (after h k s)
            × (r.1.slot_started_at ≡ env.now / second * second)
            × (r.1.pre_id ≡ s.pre_id)
      unfolding expected_signer downgrade
      missed_slot-Replaced queue distinct goes_on =
          let (done, passed_on, replaced) =
            downgrade-turn h.sha256 s.pre_id k c cs s.node.epoch in_turn queue distinct in
          let before : demoted.node.epoch ≡ downgraded k s.node.epoch =
            ap (λ e. (downgrade_witness k e).1) same_epoch in
          let turn : increment_witness h.sha256 s.pre_id demoted.node.epoch ≡ (ok tt, after h k s) =
            ap (increment_witness h.sha256 s.pre_id) before
            ∙ ap (λ o. (o, after h k s)) passed_on in
          let slot =
            engine_next_slot_lem h serves (env.now / second) demoted _
              (next_slot-within h.sha256 s.pre_id demoted.node (after h k s) turn goes_on) in
          let run = to_next done in
          (
            ap (λ r. r.0) run ∙ slot.returns,
            ap (λ r. r.1.node.epoch) run ∙ ap (λ n. n.epoch) slot.node,
            replaced,
            ap (λ r. r.1.slot_started_at) run ∙ slot.started,
            ap (λ r. r.1.pre_id) run ∙ slot.head,
          )
