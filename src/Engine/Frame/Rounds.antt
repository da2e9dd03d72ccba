-- ===== src/Engine/Frame/Rounds.antt =====
-- A round of the loop keeps what commits and head decide, if the handler of its update does
-- (`start` of consensus/pkg/engine/ddpoa_engine.py).
use sawtooth_ddpoa.Prelude.{refl, false, not, ◌&&◌, ◌||◌, Option, none, some, ok, ltb, ◌-◌, ◌*◌}
use sawtooth_ddpoa.Prelude.Int.{is_zero}
use sawtooth_ddpoa.Config.{second}
use sawtooth_ddpoa.Host.{Host}
use sawtooth_ddpoa.Service.{Message}
use sawtooth_ddpoa.Node.{is_state, idle, waiting_for_bootstrap, catching_up}
use sawtooth_ddpoa.Node.Methods.{should_vote, should_rebroadcast_ballot}
use sawtooth_ddpoa.Engine.{Engine, Env, time_for_next_block}
use sawtooth_ddpoa.Engine.Loop.{
  Update, handle_updates, handle_message, produce, give_up_slot, tend_slot, tend_votes,
  ask_for_heads, tend, body, round,
}
use sawtooth_ddpoa.Engine.Frame.{
  Keeps, bind-keeps, recover-keeps, or_raise-keeps, when-keeps, if-keeps, if_call-keeps,
}
use sawtooth_ddpoa.Engine.Frame.Slots.{
  summarize-keeps, finalize-keeps, engine_next_slot-keeps, handle_missed_slot-keeps,
}
use sawtooth_ddpoa.Engine.Frame.Inbox.{handle_peer_msgs-keeps}

module _ (P : Engine → Type 0) (k : Keeps P) (host : Host) (env : Env) where
  produce-keeps : (s : Engine) → P s → P (produce host env s).1
  unfolding produce
  produce-keeps s h = bind-keeps P k _ _ (summarize-keeps P k env s h) (λ ready t p.
      if_call-keeps P k ready _ _ t (finalize-keeps P k env t p) (
        bind-keeps P k _ _ (k.silent t _ refl refl refl refl refl p)
          (λ a u q. engine_next_slot-keeps P k env host _ u q)))

  give_up_slot-keeps : (s : Engine) → P s → P (give_up_slot host env s).1
  unfolding give_up_slot
  give_up_slot-keeps s h = bind-keeps P k _ _ (or_raise-keeps P k _ _ s h) (λ peer t p.
      bind-keeps P k _ _ p (λ member u q.
        if_call-keeps P k member _ _ u (handle_missed_slot-keeps P k env host u q) q))

  tend_slot-keeps : (s : Engine) → P s → P (tend_slot host env s).1
  unfolding tend_slot
  tend_slot-keeps s h =
      if-keeps P k
        (not (is_state s.node.state idle)
          && (is_zero s.waiting_for_validation && time_for_next_block env s))
        _ (ok tt, s)
        (bind-keeps P k _ _ h (λ mine t p.
          bind-keeps P k _ _ (when-keeps P k mine _ t p (produce-keeps t p)) (λ a u q.
            bind-keeps P k _ _ q
              (λ missed v r. when-keeps P k missed _ v r (give_up_slot-keeps v r)))))
        h

  tend_votes-keeps : (s : Engine) → P s → P (tend_votes host env s).1
  unfolding tend_votes
  tend_votes-keeps s h =
      if-keeps P k (should_vote s.node) _ _ (k.silent s _ refl refl refl refl refl h) (
        if-keeps P k (should_rebroadcast_ballot env.now s.node) _ (ok tt, s)
          (k.silent s _ refl refl refl refl refl h) h)

  ask_for_heads-keeps : (s : Engine) → P s → P (ask_for_heads host env s).1
  unfolding ask_for_heads
  ask_for_heads-keeps s h =
      if-keeps P k
        (is_state s.node.state waiting_for_bootstrap
          && ltb (5 * second) (env.now - s.pre_bootstrap_request))
        _ (ok tt, s)
        (bind-keeps P k _ _ (k.silent s _ refl refl refl refl refl h)
          (λ a t p. k.silent t _ refl refl refl refl refl p))
        h

  tend-keeps : (s : Engine) → P s → P (tend host env s).1
  unfolding tend
  tend-keeps s h =
      if-keeps P k
        (is_state s.node.state waiting_for_bootstrap || is_state s.node.state catching_up) _ _
        (ask_for_heads-keeps s h)
        (bind-keeps P k _ _ (tend_slot-keeps s h) (λ a t p.
          bind-keeps P k _ _ (tend_votes-keeps t p) (λ b u q.
            bind-keeps P k _ _ (k.silent u _ refl refl refl refl refl q)
              (λ c v r. ask_for_heads-keeps v r))))

  handle_message-keeps : (m : Option Message) (s : Engine) → P s → P (handle_message host env m s).1
  handle_message-keeps none s h = h
  handle_message-keeps (some m) s h = handle_peer_msgs-keeps P k host env m s h

  -- After the update, whether it raised or not.
  body-keeps :
      (u : Option Update) (s : Engine) → P (handle_updates host env u s).1 → P (body host env u s).1
  unfolding body
  body-keeps u s h = bind-keeps P k _ _ h (λ a t p.
      bind-keeps P k _ _ (k.silent t _ refl refl refl refl refl p) (λ m v q.
        bind-keeps P k _ _ (handle_message-keeps m v q) (λ b w r.
          if-keeps P k w.exit (ok false, w) _ r
            (if-keeps P k w.starting_up _ _ (k.silent w _ refl refl refl refl refl r)
              (bind-keeps P k _ _ (tend-keeps w r) (λ c x z. z))))))

  pub round-keeps :
      (u : Option Update) (s : Engine)
      → P (handle_updates host env u s).1
      → P (round host env u s).1
  unfolding round
  round-keeps u s h = recover-keeps P k _ _ (body-keeps u s h) (λ e t p. p)
