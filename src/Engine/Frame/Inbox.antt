-- ===== src/Engine/Frame/Inbox.antt =====
-- The messages of other nodes keep what commits and head decide
-- (consensus/pkg/engine/ddpoa_engine.py).
use sawtooth_ddpoa.Prelude.{
  arith, if◌then◌else◌, ℕ, ◌-◌, refl, List, [], ◌∷◌, false, not, contains, leb, ◌==◌, length, Key,
  dec_key, ok,
}
use sawtooth_ddpoa.Host.{Host}
use sawtooth_ddpoa.Voting
use sawtooth_ddpoa.Service.{
  Bootstrap, Body, Message, vote, vote_result, empty_slot, bootstrap_message, bootstrap_request,
  sync_request,
}
use sawtooth_ddpoa.Node.{online_peers}
use sawtooth_ddpoa.Node.Methods.{is_key, expected_signer}
use sawtooth_ddpoa.Engine.{Engine, Env}
use sawtooth_ddpoa.Engine.Inbox.{
  Head, top_head, follow_head, handle_bootstrap, handle_body, handle_peer_msgs,
  handle_peer_connected,
}
use sawtooth_ddpoa.Engine.Frame.{Keeps, bind-keeps, or_raise-keeps, when-keeps, if-keeps}
use sawtooth_ddpoa.Engine.Frame.Slots.{engine_next_slot-keeps}
use sawtooth_ddpoa.Engine.Frame.Catchup.{fastforward-keeps}

module _ (P : Engine → Type 0) (k : Keeps P) (host : Host) (env : Env) where
  follow_head-keeps :
      (heads : List (Key × Head)) (s : Engine) → P s → P (follow_head host env heads s).1
  unfolding follow_head
  follow_head-keeps [] s h = h
  follow_head-keeps (b ∷ bs) s h =
      let head = top_head b bs in
      if-keeps P k
        (leb (Voting.consensus_amount (online_peers s.node) s.node.voting - 1) head.1.count) _
        (ok tt, s) (fastforward-keeps P k host env head.0 head.1.num s h) h

  handle_bootstrap-keeps : (m : Bootstrap) (s : Engine) → P s → P (handle_bootstrap host env m s).1
  unfolding handle_bootstrap
  handle_bootstrap-keeps m s h =
      bind-keeps P k _ _ (k.silent s _ refl refl refl refl refl h) (λ a t p.
        bind-keeps P k _ _ p
          (λ blocks u q. bind-keeps P k _ _ (follow_head-keeps blocks u q) (λ c v r. done v r)))
    where
      done :
          (v : Engine)
          → P v
          → P (
              if length v.bootstrap_messages_received == online_peers v.node - 1
              then record v { bootstrap_messages_received = []; has_requested_bootstrap = false }
              else v)
      done v r =
          let cleared : Engine = record v {
            bootstrap_messages_received = [];
            has_requested_bootstrap = false;
          } in
          let kept : P cleared = k.silent v cleared refl refl refl refl refl r in
          ground (arith, r, kept)

  handle_body-keeps :
      (signer : Key) (ts : ℕ) (b : Body) (s : Engine)
      → P s
      → P (handle_body host env signer ts b s).1
  unfolding handle_body
  handle_body-keeps signer ts (vote epoch votes) s h = k.silent s _ refl refl refl refl refl h
  handle_body-keeps signer ts (vote_result epoch result) s h =
      bind-keeps P k _ _ (k.silent s _ refl refl refl refl refl h)
        (λ new t p. when-keeps P k new _ t p (k.silent t _ refl refl refl refl refl p))
  handle_body-keeps signer ts empty_slot s h =
      if-keeps P k (is_key (expected_signer s.node) signer) _ (ok tt, s)
        (engine_next_slot-keeps P k env host ts s h) h
  handle_body-keeps signer ts (bootstrap_message m) s h = handle_bootstrap-keeps m s h
  handle_body-keeps signer ts bootstrap_request s h =
      bind-keeps P k _ _ (or_raise-keeps P k _ _ s h)
        (λ head t p. k.silent t _ refl refl refl refl refl p)
  handle_body-keeps signer ts sync_request s h = h

  pub handle_peer_msgs-keeps :
      (m : Message) (s : Engine) → P s → P (handle_peer_msgs host env m s).1
  unfolding handle_peer_msgs
  handle_peer_msgs-keeps m s h =
      if-keeps P k (not (contains dec_key m.signer s.members)) (ok tt, s) _ h
        (bind-keeps P k _ _ (k.silent s _ refl refl refl refl refl h)
          (λ a t p. handle_body-keeps m.signer m.timestamp m.body t p))

  pub handle_peer_connected-keeps :
      (peer : Key) (s : Engine) → P s → P (handle_peer_connected host env peer s).1
  unfolding handle_peer_connected
  handle_peer_connected-keeps peer s h = bind-keeps P k _ _ h (λ asking t p.
      bind-keeps P k _ _ (when-keeps P k asking _ t p (k.silent t _ refl refl refl refl refl p))
        (λ a u q.
          bind-keeps P k _ _ (or_raise-keeps P k _ _ u q)
            (λ ip v r. k.silent v _ refl refl refl refl refl r)))
