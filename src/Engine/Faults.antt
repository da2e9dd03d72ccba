-- ===== src/Engine/Faults.antt =====
-- What goes wrong while a node waits to catch up (consensus/pkg/engine/ddpoa_engine.py).
use sawtooth_ddpoa.Prelude.{
  and_then, when, ◌≡◌, ◌≢◌, refl, List, [], ◌∷◌, none, Bool, true, false, Key, BlockId, dec_key, ok,
  raise, key_error, arith, if_neg,
}
use sawtooth_ddpoa.Prelude.Dict.{get, values}
use sawtooth_ddpoa.Prelude.Int.{ℤ}
use sawtooth_ddpoa.Service.{Block}
use sawtooth_ddpoa.Cache.{block_from_id}
use sawtooth_ddpoa.Messaging
use sawtooth_ddpoa.Host.{Host}
use sawtooth_ddpoa.Node.{waiting_for_bootstrap, catching_up, is_state, send_to}
use sawtooth_ddpoa.Engine.{Engine, Env}
use sawtooth_ddpoa.Engine.Inbox.{handle_peer_connected}
use sawtooth_ddpoa.Engine.Catchup.{fastforward, any_equals, is_some}

-- While the engine waits for bootstrap, the connection of a peer that is not connected yet raises a
-- `KeyError` in the request that is sent to it first, and changes nothing: the peer is not added.
pub peer_connected_unknown :
    (h : Host) (env : Env) (s : Engine) (peer : Key)
    → s.node.state ≡ waiting_for_bootstrap
    → get dec_key peer s.node.communicator.peers ≡ none
    → handle_peer_connected h env peer s ≡ (raise key_error, s)
unfolding handle_peer_connected Messaging.send and_then when
peer_connected_unknown h env s peer w e =
    rw (w, e, handle_peer_connected, send_to, Messaging.send) refl

any_equals-none :
    (p : Block → Bool) (bs : List Block) → ((b : Block) → p b ≡ false) → any_equals p bs ≡ false
unfolding any_equals
any_equals-none p [] h = refl
any_equals-none p (b ∷ bs) h = ground (arith, h b, any_equals-none p bs h)

-- Where no id equals one of the SDK's blocks: an engine that is not catching up is sent to a target
-- that is neither its head nor in the block cache, be it in the bootstrap cache or not. It starts to
-- catch up and asks the validator for nothing, the bootstrap cache stays, and when it is sent to another
-- target afterwards that is not its head, with any answers of the service, nothing changes at all.
pub fastforward_uncached :
    (h : Host) (env later : Env) (s : Engine) (target_id other_id : BlockId)
    (target_num other_num : ℤ)
    → ((b : Block) → h.equals_block target_id b ≡ false)
    → target_id ≢ s.pre_id
    → other_id ≢ s.pre_id
    → is_state s.node.state catching_up ≡ false
    → block_from_id target_id s.block_cache ≡ none
    → let t = (fastforward h env target_id target_num s).1 in
      ((fastforward h env target_id target_num s).0 ≡ ok tt)
      × (t.node.state ≡ catching_up)
      × (t.calls ≡ s.calls)
      × (t.bootstrap_cache ≡ s.bootstrap_cache)
      × (fastforward h later other_id other_num t ≡ (ok tt, t))
unfolding fastforward is_some
fastforward_uncached h env later s target_id other_id target_num other_num never ne away state
      uncached =
    let none_equal = any_equals-none (h.equals_block target_id) (values s.bootstrap_cache) never in
    let other = if_neg (dec_key target_id s.pre_id) ne true false in
    let further = if_neg (dec_key other_id s.pre_id) away true false in
    rw (other, state, uncached, none_equal, further, fastforward) (refl, refl, refl, refl, refl)
