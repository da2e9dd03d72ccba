-- ===== src/Engine/Loop.antt =====
-- `start` of `DDPoAEngine` (consensus/pkg/engine/ddpoa_engine.py): what it sets up, and its message
-- loop, one round at a time.
use sawtooth_ddpoa.Prelude.{
  ℕ, ◌-◌, ◌*◌, ◌/◌, String, List, [], ◌∷◌, Option, none, some, Bool, true, false, not, ◌&&◌, ◌||◌,
  ltb, ◌==◌, length, contains, if◌then◌else◌, ite, Key, BlockId, dec_key, M, Outcome, ok, raise,
  value_error, skip, modify, gets, return, or_raise, when, for_each, catch, ◌>>=◌, ◌>>◌,
}
use sawtooth_ddpoa.Prelude.Dict.{keys}
use sawtooth_ddpoa.Prelude.Int.{pos, is_zero}
use sawtooth_ddpoa.Config.{second, genesis_block_id}
use sawtooth_ddpoa.Service.{Block, Message}
use sawtooth_ddpoa.Cache
use sawtooth_ddpoa.Messaging
use sawtooth_ddpoa.Host.{Host}
use sawtooth_ddpoa.Node.{
  Node, idle, election, production, waiting_for_bootstrap, catching_up, is_state, online_peers,
  check_on_peers, send_bootstrap_request, on_communicator,
}
use sawtooth_ddpoa.Node
use sawtooth_ddpoa.Node.Methods.{
  expected_signer, is_current_witness, vote, should_vote, should_rebroadcast_ballot,
  rebroadcast_ballot, broadcast_empty_slot,
}
use sawtooth_ddpoa.Engine.{
  Engine, Env, on_node, waiting, time_for_next_block, slot_is_missed, summarize, finalize,
  engine_next_slot, handle_missed_slot,
}
use sawtooth_ddpoa.Engine.Blocks.{
  cache_block, handle_new_block, handle_valid_block, handle_invalid_block, handle_committed_block,
}
use sawtooth_ddpoa.Engine.Inbox.{handle_peer_msgs, handle_peer_connected, handle_peer_disconnected}

-- The validator's messages; a type tag that has no handler is only logged.
pub data Update : Type 0 where
  block_new : Block → Update
  block_valid block_invalid block_commit : BlockId → Update
  peer_connected peer_disconnected : Key → Update
  unknown : Update

zip_ips : List Key → List String → List (Key × String)
zip_ips [] ips = []
zip_ips (k ∷ ks) [] = []
zip_ips (k ∷ ks) (ip ∷ ips) = (k, ip) ∷ zip_ips ks ips

-- Before the loop, from the settings on the chain. The members are distinct, so that `ips` is the
-- list of pairs.
unfoldable pub set_up : ℕ → Key → List Key → List String → ℕ → Block → Outcome (Unit {0}) × Engine
unfolding Node.init zip_ips cache_block
set_up now local_id members ips slots head = built (Node.init now local_id members slots)
  where
    built : Outcome (Unit {0}) × Node → Outcome (Unit {0}) × Engine
    built (result, node) =
        let after_genesis = ite (dec_key head.previous_id genesis_block_id) true false in
        let engine : Engine = record {
          node = record node {
            state = if after_genesis then node.state else waiting_for_bootstrap;
          };
          block_cache = Cache.init;
          local_id = local_id;
          members = members;
          ips = zip_ips members ips;
          pre_id = head.block_id;
          pre_num = head.block_num;
          exit = false;
          slot_started_at = now;
          waiting_for_own_block = false;
          waiting_for_commit = pos 0;
          waiting_for_validation = pos 0;
          bootstrap_messages_received = [];
          bootstrap_cache = [];
          fastforward_target = none;
          fastforward_target_id = none;
          has_requested_bootstrap = false;
          last_bootstrap_request = now;
          calls = [];
          starting_up = true;
          engine_start = now;
          pre_bootstrap_request = now;
        } in
        ((λ s. (result, s)) >> cache_block head) engine

module _ (h : Host) (env : Env) where
  unfoldable pub handle_update : Update → M Engine (Unit {0})
  unfolding handle_new_block handle_valid_block handle_invalid_block handle_committed_block
      handle_peer_connected handle_peer_disconnected
  handle_update (block_new b) = handle_new_block h env b
  handle_update (block_valid id) = handle_valid_block h env id
  handle_update (block_invalid id) = handle_invalid_block h env id
  handle_update (block_commit id) = handle_committed_block h env id
  handle_update (peer_connected k) = handle_peer_connected h env k
  handle_update (peer_disconnected k) = handle_peer_disconnected h env k
  handle_update unknown = skip

  abbrev pub handle_updates : Option Update → M Engine (Unit {0})
  handle_updates none = skip
  handle_updates (some u) = handle_update u

  abbrev pub handle_message : Option Message → M Engine (Unit {0})
  handle_message none = skip
  handle_message (some m) = handle_peer_msgs h env m

  -- The current witness makes a block, or says that its slot stays empty.
  unfoldable pub produce : M Engine (Unit {0})
  unfolding summarize finalize broadcast_empty_slot engine_next_slot
  produce = do
    ready ← summarize env
    if ready then finalize env else (do
      modify (λ s. record s { node = broadcast_empty_slot env.now s.node })
      engine_next_slot env h (env.now / second))

  -- `members.index(peer)`, for the log, raises for a peer that is no member.
  unfoldable pub give_up_slot : M Engine (Unit {0})
  unfolding expected_signer contains handle_missed_slot
  give_up_slot = do
    peer ← (λ s. or_raise value_error (expected_signer s.node) s)
    member ← gets (λ s. contains dec_key peer s.members)
    if member then handle_missed_slot env h else (λ s. (raise value_error, s))

  unfoldable pub tend_slot : M Engine (Unit {0})
  unfolding time_for_next_block is_current_witness waiting produce slot_is_missed give_up_slot
  tend_slot s =
      if not (is_state s.node.state idle)
        && (is_zero s.waiting_for_validation && time_for_next_block env s)
      then (do
        mine ← gets (λ t. is_current_witness t.node && not (waiting t))
        when mine produce
        missed ← gets (λ t.
            slot_is_missed env t
            && (is_state t.node.state production || is_state t.node.state election))
        when missed give_up_slot)
          s
      else (ok tt, s)

  unfoldable pub tend_votes : M Engine (Unit {0})
  unfolding should_vote vote should_rebroadcast_ballot rebroadcast_ballot
  tend_votes s =
      if should_vote s.node
      then on_node (vote h env.now) s
      else if should_rebroadcast_ballot env.now s.node
      then on_node (rebroadcast_ballot env.now) s
      else (ok tt, s)

  unfoldable pub ask_for_heads : M Engine (Unit {0})
  unfolding for_each send_bootstrap_request
  ask_for_heads s =
      if is_state s.node.state waiting_for_bootstrap
        && ltb (5 * second) (env.now - s.pre_bootstrap_request)
      then (do
        on_node (for_each (keys s.node.peers) (send_bootstrap_request env.now))
        modify (λ t. record t { pre_bootstrap_request = env.now }))
          s
      else (ok tt, s)

  -- The rest of a round, when the engine has started up.
  unfoldable pub tend : M Engine (Unit {0})
  unfolding tend_slot tend_votes check_on_peers ask_for_heads
  tend s =
      if is_state s.node.state waiting_for_bootstrap || is_state s.node.state catching_up
      then ask_for_heads s
      else (do tend_slot; tend_votes; on_node (check_on_peers env.now env.answers); ask_for_heads) s

  unfoldable pub still_starting : Engine → Bool
  unfolding online_peers
  still_starting s =
      not (is_state s.node.state waiting_for_bootstrap)
      && (not (online_peers s.node == length s.members)
          && ltb (env.now - s.engine_start) (70 * second))

  -- The `try` block of a round: what it did not raise, and whether the loop goes on.
  unfoldable pub body : Option Update → M Engine Bool
  unfolding Messaging.recv tend still_starting
  body update = do
    handle_updates update
    m ← on_node (on_communicator Messaging.recv)
    handle_message m
    (λ s.
        if s.exit
        then (ok false, s)
        else if s.starting_up
        then (ok true, record s { starting_up = still_starting s })
        else (tend >> return true) s)

  -- An exception is logged, and the loop goes on.
  unfoldable pub round : Option Update → M Engine Bool
  unfolding body
  round update = catch (body update) (λ e. return true)
