-- ===== src/Engine/Inbox.antt =====
-- The messages of the other nodes, `_handle_peer_msgs`, and the connections of peers
-- (consensus/pkg/engine/ddpoa_engine.py).
use sawtooth_ddpoa.Prelude.{
  ℕ, ◌+◌, ◌-◌, ◌++◌, List, [], ◌∷◌, none, some, Bool, false, not, ◌&&◌, ◌||◌, ltb, leb, ◌==◌,
  length, contains, if◌then◌else◌, Key, BlockId, dec_key, M, ok, raise, key_error, index_error,
  service_error, skip, modify, gets, or_raise, when, ◌>>=◌, ◌>>◌,
}
use sawtooth_ddpoa.Prelude.Dict.{get, set_item}
use sawtooth_ddpoa.Prelude.Int.{ℤ, pos, sub_ℕ, ltb_ℤ}
use sawtooth_ddpoa.Service.{
  Bootstrap, Message, Body, vote, vote_result, empty_slot, bootstrap_message, bootstrap_request,
  sync_request,
}
use sawtooth_ddpoa.Voting
use sawtooth_ddpoa.Host.{Host}
use sawtooth_ddpoa.Node.{
  seen, online_peers, is_state, waiting_for_bootstrap, send_bootstrap_message,
  send_bootstrap_request, peer_connected,
}
use sawtooth_ddpoa.Node.Methods.{expected_signer, is_key}
use sawtooth_ddpoa.Node.Handlers.{handle_vote, handle_vote_result}
use sawtooth_ddpoa.Engine.{Engine, Env, on_node, engine_next_slot}
use sawtooth_ddpoa.Engine.Catchup.{fastforward}

-- A head that nodes speak of, with its number and how often it is named.
pub record Head : Type 0 where
  pub num : ℤ
  pub count : ℕ

-- The number of the first mention is kept.
unfoldable pub mention : BlockId → ℤ → List (BlockId × Head) → List (BlockId × Head)
unfolding get set_item
mention id num blocks = elim (get dec_key id blocks) [
  | none ↦ set_item dec_key id (record { num = num; count = 1 }) blocks
  | some head ↦ set_item dec_key id (record head { count = head.count + 1 }) blocks
]

-- Each message names the sender's head and the block before it.
unfoldable pub heads : List Bootstrap → List (BlockId × Head) → List (BlockId × Head)
unfolding mention
heads [] blocks = blocks
heads (m ∷ ms) blocks =
    heads ms
      (mention m.pre_id (sub_ℕ m.num_blocks 1) (mention m.chain_head_id (pos m.num_blocks) blocks))

abbrev pub outranks : Head → Head → Bool
outranks a b = ltb b.count a.count || (a.count == b.count && ltb_ℤ b.num a.num)

-- First of the sort by count and number, the highest first: a stable sort, also reversed.
unfoldable pub top_head : BlockId × Head → List (BlockId × Head) → BlockId × Head
top_head best [] = best
top_head best (b ∷ bs) = top_head (if outranks b.1 best.1 then b else best) bs

module _ (h : Host) (env : Env) where
  -- The head that enough nodes name is caught up to.
  unfoldable pub follow_head : List (BlockId × Head) → M Engine (Unit {0})
  unfolding top_head Voting.consensus_amount online_peers fastforward
  follow_head [] = λ s. (raise index_error, s)
  follow_head (b ∷ bs) = λ s.
      let head = top_head b bs in
      if leb (Voting.consensus_amount (online_peers s.node) s.node.voting - 1) head.1.count
      then fastforward h env head.0 head.1.num s
      else (ok tt, s)

  unfoldable pub handle_bootstrap : Bootstrap → M Engine (Unit {0})
  unfolding heads follow_head online_peers
  handle_bootstrap m = do
    modify
        (λ s. record s { bootstrap_messages_received = s.bootstrap_messages_received ++ (m ∷ []) })
    blocks ← gets (λ s. heads s.bootstrap_messages_received [])
    follow_head blocks
    modify (λ s.
        if length s.bootstrap_messages_received == online_peers s.node - 1
        then record s { bootstrap_messages_received = []; has_requested_bootstrap = false }
        else s)

  unfoldable pub handle_body : Key → ℕ → Body → M Engine (Unit {0})
  unfolding handle_vote handle_vote_result expected_signer engine_next_slot send_bootstrap_message
      handle_bootstrap
  handle_body signer timestamp (vote epoch votes) =
      on_node (handle_vote h env.now epoch votes signer)
  handle_body signer timestamp (vote_result epoch result) = do
    new_epoch ← on_node (handle_vote_result epoch result signer)
    when new_epoch (modify (λ s. record s { slot_started_at = env.now }))
  handle_body signer timestamp empty_slot = λ s.
      if is_key (expected_signer s.node) signer
      then engine_next_slot env h timestamp s
      else (ok tt, s)
  handle_body signer timestamp (bootstrap_message m) = handle_bootstrap m
  handle_body signer timestamp bootstrap_request = (do
    head ← (λ s. or_raise service_error env.service.chain_head s)
    on_node (send_bootstrap_message env.now signer head.block_id head.block_num head.previous_id))
  handle_body signer timestamp sync_request = skip

  unfoldable pub handle_peer_msgs : Message → M Engine (Unit {0})
  unfolding contains seen handle_body
  handle_peer_msgs m s =
      if not (contains dec_key m.signer s.members)
      then (ok tt, s)
      else (do on_node (seen env.now m.signer); handle_body m.signer m.timestamp m.body) s

  -- The request goes out before the peer is added, and `ips` is read before `peer_connected`.
  unfoldable pub handle_peer_connected : Key → M Engine (Unit {0})
  unfolding send_bootstrap_request get peer_connected
  handle_peer_connected peer_key = do
    asking ← gets (λ s. is_state s.node.state waiting_for_bootstrap)
    when asking (on_node (send_bootstrap_request env.now peer_key))
    ip ← (λ s. or_raise key_error (get dec_key peer_key s.ips) s)
    on_node (peer_connected env.now env.answers peer_key ip)

  unfoldable pub handle_peer_disconnected : Key → M Engine (Unit {0})
  handle_peer_disconnected peer_key = skip
