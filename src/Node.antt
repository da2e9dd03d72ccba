-- ===== src/Node.antt =====
-- consensus/pkg/engine/consensus_node.py and the state of consensus/pkg/engine/ddpoa_node.py. `now` is
-- the clock reading at the event that is handled, `answers` the peers that answer a ping then.
pub mod Methods
pub mod Handlers
pub mod Standing
pub mod Takeover
pub mod Results
pub mod Ballots
pub mod Liveness
pub mod Announced
pub mod Catching
pub mod Agreement
use sawtooth_ddpoa.Prelude.{
  ℕ, ◌+◌, ◌-◌, ◌/◌, String, List, [], ◌∷◌, Option, none, some, Bool, true, false, ltb, leb, ◌==◌,
  if◌then◌else◌, ite, Key, BlockId, dec_key, M, Outcome, ok, raise, key_error, modify, on_part,
  for_each, ◌>>=◌, ◌>>◌,
}
use sawtooth_ddpoa.Prelude.Dict.{get, has, set_item, keys}
use sawtooth_ddpoa.Config.{second, peer_check_interval, ping_threshold}
use sawtooth_ddpoa.Service.{Body, bootstrap_message, bootstrap_request}
use sawtooth_ddpoa.Peers.{PeerNode}
use sawtooth_ddpoa.Peers
use sawtooth_ddpoa.Messaging.{Communicator}
use sawtooth_ddpoa.Messaging
use sawtooth_ddpoa.Epoch.{Epoch}
use sawtooth_ddpoa.Epoch
use sawtooth_ddpoa.Voting.{VotingSystem}
use sawtooth_ddpoa.Voting

pub data State : Type 0 where
  idle election production waiting_for_bootstrap catching_up : State

-- The values of the `IntEnum`, by which states are compared.
abbrev pub value : State → ℕ
value idle = 0
value election = 1
value production = 2
value waiting_for_bootstrap = 3
value catching_up = 4

abbrev pub is_state : State → State → Bool
is_state a b = value a == value b

-- `broadcast_timer` is the epoch of a timer that runs, if one does.
pub record Node : Type 0 where
  pub key : Key
  pub peers : List (Key × PeerNode)
  pub peer_keys : List Key
  pub last_peer_check : ℕ
  pub communicator : Communicator
  pub epoch : Epoch
  pub state : State
  pub voting : VotingSystem
  pub previous_vote_ts : ℕ
  pub broadcast_timer : Option ℕ
  pub ready_result : List (ℕ × Bool)
  pub num_slots : ℕ

abbrev pub on_epoch : {A : Type 0} → M Epoch A → M Node A
on_epoch = on_part (λ (n : Node). n.epoch) (λ e n. record n { epoch = e })

abbrev pub on_voting : {A : Type 0} → M VotingSystem A → M Node A
on_voting = on_part (λ (n : Node). n.voting) (λ v n. record n { voting = v })

abbrev pub on_communicator : {A : Type 0} → M Communicator A → M Node A
on_communicator = on_part (λ (n : Node). n.communicator) (λ c n. record n { communicator = c })

-- An object in the dictionary of peers is changed in place.
unfoldable pub update_peer : Key → (PeerNode → PeerNode) → M Node (Unit {0})
unfolding get set_item
update_peer k f n = elim (get dec_key k n.peers) [
  | none ↦ (raise key_error, n)
  | some p ↦ (ok tt, record n { peers = set_item dec_key k (f p) n.peers })
]

unfoldable pub online_peers : Node → ℕ
unfolding Messaging.online_peers
online_peers n = Messaging.online_peers n.communicator + 1

unfoldable pub add_peer : ℕ → Key → List (Key × PeerNode) → List (Key × PeerNode)
unfolding has set_item Peers.init
add_peer now k ps = if has dec_key k ps then ps else set_item dec_key k (Peers.init k now) ps

add_peers : ℕ → List Key → List (Key × PeerNode) → List (Key × PeerNode)
unfolding add_peer
add_peers now [] ps = ps
add_peers now (k ∷ ks) ps = add_peers now ks (add_peer now k ps)

-- Both constructors: of the `ConsensusNode`, and of the `DDPoANode` on top.
unfoldable pub init : ℕ → Key → List Key → ℕ → Outcome (Unit {0}) × Node
unfolding add_peers update_peer Peers.set_online Messaging.init Epoch.init Voting.init
init now key peer_keys slots = update_peer key (Peers.set_online true) (record {
  key = key;
  peers = add_peers now peer_keys [];
  peer_keys = peer_keys;
  last_peer_check = 0;
  communicator = Messaging.init;
  epoch = Epoch.init 0 slots;
  state = idle;
  voting = Voting.init key peer_keys slots;
  previous_vote_ts = 0;
  broadcast_timer = none;
  ready_result = [];
  num_slots = slots;
})

unfoldable pub remove_peer : Key → M Node (Unit {0})
unfolding has update_peer Peers.set_online
remove_peer k n =
    if has dec_key k n.peers then update_peer k (Peers.set_online false) n else (ok tt, n)

unfoldable pub seen : ℕ → Key → M Node (Unit {0})
unfolding update_peer Peers.seen
seen now k = update_peer k (Peers.seen now)

unfoldable pub broadcast : ℕ → Body → Node → Node
unfolding Messaging.broadcast
broadcast now body n = record n {
  communicator =
      Messaging.broadcast (record { timestamp = now / second; signer = n.key; body = body })
        n.communicator;
}

unfoldable pub send_to : ℕ → Key → Body → M Node (Unit {0})
unfolding Messaging.send
send_to now k body n =
    on_communicator
      (Messaging.send k (record { timestamp = now / second; signer = n.key; body = body })) n

unfoldable pub send_bootstrap_message : ℕ → Key → BlockId → ℕ → BlockId → M Node (Unit {0})
unfolding send_to
send_bootstrap_message now k chain_head_id num_blocks pre_id = send_to now k (
    bootstrap_message
      (record { chain_head_id = chain_head_id; num_blocks = num_blocks; pre_id = pre_id }))

unfoldable pub send_bootstrap_request : ℕ → Key → M Node (Unit {0})
unfolding send_to
send_bootstrap_request now k = send_to now k bootstrap_request

module _ (now : ℕ) (answers : Key → Bool) where
  unfoldable pub peer_connected : Key → String → M Node (Unit {0})
  unfolding Messaging.add_peer
  peer_connected k ip = on_communicator (Messaging.add_peer answers k ip)

  unfoldable pub send_ping : Key → M Node Bool
  unfolding Messaging.ping
  send_ping k = on_communicator (Messaging.ping answers k)

  -- The body of the loop over the peers.
  unfoldable pub check_peer : Key → M Node (Unit {0})
  unfolding get send_ping seen remove_peer
  check_peer k n = elim (get dec_key k n.peers) [
    | none ↦ (ok tt, n)
    | some p ↦
        if ite (dec_key p.key n.key) true false
        then (ok tt, n)
        else if leb ping_threshold (now - p.last_seen)
        then (do alive ← send_ping p.key; if alive then seen now k else remove_peer p.key) n
        else (ok tt, n)
  ]

  unfoldable pub check_on_peers : M Node (Unit {0})
  unfolding check_peer for_each
  check_on_peers n =
      if ltb peer_check_interval (now - n.last_peer_check)
      then (do for_each (keys n.peers) check_peer; modify (λ m. record m { last_peer_check = now }))
          n
      else (ok tt, n)
