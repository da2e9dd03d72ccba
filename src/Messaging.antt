-- ===== src/Messaging.antt =====
-- consensus/pkg/engine/consensus_messaging.py: the other nodes' connections, and the queue of
-- messages received. gRPC is a parameter: whether a peer answers a ping.
pub mod Delivery
use sawtooth_ddpoa.Prelude.{
  ℕ, ◌+◌, String, List, [], ◌∷◌, ◌++◌, Option, none, some, Bool, true, false, if◌then◌else◌, Key,
  dec_key, M, Outcome, ok, raise, hang, key_error, attribute_error,
}
use sawtooth_ddpoa.Prelude.Dict.{get, set_item}
use sawtooth_ddpoa.Service.{Message}

-- A peer before its timer has run is not connected and has no stub.
pub record Peer : Type 0 where
  pub ip : String
  pub connected : Bool
  pub has_stub : Bool

-- `handed_over` lists the messages that were given to `stub.Message` of a connected peer, oldest first.
-- Whether a message arrives is not known here: a call that fails is caught, and changes nothing.
pub record Communicator : Type 0 where
  pub peers : List (Key × Peer)
  pub queue : List Message
  pub handed_over : List (Key × Message)

unfoldable pub init : Communicator
init = record { peers = []; queue = []; handed_over = [] }

unfoldable pub new_peer : String → Peer
new_peer ip = record { ip = ip; connected = false; has_stub = false }

-- `Ping` without a stub raises an `AttributeError`, which is caught like every failure.
unfoldable pub ping_peer : Bool → Peer → Bool × Peer
ping_peer answers p =
    if p.has_stub
    then (answers, record p { connected = answers })
    else (false, record p { connected = false })

-- The timer's `connect`: it pings until there is an answer. `answers` are those of the tries so far;
-- without one it goes on.
unfoldable pub connect : List Bool → Peer → Outcome (Unit {0}) × Peer
connect [] p = (hang, record p { has_stub = true; connected = false })
connect (true ∷ answers) p = (ok tt, record p { has_stub = true; connected = true })
connect (false ∷ answers) p = connect answers p

-- The timer's thread of the peer under the key, as far as it has come.
unfoldable pub connect_peer : Key → List Bool → Communicator → Communicator
unfolding get set_item connect
connect_peer k answers c = elim (get dec_key k c.peers) [
  | none ↦ c
  | some p ↦ record c { peers = set_item dec_key k (connect answers p).1 c.peers }
]

-- The servicer's `Message`.
unfoldable pub receive : Message → Communicator → Communicator
receive m c = record c { queue = c.queue ++ (m ∷ []) }

take_first : List Message → Communicator → Outcome (Option Message) × Communicator
take_first [] c = (ok none, c)
take_first (m ∷ ms) c = (ok (some m), record c { queue = ms })

-- `get_nowait`.
unfoldable pub recv : M Communicator (Option Message)
unfolding take_first
recv c = take_first c.queue c

count_connected : List (Key × Peer) → ℕ
count_connected [] = 0
count_connected ((_, p) ∷ ps) = (if p.connected then 1 else 0) + count_connected ps

unfoldable pub online_peers : Communicator → ℕ
unfolding count_connected
online_peers c = count_connected c.peers

-- `answers` says which peers answer a ping.
module _ (answers : Key → Bool) where
  -- A peer that is known and answers is kept; else it is made anew. Without a stub there is no
  -- channel, and closing it raises an `AttributeError`.
  unfoldable pub add_peer : Key → String → M Communicator (Unit {0})
  unfolding get set_item ping_peer new_peer
  add_peer k ip c = elim (get dec_key k c.peers) [
    | none ↦ (ok tt, record c { peers = set_item dec_key k (new_peer ip) c.peers })
    | some p ↦
        let (alive, pinged) = ping_peer (answers k) p in
        let kept = record c { peers = set_item dec_key k pinged c.peers } in
        let renewed = record c { peers = set_item dec_key k (new_peer ip) c.peers } in
        if alive
        then (ok tt, kept)
        else if p.has_stub
        then (ok tt, renewed)
        else (raise attribute_error, kept)
  ]

  unfoldable pub ping : Key → M Communicator Bool
  unfolding get set_item ping_peer
  ping k c = elim (get dec_key k c.peers) [
    | none ↦ (ok false, c)
    | some p ↦
        let (alive, pinged) = ping_peer (answers k) p in
        (ok alive, record c { peers = set_item dec_key k pinged c.peers })
  ]

-- `Peer.send`, of the peer under the key. If it is not connected, the message is dropped in silence.
-- Else it is given to the stub; whether or not that call fails, the send returns and `connected` stays.
unfoldable pub send_peer : Key → Peer → Message → Communicator → Communicator
send_peer to p m c =
    if p.connected then record c { handed_over = c.handed_over ++ ((to, m) ∷ []) } else c

-- A send to a peer that is not known raises.
unfoldable pub send : Key → Message → M Communicator (Unit {0})
unfolding get send_peer
send to m c = elim (get dec_key to c.peers) [
  | none ↦ (raise key_error, c)
  | some p ↦ (ok tt, send_peer to p m c)
]

-- One thread of `Peer.send` for each connected peer, all joined. The model lists what they hand over in
-- the order of the dictionary, whatever the order in which they run.
pub to_connected : Message → List (Key × Peer) → List (Key × Message)
to_connected m [] = []
to_connected m ((k, p) ∷ ps) =
    let rest = to_connected m ps in if p.connected then (k, m) ∷ rest else rest

unfoldable pub broadcast : Message → Communicator → Communicator
unfolding to_connected
broadcast m c = record c { handed_over = c.handed_over ++ to_connected m c.peers }
