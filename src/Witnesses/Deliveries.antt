-- ===== src/Witnesses/Deliveries.antt =====
-- Inputs for the theorems on messages (consensus/pkg/engine/consensus_messaging.py) and on the members
-- of an epoch (consensus/pkg/engine/epoch.py).
use sawtooth_ddpoa.Prelude.{◌≡◌, [], ◌∷◌, true, false, Perm}
use sawtooth_ddpoa.Service.{Message, empty_slot}
use sawtooth_ddpoa.Messaging.{Peer, Communicator, send_peer, broadcast}
use sawtooth_ddpoa.Messaging.Delivery.{started, Threads, joined, runs, broadcast-Threads}
use sawtooth_ddpoa.Epoch.{Epoch, increment_witness, downgrade_witness}
use sawtooth_ddpoa.Epoch.Members.{Same, start, more, turn, downgrade, Run-Same}
use sawtooth_ddpoa.Witnesses.Engines.{four_candidates}
use Prim.Native.String.{len}

abbrev bob : Peer
bob = record { ip = "10.0.0.2"; connected = true; has_stub = true }

abbrev dave : Peer
dave = record { ip = "10.0.0.4"; connected = true; has_stub = true }

abbrev three_peers : Communicator
three_peers = record {
  peers =
      ("bob", bob)
      ∷ ("carol", record { ip = "10.0.0.3"; connected = false; has_stub = true })
      ∷ ("dave", dave)
      ∷ [];
  queue = [];
  handed_over = [];
}

abbrev hello : Message
hello = record { timestamp = 1; signer = "alice"; body = empty_slot }

-- Dave's thread runs before bob's; carol is not connected and has none.
abbrev handed : Communicator
handed = record three_peers { handed_over = ("dave", hello) ∷ ("bob", hello) ∷ [] }

both_joined : Threads hello (started hello three_peers.peers) three_peers handed
unfolding send_peer
both_joined = runs (("bob", bob) ∷ []) [] "dave" dave (runs [] [] "bob" bob (joined handed))

broadcast_example :
    Perm handed.handed_over (broadcast hello three_peers).handed_over
    × (handed.peers ≡ (broadcast hello three_peers).peers)
    × (handed.queue ≡ (broadcast hello three_peers).queue)
    × ((broadcast hello three_peers).peers ≡ three_peers.peers)
    × ((broadcast hello three_peers).queue ≡ three_peers.queue)
broadcast_example = broadcast-Threads hello three_peers handed both_joined

abbrev afterwards : Epoch
afterwards = (downgrade_witness "bob" (increment_witness len "b1" four_candidates).1).1

members_example : Same four_candidates afterwards
members_example = Run-Same len (more (more start (turn "b1")) (downgrade "bob"))
