-- ===== src/Witnesses/Liveness.antt =====
-- Inputs for the theorem on the check of the peers (consensus/pkg/engine/consensus_node.py).
use mathlib.Core.Option.{map}
use sawtooth_ddpoa.Prelude.{◌≡◌, refl, ok, [], ◌∷◌, Bool, true, false, Key, dec_key, ite, contains}
use sawtooth_ddpoa.Prelude.Dict.{get}
use sawtooth_ddpoa.Node.{Node, production, check_on_peers}
use sawtooth_ddpoa.Node.Liveness.{Own, Own-nil, Own-cons, checked, reachable}
use sawtooth_ddpoa.Node.Liveness.Rounds.{check_on_peers-checked}
use sawtooth_ddpoa.Witnesses.Engines.{node_in, four_candidates, known_peer}

abbrev bob_only : Key → Bool
bob_only k = ite (dec_key k "bob") true false

-- Bob and carol have a stub, and only bob answers.
abbrev watcher : Node
watcher =
    let n = node_in production four_candidates in
    record n {
      peers =
          ("alice", known_peer "alice")
          ∷ ("bob", known_peer "bob")
          ∷ ("carol", known_peer "carol")
          ∷ [];
      communicator = record n.communicator {
        peers =
            ("bob", record { ip = "10.0.0.2"; connected = true; has_stub = true })
            ∷ ("carol", record { ip = "10.0.0.3"; connected = true; has_stub = true })
            ∷ [];
      };
    }

watcher-Own : Own watcher.peers
watcher-Own =
    Own-cons "alice" _ _ refl (Own-cons "bob" _ _ refl (Own-cons "carol" _ _ refl Own-nil))

check_on_peers_example :
    let r = check_on_peers 1000000000 bob_only watcher in
    (r.0 ≡ ok tt)
    × (r.1.last_peer_check ≡ 1000000000)
    × ((k : Key)
        → get dec_key k r.1.peers
          ≡ map
              (checked 1000000000 bob_only "alice"
                (reachable 1000000000 bob_only watcher.communicator))
              (get dec_key k watcher.peers))
unfolding dec_key contains
check_on_peers_example =
    check_on_peers-checked 1000000000 bob_only watcher (refl, (refl, (refl, tt))) watcher-Own
