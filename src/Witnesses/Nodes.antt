-- ===== src/Witnesses/Nodes.antt =====
-- Inputs for the theorems on the node's handlers (consensus/pkg/engine/ddpoa_node.py).
use sawtooth_ddpoa.Prelude.{
  ◌≡◌, refl, some, ok, List, [], ◌∷◌, Key, and_then, or_raise, ◌⊎◌, dec_key, dec_keys, ℕ_discrete,
}
use sawtooth_ddpoa.Node.{Node, election}
use sawtooth_ddpoa.Node.Handlers.{handle_vote, handle_vote_result}
use sawtooth_ddpoa.Prelude.Dict.{get}
use sawtooth_ddpoa.Voting
use sawtooth_ddpoa.Node.Ballots.{handle_vote_once}
use sawtooth_ddpoa.Epoch.{increment_witness}
use sawtooth_ddpoa.Node.Handlers.{next_slot}
use sawtooth_ddpoa.Node.Announced.{Stays, Begins}
use sawtooth_ddpoa.Node.Announced.Runs.{quiet, later, result, next_slot-Begins}
use sawtooth_ddpoa.Node.Results.{Started, handle_vote_result-Started}
use sawtooth_ddpoa.Witnesses.Engines.{toy_host, node_in, four_candidates}

abbrev ranking : List Key
ranking = "dave" ∷ "alice" ∷ "carol" ∷ "bob" ∷ []

-- The epoch 4 is over, and carol has sent her result for the next.
abbrev ready_node : Node
ready_node =
    let n = node_in election (record four_candidates { current_witness_idx = 6 }) in
    record n { voting = record n.voting { results = (5, ("carol", ranking) ∷ []) ∷ [] } }

vote_result_example :
    Started ready_node 5 ranking "bob" (handle_vote_result 5 ranking "bob" ready_node).1
unfolding handle_vote_result and_then or_raise dec_key dec_keys ℕ_discrete
vote_result_example =
    handle_vote_result-Started 5 ranking "bob" ready_node
      (handle_vote_result 5 ranking "bob" ready_node).1 refl

abbrev voting_node : Node
voting_node = node_in election (record four_candidates { current_witness_idx = 4 })

ballot_example :
    let m = (handle_vote toy_host 1000000 5 ranking "bob" voting_node).1 in
    (d : List (Key × List Key)) × (get ℕ_discrete 5 m.voting.ballots ≡ some d)
    × (get dec_key "bob" d ≡ some ranking)
    × (handle_vote toy_host 2000000 5 [] "bob" m ≡ (ok tt, m))
unfolding Voting.has_voted
ballot_example = handle_vote_once toy_host 1000000 2000000 5 ranking [] "bob" voting_node refl refl

-- The last slot of epoch 4 is running when the result for epoch 5 comes in.
abbrev announced_node : Node
announced_node =
    (handle_vote_result 5 ranking "bob"
      (record ready_node { epoch = record four_candidates { current_witness_idx = 5 } })).1

next_slot_example :
    let turned = (increment_witness toy_host.sha256 "b1" announced_node.epoch).1 in
    let e = (next_slot toy_host.sha256 "b1" announced_node).1.epoch in
    Stays turned announced_node e ⊎ Begins turned announced_node e
next_slot_example = next_slot-Begins toy_host refl (later quiet (result 5 ranking "bob")) "b1"
