-- ===== src/Witnesses/Voting.antt =====
-- Inputs for the theorems on votes (consensus/pkg/engine/voting_system.py).
use mathlib.Core.List.Perm
use sawtooth_ddpoa.Prelude.{
  ℕ, ◌↔◌, ◌≡◌, ◌≤◌, ◌<◌, refl, subst, String, List, [], ◌∷◌, ◌++◌, Perm, some, none, true, Key,
  arith, dec_key, dec_keys, ℕ_discrete, contains, ok,
}
use sawtooth_ddpoa.Prelude.Dict.{get, values}
use sawtooth_ddpoa.Prelude.Distinct.{contains_self}
use sawtooth_ddpoa.Prelude.Counting.{count_if}
use sawtooth_ddpoa.Floats.{float_one}
use sawtooth_ddpoa.Peers.{PeerNode}
use sawtooth_ddpoa.Voting.{
  VotingSystem, Result, get_consensus_result, count_equal, consensus_amount,
  has_enough_similar_results,
}
use sawtooth_ddpoa.Voting.Election.{Choose, fill_ballot}
use sawtooth_ddpoa.Voting.Ballots.{IsChoice, fill_ballot-perm}
use sawtooth_ddpoa.Voting.Ties.{break_ties}
use sawtooth_ddpoa.Voting.Ties.Total.{break_ties_total}
use sawtooth_ddpoa.Voting.Similar.{similar-winner}
use sawtooth_ddpoa.Voting.Tally.{get_consensus_result_max}
use sawtooth_ddpoa.Voting.Quorum.{Holds, agreement, equivocates}
use Prim.Native.String.{len}

abbrev toy_hash : String → ℕ
toy_hash s = len s

abbrev nodes : List Key
nodes = "a" ∷ "b" ∷ "c" ∷ []

abbrev swapped : List Key
swapped = "b" ∷ "a" ∷ "c" ∷ []

break_ties_example :
    (tail : List Key) × (break_ties toy_hash 3 ("b" ∷ []) (nodes ∷ swapped ∷ []) 3
      ≡ ok (("b" ∷ []) ++ tail))
    × Perm (("b" ∷ []) ++ tail) nodes
unfolding contains dec_key
break_ties_example =
    break_ties_total toy_hash 3 ("b" ∷ []) nodes nodes (swapped ∷ []) (refl, (refl, (refl, tt)))
      (refl, tt) in_nodes (Perm.refl nodes, (Perm.swap "a" "b" ("c" ∷ []), tt))
  where
    in_nodes : (a : Key) → contains dec_key a ("b" ∷ []) ≡ true → contains dec_key a nodes ≡ true
    in_nodes a h = elim (dec_key "b" a) [
      | yes p ↦ subst (λ x. contains dec_key x nodes ≡ true) p refl
      | no p ↦ ground (arith, h)
    ]

abbrev four : List Key
four = "a" ∷ "b" ∷ "c" ∷ "d" ∷ []

-- "d" told this node another result than it told the other one.
abbrev results_here : List (Key × Result)
results_here = ("a", nodes) ∷ ("b", nodes) ∷ ("c", nodes) ∷ ("d", swapped) ∷ []

abbrev results_there : List (Key × Result)
results_there = ("a", nodes) ∷ ("b", nodes) ∷ ("c", nodes) ∷ ("d", nodes) ∷ []

abbrev with_results : Key → List (Key × Result) → VotingSystem
with_results key d = record {
  key = key;
  peer_keys = four;
  ballots = [];
  results = (7, d) ∷ [];
  candidates = [];
  num_slots = 2;
}

abbrev here : VotingSystem
here = with_results "a" results_here

abbrev there : VotingSystem
there = with_results "b" results_there

here-Holds : Holds here 7 four results_here
unfolding get contains ℕ_discrete dec_key
here-Holds = record {
  stored = refl;
  one_each = (refl, (refl, (refl, (refl, tt))));
  from_members = λ k h. h;
}

there-Holds : Holds there 7 four results_there
unfolding get contains ℕ_discrete dec_key
there-Holds = record {
  stored = refl;
  one_each = (refl, (refl, (refl, (refl, tt))));
  from_members = λ k h. h;
}

here_result : get_consensus_result 7 here ≡ ok (nodes, 3)
unfolding get_consensus_result ℕ_discrete dec_keys
here_result = refl

there_result : get_consensus_result 7 there ≡ ok (nodes, 4)
unfolding get_consensus_result ℕ_discrete dec_keys
there_result = refl

agreement_example : nodes ≡ nodes
unfolding consensus_amount equivocates count_if dec_key dec_keys
agreement_example =
    agreement here there 7 four results_here results_there nodes nodes 3 4 here-Holds there-Holds
      (omega arith) here_result there_result (omega arith) (omega arith)

get_consensus_result_example :
    (w : Result) × (n : ℕ) × (get_consensus_result 7 here ≡ ok (w, n))
    × (n ≡ count_equal w (values results_here))
    × (0 < n)
    × ((q : Result) → count_equal q (values results_here) ≤ n)
unfolding get ℕ_discrete
get_consensus_result_example =
    get_consensus_result_max here 7 ("a", nodes) (("b", nodes) ∷ ("c", nodes) ∷ ("d", swapped) ∷ [])
      refl

similar_example :
    (has_enough_similar_results 7 4 here ≡ ok true)
    ↔ ((n : ℕ) × (get_consensus_result 7 here ≡ ok (nodes, n)) × (consensus_amount 4 here ≤ n))
unfolding get ℕ_discrete dec_key
similar_example =
    similar-winner here 7 4 ("a", nodes) (("b", nodes) ∷ ("c", nodes) ∷ ("d", swapped) ∷ []) nodes
      refl refl (omega arith)

-- A sampler that always takes the first.
abbrev first_of : Choose
first_of n [] ws = none
first_of n (k ∷ ks) ws = some k

first_of-IsChoice : IsChoice first_of
first_of-IsChoice = record { picks = λ n x xs ws h a. (x, refl, contains_self dec_key x xs) }

abbrev known_peer : Key → PeerNode
known_peer k = record { key = k; score = float_one; last_seen = 0; online = true }

abbrev known_peers : List (Key × PeerNode)
known_peers =
    ("a", known_peer "a")
    ∷ ("b", known_peer "b")
    ∷ ("c", known_peer "c")
    ∷ ("d", known_peer "d")
    ∷ []

fill_ballot_example :
    (ballot : List Key) × (fill_ballot first_of known_peers here ≡ ok ballot) × Perm ballot four
unfolding get dec_key
fill_ballot_example = fill_ballot-perm first_of first_of-IsChoice known_peers here (
  (known_peer "a", refl, (omega arith, omega arith)),
  (
    (known_peer "b", refl, (omega arith, omega arith)),
    (
      (known_peer "c", refl, (omega arith, omega arith)),
      ((known_peer "d", refl, (omega arith, omega arith)), tt),
    ),
  ),
)
