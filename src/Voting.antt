-- ===== src/Voting.antt =====
-- consensus/pkg/engine/voting_system.py: ballots, results and candidate lists by epoch, and the
-- resolution of ties. The library of the single transferable vote and `random.choices` are parameters.
pub mod Ties
pub mod Quorum
pub mod Tally
pub mod Election
pub mod Ballots
pub mod Cleanup
pub mod Similar
use Prim.Native.Nat.{max}
use mathlib.Core.Option.{get_or}
use sawtooth_ddpoa.Prelude.{
  ℕ, suc, ◌+◌, ◌*◌, ◌/◌, List, [], ◌∷◌, Option, none, some, Bool, false, ◌&&◌, length, ltb, leb,
  if◌then◌else◌, Key, dec_key, dec_keys, ℕ_discrete, Outcome, ok, raise, key_error, value_error,
  ite,
}
use sawtooth_ddpoa.Prelude.Dict.{get, has, set_item, values}

abbrev pub Ballot : Type 0
Ballot = List Key

abbrev pub Result : Type 0
Result = List Key

-- The polls are rebuilt by every calculation, and are no part of the state.
pub record VotingSystem : Type 0 where
  pub key : Key
  pub peer_keys : List Key
  pub ballots : List (ℕ × List (Key × Ballot))
  pub results : List (ℕ × List (Key × Result))
  pub candidates : List (ℕ × List Key)
  pub num_slots : ℕ

unfoldable pub init : Key → List Key → ℕ → VotingSystem
init key peers slots = record {
  key = key;
  peer_keys = peers;
  ballots = [];
  results = [];
  candidates = [];
  num_slots = slots;
}

-- `d[epoch][k] = v`, after `d[epoch] = {}` where the epoch is new.
set_in_epoch : {V : Type 0} → ℕ → Key → V → List (ℕ × List (Key × V)) → List (ℕ × List (Key × V))
unfolding get set_item
set_in_epoch epoch k v d =
    set_item ℕ_discrete epoch (set_item dec_key k v (get_or (get ℕ_discrete epoch d) [])) d

unfoldable pub add_ballot : ℕ → Key → Ballot → VotingSystem → VotingSystem
unfolding set_in_epoch
add_ballot epoch k ballot v = record v { ballots = set_in_epoch epoch k ballot v.ballots }

unfoldable pub set_peer_result : ℕ → Key → Result → VotingSystem → VotingSystem
unfolding set_in_epoch
set_peer_result epoch k result v = record v { results = set_in_epoch epoch k result v.results }

unfoldable pub set_candidates : ℕ → Result → VotingSystem → VotingSystem
unfolding set_item
set_candidates epoch result v = record v {
  candidates = set_item ℕ_discrete epoch result v.candidates;
}

unfoldable pub get_candidates : ℕ → VotingSystem → Option Result
unfolding get
get_candidates epoch v = get ℕ_discrete epoch v.candidates

unfoldable pub has_voted : Key → ℕ → VotingSystem → Bool
unfolding get has
has_voted k epoch v = elim (get ℕ_discrete epoch v.ballots) [
  | none ↦ false
  | some ballots ↦ has dec_key k ballots
]

unfoldable pub consensus_amount : ℕ → VotingSystem → ℕ
consensus_amount online v = max v.num_slots (1 + online * 2 / 3)

unfoldable pub has_enough_ballots : ℕ → ℕ → VotingSystem → Outcome Bool
unfolding get consensus_amount
has_enough_ballots epoch online v = elim (get ℕ_discrete epoch v.ballots) [
  | none ↦ raise key_error
  | some ballots ↦ ok (leb (consensus_amount online v) (length ballots))
]

unfoldable pub has_all_ballots : ℕ → ℕ → VotingSystem → Outcome Bool
unfolding get consensus_amount
has_all_ballots epoch online v = elim (get ℕ_discrete epoch v.ballots) [
  | none ↦ raise key_error
  | some ballots ↦ ok (leb (consensus_amount online v) online && leb online (length ballots))
]

-- How many of the results are `own`.
pub count_equal : Result → List Result → ℕ
count_equal own [] = 0
count_equal own (r ∷ rs) = ite (dec_keys r own) (suc (count_equal own rs)) (count_equal own rs)

unfoldable pub has_enough_similar_results : ℕ → ℕ → VotingSystem → Outcome Bool
unfolding get consensus_amount count_equal
has_enough_similar_results epoch online v = elim (get ℕ_discrete epoch v.results) [
  | none ↦ raise key_error
  | some results ↦ elim (get dec_key v.key results) [
    | none ↦ ok false
    | some own ↦ ok (
        if leb (consensus_amount online v) (length results)
        then leb (consensus_amount online v) (count_equal own (values results))
        else false)
  ]
]

-- The number of occurrences of each result, in order of first occurrence.
tally : List Result → List (Result × ℕ) → List (Result × ℕ)
unfolding get set_item
tally [] counts = counts
tally (r ∷ rs) counts = tally rs (set_item dec_keys r (get_or (get dec_keys r counts) 0 + 1) counts)

-- `max(counts, key=counts.get)`: the first of those with the highest count.
most_frequent : Result × ℕ → List (Result × ℕ) → Result × ℕ
most_frequent best [] = best
most_frequent best (c ∷ cs) = most_frequent (if ltb best.1 c.1 then c else best) cs

unfoldable pub get_consensus_result : ℕ → VotingSystem → Outcome (Result × ℕ)
unfolding get tally most_frequent
get_consensus_result epoch v = elim (get ℕ_discrete epoch v.results) [
  | none ↦ raise key_error
  | some results ↦ elim (tally (values results) []) [
    | [] ↦ raise value_error
    | c ∷ cs ↦ ok (most_frequent c cs)
  ]
]
