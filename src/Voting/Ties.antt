-- ===== src/Voting/Ties.antt =====
-- `break_ties` and `get_slot_winner` of consensus/pkg/engine/voting_system.py. The weights are 1/2,
-- 1/4, ... as floats, and scores are sums of them. Such sums of at most 53 bits are exact in doubles, as
-- for up to some forty members; they are numbers here, scaled by 2 ^ num_candidates.
pub mod Scores
pub mod Total
use mathlib.Core.Option.{get_or}
use sawtooth_ddpoa.Prelude.{
  ℕ, zero, suc, ◌+◌, ◌-◌, ◌/◌, ◌^◌, ◌++◌, String, List, [], ◌∷◌, Option, none, some, length,
  contains, ltb, ◌==◌, if◌then◌else◌, Key, dec_key, Outcome, ok, raise, hang, index_error,
  value_error,
}
use sawtooth_ddpoa.Prelude.Dict.{get, set_item, del_item}
use sawtooth_ddpoa.Utils.{str, concat_and_hash}

-- `w`, and `n` halvings of it.
halves : ℕ → ℕ → List ℕ
halves zero w = w ∷ []
halves (suc n) w = w ∷ halves n (w / 2)

pub weights : ℕ → List ℕ
unfolding halves
weights num_candidates = halves (num_candidates - 1) (2 ^ (num_candidates - 1))

abbrev pub Scores : Type 0
Scores = List (Key × ℕ)

-- One ballot, from the place whose weight is the first of the list. `weights[i]` is read only for a
-- candidate that is not elected.
unfoldable pub score_ballot : List Key → List ℕ → List Key → Scores → Outcome Scores
unfolding contains get set_item
score_ballot result ws [] scores = ok scores
score_ballot result [] (c ∷ cs) scores =
    let rest = score_ballot result [] cs scores in
    if contains dec_key c result then rest else raise index_error
score_ballot result (w ∷ ws) (c ∷ cs) scores = score_ballot result ws cs (
    if contains dec_key c result
    then scores
    else set_item dec_key c (get_or (get dec_key c scores) 0 + w) scores)

unfoldable pub score_ballots : List Key → List ℕ → List (List Key) → Scores → Outcome Scores
unfolding score_ballot
score_ballots result ws [] scores = ok scores
score_ballots result ws (b ∷ bs) scores = elim (score_ballot result ws b scores) [
  | ok next ↦ score_ballots result ws bs next
  | raise e ↦ raise e
  | hang ↦ hang
]

-- `max(scores.values())`.
unfoldable pub max_score : Scores → Option ℕ
max_score [] = none
max_score ((c, n) ∷ s) = elim (max_score s) [
  | none ↦ some n
  | some m ↦ some (if ltb n m then m else n)
]

-- The candidates with the score `m`.
unfoldable pub draws : ℕ → Scores → List Key
draws m [] = []
draws m ((c, n) ∷ s) = let rest = draws m s in if n == m then c ∷ rest else rest

module _ (sha256 : String → ℕ) (seed : ℕ) where
  seeded : Key → ℕ
  seeded k = concat_and_hash sha256 (k ∷ str seed ∷ [])

  -- The first of those with the highest hash.
  unfoldable pub highest_hash : Key → List Key → Key
  unfolding seeded
  highest_hash best [] = best
  highest_hash best (c ∷ cs) = highest_hash (if ltb (seeded best) (seeded c) then c else best) cs

  -- `none` where `max` raises on no candidates.
  unfoldable pub get_slot_winner : List Key → Option Key
  unfolding highest_hash
  get_slot_winner [] = none
  get_slot_winner (c ∷ []) = some c
  get_slot_winner (c ∷ d ∷ cs) = some (highest_hash c (d ∷ cs))

  unfoldable pub award : ℕ → Scores → List Key → Outcome (List Key)
  unfolding del_item max_score draws get_slot_winner
  award zero scores result = ok result
  award (suc n) scores result = elim (max_score scores) [
    | none ↦ raise value_error
    | some m ↦ elim (get_slot_winner (draws m scores)) [
      | none ↦ raise value_error
      | some winner ↦ award n (del_item dec_key winner scores) (result ++ (winner ∷ []))
    ]
  ]

  unfoldable pub break_ties : List Key → List (List Key) → ℕ → Outcome (List Key)
  unfolding score_ballots award weights
  break_ties result ballots num_candidates =
      elim (score_ballots result (weights num_candidates) ballots []) [
        | ok scores ↦ award (num_candidates - length result) scores result
        | raise e ↦ raise e
        | hang ↦ hang
      ]
