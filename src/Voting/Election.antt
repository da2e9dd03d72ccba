-- ===== src/Voting/Election.antt =====
-- `fill_ballot`, `calculate_result` and `remove_old_epoch_data` of
-- consensus/pkg/engine/voting_system.py.
use sawtooth_ddpoa.Prelude.{
  ℕ, zero, suc, ◌-◌, String, List, [], ◌∷◌, ◌++◌, Option, none, some, length, take, remove_at,
  index_of, ltb, leb, if◌then◌else◌, Key, dec_key, ℕ_discrete, M, Outcome, ok, raise, hang,
  key_error, value_error, poll_error, for_each,
}
use sawtooth_ddpoa.Prelude.Dict.{get, has, del_item, keys, values}
use sawtooth_ddpoa.Prelude.Sorting.{sort_by}
use sawtooth_ddpoa.Floats.{Float, offline_weight}
use sawtooth_ddpoa.Peers.{PeerNode}
use sawtooth_ddpoa.Voting.{VotingSystem, Ballot, set_peer_result}
use sawtooth_ddpoa.Voting.Ties.{break_ties}

unfoldable pub weight : PeerNode → Float
weight p = if p.online then p.score else offline_weight

-- `peers[p]` raises for a key that is not there.
unfoldable pub weights_of : List (Key × PeerNode) → List Key → Outcome (List Float)
unfolding get weight
weights_of peers [] = ok []
weights_of peers (k ∷ ks) = elim (get dec_key k peers) [
  | none ↦ raise key_error
  | some p ↦ elim (weights_of peers ks) [
    | ok ws ↦ ok (weight p ∷ ws)
    | raise e ↦ raise e
    | hang ↦ hang
  ]
]

-- `random.choices(population, weights=weights, k=1)[0]`; the number tells the draws apart, and
-- `none` stands for an exception.
abbrev pub Choose : Type 0
Choose = ℕ → List Key → List Float → Option Key

module _ (choose : Choose) where
  -- Each draw takes one key out: the length of the population is enough fuel.
  unfoldable pub fill_loop : ℕ → List Key → List Float → Ballot → Outcome Ballot
  unfolding index_of
  fill_loop zero [] weights ballot = ok ballot
  fill_loop zero (k ∷ ks) weights ballot = hang
  fill_loop (suc fuel) [] weights ballot = ok ballot
  fill_loop (suc fuel) (k ∷ ks) weights ballot = elim (choose fuel (k ∷ ks) weights) [
    | none ↦ raise value_error
    | some candidate ↦ elim (index_of dec_key candidate (k ∷ ks)) [
      | none ↦ raise value_error
      | some idx ↦
          fill_loop fuel (remove_at idx (k ∷ ks)) (remove_at idx weights)
            (ballot ++ (candidate ∷ []))
    ]
  ]

  unfoldable pub fill_ballot : List (Key × PeerNode) → VotingSystem → Outcome Ballot
  unfolding weights_of fill_loop
  fill_ballot peers v = elim (weights_of peers v.peer_keys) [
    | ok weights ↦ fill_loop (length v.peer_keys) v.peer_keys weights []
    | raise e ↦ raise e
    | hang ↦ hang
  ]

-- The elected candidates of `ScottishSTV(seats, candidates)` after `add_ballot` of each ballot and
-- `calculate`; `none` stands for an exception.
abbrev pub Stv : Type 0
Stv = ℕ → List Key → List Ballot → Option (List Key)

module _ (sha256 : String → ℕ) (stv : Stv) where
  unfoldable pub keep_result : ℕ → Outcome (List Key) → M VotingSystem (List Key)
  keep_result epoch (ok result) v = (ok result, set_peer_result epoch v.key result v)
  keep_result epoch (raise e) v = (raise e, v)
  keep_result epoch hang v = (hang, v)

  unfoldable pub calculate_result : ℕ → M VotingSystem (List Key)
  unfolding get break_ties keep_result
  calculate_result epoch v = elim (get ℕ_discrete epoch v.ballots) [
    | none ↦ (raise key_error, v)
    | some ballots ↦ elim (stv (length v.peer_keys) v.peer_keys (values ballots)) [
      | none ↦ (raise poll_error, v)
      | some elected ↦
          keep_result epoch
            (if ltb (length elected) (length v.peer_keys)
              then break_ties sha256 epoch elected (values ballots) (length v.peer_keys)
              else ok elected)
            v
    ]
  ]

-- `del` of the epoch's results, candidates and ballots in this order: it raises at the first that
-- is not there, and what went before is gone.
unfoldable pub forget_epoch : ℕ → M VotingSystem (Unit {0})
unfolding has del_item
forget_epoch epoch v =
    let no_results = record v { results = del_item ℕ_discrete epoch v.results } in
    let no_candidates = record no_results { candidates = del_item ℕ_discrete epoch v.candidates } in
    if has ℕ_discrete epoch v.results
    then (if has ℕ_discrete epoch v.candidates
        then (if has ℕ_discrete epoch v.ballots
            then (ok tt, record no_candidates { ballots = del_item ℕ_discrete epoch v.ballots })
            else (raise key_error, no_candidates))
        else (raise key_error, no_results))
    else (raise key_error, v)

-- All but the five newest epochs.
unfoldable pub old_epochs : VotingSystem → List ℕ
unfolding sort_by
old_epochs v = take (length (keys v.results) - 5) (sort_by (λ (epoch : ℕ). epoch) (keys v.results))

unfoldable pub remove_old_epoch_data : M VotingSystem (Unit {0})
unfolding old_epochs forget_epoch for_each
remove_old_epoch_data v =
    if leb 10 (length v.results) then for_each (old_epochs v) forget_epoch v else (ok tt, v)
