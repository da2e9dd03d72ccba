-- ===== src/Voting/Cleanup.antt =====
-- `remove_old_epoch_data` of consensus/pkg/engine/voting_system.py.
pub mod Incomplete
use sawtooth_ddpoa.Prelude.{
  ℕ, suc, ◌+◌, ◌-◌, ◌≤◌, ◌≡◌, refl, sym, ap, ◌∙◌, List, [], ◌∷◌, ◌++◌, Bool, true, not, ◌&&◌, none,
  length, drop, take-append-drop, length-perm, length-drop, length-append, contains,
  contains-append, ℕ_discrete, ok, and_then, for_each, if◌then◌else◌, arith, leb, leb→le,
  Bool-cases, inl, inr,
}
use sawtooth_ddpoa.Prelude.Dict.{keys, get, has}
use sawtooth_ddpoa.Prelude.Distinct.{Distinct, contains_self, contains-perm, has-contains}
use sawtooth_ddpoa.Prelude.Sorting.{sort_by, sort_by-perm}
use sawtooth_ddpoa.Prelude.Trimming.{
  Distinct-left, Distinct-apart, sort_by-Distinct, without, Present, get-without, Present-del_item,
  length-without,
}
use sawtooth_ddpoa.Voting.{VotingSystem}
use sawtooth_ddpoa.Voting.Election.{forget_epoch, old_epochs, remove_old_epoch_data}

abbrev trimmed : List ℕ → VotingSystem → VotingSystem
trimmed es v = record v {
  results = without ℕ_discrete es v.results;
  candidates = without ℕ_discrete es v.candidates;
  ballots = without ℕ_discrete es v.ballots;
}

-- The data of every epoch with results is complete, and no epoch is listed twice.
pub record IsComplete (v : VotingSystem) : Type 0 where
  pub distinct : Distinct ℕ_discrete (keys v.results)
  pub distinct_candidates : Distinct ℕ_discrete (keys v.candidates)
  pub distinct_ballots : Distinct ℕ_discrete (keys v.ballots)
  pub candidates_known : Present ℕ_discrete (keys v.results) v.candidates
  pub ballots_known : Present ℕ_discrete (keys v.results) v.ballots

forget_each :
    (es : List ℕ) (v : VotingSystem)
    → Distinct ℕ_discrete es
    → Present ℕ_discrete es v.results
    → Present ℕ_discrete es v.candidates
    → Present ℕ_discrete es v.ballots
    → for_each es forget_epoch v ≡ (ok tt, trimmed es v)
unfolding for_each and_then forget_epoch without
forget_each [] v d r c b = refl
forget_each (e ∷ es) v d r c b =
    let self = contains_self ℕ_discrete e es in
    let here = r e self in
    let known = c e self in
    let cast = b e self in
    let rest =
      forget_each es (trimmed (e ∷ []) v) d.1 (Present-del_item ℕ_discrete e es v.results d.0 r)
        (Present-del_item ℕ_discrete e es v.candidates d.0 c)
        (Present-del_item ℕ_discrete e es v.ballots d.0 b) in
    rw (here, known, cast) rest

abbrev pub newest : VotingSystem → List ℕ
newest v = drop (length (keys v.results) - 5) (sort_by (λ (epoch : ℕ). epoch) (keys v.results))

-- With the results of ten epochs or more, an epoch with results that is none of the five newest.
abbrev pub is_outdated : ℕ → VotingSystem → Bool
is_outdated e v =
    leb 10 (length v.results)
    && (has ℕ_discrete e v.results && not (contains ℕ_discrete e (newest v)))

length-keys : {V : Type 0} (d : List (ℕ × V)) → length (keys d) ≡ length d
length-keys [] = refl
length-keys (e ∷ d) = ap suc (length-keys d)

module _ (v : VotingSystem) (distinct : Distinct ℕ_discrete (keys v.results)) where
  sorted-split : old_epochs v ++ newest v ≡ sort_by (λ (epoch : ℕ). epoch) (keys v.results)
  unfolding old_epochs
  sorted-split = take-append-drop (length (keys v.results) - 5) _

  parts-Distinct : Distinct ℕ_discrete (old_epochs v ++ newest v)
  parts-Distinct =
      rw sorted-split (sort_by-Distinct ℕ_discrete (λ (epoch : ℕ). epoch) (keys v.results) distinct)

  contains-parts :
      (e : ℕ)
      → contains ℕ_discrete e (old_epochs v ++ newest v) ≡ contains ℕ_discrete e (keys v.results)
  contains-parts e =
      ap (contains ℕ_discrete e) sorted-split
      ∙ contains-perm ℕ_discrete e (sort_by-perm _ (keys v.results))

  listed :
      (e : ℕ)
      → contains ℕ_discrete e (old_epochs v) ≡ true
      → contains ℕ_discrete e (keys v.results) ≡ true
  listed e h =
      ground (arith, contains-parts e, contains-append ℕ_discrete e (old_epochs v) (newest v), h)

  is_outdated-old :
      (e : ℕ)
      → leb 10 (length v.results) ≡ true
      → is_outdated e v ≡ contains ℕ_discrete e (old_epochs v)
  is_outdated-old e many = ground (
    arith,
    many,
    has-contains ℕ_discrete e v.results,
    contains-parts e,
    contains-append ℕ_discrete e (old_epochs v) (newest v),
    Distinct-apart ℕ_discrete e (old_epochs v) (newest v) parts-Distinct,
  )

  old-Distinct : Distinct ℕ_discrete (old_epochs v)
  old-Distinct = Distinct-left ℕ_discrete (old_epochs v) (newest v) parts-Distinct

  old-Present : Present ℕ_discrete (old_epochs v) v.results
  old-Present e h = has-contains ℕ_discrete e v.results ∙ listed e h

module _ (v : VotingSystem) (complete : IsComplete v) where
  five_left :
      leb 10 (length v.results) ≡ true → length (without ℕ_discrete (old_epochs v) v.results) ≡ 5
  five_left many =
      let by_age = sort_by (λ (epoch : ℕ). epoch) (keys v.results) in
      let split : length (old_epochs v) + length (newest v) ≡ length by_age =
        sym (length-append (old_epochs v) (newest v))
        ∙ ap length (sorted-split v complete.distinct) in
      let left : length (newest v) ≡ length by_age - (length (keys v.results) - 5) =
        length-drop _ by_age in
      let sorted : length by_age ≡ length (keys v.results) =
        length-perm (sort_by-perm _ (keys v.results)) in
      let size : length (keys v.results) ≡ length v.results = length-keys v.results in
      let sum =
        length-without ℕ_discrete (old_epochs v) v.results (old-Distinct v complete.distinct)
          (old-Present v complete.distinct) in
      let ten : 10 ≤ length v.results = leb→le 10 _ many in
      omega (arith, split, left, sorted, size, sum, ten)

  cleaned :
      leb 10 (length v.results) ≡ true → remove_old_epoch_data v ≡ (ok tt, trimmed (old_epochs v) v)
  unfolding remove_old_epoch_data
  cleaned many = rw many (
      forget_each (old_epochs v) v (old-Distinct v complete.distinct)
        (old-Present v complete.distinct)
        (λ e h. complete.candidates_known e (listed v complete.distinct e h))
        (λ e h. complete.ballots_known e (listed v complete.distinct e h)))

  -- Where no epoch is listed v complete.distinct twice and every epoch with results has candidates and ballots, the
  -- removal raises nothing. With the results of less than ten epochs it changes nothing. Else the
  -- results of five epochs are left, the newest, and the results, the candidates and the ballots of the
  -- other epochs with results are gone; those of every other epoch are as before.
  pub remove_old_epoch_data_cases :
      (e : ℕ)
      → let (r, w) = remove_old_epoch_data v in
        (r ≡ ok tt)
        × (length w.results ≡ (if leb 10 (length v.results) then 5 else length v.results))
        × (get ℕ_discrete e w.results
            ≡ (if is_outdated e v then none else get ℕ_discrete e v.results))
        × (get ℕ_discrete e w.candidates
            ≡ (if is_outdated e v then none else get ℕ_discrete e v.candidates))
        × (get ℕ_discrete e w.ballots
            ≡ (if is_outdated e v then none else get ℕ_discrete e v.ballots))
  unfolding remove_old_epoch_data
  remove_old_epoch_data_cases e = elim (Bool-cases (leb 10 (length v.results))) [
    | inl many ↦
        rw (cleaned many, is_outdated-old v complete.distinct e many, many)
          (
            refl,
            five_left many,
            get-without ℕ_discrete e (old_epochs v) v.results complete.distinct,
            get-without ℕ_discrete e (old_epochs v) v.candidates complete.distinct_candidates,
            get-without ℕ_discrete e (old_epochs v) v.ballots complete.distinct_ballots,
          )
    | inr few ↦ rw (few, remove_old_epoch_data) (refl, refl, refl, refl, refl)
  ]
