-- ===== src/Voting/Tally.antt =====
-- `get_consensus_result` of consensus/pkg/engine/voting_system.py counts every result and returns one
-- with the highest count.
use mathlib.Core.Option.{get_or}
use sawtooth_ddpoa.Prelude.{
  ℕ, ◌+◌, ◌≤◌, ◌<◌, ◌≡◌, ◌≢◌, refl, sym, ap, subst, ◌∙◌, List, [], ◌∷◌, true, false, All, contains,
  Key, dec_keys, ℕ_discrete, some, ok, if_pos, if_neg, inl, inr, ltb, Bool-cases, arith,
  if◌then◌else◌,
}
use sawtooth_ddpoa.Prelude.Dict.{get, set_item, keys, values, get-set_item_self, get-set_item_ne}
use sawtooth_ddpoa.Prelude.Distinct.{Distinct, keys-set_item-Distinct}
use sawtooth_ddpoa.Voting.{
  VotingSystem, Result, count_equal, tally, most_frequent, get_consensus_result,
}

abbrev Counts : Type 0
Counts = List (Result × ℕ)

pub count_equal_self : (r : Result) (rs : List Result) → 0 < count_equal r (r ∷ rs)
unfolding count_equal
count_equal_self r rs = rw (if_pos (dec_keys r r) refl) (omega arith)

-- The dictionary of counts holds the count `f q` of each result `q`, and 0 for one that is missing.
record Tallied (f : Result → ℕ) (counts : Counts) : Type 0 where
  lookup : (q : Result) → get_or (get dec_keys q counts) 0 ≡ f q
  entries : All (λ e. e.1 ≡ f e.0) counts
  distinct : Distinct dec_keys (keys counts)

module _ (f g : Result → ℕ) (r : Result) (v : ℕ) (same : (q : Result) → r ≢ q → f q ≡ g q) where
  entries_other :
      (d : Counts)
      → contains dec_keys r (keys d) ≡ false
      → All (λ e. e.1 ≡ f e.0) d
      → All (λ e. e.1 ≡ g e.0) d
  unfolding contains
  entries_other [] h a = tt
  entries_other ((j, w) ∷ d) h a = elim (dec_keys j r) [
    | yes p ↦ absurd (let e = if_pos (dec_keys j r) p true (contains dec_keys r (keys d)) in cc)
    | no p ↦
        (a.0 ∙ same j (λ e. p (sym e)), entries_other d (rw (if_neg (dec_keys j r) p) at h) a.1)
  ]

  entries-set_item :
      (d : Counts)
      → v ≡ g r
      → Distinct dec_keys (keys d)
      → All (λ e. e.1 ≡ f e.0) d
      → All (λ e. e.1 ≡ g e.0) (set_item dec_keys r v d)
  unfolding set_item
  entries-set_item [] h dd a = (h, tt)
  entries-set_item ((j, w) ∷ d) h dd a = elim (dec_keys j r) [
    | yes p ↦ rw (if_pos (dec_keys j r) p) (
      h ∙ ap g (sym p),
      entries_other d (subst (λ x. contains dec_keys x (keys d) ≡ false) p dd.0) a.1,
    )
    | no p ↦
        rw (if_neg (dec_keys j r) p) (a.0 ∙ same j (λ e. p (sym e)), entries-set_item d h dd.1 a.1)
  ]

Tallied-ext :
    (f g : Result → ℕ) {counts : Counts}
    → ((q : Result) → f q ≡ g q)
    → Tallied f counts
    → Tallied g counts
Tallied-ext f g {counts} same t = record {
  lookup = λ q. t.lookup q ∙ same q;
  entries = go counts t.entries;
  distinct = t.distinct;
}
  where
    go : (d : Counts) → All (λ e. e.1 ≡ f e.0) d → All (λ e. e.1 ≡ g e.0) d
    go [] a = tt
    go (e ∷ d) a = (a.0 ∙ same e.0, go d a.1)

module _ (f : Result → ℕ) (r : Result) (counts : Counts) (t : Tallied f counts) where
  bumped : Result → ℕ
  bumped q = f q + count_equal q (r ∷ [])

  bumped_other : (q : Result) → r ≢ q → f q ≡ bumped q
  unfolding bumped count_equal
  bumped_other q h = rw (if_neg (dec_keys r q) h) (omega arith)

  bumped_self : get_or (get dec_keys r counts) 0 + 1 ≡ bumped r
  unfolding bumped count_equal
  bumped_self = rw (if_pos (dec_keys r r) refl) (omega (arith, t.lookup r))

  Tallied-bumped :
      Tallied bumped (set_item dec_keys r (get_or (get dec_keys r counts) 0 + 1) counts)
  Tallied-bumped = record {
    lookup = λ q. elim (dec_keys r q) [
      | yes p ↦
          subst (λ x. get_or (get dec_keys x (set_item dec_keys r n counts)) 0 ≡ bumped x) p
            (ap (λ o. get_or o 0) (get-set_item_self dec_keys r n counts) ∙ bumped_self)
      | no p ↦
          ap (λ o. get_or o 0) (get-set_item_ne dec_keys r q n counts p)
          ∙ t.lookup q
          ∙ bumped_other q p
    ];
    entries = entries-set_item f bumped r n bumped_other counts bumped_self t.distinct t.entries;
    distinct = keys-set_item-Distinct dec_keys r n counts t.distinct;
  }
    where
      n : ℕ
      n = get_or (get dec_keys r counts) 0 + 1

count_equal-cons :
    (q r : Result) (rs : List Result)
    → count_equal q (r ∷ rs) ≡ count_equal q (r ∷ []) + count_equal q rs
unfolding count_equal
count_equal-cons q r rs = ground arith

Tallied-tally :
    (rs : List Result) (counts : Counts) (f : Result → ℕ)
    → Tallied f counts
    → Tallied (λ q. f q + count_equal q rs) (tally rs counts)
unfolding tally count_equal bumped
Tallied-tally [] counts f t = Tallied-ext f (λ q. f q + count_equal q []) (λ q. omega arith) t
Tallied-tally (r ∷ rs) counts f t =
    Tallied-ext (λ q. bumped f r counts t q + count_equal q rs) (λ q. f q + count_equal q (r ∷ rs))
      (λ q. omega (arith, count_equal-cons q r rs))
      (Tallied-tally rs _ (bumped f r counts t) (Tallied-bumped f r counts t))

-- The highest count of a list of counts.
module _ (P : Result × ℕ → Type 0) where
  the_higher : Result × ℕ → Result × ℕ → Result × ℕ
  the_higher best c = if ltb best.1 c.1 then c else best

  the_higher_lem :
      (best c : Result × ℕ)
      → P best
      → P c
      → P (the_higher best c) × (best.1 ≤ (the_higher best c).1) × (c.1 ≤ (the_higher best c).1)
  unfolding the_higher
  the_higher_lem best c p q = elim (Bool-cases (ltb best.1 c.1)) [
    | inl less ↦ rw less (q, ground arith, omega arith)
    | inr not_less ↦ rw not_less (p, omega arith, ground arith)
  ]

  most_frequent_lem :
      (best : Result × ℕ) (cs : Counts)
      → All P (best ∷ cs)
      → P (most_frequent best cs) × All (λ e. e.1 ≤ (most_frequent best cs).1) (best ∷ cs)
  unfolding most_frequent the_higher
  most_frequent_lem best [] a = (a.0, (omega arith, tt))
  most_frequent_lem best (c ∷ cs) a =
      let (here, over, too) = the_higher_lem best c a.0 a.1.0 in
      let (p, bound) = most_frequent_lem (the_higher best c) cs (here, a.1.1) in
      (p, (omega (arith, over, bound.0), (omega (arith, too, bound.0), bound.1)))

get-le : (n : ℕ) (q : Result) (d : Counts) → All (λ e. e.1 ≤ n) d → get_or (get dec_keys q d) 0 ≤ n
unfolding get
get-le n q [] a = omega arith
get-le n q ((j, w) ∷ d) a = ground (arith, get-le n q d)

-- When at least one result is stored for the epoch, the winner's count is the number of stored
-- results equal to it, it is not zero, and no result is stored more often.
pub get_consensus_result_max :
    (v : VotingSystem) (epoch : ℕ) (first : Key × Result) (more : List (Key × Result))
    → get ℕ_discrete epoch v.results ≡ some (first ∷ more)
    → (w : Result) × (n : ℕ) × (get_consensus_result epoch v ≡ ok (w, n))
      × (n ≡ count_equal w (values (first ∷ more)))
      × (0 < n)
      × ((q : Result) → count_equal q (values (first ∷ more)) ≤ n)
unfolding get_consensus_result
get_consensus_result_max v epoch first more h = go (tally stored []) refl
  where
    stored : List Result
    stored = values (first ∷ more)

    t : Tallied (λ q. 0 + count_equal q stored) (tally stored [])
    t =
        Tallied-tally stored [] (λ q. 0)
          (record { lookup = λ q. refl; entries = tt; distinct = tt })

    go :
        (counts : Counts)
        → tally stored [] ≡ counts
        → (w : Result) × (n : ℕ) × (get_consensus_result epoch v ≡ ok (w, n))
          × (n ≡ count_equal w stored)
          × (0 < n)
          × ((q : Result) → count_equal q stored ≤ n)
    go [] e = absurd (
        omega (
          arith,
          count_equal_self first.1 (values more),
          subst (λ c. get_or (get dec_keys first.1 c) 0 ≡ 0 + count_equal first.1 stored) e
              (t.lookup first.1),
        ))
    go (c ∷ cs) e =
        let (eq, bound) =
          most_frequent_lem (λ x. x.1 ≡ 0 + count_equal x.0 stored) c cs
            (subst (λ d. All (λ (x : Result × ℕ). x.1 ≡ 0 + count_equal x.0 stored) d) e
              t.entries) in
        let m = most_frequent c cs in
        let most : (q : Result) → count_equal q stored ≤ m.1 = λ q. omega (
          arith,
          get-le m.1 q (c ∷ cs) bound,
          subst (λ d. get_or (get dec_keys q d) 0 ≡ 0 + count_equal q stored) e (t.lookup q),
        ) in
        (
          m.0,
          m.1,
          rw (h, e, get_consensus_result) refl,
          omega (arith, eq),
          omega (arith, most first.1, count_equal_self first.1 (values more)),
          most,
        )
