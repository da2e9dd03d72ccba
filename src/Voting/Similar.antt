-- ===== src/Voting/Similar.antt =====
-- `has_enough_similar_results` of consensus/pkg/engine/voting_system.py against the winner of the tally.
use sawtooth_ddpoa.Prelude.{
  ℕ, ◌+◌, ◌≤◌, ◌≡◌, ◌≢◌, ◌↔◌, refl, sym, subst, ap, ◌∙◌, Outcome, List, [], ◌∷◌, true, false,
  length, leb, Key, dec_key, dec_keys, ℕ_discrete, some, ok, arith, if◌then◌else◌,
}
use sawtooth_ddpoa.Prelude.Dict.{get, values}
use sawtooth_ddpoa.Voting.{
  VotingSystem, Result, consensus_amount, count_equal, get_consensus_result,
  has_enough_similar_results,
}
use sawtooth_ddpoa.Voting.Tally.{get_consensus_result_max}
use sawtooth_ddpoa.Voting.Quorum.{consensus_amount-lt}

-- Two different results are counted apart.
count_equal_apart :
    (r s : Result) (xs : List Result) → r ≢ s → count_equal r xs + count_equal s xs ≤ length xs
unfolding count_equal
count_equal_apart r s [] h = omega arith
count_equal_apart r s (x ∷ xs) h = ground (arith, count_equal_apart r s xs h)

count_equal-le : (r : Result) (xs : List Result) → count_equal r xs ≤ length xs
unfolding count_equal
count_equal-le r [] = omega arith
count_equal-le r (x ∷ xs) = ground (arith, count_equal-le r xs)

le→leb : (a b : ℕ) → a ≤ b → leb a b ≡ true
le→leb a b h = ground arith

ok-eq : {A : Type 0} {a b : A} → ◌≡◌ {A = Outcome A} (ok a) (ok b) → a ≡ b
ok-eq e = cc

length-values : {V : Type 0} (d : List (Key × V)) → length (values d) ≡ length d
length-values [] = refl
length-values (e ∷ d) = omega (arith, length-values d)

module _ (v : VotingSystem) (epoch online : ℕ) (first : Key × Result) (others : List (Key × Result))
    (own : Result) where
  abbrev amount : ℕ
  amount = consensus_amount online v

  abbrev own_count : ℕ
  own_count = count_equal own (values (first ∷ others))

  similar_lem :
      get ℕ_discrete epoch v.results ≡ some (first ∷ others)
      → get dec_key v.key (first ∷ others) ≡ some own
      → has_enough_similar_results epoch online v
        ≡ ok (if leb amount (length (first ∷ others)) then leb amount own_count else false)
  unfolding has_enough_similar_results
  similar_lem e f = rw (e, f, has_enough_similar_results) refl

  -- The test, in the numbers that it compares.
  similar-amount :
      get ℕ_discrete epoch v.results ≡ some (first ∷ others)
      → get dec_key v.key (first ∷ others) ≡ some own
      → (has_enough_similar_results epoch online v ≡ ok true) ↔ (amount ≤ own_count)
  similar-amount e f =
      let sized = length-values (first ∷ others) in
      let few = count_equal-le own (values (first ∷ others)) in
      let test = similar_lem e f in
      (
        (λ h. large (ok-eq (sym test ∙ h))),
        (λ h.
            let long : leb amount (length (first ∷ others)) ≡ true = le→leb _ _ (omega arith) in
            let many : leb amount own_count ≡ true = le→leb _ _ h in test ∙ ap ok (both long many)),
      )
    where
      large :
          (if leb amount (length (first ∷ others)) then leb amount own_count else false) ≡ true
          → amount ≤ own_count
      large h = ground arith

      both :
          leb amount (length (first ∷ others)) ≡ true
          → leb amount own_count ≡ true
          → (if leb amount (length (first ∷ others)) then leb amount own_count else false) ≡ true
      both h k = rw (h, k)

  -- Where a node holds its own result and no more results than peers are online, the results are
  -- similar enough exactly when its own result is the winner and the winner's count reaches the
  -- consensus amount.
  pub similar-winner :
      get ℕ_discrete epoch v.results ≡ some (first ∷ others)
      → get dec_key v.key (first ∷ others) ≡ some own
      → length (first ∷ others) ≤ online
      → (has_enough_similar_results epoch online v ≡ ok true)
        ↔ ((n : ℕ) × (get_consensus_result epoch v ≡ ok (own, n)) × (amount ≤ n))
  similar-winner e f small =
      let (w, n, run, count, _, most) = get_consensus_result_max v epoch first others e in
      let sized = length-values (first ∷ others) in
      let quorum = consensus_amount-lt v online in
      let (large, enough) = similar-amount e f in
      (
        (λ h.
            let own_large = large h in
            let own_most = most own in
            let same : w ≡ own = elim (dec_keys w own) [
              | yes p ↦ p
              | no apart ↦
                  absurd (omega (arith, count_equal_apart w own (values (first ∷ others)) apart))
            ] in
            (n, run ∙ ap (λ r. ok (r, n)) same, omega arith)),
        (λ (m, won, h).
            let same : w ≡ own = cc in
            let equal : n ≡ m = cc in
            enough
              (subst (λ r. amount ≤ count_equal r (values (first ∷ others))) same (omega arith))),
      )
