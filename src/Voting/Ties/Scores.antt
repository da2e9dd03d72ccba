-- ===== src/Voting/Ties/Scores.antt =====
-- The scores that `break_ties` (consensus/pkg/engine/voting_system.py) sums up: which candidates have
-- one.
use mathlib.Core.Option.{get_or}
use sawtooth_ddpoa.Prelude.{
  ℕ, zero, suc, ◌+◌, ◌-◌, ◌≤◌, ◌≡◌, refl, ap, ◌∙◌, List, [], ◌∷◌, true, false, not, ◌&&◌, ◌||◌,
  length, length-perm, contains, All, Perm, Key, dec_key, ok, arith, Bool-cases, inl, inr, Bool,
}
use sawtooth_ddpoa.Prelude.Dict.{keys, set_item, get}
use sawtooth_ddpoa.Prelude.Distinct.{
  Distinct, contains-keys-set_item, keys-set_item-Distinct, contains-perm,
}
use sawtooth_ddpoa.Voting.Ties.{Scores, halves, weights, score_ballot, score_ballots}

length-halves : (n w : ℕ) → length (halves n w) ≡ suc n
unfolding halves
length-halves zero w = refl
length-halves (suc n) w = ap suc (length-halves n _)

-- There is a weight for each place of a full ballot.
pub length-weights : (n : ℕ) → n ≤ length (weights n)
unfolding weights
length-weights n = omega (arith, length-halves (n - 1) _)

-- After a ballot, the scored candidates are those from before and the ballot's that are not elected.
pub record Scored (result ballot : List Key) (s t : Scores) : Type 0 where
  pub scored :
      (a : Key)
      → contains dec_key a (keys t) ≡ (
          contains dec_key a (keys s)
          || (contains dec_key a ballot && not (contains dec_key a result)))
  pub distinct : Distinct dec_key (keys t)

or_false : (b : Bool) → b ≡ (b || false)
or_false true = refl
or_false false = refl

module _ (result : List Key) where
  elected_front :
      (a c : Key) (cs : List Key)
      → contains dec_key c result ≡ true
      → (contains dec_key a cs && not (contains dec_key a result))
        ≡ (contains dec_key a (c ∷ cs) && not (contains dec_key a result))
  unfolding contains
  elected_front a c cs h = elim (dec_key c a) [
    | yes p ↦ let r : contains dec_key a result ≡ true = rw p at h in ground (arith, r)
    | no p ↦ ground (arith, p)
  ]

  scored_front :
      (a c : Key) (cs : List Key) (k : Bool)
      → contains dec_key c result ≡ false
      → ((k || contains dec_key a (c ∷ []))
          || (contains dec_key a cs && not (contains dec_key a result)))
        ≡ (k || (contains dec_key a (c ∷ cs) && not (contains dec_key a result)))
  unfolding contains
  scored_front a c cs k h = elim (dec_key c a) [
    | yes p ↦ let r : contains dec_key a result ≡ false = rw p at h in ground (arith, r)
    | no p ↦ ground (arith, p)
  ]

  pub score_ballot_total :
      (ws : List ℕ) (b : List Key) (s : Scores)
      → length b ≤ length ws
      → Distinct dec_key (keys s)
      → (t : Scores) × (score_ballot result ws b s ≡ ok t) × Scored result b s t
  unfolding score_ballot contains
  score_ballot_total ws [] s h d =
      (s, refl, record { scored = λ a. or_false (contains dec_key a (keys s)); distinct = d })
  score_ballot_total [] (c ∷ cs) s h d = absurd (omega arith)
  score_ballot_total (w ∷ ws) (c ∷ cs) s h d = elim (Bool-cases (contains dec_key c result)) [
    | inl elected ↦
        let (t, run, sc) = score_ballot_total ws cs s (omega arith) d in
        (
          t,
          rw elected run,
          record {
            scored = λ a.
                sc.scored a
                ∙ ap (λ x. contains dec_key a (keys s) || x) (elected_front a c cs elected);
            distinct = sc.distinct;
          },
        )
    | inr new ↦
        let v = get_or (get dec_key c s) 0 + w in
        let (t, run, sc) =
          score_ballot_total ws cs (set_item dec_key c v s) (omega arith)
            (keys-set_item-Distinct dec_key c v s d) in
        (
          t,
          rw new run,
          record {
            scored = λ a.
                sc.scored a
                ∙ ap (λ x. x || (contains dec_key a cs && not (contains dec_key a result)))
                    (contains-keys-set_item dec_key a c v s)
                ∙ scored_front a c cs (contains dec_key a (keys s)) new;
            distinct = sc.distinct;
          },
        )
  ]

  absorb : (k x : Bool) → ((k || x) || x) ≡ (k || x)
  absorb k x = ground arith

  -- Full ballots, one at least, score every candidate that is not elected.
  pub score_ballots_total :
      (ps : List Key) (ws : List ℕ) (b : List Key) (bs : List (List Key)) (s : Scores)
      → length ps ≤ length ws
      → All (λ x. Perm x ps) (b ∷ bs)
      → Distinct dec_key (keys s)
      → (t : Scores) × (score_ballots result ws (b ∷ bs) s ≡ ok t) × Scored result ps s t
  unfolding score_ballots
  score_ballots_total ps ws b [] s h full d =
      let (t, run, sc) = score_ballot_total ws b s (omega (arith, length-perm full.0)) d in
      (
        t,
        rw (run, score_ballots),
        record {
          scored = λ a. rw (← contains-perm dec_key a full.0) (sc.scored a);
          distinct = sc.distinct;
        },
      )
  score_ballots_total ps ws b (c ∷ bs) s h full d =
      let (t, run, sc) = score_ballot_total ws b s (omega (arith, length-perm full.0)) d in
      let (u, more, su) = score_ballots_total ps ws c bs t h full.1 sc.distinct in
      (
        u,
        rw (run, score_ballots) more,
        record {
          scored = λ a.
              let x = contains dec_key a ps && not (contains dec_key a result) in
              su.scored a
              ∙ ap (λ k. k || x) (rw (← contains-perm dec_key a full.0) (sc.scored a))
              ∙ absorb (contains dec_key a (keys s)) x;
          distinct = su.distinct;
        },
      )
