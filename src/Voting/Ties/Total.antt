-- ===== src/Voting/Ties/Total.antt =====
-- `break_ties` (consensus/pkg/engine/voting_system.py) fills the result up.
use mathlib.Core.List.{append_assoc, append-nil}
use mathlib.Core.List.Perm
use sawtooth_ddpoa.Prelude.{
  ℕ, zero, suc, ◌-◌, ◌≡◌, refl, ap, ◌∙◌, String, List, [], ◌∷◌, ◌++◌, true, false, length,
  length-perm, length-append, All, Perm, contains, contains-append, remove-perm, length-remove, Key,
  dec_key, some, ok, ltb, arith, Bool-cases, inl, inr,
}
use sawtooth_ddpoa.Prelude.Dict.{keys, del_item}
use sawtooth_ddpoa.Prelude.Distinct.{
  Distinct, contains_self, keys-del_item, remove-Distinct, perm_of_same, append-Distinct,
}
use sawtooth_ddpoa.Voting.Ties.{
  Scores, max_score, draws, highest_hash, get_slot_winner, award, break_ties, weights,
}
use sawtooth_ddpoa.Voting.Ties.Scores.{score_ballots_total, length-weights}

max_score-draws :
    (c : Key) (n : ℕ) (s : Scores)
    → (m : ℕ) × (d : Key) × (ds : List Key) × (max_score ((c, n) ∷ s) ≡ some m)
      × (draws m ((c, n) ∷ s) ≡ d ∷ ds)
unfolding max_score draws
max_score-draws c n [] = (n, c, [], refl, ground arith)
max_score-draws c n ((e, k) ∷ s) =
    let (m, d, ds, top, drawn) = max_score-draws e k s in
    elim (Bool-cases (ltb n m)) [
      | inl less ↦ (m, d, ds, ground arith, ground arith)
      | inr not_less ↦ (n, c, draws n ((e, k) ∷ s), ground arith, ground arith)
    ]

contains-draws :
    (w : Key) (m : ℕ) (s : Scores)
    → contains dec_key w (draws m s) ≡ true
    → contains dec_key w (keys s) ≡ true
unfolding draws contains
contains-draws w m [] h = h
contains-draws w m ((c, n) ∷ s) h = ground (arith, contains-draws w m s)

module _ (sha256 : String → ℕ) (seed : ℕ) where
  highest_hash-mem :
      (best : Key) (cs : List Key)
      → contains dec_key (highest_hash sha256 seed best cs) (best ∷ cs) ≡ true
  unfolding highest_hash contains
  highest_hash-mem best [] = contains_self dec_key best []
  highest_hash-mem best (c ∷ cs) = ground (arith, highest_hash-mem best cs, highest_hash-mem c cs)

  winner_drawn :
      (d : Key) (ds : List Key)
      → (w : Key) × (get_slot_winner sha256 seed (d ∷ ds) ≡ some w)
        × (contains dec_key w (d ∷ ds) ≡ true)
  unfolding get_slot_winner
  winner_drawn d [] = (d, refl, contains_self dec_key d [])
  winner_drawn d (e ∷ ds) = (highest_hash sha256 seed d (e ∷ ds), refl, highest_hash-mem d (e ∷ ds))

  -- As many awards as there are scored candidates: the result is extended by all of these.
  award_all :
      (n : ℕ) (s : Scores) (result : List Key)
      → length (keys s) ≡ n
      → Distinct dec_key (keys s)
      → (tail : List Key) × (award sha256 seed n s result ≡ ok (result ++ tail))
        × Perm tail (keys s)
  unfolding award
  award_all zero [] result h d = ([], rw (append-nil result), Perm.refl _)
  award_all zero (e ∷ s) result h d = absurd (omega (arith, h))
  award_all (suc n) [] result h d = absurd (omega (arith, h))
  award_all (suc n) ((c, k) ∷ s) result h d =
      let (m, d', ds, top, drawn) = max_score-draws c k s in
      let (w, won, mem) = winner_drawn d' ds in
      let s0 = (c, k) ∷ s in
      let here = contains-draws w m s0 (rw drawn mem) in
      let s' = del_item dec_key w s0 in
      let fewer = keys-del_item dec_key w s0 in
      let (tail, run, perm) =
        award_all n s' (result ++ (w ∷ []))
          (rw fewer (omega (arith, length-remove dec_key w (keys s0) here, h)))
          (rw fewer (remove-Distinct dec_key w (keys s0) d)) in
      (
        w ∷ tail,
        rw (top, drawn, won, award) (run ∙ ap ok (append_assoc result (w ∷ []) tail)),
        Perm.trans (Perm.cons w (rw fewer at perm))
            (Perm.symm (remove-perm dec_key w (keys s0) here)),
      )

  -- For distinct candidates, a distinct partial result of such candidates, and at least one ballot,
  -- each of which ranks every candidate once: the ties are broken without an exception, the result
  -- given stays in front as it was, and the whole is every candidate exactly once.
  pub break_ties_total :
      (result ps b : List Key) (bs : List (List Key))
      → Distinct dec_key ps
      → Distinct dec_key result
      → ((a : Key) → contains dec_key a result ≡ true → contains dec_key a ps ≡ true)
      → All (λ x. Perm x ps) (b ∷ bs)
      → (tail : List Key) × (break_ties sha256 seed result (b ∷ bs) (length ps)
          ≡ ok (result ++ tail))
        × Perm (result ++ tail) ps
  unfolding break_ties contains
  break_ties_total result ps b bs dp dr sub full =
      let (s, run, sc) =
        score_ballots_total result ps (weights (length ps)) b bs [] (length-weights (length ps))
          full tt in
      let apart : (a : Key)
          → contains dec_key a result ≡ true
          → contains dec_key a (keys s) ≡ false =
        λ a h. sc.scored a ∙ ground (arith, h) in
      let same : (a : Key) → contains dec_key a (result ++ keys s) ≡ contains dec_key a ps =
        λ a. contains-append dec_key a result (keys s) ∙ ground (arith, sc.scored a, sub a) in
      let together : Perm (result ++ keys s) ps =
        perm_of_same dec_key (result ++ keys s) ps
          (append-Distinct dec_key result (keys s) dr sc.distinct apart) dp same in
      let room : length (keys s) ≡ length ps - length result =
        omega (arith, length-perm together, length-append result (keys s)) in
      let (tail, awarded, perm) = award_all (length ps - length result) s result room sc.distinct in
      (tail, rw (run, break_ties) awarded, Perm.trans (Perm.append_left result perm) together)
