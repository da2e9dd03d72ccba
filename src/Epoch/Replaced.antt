-- ===== src/Epoch/Replaced.antt =====
-- A witness that is downgraded before the slot passes on (consensus/pkg/engine/epoch.py).
use mathlib.Core.List.Perm
use sawtooth_ddpoa.Prelude.{
  ℕ, zero, suc, ◌+◌, ◌<◌, ◌==◌, ◌≡◌, ◌≢◌, refl, sym, subst, ◌∙◌, String, List, [], ◌∷◌, ◌++◌, some,
  none, true, false, Key, dec_key, contains, length, get_elem?, set, ok, arith, if_pos, if_neg,
  Perm, length-set, Bool-cases, inl, inr, index_of, index_of-some,
}
use sawtooth_ddpoa.Prelude.Distinct.{Distinct, contains_self, contains-perm, in_tail}
use sawtooth_ddpoa.Prelude.Trimming.{Distinct-left, Distinct-apart}
use sawtooth_ddpoa.Epoch.{
  Epoch, is_witness, position_in_witness_list, downgrade_witness, swap_in, full_candidate_list,
  current_witness, witness_ahead, increment_witness, reorder_witnesslist,
}
use sawtooth_ddpoa.Epoch.Order.{reorder-perm}
use sawtooth_ddpoa.Epoch.Members.{next, round_ends, start, more, turn, downgrade, Run-Same}

get_elem?-contains :
    (xs : List Key) (i : ℕ) (k : Key) → get_elem? xs i ≡ some k → contains dec_key k xs ≡ true
unfolding contains
get_elem?-contains [] i k e = cc
get_elem?-contains (x ∷ xs) zero k e = let same : x ≡ k = cc in if_pos (dec_key x k) same _ _
get_elem?-contains (x ∷ xs) (suc i) k e = in_tail dec_key k x xs (get_elem?-contains xs i k e)

contains-set_gone :
    (xs : List Key) (i : ℕ) (k c : Key)
    → Distinct dec_key xs
    → get_elem? xs i ≡ some k
    → c ≢ k
    → contains dec_key k (set xs i c) ≡ false
unfolding contains
contains-set_gone [] i k c d e h = refl
contains-set_gone (x ∷ xs) zero k c d e h =
    let same : x ≡ k = cc in
    rw (if_neg (dec_key c k) h) (subst (λ y. contains dec_key y xs ≡ false) same d.0)
contains-set_gone (x ∷ xs) (suc i) k c d e h =
    let rest = contains-set_gone xs i k c d.1 e h in
    let there = get_elem?-contains xs i k e in
    elim (dec_key x k) [
      | yes p ↦
          let f : contains dec_key k xs ≡ false =
            subst (λ y. contains dec_key y xs ≡ false) p d.0 in
          cc
      | no p ↦ rw (if_neg (dec_key x k) p) rest
    ]

contains-set_new :
    (xs : List Key) (i : ℕ) (k c : Key)
    → get_elem? xs i ≡ some k
    → contains dec_key c (set xs i c) ≡ true
unfolding contains
contains-set_new [] i k c e = cc
contains-set_new (x ∷ xs) zero k c e = contains_self dec_key c xs
contains-set_new (x ∷ xs) (suc i) k c e =
    in_tail dec_key c x (set xs i c) (contains-set_new xs i k c e)

-- The witness in turn is a witness.
pub current_witness-contains :
    (k : Key) (e : Epoch) → current_witness e ≡ some k → contains dec_key k e.witnesses ≡ true
unfolding current_witness witness_ahead
current_witness-contains k e h = elim (Bool-cases (length e.witnesses == 0)) [
  | inl none_there ↦ let f : none ≡ some k = rw none_there at h in cc
  | inr some_there ↦ get_elem?-contains e.witnesses _ k (rw some_there at h)
]

-- What a slot that passes on leaves as it is.
turn-perm :
    (sha256 : String → ℕ) (seed : String) (e : Epoch)
    → Perm (increment_witness sha256 seed e).1.witnesses e.witnesses
unfolding increment_witness
turn-perm sha256 seed e = elim (Bool-cases (length e.witnesses == 0)) [
  | inl none_there ↦ rw (none_there, increment_witness) (Perm.refl _)
  | inr some_there ↦ elim (Bool-cases (round_ends (next e))) [
    | inl ends ↦ rw (some_there, ends, increment_witness) (reorder-perm sha256 seed (next e))
    | inr within ↦ rw (some_there, within, increment_witness) (Perm.refl _)
  ]
]

turn_lem :
    (sha256 : String → ℕ) (seed : String) (e : Epoch)
    → 0 < length e.witnesses
    → ((increment_witness sha256 seed e).0 ≡ ok tt)
      × ((increment_witness sha256 seed e).1.current_witness_idx ≡ e.current_witness_idx + 1)
unfolding increment_witness reorder_witnesslist
turn_lem sha256 seed e h = (ground arith, ground arith)

swap_lem :
    (k c : Key) (cs : List Key) (e : Epoch) (i : ℕ)
    → contains dec_key k e.witnesses ≡ true
    → index_of dec_key k e.witnesses ≡ some i
    → e.candidates ≡ c ∷ cs
    → downgrade_witness k e
      ≡ (ok tt, record e { candidates = cs ++ (k ∷ []); witnesses = set e.witnesses i c })
unfolding downgrade_witness
swap_lem k c cs e i h found q =
    rw (h, found, q, downgrade_witness, is_witness, position_in_witness_list, swap_in) refl

-- The witness in turn is downgraded, and then the slot passes on.
pub record Replaced (k c : Key) (e g : Epoch) : Type 0 where
  pub gone : contains dec_key k g.witnesses ≡ false
  pub new : contains dec_key c g.witnesses ≡ true
  pub index : g.current_witness_idx ≡ e.current_witness_idx + 1
  pub number : g.number ≡ e.number
  pub members : Perm (full_candidate_list g) (full_candidate_list e)

abbrev pub downgraded : Key → Epoch → Epoch
downgraded k e = (downgrade_witness k e).1

abbrev pub passed : (String → ℕ) → String → Key → Epoch → Epoch
passed sha256 seed k e = (increment_witness sha256 seed (downgraded k e)).1

module _ (sha256 : String → ℕ) (seed : String) (k c : Key) (cs : List Key) (e : Epoch) where
  pub downgrade-turn :
      current_witness e ≡ some k
      → e.candidates ≡ c ∷ cs
      → Distinct dec_key (full_candidate_list e)
      → ((downgrade_witness k e).0 ≡ ok tt)
        × ((increment_witness sha256 seed (downgraded k e)).0 ≡ ok tt)
        × Replaced k c e (passed sha256 seed k e)
  unfolding full_candidate_list
  downgrade-turn in_turn q d =
      let here = current_witness-contains k e in_turn in
      let (i, found, small, at_i) = index_of-some dec_key k e.witnesses here in
      let run = swap_lem k c cs e i here found q in
      let f : Epoch = record e { candidates = cs ++ (k ∷ []); witnesses = set e.witnesses i c } in
      let both = turn_lem sha256 seed f (omega (arith, length-set e.witnesses i c, small)) in
      let ours = Run-Same sha256 (more (more start (downgrade k)) (turn seed)) in
      let order = turn-perm sha256 seed f in
      let distinct = Distinct-left dec_key e.witnesses e.candidates d in
      let absent = Distinct-apart dec_key k e.witnesses e.candidates d here in
      subst
        (λ r.
          (r.0 ≡ ok tt)
          × ((increment_witness sha256 seed r.1).0 ≡ ok tt)
          × Replaced k c e (increment_witness sha256 seed r.1).1)
        (sym run)
        (
          refl,
          both.0,
          record {
            gone =
                contains-perm dec_key k order
                ∙ contains-set_gone e.witnesses i k c distinct at_i (not_first absent);
            new = contains-perm dec_key c order ∙ contains-set_new e.witnesses i k c at_i;
            index = both.1;
            number =
                subst (λ r. (increment_witness sha256 seed r.1).1.number ≡ e.number) run
                  ours.number;
            members =
                subst
                  (λ r.
                    Perm (full_candidate_list (increment_witness sha256 seed r.1).1)
                      (full_candidate_list e))
                  run ours.members;
          },
        )
    where
      not_first : contains dec_key k e.candidates ≡ false → c ≢ k
      not_first absent p =
          let first = contains_self dec_key c cs in
          let own = subst (λ x. contains dec_key x (c ∷ cs) ≡ true) p first in
          let other : contains dec_key k (c ∷ cs) ≡ false =
            subst (λ l. contains dec_key k l ≡ false) q absent in
          cc
