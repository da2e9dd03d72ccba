-- ===== src/Epoch/Downgrade.antt =====
-- `downgrade_witness` of consensus/pkg/engine/epoch.py.
use mathlib.Core.List.{append_assoc, append-nil, perm_middle}
use mathlib.Core.List.Perm
use sawtooth_ddpoa.Prelude.{
  ℕ, zero, suc, ◌≡◌, refl, inl, inr, List, [], ◌∷◌, ◌++◌, Perm, some, true, false, Key, dec_key,
  index_of-some, length, length-set, set, get_elem?, get_elem?-set_self, Bool-cases, List-cases, ok,
  hang, arith,
}
use sawtooth_ddpoa.Epoch.{
  Epoch, is_witness, position_in_witness_list, downgrade_witness, swap_in, full_candidate_list,
}

set-perm {ℓ} :
    {A : Type ℓ} (xs : List A) (i : ℕ) (a b : A)
    → get_elem? xs i ≡ some a
    → Perm (a ∷ set xs i b) (b ∷ xs)
set-perm [] i a b h = cc
set-perm (x ∷ xs) zero a b h =
    Perm.trans (Perm.swap b a xs) (Perm.cons b (Perm.cons' (ground arith) Perm.rfl))
set-perm (x ∷ xs) (suc i) a b h =
    Perm.trans (Perm.swap x a _) (Perm.trans (Perm.cons x (set-perm xs i a b h)) (Perm.swap b x xs))

-- The queue's front goes to a place in the list, what stood there to the queue's end.
exchange-perm {ℓ} :
    {A : Type ℓ} (ws cs : List A) (i : ℕ) (k c : A)
    → get_elem? ws i ≡ some k
    → Perm (set ws i c ++ (cs ++ (k ∷ []))) (ws ++ (c ∷ cs))
exchange-perm ws cs i k c h = rw (← append_assoc (set ws i c) cs (k ∷ [])) (
    Perm.trans (perm_middle (set ws i c ++ cs) []) (
      rw (append-nil (set ws i c ++ cs))
        (Perm.trans (Perm.append_right cs (set-perm ws i k c h)) (Perm.symm (perm_middle ws cs)))))

-- What a downgrade does, as a relation between the epoch before and after.
pub record Downgraded (k c : Key) (cs : List Key) (e f : Epoch) : Type 0 where
  -- The same nodes, each as often, are witnesses or stand by.
  pub same_nodes : Perm (full_candidate_list f) (full_candidate_list e)
  pub same_length : length f.witnesses ≡ length e.witnesses
  -- The front of the queue takes the place of the downgraded witness, which goes to the end.
  pub place : ℕ
  pub left : get_elem? e.witnesses place ≡ some k
  pub taken : get_elem? f.witnesses place ≡ some c
  pub queue : f.candidates ≡ cs ++ (k ∷ [])
  pub number : f.number ≡ e.number
  pub index : f.current_witness_idx ≡ e.current_witness_idx
  pub slots : f.num_slots ≡ e.num_slots

-- A witness is downgraded wherever the queue has a front.
pub downgrade_witness_replaces :
    (k c : Key) (cs : List Key) (e : Epoch)
    → is_witness k e ≡ true
    → e.candidates ≡ c ∷ cs
    → (f : Epoch) × (downgrade_witness k e ≡ (ok tt, f)) × Downgraded k c cs e f
unfolding downgrade_witness full_candidate_list
downgrade_witness_replaces k c cs e w q =
    let (i, found, small, here) = index_of-some dec_key k e.witnesses w in
    (
      record e { candidates = cs ++ (k ∷ []); witnesses = set e.witnesses i c },
      rw (w, found, q, downgrade_witness, position_in_witness_list, swap_in) refl,
      record {
        same_nodes = rw q (exchange-perm e.witnesses cs i k c here);
        same_length = length-set e.witnesses i c;
        place = i;
        left = here;
        taken = get_elem?-set_self e.witnesses i c small;
        queue = refl;
        number = refl;
        index = refl;
        slots = refl;
      },
    )

-- The three outcomes of a downgrade.
pub data Outcomes (k : Key) (e : Epoch) : Type 0 where
  no_witness : is_witness k e ≡ false → downgrade_witness k e ≡ (ok tt, e) → Outcomes k e
  blocked :
      is_witness k e ≡ true → e.candidates ≡ [] → downgrade_witness k e ≡ (hang, e) → Outcomes k e
  replaced :
      (c : Key) (cs : List Key) (f : Epoch)
      → is_witness k e ≡ true
      → e.candidates ≡ c ∷ cs
      → downgrade_witness k e ≡ (ok tt, f)
      → Downgraded k c cs e f
      → Outcomes k e

-- For every key and epoch: a key that is no witness changes nothing; a witness with nobody standing
-- by blocks the caller for ever, in `Queue.get`; any other witness changes places with the front of
-- the queue and goes to its end, so that the witnesses and candidates together stay the same nodes,
-- each as often, and the witness list keeps its length.
pub downgrade_witness_cases : (k : Key) (e : Epoch) → Outcomes k e
unfolding downgrade_witness
downgrade_witness_cases k e = elim (Bool-cases (is_witness k e)) [
  | inr h ↦ no_witness h (rw (h, downgrade_witness) refl)
  | inl h ↦ elim (List-cases e.candidates) [
    | inl q ↦
        let (i, found, _, _) = index_of-some dec_key k e.witnesses h in
        blocked h q (rw (h, found, q, downgrade_witness, position_in_witness_list, swap_in) refl)
    | inr (c, cs, q) ↦
        let (f, run, d) = downgrade_witness_replaces k c cs e h q in replaced c cs f h q run d
  ]
]
