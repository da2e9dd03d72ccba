-- ===== src/Epoch/Members.antt =====
-- Who takes part in an epoch (consensus/pkg/engine/epoch.py), over any sequence of its operations.
use mathlib.Core.List.Perm
use sawtooth_ddpoa.Prelude.{
  ℕ, ◌+◌, ◌≤◌, ◌≡◌, refl, sym, subst, ◌∙◌, String, length, length-perm, Perm, Key, arith,
  Bool-cases, Bool, not, ◌&&◌, ◌==◌, ◌%◌, inl, inr,
}
use sawtooth_ddpoa.Epoch.{
  Epoch, full_candidate_list, increment_witness, downgrade_witness, reorder_witnesslist, is_over,
}
use sawtooth_ddpoa.Epoch.Order.{reorder-perm}
use sawtooth_ddpoa.Epoch.Downgrade.{no_witness, blocked, replaced, downgrade_witness_cases}

-- What no operation changes, and the slots, which are only counted up.
pub record Same (e f : Epoch) : Type 0 where
  pub members : Perm (full_candidate_list f) (full_candidate_list e)
  pub places : length f.witnesses ≡ length e.witnesses
  pub number : f.number ≡ e.number
  pub slots : f.num_slots ≡ e.num_slots
  pub onwards : e.current_witness_idx ≤ f.current_witness_idx

abbrev pub next : Epoch → Epoch
next e = record e { current_witness_idx = e.current_witness_idx + 1 }

abbrev pub round_ends : Epoch → Bool
round_ends e = e.current_witness_idx % length e.witnesses == 0 && not (is_over e)

module _ (sha256 : String → ℕ) where
  -- A call on the epoch, whatever its outcome.
  pub data Step (e : Epoch) : Epoch → Type 0 where
    turn : (seed : String) → Step e (increment_witness sha256 seed e).1
    reorder : (seed : String) → Step e (reorder_witnesslist sha256 seed e)
    downgrade : (k : Key) → Step e (downgrade_witness k e).1

  pub data Run (e : Epoch) : Epoch → Type 0 where
    start : Run e e
    more : {f g : Epoch} → Run e f → Step f g → Run e g

  Same-refl : (e : Epoch) → Same e e
  Same-refl e = record {
    members = Perm.refl _;
    places = refl;
    number = refl;
    slots = refl;
    onwards = omega arith;
  }

  Same-trans : (e f g : Epoch) → Same e f → Same f g → Same e g
  Same-trans e f g p q = record {
    members = Perm.trans q.members p.members;
    places = q.places ∙ p.places;
    number = q.number ∙ p.number;
    slots = q.slots ∙ p.slots;
    onwards = omega (arith, p.onwards, q.onwards);
  }

  reorder-Same : (seed : String) (e : Epoch) → Same e (reorder_witnesslist sha256 seed e)
  unfolding full_candidate_list reorder_witnesslist
  reorder-Same seed e = record {
    members = Perm.append_right e.candidates (reorder-perm sha256 seed e);
    places = length-perm (reorder-perm sha256 seed e);
    number = refl;
    slots = refl;
    onwards = omega arith;
  }

  next-Same : (e : Epoch) → Same e (next e)
  unfolding full_candidate_list
  next-Same e = record {
    members = Perm.refl _;
    places = refl;
    number = refl;
    slots = refl;
    onwards = omega arith;
  }

  pub turn-Same : (seed : String) (e : Epoch) → Same e (increment_witness sha256 seed e).1
  unfolding increment_witness
  turn-Same seed e =
      let e' = next e in
      elim (Bool-cases (length e.witnesses == 0)) [
        | inl none_there ↦ rw (none_there, increment_witness) (next-Same e)
        | inr some_there ↦ elim (Bool-cases (round_ends e')) [
          | inl ends ↦
              rw (some_there, ends, increment_witness)
                (Same-trans e e' _ (next-Same e) (reorder-Same seed e'))
          | inr within ↦ rw (some_there, within, increment_witness) (next-Same e)
        ]
      ]

  pub downgrade-Same : (k : Key) (e : Epoch) → Same e (downgrade_witness k e).1
  downgrade-Same k e = elim (downgrade_witness_cases k e) [
    | no_witness _ r ↦ subst (λ x. Same e x.1) (sym r) (Same-refl e)
    | blocked _ _ r ↦ subst (λ x. Same e x.1) (sym r) (Same-refl e)
    | replaced c cs f _ _ r d ↦
        subst (λ x. Same e x.1) (sym r)
          (record {
            members = d.same_nodes;
            places = d.same_length;
            number = d.number;
            slots = d.slots;
            onwards = omega (arith, d.index);
          })
  ]

  Step-Same : {e f : Epoch} → Step e f → Same e f
  Step-Same {e} (turn seed) = turn-Same seed e
  Step-Same {e} (reorder seed) = reorder-Same seed e
  Step-Same {e} (downgrade k) = downgrade-Same k e

  -- Over any sequence of slots, reorderings and downgrades, with any outcomes, the witnesses and the
  -- candidates together stay the same nodes, each as often, there are as many witnesses, the number of
  -- the epoch and of its slots stay, and the index of the slot never goes down.
  pub Run-Same : {e f : Epoch} → Run e f → Same e f
  Run-Same {e} start = Same-refl e
  Run-Same {e} {f} (more {f = m} r s) = Same-trans e m f (Run-Same r) (Step-Same s)
