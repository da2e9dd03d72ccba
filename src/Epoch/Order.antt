-- ===== src/Epoch/Order.antt =====
-- The order of the witness list: `reorder_witnesslist` of consensus/pkg/engine/epoch.py.
use sawtooth_ddpoa.Prelude.{ℕ, ◌≡◌, refl, String, [], ◌∷◌, Perm, Key}
use sawtooth_ddpoa.Prelude.Sorting.{
  sort_by, IsSorted, sort_by-undecorate, sort_by-IsSorted, sort_by-perm,
}
use sawtooth_ddpoa.Utils.{str, concat_and_hash}
use sawtooth_ddpoa.Epoch.{Epoch, reorder_witnesslist}

module _ (sha256 : String → ℕ) where
  -- The key by which a witness is placed.
  abbrev pub witness_hash : String → ℕ → Key → ℕ
  witness_hash seed idx w = concat_and_hash sha256 (w ∷ seed ∷ str idx ∷ [])

  pub reorder-sort :
      (seed : String) (e : Epoch)
      → (reorder_witnesslist sha256 seed e).witnesses
        ≡ sort_by (witness_hash seed e.current_witness_idx) e.witnesses
  unfolding reorder_witnesslist
  reorder-sort seed e = sort_by-undecorate (witness_hash seed e.current_witness_idx) e.witnesses

  pub reorder-perm :
      (seed : String) (e : Epoch) → Perm (reorder_witnesslist sha256 seed e).witnesses e.witnesses
  reorder-perm seed e = rw (reorder-sort seed e) (sort_by-perm _ e.witnesses)

  -- For every seed and epoch the reordered witness list has the same witnesses as before, each as
  -- often, in the order of their hashes; the number, the slot index, the candidate queue and the
  -- number of slots stay as they were.
  pub reorder_witnesslist_lem :
      (seed : String) (e : Epoch)
      → let r = reorder_witnesslist sha256 seed e in
        Perm r.witnesses e.witnesses
        × IsSorted (witness_hash seed e.current_witness_idx) r.witnesses
        × (r.number ≡ e.number)
        × (r.current_witness_idx ≡ e.current_witness_idx)
        × (r.candidates ≡ e.candidates)
        × (r.num_slots ≡ e.num_slots)
  unfolding reorder_witnesslist
  reorder_witnesslist_lem seed e = (
    reorder-perm seed e,
    rw (reorder-sort seed e) (sort_by-IsSorted _ e.witnesses),
    refl,
    refl,
    refl,
    refl,
  )
