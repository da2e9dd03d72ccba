-- ===== src/Witnesses/Epochs.antt =====
-- Inputs for the theorems on epochs (consensus/pkg/engine/epoch.py).
use sawtooth_ddpoa.Prelude.{
  ℕ, ◌≡◌, length, All, refl, String, List, [], ◌∷◌, map, Perm, some, true, arith,
}
use sawtooth_ddpoa.Prelude.Sorting.{IsSorted}
use sawtooth_ddpoa.Config.{rounds_per_epoch}
use sawtooth_ddpoa.Utils.{str}
use sawtooth_ddpoa.Epoch.{Epoch, is_over, reorder_witnesslist}
use sawtooth_ddpoa.Epoch.Order.{witness_hash, reorder_witnesslist_lem}
use sawtooth_ddpoa.Epoch.Downgrade.{Outcomes, downgrade_witness_cases}
use sawtooth_ddpoa.Epoch.Rounds.{serve, advance, concat}
use sawtooth_ddpoa.Epoch.Turns.{epoch_turns}
use Prim.Native.String.{len}

-- A stand-in for the hash: it tells texts apart by their length.
abbrev toy_hash : String → ℕ
toy_hash s = len s

abbrev two_witnesses : Epoch
two_witnesses = record {
  number = 4;
  current_witness_idx = 0;
  candidates = "carol" ∷ [];
  witnesses = "alice" ∷ "bob" ∷ [];
  num_slots = 2;
}

abbrev six_blocks : List String
six_blocks = "b1" ∷ "b2" ∷ "b3" ∷ "b4" ∷ "b5" ∷ "b6" ∷ []

reordered : (reorder_witnesslist toy_hash "b2" two_witnesses).witnesses ≡ "bob" ∷ "alice" ∷ []
unfolding reorder_witnesslist str
reordered = refl

reorder_witnesslist_example :
    let r = reorder_witnesslist toy_hash "b2" two_witnesses in
    Perm r.witnesses two_witnesses.witnesses
    × IsSorted (witness_hash toy_hash "b2" 0) r.witnesses
    × (r.number ≡ two_witnesses.number)
    × (r.current_witness_idx ≡ two_witnesses.current_witness_idx)
    × (r.candidates ≡ two_witnesses.candidates)
    × (r.num_slots ≡ two_witnesses.num_slots)
reorder_witnesslist_example = reorder_witnesslist_lem toy_hash "b2" two_witnesses

downgrade_witness_example : Outcomes "alice" two_witnesses
downgrade_witness_example = downgrade_witness_cases "alice" two_witnesses

epoch_turns_example :
    (orders : List (List String)) × (length orders ≡ rounds_per_epoch)
    × All (λ o. Perm o two_witnesses.witnesses) orders
    × (serve toy_hash six_blocks two_witnesses ≡ map some (concat orders))
    × (is_over (advance toy_hash six_blocks two_witnesses) ≡ true)
    × Perm (advance toy_hash six_blocks two_witnesses).witnesses two_witnesses.witnesses
    × ((advance toy_hash six_blocks two_witnesses).candidates ≡ two_witnesses.candidates)
epoch_turns_example = epoch_turns toy_hash six_blocks two_witnesses (omega arith) refl refl
