-- ===== src/Epoch/Transfer.antt =====
-- Handing an epoch over: `full_candidate_list` on one node, `set_candidates_and_witnesses` on another.
use sawtooth_ddpoa.Prelude.{
  ℕ, ◌≡◌, List, Key, length, take-append-drop, take-length_append, drop-length_append, arith,
}
use sawtooth_ddpoa.Epoch.{Epoch, init, set_candidates_and_witnesses, full_candidate_list}

-- A fresh epoch that is given a candidate list hands out the same list, whatever the number of slots.
pub full_candidate_list-set :
    (number slots : ℕ) (cs : List Key)
    → full_candidate_list (set_candidates_and_witnesses cs (init number slots)) ≡ cs
unfolding full_candidate_list set_candidates_and_witnesses init
full_candidate_list-set number slots cs = take-append-drop slots cs

-- An epoch whose witnesses fill its slots is rebuilt from its own candidate list.
pub set-full_candidate_list :
    (e : Epoch)
    → length e.witnesses ≡ e.num_slots
    → set_candidates_and_witnesses (full_candidate_list e) (init e.number e.num_slots)
      ≡ record e { current_witness_idx = 0 }
unfolding full_candidate_list set_candidates_and_witnesses init
set-full_candidate_list e h = ground (
  arith,
  take-length_append e.witnesses e.candidates,
  drop-length_append e.witnesses e.candidates,
)
