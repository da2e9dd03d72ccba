-- ===== src/Witnesses/Cleanups.antt =====
-- Inputs for the theorems on the removal of old epochs (consensus/pkg/engine/voting_system.py).
use sawtooth_ddpoa.Prelude.{
  ℕ, ◌≡◌, ◌∙◌, refl, raise, key_error, List, [], ◌∷◌, none, length, ℕ_discrete, ok, contains,
  if◌then◌else◌,
}
use sawtooth_ddpoa.Prelude.Dict.{get, has, keys}
use sawtooth_ddpoa.Prelude.Distinct.{Distinct, has-contains}
use sawtooth_ddpoa.Voting.{VotingSystem}
use sawtooth_ddpoa.Voting.Election.{remove_old_epoch_data, old_epochs}
use sawtooth_ddpoa.Prelude.Sorting.{sort_by}
use sawtooth_ddpoa.Voting.Cleanup.Incomplete.{cut_short, remove_old_epoch_data_incomplete}
use sawtooth_ddpoa.Voting.Cleanup.{IsComplete, is_outdated, remove_old_epoch_data_cases}

abbrev ten_epochs : {V : Type 0} → V → List (ℕ × V)
ten_epochs x =
    (3, x) ∷ (1, x) ∷ (2, x) ∷ (4, x) ∷ (5, x) ∷ (6, x) ∷ (7, x) ∷ (8, x) ∷ (10, x) ∷ (9, x) ∷ []

abbrev long_running : VotingSystem
long_running = record {
  key = "alice";
  peer_keys = "alice" ∷ "bob" ∷ [];
  ballots = ten_epochs [];
  results = ten_epochs [];
  candidates = ten_epochs ("alice" ∷ []);
  num_slots = 2;
}

ten-Distinct : Distinct ℕ_discrete (keys long_running.results)
unfolding contains ℕ_discrete
ten-Distinct = (refl, (refl, (refl, (refl, (refl, (refl, (refl, (refl, (refl, (refl, tt))))))))))

long_running-IsComplete : IsComplete long_running
long_running-IsComplete = record {
  distinct = ten-Distinct;
  distinct_candidates = ten-Distinct;
  distinct_ballots = ten-Distinct;
  candidates_known = λ e h. has-contains ℕ_discrete e long_running.candidates ∙ h;
  ballots_known = λ e h. has-contains ℕ_discrete e long_running.ballots ∙ h;
}

remove_old_epoch_data_example :
    let (r, w) = remove_old_epoch_data long_running in
    (r ≡ ok tt)
    × (length w.results ≡ 5)
    × (get ℕ_discrete 3 w.results
        ≡ (if is_outdated 3 long_running then none else get ℕ_discrete 3 long_running.results))
    × (get ℕ_discrete 3 w.candidates
        ≡ (if is_outdated 3 long_running then none else get ℕ_discrete 3 long_running.candidates))
    × (get ℕ_discrete 3 w.ballots
        ≡ (if is_outdated 3 long_running then none else get ℕ_discrete 3 long_running.ballots))
remove_old_epoch_data_example = remove_old_epoch_data_cases long_running long_running-IsComplete 3

-- Of the old epochs only the first has candidates and ballots.
abbrev bootstrapped_late : VotingSystem
bootstrapped_late = record long_running {
  candidates = (1, "alice" ∷ []) ∷ [];
  ballots = (1, []) ∷ [];
}

two_and_later : old_epochs bootstrapped_late ≡ 1 ∷ 2 ∷ 3 ∷ 4 ∷ 5 ∷ []
unfolding old_epochs sort_by
two_and_later = refl

remove_old_epoch_data_raises :
    remove_old_epoch_data bootstrapped_late
    ≡ (raise key_error, cut_short (1 ∷ []) 2 bootstrapped_late)
unfolding has ℕ_discrete
remove_old_epoch_data_raises =
    remove_old_epoch_data_incomplete bootstrapped_late (1 ∷ []) 2 (3 ∷ 4 ∷ 5 ∷ []) refl ten-Distinct
      two_and_later (λ k h. has-contains ℕ_discrete k bootstrapped_late.candidates ∙ h)
      (λ k h. has-contains ℕ_discrete k bootstrapped_late.ballots ∙ h) refl
