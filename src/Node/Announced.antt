-- ===== src/Node/Announced.antt =====
-- The epochs that a vote result has announced, `ready_result` of
-- consensus/pkg/engine/ddpoa_node.py. `Slots` is about the steps to the next slot, `Elections` about
-- vote results, `Runs` about all events.
pub mod Slots
pub mod Elections
pub mod Runs
use sawtooth_ddpoa.Prelude.{
  ℕ, suc, ◌+◌, ◌-◌, ◌≤◌, ◌≡◌, refl, sym, ap, subst, ◌∙◌, ◌⊎◌, inl, inr, arith, true, false, List,
  some, ◌==◌, ◌&&◌, length, Option-cases, Key, and_then, or_raise, ℕ_discrete,
}
use sawtooth_ddpoa.Prelude.Dict.{get, has}
use sawtooth_ddpoa.Epoch
use sawtooth_ddpoa.Epoch.{Epoch}
use sawtooth_ddpoa.Voting
use sawtooth_ddpoa.Node.{Node}
use sawtooth_ddpoa.Node.Methods.{initialize_epoch}

-- No epoch after the next is announced, and where the next one is, its candidates are known.
pub record Announced (n : Node) : Type 0 where
  pub bounded : (e : ℕ) → has ℕ_discrete e n.ready_result ≡ true → e ≤ n.epoch.number + 1
  pub elected :
      has ℕ_discrete (n.epoch.number + 1) n.ready_result ≡ true
      → (cs : List Key) × (Voting.get_candidates (n.epoch.number + 1) n.voting ≡ some cs)

-- A node whose announced epochs are among those of `n`.
pub Announced-transfer :
    (n m : Node)
    → m.epoch.number ≡ n.epoch.number
    → m.voting.candidates ≡ n.voting.candidates
    → ((e : ℕ) → has ℕ_discrete e m.ready_result ≡ true → has ℕ_discrete e n.ready_result ≡ true)
    → Announced n
    → Announced m
unfolding Voting.get_candidates
Announced-transfer n m number candidates fewer a = record {
  bounded = λ e h. subst (λ k. e ≤ k + 1) (sym number) (a.bounded e (fewer e h));
  elected = λ h.
      let (cs, found) = a.elected (
        subst (λ k. has ℕ_discrete (k + 1) n.ready_result ≡ true) number
          (fewer (m.epoch.number + 1) h)) in
      (
        cs,
        ap (get ℕ_discrete (m.epoch.number + 1)) candidates
            ∙ ap (λ k. get ℕ_discrete (k + 1) n.voting.candidates) number
            ∙ found,
      );
}

-- After a step to a later epoch nothing is announced.
pub Announced-later :
    (n m : Node)
    → suc n.epoch.number ≤ m.epoch.number
    → m.ready_result ≡ n.ready_result
    → Announced n
    → Announced m
Announced-later n m later same a = record {
  bounded = λ e h.
      let old = a.bounded e (subst (λ d. has ℕ_discrete e d ≡ true) same h) in
      omega (arith, old, later);
  elected = λ h. absurd (
      let old =
        a.bounded (m.epoch.number + 1)
          (subst (λ d. has ℕ_discrete (m.epoch.number + 1) d ≡ true) same h) in
      omega (arith, old, later));
}

-- Whatever the candidates are, the epoch number is the new one and the announcements stay.
pub initialize_epoch-rest :
    (epoch : ℕ) (n : Node)
    → ((initialize_epoch epoch n).1.epoch.number ≡ epoch)
      × ((initialize_epoch epoch n).1.ready_result ≡ n.ready_result)
unfolding initialize_epoch and_then or_raise Epoch.init Epoch.set_candidates_and_witnesses
initialize_epoch-rest epoch n = elim (Option-cases (Voting.get_candidates epoch n.voting)) [
  | inl e ↦ rw (e, initialize_epoch) (refl, refl)
  | inr (cs, e) ↦ rw (e, initialize_epoch) (refl, refl)
]

-- How an epoch follows another: it is over, and the next one begins with its candidates.
pub record Begins (over : Epoch) (n : Node) (e : Epoch) : Type 0 where
  pub was_over : Epoch.is_over over ≡ true
  pub announced : has ℕ_discrete (n.epoch.number + 1) n.ready_result ≡ true
  pub winner : List Key
  pub known : Voting.get_candidates (n.epoch.number + 1) n.voting ≡ some winner
  pub is_new :
      e ≡ Epoch.set_candidates_and_witnesses winner (Epoch.init (n.epoch.number + 1) n.num_slots)

-- How an epoch goes on: nothing is over and announced, or there is nobody to take turns.
pub record Stays (turned : Epoch) (n : Node) (e : Epoch) : Type 0 where
  pub same : e ≡ turned
  pub why :
      ((length n.epoch.witnesses == 0) ≡ true)
      ⊎ ((Epoch.is_over turned && has ℕ_discrete (n.epoch.number + 1) n.ready_result) ≡ false)
