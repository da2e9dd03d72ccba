-- ===== src/Node/Agreement.antt =====
-- What decides the epoch after a step to the next slot (consensus/pkg/engine/ddpoa_node.py): two nodes
-- that agree on it have the same epoch afterwards.
use sawtooth_ddpoa.Prelude.{
  ℕ, ◌+◌, ◌≡◌, refl, sym, ap, ◌∙◌, inl, inr, Bool, ◌&&◌, List, Option, none, some, Bool-cases,
  Option-cases, Key, String, Outcome, ok, raise, hang, and_then, or_raise, ℕ_discrete,
  if◌then◌else◌,
}
use sawtooth_ddpoa.Prelude.Dict.{has}
use sawtooth_ddpoa.Epoch
use sawtooth_ddpoa.Epoch.{Epoch}
use sawtooth_ddpoa.Epoch.Members.{turn-Same}
use sawtooth_ddpoa.Voting
use sawtooth_ddpoa.Node.{Node}
use sawtooth_ddpoa.Node.Methods.{initialize_epoch, finalize_epoch, next_epoch_number}
use sawtooth_ddpoa.Node.Handlers.{after_increment, resume, next_slot}
use sawtooth_ddpoa.Node.Announced.Slots.{finalize-next, raise-state}

-- Whether the next epoch is announced, and its candidates.
abbrev pub announced : Node → Bool
announced n = has ℕ_discrete (n.epoch.number + 1) n.ready_result

abbrev pub elected : Node → Option (List Key)
elected n = Voting.get_candidates (n.epoch.number + 1) n.voting

-- A new epoch, from its candidates if there are any.
abbrev begun : ℕ → ℕ → Option (List Key) → Epoch
begun number slots none = Epoch.init number slots
begun number slots (some cs) = Epoch.set_candidates_and_witnesses cs (Epoch.init number slots)

begun-epoch :
    (number : ℕ) (n : Node)
    → (initialize_epoch number n).1.epoch
      ≡ begun number n.num_slots (Voting.get_candidates number n.voting)
unfolding initialize_epoch and_then or_raise Epoch.init
begun-epoch number n = elim (Option-cases (Voting.get_candidates number n.voting)) [
  | inl e ↦ rw (e, initialize_epoch) refl
  | inr (cs, e) ↦ rw (e, initialize_epoch) refl
]

-- The epoch after the turn `e`.
abbrev after_turn : Bool → ℕ → Option (List Key) → Epoch → Epoch
after_turn ready slots cs e = if Epoch.is_over e && ready then begun (e.number + 1) slots cs else e

module _ (sha256 : String → ℕ) where
  after_increment-epoch :
      (n : Node)
      → (after_increment sha256 n).1.epoch
        ≡ after_turn (announced n) n.num_slots (elected n) n.epoch
  unfolding after_increment next_epoch_number Epoch.next_epoch_number finalize_epoch
  after_increment-epoch n = elim (Bool-cases (Epoch.is_over n.epoch)) [
    | inr within ↦ rw (within, after_increment) refl
    | inl over ↦ elim (Bool-cases (announced n)) [
      | inr silent ↦ rw (over, silent, finalize-next n ∙ silent, after_increment) refl
      | inl ready ↦
          rw (over, ready, finalize-next n ∙ ready, after_increment)
            (begun-epoch (n.epoch.number + 1) (finalize_epoch n))
    ]
  ]

-- Two nodes that agree on their epoch and on the one that is to follow.
pub record Agree (n m : Node) : Type 0 where
  pub same_epoch : m.epoch ≡ n.epoch
  pub same_announced : announced m ≡ announced n
  pub same_elected : elected m ≡ elected n
  pub same_slots : m.num_slots ≡ n.num_slots

module _ (sha256 : String → ℕ) where
  -- The two hold the same turn of their epoch.
  turned :
      (e : Epoch) (n m : Node)
      → e.number ≡ n.epoch.number
      → Agree n m
      → (after_increment sha256 (record m { epoch = e })).1.epoch
        ≡ (after_increment sha256 (record n { epoch = e })).1.epoch
  turned e n m number a =
      let there : e.number ≡ m.epoch.number =
        number ∙ ap (λ (x : Epoch). x.number) (sym a.same_epoch) in
      let flags : announced (record m { epoch = e }) ≡ announced (record n { epoch = e }) =
        ap (λ k. has ℕ_discrete (k + 1) m.ready_result) there
        ∙ a.same_announced
        ∙ ap (λ k. has ℕ_discrete (k + 1) n.ready_result) (sym number) in
      let lists : elected (record m { epoch = e }) ≡ elected (record n { epoch = e }) =
        ap (λ k. Voting.get_candidates (k + 1) m.voting) there
        ∙ a.same_elected
        ∙ ap (λ k. Voting.get_candidates (k + 1) n.voting) (sym number) in
      after_increment-epoch sha256 (record m { epoch = e })
      ∙ ap (λ b. after_turn b m.num_slots (elected (record m { epoch = e })) e) flags
      ∙ ap
          (λ s.
            after_turn (announced (record n { epoch = e })) s (elected (record m { epoch = e })) e)
          a.same_slots
      ∙ ap (λ o. after_turn (announced (record n { epoch = e })) n.num_slots o e) lists
      ∙ sym (after_increment-epoch sha256 (record n { epoch = e }))

  resumed :
      (r : Outcome (Unit {0}) × Epoch) (n m : Node)
      → r.1.number ≡ n.epoch.number
      → Agree n m
      → (resume sha256 r m).1.epoch ≡ (resume sha256 r n).1.epoch
  unfolding resume
  resumed (ok x, e) n m number a = turned e n m number a
  resumed (raise x, e) n m number a =
      ap (λ (k : Node). k.epoch) (raise-state sha256 x e m)
      ∙ ap (λ (k : Node). k.epoch) (sym (raise-state sha256 x e n))
  resumed (hang, e) n m number a = refl

  pub next_slot-Agree :
      (seed : String) (n m : Node)
      → Agree n m
      → (next_slot sha256 seed m).1.epoch ≡ (next_slot sha256 seed n).1.epoch
  unfolding next_slot
  next_slot-Agree seed n m a =
      ap (λ e. (resume sha256 (Epoch.increment_witness sha256 seed e) m).1.epoch) a.same_epoch
      ∙ resumed (Epoch.increment_witness sha256 seed n.epoch) n m
          (turn-Same sha256 seed n.epoch).number a
