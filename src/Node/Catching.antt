-- ===== src/Node/Catching.antt =====
-- A node that catches up goes on to do so over the slots (consensus/pkg/engine/ddpoa_node.py).
use sawtooth_ddpoa.Prelude.{
  ℕ, ◌≡◌, refl, ap, ◌∙◌, inl, inr, arith, false, Bool, Bool-cases, Option-cases, Key, String,
  Outcome, ok, raise, hang, and_then, or_raise, ℕ_discrete, dec_key,
}
use sawtooth_ddpoa.Prelude.Dict.{get, has}
use sawtooth_ddpoa.Floats.{Float}
use sawtooth_ddpoa.Epoch
use sawtooth_ddpoa.Epoch.{Epoch}
use sawtooth_ddpoa.Voting
use sawtooth_ddpoa.Node.{Node, State, idle, production, catching_up, is_state, update_peer}
use sawtooth_ddpoa.Node.Methods.{enter, initialize_epoch, finalize_epoch, next_epoch_number, reward}
use sawtooth_ddpoa.Node.Handlers.{after_increment, resume, next_slot}
use sawtooth_ddpoa.Node.Announced.Slots.{raise-state}

abbrev pub is_catching : Node → Bool
is_catching n = is_state n.state catching_up

enter-catching :
    (s : State) (n : Node)
    → is_state s catching_up ≡ false
    → is_catching (enter s n) ≡ is_catching n
enter-catching s n other = elim (Bool-cases (is_catching n)) [
  | inl c ↦ rw c c
  | inr no_catch ↦ rw no_catch other
]

initialize_epoch-state :
    (epoch : ℕ) (n : Node) → (initialize_epoch epoch n).1.state ≡ (enter production n).state
unfolding initialize_epoch and_then or_raise Epoch.init
initialize_epoch-state epoch n = elim (Option-cases (Voting.get_candidates epoch n.voting)) [
  | inl e ↦ rw (e, initialize_epoch) refl
  | inr (cs, e) ↦ rw (e, initialize_epoch) refl
]

initialize_epoch-catching :
    (epoch : ℕ) (n : Node) → is_catching (initialize_epoch epoch n).1 ≡ is_catching n
initialize_epoch-catching epoch n =
    ap (λ s. is_state s catching_up) (initialize_epoch-state epoch n)
    ∙ enter-catching production n refl

finalize_epoch-catching : (n : Node) → is_catching (finalize_epoch n) ≡ is_catching n
unfolding finalize_epoch
finalize_epoch-catching n = enter-catching idle n refl

module _ (sha256 : String → ℕ) where
  after_increment-catching : (n : Node) → is_catching (after_increment sha256 n).1 ≡ is_catching n
  unfolding after_increment
  after_increment-catching n = elim (Bool-cases (Epoch.is_over n.epoch)) [
    | inr within ↦ rw (within, after_increment) refl
    | inl over ↦
        elim (Bool-cases (has ℕ_discrete (next_epoch_number n) (finalize_epoch n).ready_result)) [
          | inr silent ↦ rw (over, silent, after_increment) (finalize_epoch-catching n)
          | inl ready ↦
              rw (over, ready, after_increment)
                (initialize_epoch-catching (next_epoch_number n) (finalize_epoch n)
                  ∙ finalize_epoch-catching n)
        ]
  ]

  resume-catching :
      (r : Outcome (Unit {0}) × Epoch) (n : Node)
      → is_catching (resume sha256 r n).1 ≡ is_catching n
  unfolding resume
  resume-catching (ok x, e) n = after_increment-catching (record n { epoch = e })
  resume-catching (raise x, e) n = ap (λ (m : Node). is_catching m) (raise-state sha256 x e n)
  resume-catching (hang, e) n = refl

  pub next_slot-catching :
      (seed : String) (n : Node) → is_catching (next_slot sha256 seed n).1 ≡ is_catching n
  unfolding next_slot
  next_slot-catching seed n = resume-catching (Epoch.increment_witness sha256 seed n.epoch) n

pub reward-catching :
    (mul : Float → Float → Float) (k : Key) (n : Node)
    → is_catching (reward mul k n).1 ≡ is_catching n
unfolding reward update_peer
reward-catching mul k n = elim (Option-cases (get dec_key k n.peers)) [
  | inl e ↦ ground (arith, e)
  | inr (p, e) ↦ ground (arith, e)
]
