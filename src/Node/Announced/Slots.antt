-- ===== src/Node/Announced/Slots.antt =====
-- How `next_slot` of consensus/pkg/engine/ddpoa_node.py starts an epoch that is announced.
use sawtooth_ddpoa.Prelude.{
  ℕ, ◌+◌, ◌-◌, ◌≡◌, ◌≢◌, refl, sym, ap, subst, ◌∙◌, ◌⊎◌, inl, inr, arith, true, false, List, [],
  ◌∷◌, some, ◌==◌, ◌&&◌, length, Bool-cases, String, Outcome, ok, raise, hang, Exn, zero_division,
  ltb, ℕ_discrete,
}
use sawtooth_ddpoa.Prelude.Dict.{has-del_item_ne, has, del_item}
use sawtooth_ddpoa.Epoch
use sawtooth_ddpoa.Epoch.{Epoch}
use sawtooth_ddpoa.Epoch.Members.{turn-Same}
use sawtooth_ddpoa.Voting
use sawtooth_ddpoa.Node.{Node}
use sawtooth_ddpoa.Node.Methods.{finalize_epoch, next_epoch_number}
use sawtooth_ddpoa.Node.Handlers.{after_increment, resume, next_slot}
use sawtooth_ddpoa.Node.Results.{initialize_epoch-epoch}
use sawtooth_ddpoa.Node.Announced.{
  Announced, Announced-transfer, Announced-later, initialize_epoch-rest, Stays, Begins,
}

has-del_item :
    {V : Type 0} (k e : ℕ) (d : List (ℕ × V))
    → has ℕ_discrete e (del_item ℕ_discrete k d) ≡ true
    → has ℕ_discrete e d ≡ true
unfolding has del_item
has-del_item k e [] h = h
has-del_item k e ((j, v) ∷ d) h = ground (arith, has-del_item k e d)

finalize-fewer :
    (n : Node) (e : ℕ)
    → has ℕ_discrete e (finalize_epoch n).ready_result ≡ true
    → has ℕ_discrete e n.ready_result ≡ true
unfolding finalize_epoch
finalize-fewer n e h = elim (Bool-cases (ltb n.epoch.number 2)) [
  | inl early ↦ rw early at h
  | inr late ↦ has-del_item (n.epoch.number - 2) e n.ready_result (rw late at h)
]

pub finalize-next :
    (n : Node)
    → has ℕ_discrete (n.epoch.number + 1) (finalize_epoch n).ready_result
      ≡ has ℕ_discrete (n.epoch.number + 1) n.ready_result
unfolding finalize_epoch
finalize-next n = elim (Bool-cases (ltb n.epoch.number 2)) [
  | inl early ↦ rw early refl
  | inr late ↦ rw late (
      has-del_item_ne ℕ_discrete (n.epoch.number - 2) (n.epoch.number + 1) n.ready_result
        (omega arith))
]

finalize-Announced : (n : Node) → Announced n → Announced (finalize_epoch n)
unfolding finalize_epoch
finalize-Announced n a = Announced-transfer n (finalize_epoch n) refl refl (finalize-fewer n) a

module _ (sha256 : String → ℕ) where
  after_increment-cases :
      (n : Node)
      → Announced n
      → Announced (after_increment sha256 n).1
        × (Stays n.epoch n (after_increment sha256 n).1.epoch
            ⊎ Begins n.epoch n (after_increment sha256 n).1.epoch)
  unfolding after_increment next_epoch_number Epoch.next_epoch_number finalize_epoch
  after_increment-cases n a = elim (Bool-cases (Epoch.is_over n.epoch)) [
    | inr within ↦
        rw (within, after_increment) (a, inl (record { same = refl; why = inr (rw within refl) }))
    | inl over ↦
        let closed = finalize_epoch n in
        let kept = finalize-Announced n a in
        elim (Bool-cases (has ℕ_discrete (n.epoch.number + 1) closed.ready_result)) [
          | inr silent ↦
              let quiet : has ℕ_discrete (n.epoch.number + 1) n.ready_result ≡ false =
                sym (finalize-next n) ∙ silent in
              rw (over, silent, after_increment)
                (kept, inl (record { same = refl; why = inr (rw (over, quiet) refl) }))
          | inl ready ↦
              let (cs, found) = kept.elected ready in
              let (number, rest) = initialize_epoch-rest (n.epoch.number + 1) closed in
              rw (over, ready, after_increment)
                (
                  Announced-later closed _ (omega (arith, number)) rest kept,
                  inr (record {
                    was_over = over;
                    announced = finalize-fewer n (n.epoch.number + 1) ready;
                    winner = cs;
                    known = found;
                    is_new = initialize_epoch-epoch (n.epoch.number + 1) cs closed found;
                  }),
                )
        ]
  ]

  with_epoch-Announced :
      (n : Node) (e : Epoch)
      → e.number ≡ n.epoch.number
      → Announced n
      → Announced (record n { epoch = e })
  with_epoch-Announced n e h a = Announced-transfer n (record n { epoch = e }) h refl (λ k p. p) a

  Begins-transfer :
      (n : Node) (o e : Epoch)
      → o.number ≡ n.epoch.number
      → Begins o (record n { epoch = o }) e
      → Begins o n e
  Begins-transfer n o e h b = record {
    was_over = b.was_over;
    announced = subst (λ k. has ℕ_discrete (k + 1) n.ready_result ≡ true) h b.announced;
    winner = b.winner;
    known = subst (λ k. Voting.get_candidates (k + 1) n.voting ≡ some b.winner) h b.known;
    is_new =
        subst
          (λ k. e ≡ Epoch.set_candidates_and_witnesses b.winner (Epoch.init (k + 1) n.num_slots)) h
          b.is_new;
  }

  Stays-transfer :
      (n : Node) (o e : Epoch)
      → o.number ≡ n.epoch.number
      → length o.witnesses ≡ length n.epoch.witnesses
      → Stays o (record n { epoch = o }) e
      → Stays o n e
  Stays-transfer n o e h l s = record {
    same = s.same;
    why = elim s.why [
      | inl nobody ↦ inl (subst (λ k. (k == 0) ≡ true) l nobody)
      | inr quiet ↦
          inr (
            subst (λ k. (Epoch.is_over o && has ℕ_discrete (k + 1) n.ready_result) ≡ false) h quiet)
    ];
  }

  raised :
      (seed : String) (e : Epoch)
      → (Epoch.increment_witness sha256 seed e).0 ≢ ok tt
      → (length e.witnesses == 0) ≡ true
  unfolding Epoch.increment_witness
  raised seed e h = ground (arith, h)

  pub raise-state :
      (x : Exn) (e : Epoch) (n : Node) → (resume sha256 (raise x, e) n).1 ≡ record n { epoch = e }
  unfolding resume
  raise-state zero_division e n = refl
  raise-state x e n = refl

  resume-cases :
      (r : Outcome (Unit {0}) × Epoch) (n : Node)
      → r.1.number ≡ n.epoch.number
      → length r.1.witnesses ≡ length n.epoch.witnesses
      → (r.0 ≢ ok tt → (length n.epoch.witnesses == 0) ≡ true)
      → Announced n
      → Announced (resume sha256 r n).1
        × (Stays r.1 n (resume sha256 r n).1.epoch ⊎ Begins r.1 n (resume sha256 r n).1.epoch)
  unfolding resume
  resume-cases (ok x, e) n h l f a =
      let (kept, how) =
        after_increment-cases (record n { epoch = e }) (with_epoch-Announced n e h a) in
      (
        kept,
        elim how [
          | inl stays ↦ inl (Stays-transfer n e _ h l stays)
          | inr begins ↦ inr (Begins-transfer n e _ h begins)
        ],
      )
  resume-cases (raise x, e) n h l f a =
      let same = sym (raise-state x e n) in
      (
        subst Announced same (with_epoch-Announced n e h a),
        inl (record { same = ap (λ (m : Node). m.epoch) (sym same); why = inl (f (λ p. cc)) }),
      )
  resume-cases (hang, e) n h l f a =
      (with_epoch-Announced n e h a, inl (record { same = refl; why = inl (f (λ p. cc)) }))

  pub next_slot-cases :
      (seed : String) (n : Node)
      → Announced n
      → let m = (next_slot sha256 seed n).1 in
        let turned = (Epoch.increment_witness sha256 seed n.epoch).1 in
        Announced m × (Stays turned n m.epoch ⊎ Begins turned n m.epoch)
  unfolding next_slot
  next_slot-cases seed n a =
      resume-cases (Epoch.increment_witness sha256 seed n.epoch) n
        (turn-Same sha256 seed n.epoch).number (turn-Same sha256 seed n.epoch).places
        (raised seed n.epoch) a
