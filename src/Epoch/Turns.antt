-- ===== src/Epoch/Turns.antt =====
-- A whole epoch: consensus/pkg/engine/epoch.py and its `ROUNDS_PER_EPOCH`.
use mathlib.Core.List.{map-append}
use mathlib.Core.List.Perm
use sawtooth_ddpoa.Prelude.{
  ℕ, zero, suc, ◌+◌, ◌*◌, ◌<◌, ◌≤◌, ◌≡◌, refl, sym, ap, subst, ◌∙◌, All, String, List, [], ◌∷◌,
  ◌++◌, map, Perm, ◌↔◌, some, true, length, length-take, length-drop, length-perm, take, drop,
  take-append-drop, arith,
}
use std.Path.{ap₂}
use sawtooth_ddpoa.Config.{rounds_per_epoch}
use sawtooth_ddpoa.Epoch.{Epoch, is_over, increment_witness, reorder_witnesslist}
use sawtooth_ddpoa.Epoch.Order.{reorder-perm}
use sawtooth_ddpoa.Epoch.Rounds.{
  serve, advance, concat, serve-append, advance-append, serve-advance-Round,
}

module _ (sha256 : String → ℕ) where
  -- What some rounds leave behind, and who was in turn.
  pub record Rounds (k r : ℕ) (bs : List String) (e : Epoch) : Type 0 where
    pub orders : List (List String)
    pub as_many : length orders ≡ k
    pub each_once : All (λ o. Perm o e.witnesses) orders
    pub in_turn : serve sha256 bs e ≡ map some (concat orders)
    pub index : (advance sha256 bs e).current_witness_idx ≡ (r + k) * length e.witnesses
    pub same_witnesses : Perm (advance sha256 bs e).witnesses e.witnesses
    pub queue : (advance sha256 bs e).candidates ≡ e.candidates

  -- Orders of the same witnesses in another order.
  orders-Perm :
      {xs ys : List String} (os : List (List String))
      → Perm xs ys
      → All (λ o. Perm o xs) os
      → All (λ o. Perm o ys) os
  orders-Perm [] p a = tt
  orders-Perm (o ∷ os) p a = (Perm.trans a.0 p, orders-Perm os p a.1)

  Rounds-suc :
      (k r : ℕ) (cs ds : List String) (e : Epoch)
      → length cs ≡ length e.witnesses
      → 0 < length e.witnesses
      → e.current_witness_idx ≡ r * length e.witnesses
      → Rounds k (suc r) ds (advance sha256 cs e)
      → Rounds (suc k) r (cs ++ ds) e
  Rounds-suc k r cs ds e h p i rest =
      let (turns, round) = serve-advance-Round sha256 cs e r h p i in
      record {
        orders = e.witnesses ∷ rest.orders;
        as_many = ap suc rest.as_many;
        each_once = (Perm.refl _, orders-Perm rest.orders round.same_witnesses rest.each_once);
        in_turn =
            serve-append sha256 cs ds e
            ∙ ap₂ ◌++◌ turns rest.in_turn
            ∙ sym (map-append some e.witnesses (concat rest.orders));
        index = rw (advance-append sha256 cs ds e) (
            omega (
              arith,
              rest.index,
              ap (λ (n : ℕ). (r + suc k) * n) (length-perm round.same_witnesses),
            ));
        same_witnesses =
            rw (advance-append sha256 cs ds e)
              (Perm.trans rest.same_witnesses round.same_witnesses);
        queue = rw (advance-append sha256 cs ds e, rest.queue) round.queue;
      }

  rounds :
      (k r : ℕ) (bs : List String) (e : Epoch)
      → length bs ≡ k * length e.witnesses
      → 0 < length e.witnesses
      → e.current_witness_idx ≡ r * length e.witnesses
      → Rounds k r bs e
  unfolding serve advance
  rounds zero r [] e h p i = record {
    orders = [];
    as_many = refl;
    each_once = tt;
    in_turn = refl;
    index = omega (arith, i);
    same_witnesses = Perm.refl _;
    queue = refl;
  }
  rounds zero r (b ∷ bs) e h p i = absurd (omega (arith, h))
  rounds (suc k) r bs e h p i =
      let n = length e.witnesses in
      let first : length (take n bs) ≡ n = omega (arith, length-take n bs, h) in
      let (_, round) = serve-advance-Round sha256 (take n bs) e r first p i in
      let same : length (advance sha256 (take n bs) e).witnesses ≡ n =
        length-perm round.same_witnesses in
      let left : length (drop n bs) ≡ k * n = omega (arith, length-drop n bs, h) in
      subst (λ cs. Rounds (suc k) r cs e) (take-append-drop n bs)
        (Rounds-suc k r (take n bs) (drop n bs) e first p i (
          rounds k (suc r) (drop n bs) (advance sha256 (take n bs) e) (rw same left) (rw same p)
            (rw (round.index, same))))

  -- From the start of an epoch with at least one witness and with no downgrade, after one block for
  -- each of its slots: the slots went by rounds, as many as an epoch has, and in each round every
  -- witness had exactly one, in whatever order the reordering between the rounds gave; the epoch is
  -- over; and the witness list still holds the same witnesses and the queue the same candidates.
  pub epoch_turns :
      (bs : List String) (e : Epoch)
      → 0 < length e.witnesses
      → e.current_witness_idx ≡ 0
      → length bs ≡ length e.witnesses * rounds_per_epoch
      → (orders : List (List String)) × (length orders ≡ rounds_per_epoch)
        × All (λ o. Perm o e.witnesses) orders
        × (serve sha256 bs e ≡ map some (concat orders))
        × (is_over (advance sha256 bs e) ≡ true)
        × Perm (advance sha256 bs e).witnesses e.witnesses
        × ((advance sha256 bs e).candidates ≡ e.candidates)
  unfolding is_over
  epoch_turns bs e p i h =
      let done = rounds rounds_per_epoch 0 bs e (omega (arith, h)) p (omega (arith, i)) in
      (
        done.orders,
        done.as_many,
        done.each_once,
        done.in_turn,
        ground (arith, done.index, length-perm done.same_witnesses),
        done.same_witnesses,
        done.queue,
      )

  step-index :
      (b : String) (e : Epoch)
      → ((increment_witness sha256 b e).1.current_witness_idx ≡ e.current_witness_idx + 1)
        × (length (increment_witness sha256 b e).1.witnesses ≡ length e.witnesses)
  unfolding increment_witness reorder_witnesslist
  step-index b e =
      let next : Epoch = record e { current_witness_idx = e.current_witness_idx + 1 } in
      ground (arith, length-perm (reorder-perm sha256 b next))

  advance-index :
      (bs : List String) (e : Epoch)
      → ((advance sha256 bs e).current_witness_idx ≡ e.current_witness_idx + length bs)
        × (length (advance sha256 bs e).witnesses ≡ length e.witnesses)
  unfolding advance
  advance-index [] e = omega arith
  advance-index (b ∷ bs) e =
      omega (arith, step-index b e, advance-index bs (increment_witness sha256 b e).1)

  -- From any epoch at slot index 0, also one with no witnesses, the epoch is over after a series of
  -- blocks exactly when these are at least three for each witness.
  is_over_after :
      (bs : List String) (e : Epoch)
      → e.current_witness_idx ≡ 0
      → (is_over (advance sha256 bs e) ≡ true) ↔ (length e.witnesses * rounds_per_epoch ≤ length bs)
  unfolding is_over
  is_over_after bs e i = ground (arith, advance-index bs e)
