-- ===== src/Node/Announced/Runs.antt =====
-- The epochs of a node over any sequence of its events (consensus/pkg/engine/ddpoa_node.py).
use sawtooth_ddpoa.Prelude.{
  ℕ, ◌+◌, ◌≤◌, ◌≡◌, refl, ap, subst, ◌⊎◌, inl, inr, arith, true, false, List, [], none, ◌==◌,
  Bool-cases, Option-cases, Key, String, and_then, and_then-keeps, ℕ_discrete,
}
use sawtooth_ddpoa.Prelude.Dict.{has}
use sawtooth_ddpoa.Epoch
use sawtooth_ddpoa.Epoch.Members.{downgrade-Same}
use sawtooth_ddpoa.Voting
use sawtooth_ddpoa.Voting.{Ballot, Result}
use sawtooth_ddpoa.Voting.Election.{fill_ballot}
use sawtooth_ddpoa.Host.{Host}
use sawtooth_ddpoa.Node.{Node, broadcast}
use sawtooth_ddpoa.Node.Methods.{next_epoch_number, broadcast_result, vote, downgrade, bootstrap}
use sawtooth_ddpoa.Node.Handlers.{
  settle_ballots, next_slot, handle_vote_result, handle_vote, timer_fires,
}
use sawtooth_ddpoa.Node.Ballots.{
  SameBallots, settle_ballots-SameBallots, broadcast_result-SameBallots,
}
use sawtooth_ddpoa.Node.Announced.{Announced, Announced-transfer, Announced-later, Stays, Begins}
use sawtooth_ddpoa.Node.Announced.Slots.{next_slot-cases}
use sawtooth_ddpoa.Node.Announced.Elections.{handle_vote_result-Announced}

SameBallots-Announced : (n m : Node) → SameBallots n m → Announced n → Announced m
SameBallots-Announced n m s a =
    Announced-transfer n m (ap (λ (e : Epoch.Epoch). e.number) s.same_epoch) s.same_candidates
      (λ e h. subst (λ d. has ℕ_discrete e d ≡ true) s.same_ready h) a

-- A change of what the announcements do not depend on.
untouched :
    (n m : Node)
    → m.epoch ≡ n.epoch
    → m.voting.candidates ≡ n.voting.candidates
    → m.ready_result ≡ n.ready_result
    → Announced n
    → Announced m
untouched n m e c r a =
    Announced-transfer n m (ap (λ (x : Epoch.Epoch). x.number) e) c
      (λ k h. subst (λ d. has ℕ_discrete k d ≡ true) r h) a

nothing-Announced : (n : Node) → n.ready_result ≡ [] → Announced n
unfolding has
nothing-Announced n fresh =
    let none_yet : (e : ℕ) → has ℕ_discrete e n.ready_result ≡ false =
      λ e. ap (has ℕ_discrete e) fresh in
    record {
      bounded = λ e p. let f = none_yet e in cc;
      elected = λ p. let f = none_yet (n.epoch.number + 1) in cc;
    }

module _ (h : Host) (now : ℕ) where
  handle_vote-Announced :
      (epoch : ℕ) (votes : Ballot) (k : Key) (n : Node)
      → Announced n
      → Announced (handle_vote h now epoch votes k n).1
  unfolding handle_vote Voting.add_ballot
  handle_vote-Announced epoch votes k n a =
      let s : Node = record n { voting = Voting.add_ballot epoch k votes n.voting } in
      let settled : Announced (settle_ballots h now epoch s).1 =
        SameBallots-Announced s _ (settle_ballots-SameBallots h now epoch s)
          (untouched n s refl refl refl a) in
      elim (Bool-cases (epoch == next_epoch_number n)) [
        | inr other ↦ rw (other, handle_vote) a
        | inl is_next ↦ elim (Bool-cases (Voting.has_voted k epoch n.voting)) [
          | inl again ↦ rw (is_next, again, handle_vote) a
          | inr new ↦ rw (is_next, new, handle_vote) settled
        ]
      ]

  timer_fires-Announced : (n : Node) → Announced n → Announced (timer_fires h now n).1
  unfolding timer_fires
  timer_fires-Announced n a = elim (Option-cases n.broadcast_timer) [
    | inl e ↦ rw (e, timer_fires) a
    | inr (epoch, e) ↦
        let s : Node = record n { broadcast_timer = none } in
        let sent : Announced (broadcast_result h now epoch s).1 =
          SameBallots-Announced s _ (broadcast_result-SameBallots h now epoch s)
            (untouched n s refl refl refl a) in
        rw (e, timer_fires) sent
  ]

  vote-Announced : (n : Node) → Announced n → Announced (vote h now n).1
  unfolding vote Voting.add_ballot broadcast and_then
  vote-Announced n a =
      and_then-keeps Announced (fill_ballot h.choose n.peers n.voting, n) _ a
        (λ ballot s b. untouched s _ refl refl refl b)

bootstrap-Announced :
    (epoch idx : ℕ) (cs : List Key) (slots : ℕ) (n : Node)
    → n.epoch.number ≤ epoch
    → Announced n
    → Announced (bootstrap epoch idx cs slots n)
unfolding bootstrap Epoch.init Epoch.set_candidates_and_witnesses
bootstrap-Announced epoch idx cs slots n forward a = elim (Bool-cases (epoch == n.epoch.number)) [
  | inl same ↦ Announced-transfer n _ (ground arith) refl (λ e p. p) a
  | inr other ↦ Announced-later n _ (ground (arith, forward)) refl a
]

module _ (h : Host) where
  -- The events of a node that announce an epoch or start one, its ballots and downgrades, and anything
  -- that leaves the epoch, the candidates and the announcements, as scores and pings do.
  pub data Event (n : Node) : Node → Type 0 where
    slot : (seed : String) → Event n (next_slot h.sha256 seed n).1
    result : (epoch : ℕ) (r : Result) (peer : Key) → Event n (handle_vote_result epoch r peer n).1
    ballot :
        (now epoch : ℕ) (votes : Ballot) (peer : Key)
        → Event n (handle_vote h now epoch votes peer n).1
    own_ballot : (now : ℕ) → Event n (vote h now n).1
    timer : (now : ℕ) → Event n (timer_fires h now n).1
    replaced : (k : Key) → Event n (downgrade k n).1
    taken_over :
        (epoch idx : ℕ) (cs : List Key) (slots : ℕ)
        → n.epoch.number ≤ epoch
        → Event n (bootstrap epoch idx cs slots n)
    elsewhere :
        {m : Node}
        → m.epoch ≡ n.epoch
        → m.voting.candidates ≡ n.voting.candidates
        → m.ready_result ≡ n.ready_result
        → Event n m

  pub data Events (n : Node) : Node → Type 0 where
    quiet : Events n n
    later : {m t : Node} → Events n m → Event m t → Events n t

  downgrade-Announced : (k : Key) (n : Node) → Announced n → Announced (downgrade k n).1
  unfolding downgrade
  downgrade-Announced k n a =
      Announced-transfer n _ (downgrade-Same h.sha256 k n.epoch).number refl (λ e p. p) a

  Event-Announced : {n m : Node} → Event n m → Announced n → Announced m
  Event-Announced {n} (slot seed) a = (next_slot-cases h.sha256 seed n a).0
  Event-Announced {n} (result epoch r peer) a = handle_vote_result-Announced epoch r peer n a
  Event-Announced {n} (ballot now epoch votes peer) a =
      handle_vote-Announced h now epoch votes peer n a
  Event-Announced {n} (own_ballot now) a = vote-Announced h now n a
  Event-Announced {n} (timer now) a = timer_fires-Announced h now n a
  Event-Announced {n} (replaced k) a = downgrade-Announced k n a
  Event-Announced {n} (taken_over epoch idx cs slots forward) a =
      bootstrap-Announced epoch idx cs slots n forward a
  Event-Announced {n} {m} (elsewhere e c r) a = untouched n m e c r a

  Events-Announced : {n m : Node} → n.ready_result ≡ [] → Events n m → Announced m
  Events-Announced {n} fresh quiet = nothing-Announced n fresh
  Events-Announced fresh (later r e) = Event-Announced e (Events-Announced fresh r)

  -- After any events of a node that began with no announcement, a step to the next slot takes the next
  -- turn in its epoch. If the epoch is over with this turn and the next one is announced, this next one
  -- begins with exactly the candidates that are stored for it; else the epoch goes on. It also does
  -- without any witness.
  pub next_slot-Begins :
      {n0 n : Node}
      → n0.ready_result ≡ []
      → Events n0 n
      → (seed : String)
      → let m = (next_slot h.sha256 seed n).1 in
        let turned = (Epoch.increment_witness h.sha256 seed n.epoch).1 in
        Stays turned n m.epoch ⊎ Begins turned n m.epoch
  next_slot-Begins {n = n} fresh r seed =
      (next_slot-cases h.sha256 seed n (Events-Announced fresh r)).1
