-- ===== src/Node/Handlers.antt =====
-- The message handlers of `DDPoANode` and its step to the next slot
-- (consensus/pkg/engine/ddpoa_node.py).
use sawtooth_ddpoa.Prelude.{
  ℕ, String, none, some, Bool, true, false, not, ◌&&◌, ◌||◌, leb, ◌==◌, if◌then◌else◌, Key,
  ℕ_discrete, M, Outcome, ok, raise, hang, zero_division, return, modify, gets, reads, when, ◌>>=◌,
  ◌>>◌,
}
use sawtooth_ddpoa.Prelude.Dict.{has, set_item}
use sawtooth_ddpoa.Epoch.{Epoch}
use sawtooth_ddpoa.Epoch
use sawtooth_ddpoa.Voting
use sawtooth_ddpoa.Voting.{Ballot, Result}
use sawtooth_ddpoa.Host.{Host}
use sawtooth_ddpoa.Node.{Node, online_peers}
use sawtooth_ddpoa.Node.Methods.{
  next_epoch_number, broadcast_result, initialize_epoch, finalize_epoch,
}

module _ (h : Host) (now : ℕ) where
  -- After a new ballot: a running timer is cancelled; with all ballots the result goes out, and with
  -- enough of them a timer starts.
  unfoldable pub settle_ballots : ℕ → M Node (Unit {0})
  unfolding Voting.has_all_ballots Voting.has_enough_ballots online_peers broadcast_result
  settle_ballots epoch = do
    modify (λ n. record n { broadcast_timer = none })
    all_in ← reads (λ n. Voting.has_all_ballots epoch (online_peers n) n.voting)
    if all_in then broadcast_result h now epoch else (do
      enough ← reads (λ n. Voting.has_enough_ballots epoch (online_peers n) n.voting)
      when enough (modify (λ n. record n { broadcast_timer = some epoch })))

  unfoldable pub handle_vote : ℕ → Ballot → Key → M Node (Unit {0})
  unfolding next_epoch_number Voting.has_voted Voting.add_ballot settle_ballots
  handle_vote epoch votes peer_key n =
      if not (epoch == next_epoch_number n)
      then (ok tt, n)
      else if Voting.has_voted peer_key epoch n.voting
      then (ok tt, n)
      else settle_ballots epoch
          (record n { voting = Voting.add_ballot epoch peer_key votes n.voting })

  -- The timer of 15 seconds runs out, in its own thread.
  unfoldable pub timer_fires : M Node (Unit {0})
  unfolding broadcast_result
  timer_fires n = elim n.broadcast_timer [
    | none ↦ (ok tt, n)
    | some epoch ↦ broadcast_result h now epoch (record n { broadcast_timer = none })
  ]

-- Whether a result with this count starts the next epoch.
unfoldable pub triggers : ℕ → Node → Bool
unfolding Voting.consensus_amount online_peers
triggers count n =
    (leb (Voting.consensus_amount (online_peers n) n.voting) count && not (n.epoch.number == 0))
    || (count == online_peers n && n.epoch.number == 0)

-- True if the result starts a new epoch.
unfoldable pub handle_vote_result : ℕ → Result → Key → M Node Bool
unfolding next_epoch_number Voting.set_peer_result Voting.get_consensus_result Voting.set_candidates
    triggers set_item Epoch.is_over initialize_epoch
handle_vote_result epoch result peer_key n =
    if not (epoch == next_epoch_number n)
    then (ok false, n)
    else (do
      modify (λ m. record m { voting = Voting.set_peer_result epoch peer_key result m.voting })
      winner ← reads (λ m. Voting.get_consensus_result epoch m.voting)
      ready ← gets (triggers winner.1)
      if ready
          then (do
            modify (λ m. record m {
              ready_result = set_item ℕ_discrete epoch true m.ready_result;
              voting = Voting.set_candidates epoch winner.0 m.voting;
            })
            over ← gets (λ m. Epoch.is_over m.epoch)
            if over then initialize_epoch epoch >> return true else return false)
          else return false)
        n

module _ (sha256 : String → ℕ) where
  -- What follows once the witness index has moved.
  unfoldable pub after_increment : M Node (Unit {0})
  unfolding Epoch.is_over finalize_epoch next_epoch_number has initialize_epoch
  after_increment n =
      if Epoch.is_over n.epoch
      then (if has ℕ_discrete (next_epoch_number n) (finalize_epoch n).ready_result
          then initialize_epoch (next_epoch_number n) (finalize_epoch n)
          else (ok tt, finalize_epoch n))
      else (ok tt, n)

  -- A `ZeroDivisionError` ends the step, with the index moved.
  unfoldable pub resume : Outcome (Unit {0}) × Epoch → M Node (Unit {0})
  unfolding after_increment
  resume (ok _, e) n = after_increment (record n { epoch = e })
  resume (raise zero_division, e) n = (ok tt, record n { epoch = e })
  resume (raise x, e) n = (raise x, record n { epoch = e })
  resume (hang, e) n = (hang, record n { epoch = e })

  unfoldable pub next_slot : String → M Node (Unit {0})
  unfolding Epoch.increment_witness resume
  next_slot block_id n = resume (Epoch.increment_witness sha256 block_id n.epoch) n
