-- ===== src/Node/Methods.antt =====
-- The methods of `DDPoANode` (consensus/pkg/engine/ddpoa_node.py) but for its message handlers. `now`
-- is the clock reading at the event that is handled.
use sawtooth_ddpoa.Prelude.{
  ℕ, ◌-◌, List, Option, none, some, Bool, true, false, not, ◌&&◌, ◌||◌, ltb, ◌==◌, if◌then◌else◌,
  ite, Key, dec_key, ℕ_discrete, M, ok, key_error, type_error, modify, gets, reads, or_raise, ◌>>=◌,
  ◌>>◌,
}
use sawtooth_ddpoa.Prelude.Dict.{get, del_item}
use sawtooth_ddpoa.Prelude.Int.{le_ℕ}
use sawtooth_ddpoa.Config.{voting_slots, rebroadcast_ballot_interval}
use sawtooth_ddpoa.Floats.{
  Float, float_zero, float_one, penalty_factor, reward_factor, max_float, min_float,
}
use sawtooth_ddpoa.Service.{vote as vote_message, vote_result, empty_slot, bootstrap_request}
use sawtooth_ddpoa.Peers.{PeerNode}
use sawtooth_ddpoa.Epoch.{Epoch}
use sawtooth_ddpoa.Epoch
use sawtooth_ddpoa.Voting
use sawtooth_ddpoa.Voting.Election.{fill_ballot, calculate_result, remove_old_epoch_data}
use sawtooth_ddpoa.Host.{Host}
use sawtooth_ddpoa.Node.{
  Node, State, idle, election, production, catching_up, is_state, on_epoch, on_voting, update_peer,
  broadcast, online_peers,
}

unfoldable pub next_epoch_number : Node → ℕ
unfolding Epoch.next_epoch_number
next_epoch_number n = Epoch.next_epoch_number n.epoch

unfoldable pub expected_signer : Node → Option Key
unfolding Epoch.current_witness
expected_signer n = Epoch.current_witness n.epoch

unfoldable pub next_witness : Node → Option Key
unfolding Epoch.next_witness
next_witness n = Epoch.next_witness n.epoch

-- Whether a key that may be `None` is the given one.
abbrev pub is_key : Option Key → Key → Bool
is_key none k = false
is_key (some j) k = ite (dec_key j k) true false

unfoldable pub is_current_witness : Node → Bool
unfolding expected_signer
is_current_witness n = is_key (expected_signer n) n.key

-- A node that catches up stays in that state.
abbrev pub enter : State → Node → Node
enter s n = record n { state = if is_state n.state catching_up then n.state else s }

module _ (h : Host) (now : ℕ) where
  unfoldable pub vote : M Node (Unit {0})
  unfolding next_epoch_number fill_ballot Voting.add_ballot broadcast
  vote = do
    ballot ← reads (λ n. fill_ballot h.choose n.peers n.voting)
    modify
        (λ n. record n { voting = Voting.add_ballot (next_epoch_number n) n.key ballot n.voting })
    modify (enter election)
    modify (λ n. broadcast now (vote_message (next_epoch_number n) ballot) n)
    modify (λ n. record n { previous_vote_ts = now })

  unfoldable pub broadcast_result : ℕ → M Node (Unit {0})
  unfolding calculate_result broadcast
  broadcast_result epoch = do
    result ← on_voting (calculate_result h.sha256 h.stv epoch)
    modify (broadcast now (vote_result epoch result))

unfoldable pub should_vote : Node → Bool
unfolding Epoch.slots_remaining_in_epoch Epoch.is_over Voting.has_voted next_epoch_number
    online_peers
should_vote n =
    if (le_ℕ (Epoch.slots_remaining_in_epoch n.epoch) voting_slots || Epoch.is_over n.epoch)
      || n.epoch.number == 0
    then ltb n.num_slots (online_peers n)
      && not (Voting.has_voted n.key (next_epoch_number n) n.voting)
    else false

unfoldable pub should_rebroadcast_ballot : ℕ → Node → Bool
should_rebroadcast_ballot now n =
    is_state n.state election && ltb rebroadcast_ballot_interval (now - n.previous_vote_ts)

unfoldable pub rebroadcast_ballot : ℕ → M Node (Unit {0})
unfolding get next_epoch_number broadcast
rebroadcast_ballot now = do
  epoch ← gets next_epoch_number
  ballots ← (λ n. or_raise key_error (get ℕ_discrete epoch n.voting.ballots) n)
  ballot ← (λ n. or_raise key_error (get dec_key n.key ballots) n)
  modify (broadcast now (vote_message epoch ballot))
  modify (λ n. record n { previous_vote_ts = now })

unfoldable pub bootstrap : ℕ → ℕ → List Key → ℕ → Node → Node
unfolding Epoch.init Epoch.set_candidates_and_witnesses
bootstrap epoch_num witness_idx candidates num_slots n =
    let fresh = Epoch.set_candidates_and_witnesses candidates (Epoch.init epoch_num num_slots) in
    record n {
      num_slots = num_slots;
      epoch = record fresh { current_witness_idx = witness_idx };
      state = production;
    }

-- A missing candidate list is `None`, and to slice it raises.
unfoldable pub initialize_epoch : ℕ → M Node (Unit {0})
unfolding Epoch.init Epoch.set_candidates_and_witnesses Voting.get_candidates remove_old_epoch_data
initialize_epoch epoch = do
  modify (λ n. record n { epoch = Epoch.init epoch n.num_slots })
  modify (enter production)
  candidates ← (λ n. or_raise type_error (Voting.get_candidates n.epoch.number n.voting) n)
  modify (λ n. record n { epoch = Epoch.set_candidates_and_witnesses candidates n.epoch })
  on_voting remove_old_epoch_data

-- `pop` of a key that is not there, as any below zero, is no error.
unfoldable pub finalize_epoch : Node → Node
unfolding del_item
finalize_epoch n =
    let m = enter idle n in
    record m {
      ready_result =
          if ltb n.epoch.number 2
          then n.ready_result
          else del_item ℕ_discrete (n.epoch.number - 2) n.ready_result;
    }

unfoldable pub downgrade : Key → M Node (Unit {0})
unfolding Epoch.downgrade_witness
downgrade k = on_epoch (Epoch.downgrade_witness k)

module _ (mul : Float → Float → Float) where
  abbrev pub lower_score : PeerNode → PeerNode
  lower_score p = record p { score = max_float float_zero (mul p.score penalty_factor) }

  abbrev pub raise_score : PeerNode → PeerNode
  raise_score p = record p { score = min_float float_one (mul p.score reward_factor) }

  unfoldable pub penalize : Key → M Node (Unit {0})
  unfolding update_peer max_float
  penalize k n =
      if ite (dec_key k n.key) true false then (ok tt, n) else update_peer k lower_score n

  unfoldable pub reward : Key → M Node (Unit {0})
  unfolding update_peer min_float
  reward k n = if ite (dec_key k n.key) true false then (ok tt, n) else update_peer k raise_score n

unfoldable pub broadcast_empty_slot : ℕ → Node → Node
unfolding broadcast
broadcast_empty_slot now = broadcast now empty_slot

unfoldable pub broadcast_bootstrap_request : ℕ → Node → Node
unfolding broadcast
broadcast_bootstrap_request now = broadcast now bootstrap_request
