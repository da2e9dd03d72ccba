-- ===== src/Node/Results.antt =====
-- `handle_vote_result` of consensus/pkg/engine/ddpoa_node.py starts an epoch only on a quorum.
use sawtooth_ddpoa.Prelude.{
  ℕ, ◌+◌, ◌≤◌, ◌≡◌, ◌≢◌, refl, sym, ap, Bool, ◌∙◌, ◌⊎◌, inl, inr, arith, true, ◌&&◌, ◌==◌, return,
  raise, hang, Bool-cases, Key, Outcome, Outcome-cases, ok, and_then, or_raise, some, ℕ_discrete,
}
use sawtooth_ddpoa.Prelude.Dict.{set_item, get-set_item_self}
use sawtooth_ddpoa.Epoch
use sawtooth_ddpoa.Epoch.{Epoch}
use sawtooth_ddpoa.Voting
use sawtooth_ddpoa.Voting.{Result}
use sawtooth_ddpoa.Node.{Node, online_peers}
use sawtooth_ddpoa.Node.Methods.{initialize_epoch, next_epoch_number}
use sawtooth_ddpoa.Node.Handlers.{handle_vote_result, triggers}

-- What holds when a result has started an epoch.
pub record Started (n : Node) (epoch : ℕ) (result : Result) (peer : Key) (m : Node) : Type 0 where
  pub is_next : epoch ≡ n.epoch.number + 1
  pub was_over : Epoch.is_over n.epoch ≡ true
  pub winner : Result
  pub count : ℕ
  pub agreed :
      Voting.get_consensus_result epoch (Voting.set_peer_result epoch peer result n.voting)
      ≡ ok (winner, count)
  -- After an epoch other than 0 the consensus amount of the online peers; after epoch 0 all of them.
  pub quorum :
      ((n.epoch.number ≢ 0) × (Voting.consensus_amount (online_peers n) n.voting ≤ count))
      ⊎ ((n.epoch.number ≡ 0) × (count ≡ online_peers n))
  pub new_epoch : m.epoch ≡ Epoch.set_candidates_and_witnesses winner (Epoch.init epoch n.num_slots)

pub initialize_epoch-epoch :
    (epoch : ℕ) (w : Result) (n : Node)
    → Voting.get_candidates epoch n.voting ≡ some w
    → (initialize_epoch epoch n).1.epoch
      ≡ Epoch.set_candidates_and_witnesses w (Epoch.init epoch n.num_slots)
unfolding initialize_epoch and_then or_raise Epoch.init
initialize_epoch-epoch epoch w n h = rw (h, initialize_epoch) refl

triggers-quorum :
    (count epoch : ℕ) (result : Result) (peer : Key) (n : Node)
    → triggers count (record n { voting = Voting.set_peer_result epoch peer result n.voting })
      ≡ true
    → ((n.epoch.number ≢ 0) × (Voting.consensus_amount (online_peers n) n.voting ≤ count))
      ⊎ ((n.epoch.number ≡ 0) × (count ≡ online_peers n))
unfolding triggers Voting.consensus_amount Voting.set_peer_result online_peers
triggers-quorum count epoch result peer n h =
    elim (Bool-cases (count == online_peers n && n.epoch.number == 0)) [
      | inl first ↦ inr (ground arith, ground arith)
      | inr later ↦ inl (ground arith, ground arith)
    ]

pub return-state :
    {A B : Type 0} (r : Outcome A × Node) (b : B) → (and_then r (λ _. return b)).1 ≡ r.1
unfolding and_then
return-state (ok a, s) b = refl
return-state (raise e, s) b = refl
return-state (hang, s) b = refl

-- When a vote result makes the node start an epoch, this is the next one and the last one is over;
-- after an epoch other than 0 the count of the result with the most votes reaches the consensus amount
-- of the online peers, and after epoch 0 it is the number of all of them; and the new epoch has its witnesses and candidates from that result.
pub handle_vote_result-Started :
    (epoch : ℕ) (result : Result) (peer : Key) (n m : Node)
    → handle_vote_result epoch result peer n ≡ (ok true, m)
    → Started n epoch result peer m
unfolding handle_vote_result and_then next_epoch_number Epoch.next_epoch_number
    Voting.get_candidates Voting.set_candidates
handle_vote_result-Started epoch result peer n m h =
    elim (Bool-cases (epoch == n.epoch.number + 1)) [
      | inr other ↦ absurd (let h' = rw (other, handle_vote_result) at h in cc)
      | inl is_next ↦ elim (Outcome-cases (Voting.get_consensus_result epoch v)) [
        | inr (inl (e, failed)) ↦
            absurd (let h' = rw (is_next, failed, handle_vote_result) at h in cc)
        | inr (inr failed) ↦ absurd (let h' = rw (is_next, failed, handle_vote_result) at h in cc)
        | inl ((w, c), agreed) ↦ elim (Bool-cases (triggers c stored)) [
          | inr no_quorum ↦
              absurd (let h' = rw (is_next, agreed, no_quorum, handle_vote_result) at h in cc)
          | inl quorum ↦ elim (Bool-cases (Epoch.is_over n.epoch)) [
            | inr running ↦
                absurd
                  (let h' = rw (is_next, agreed, quorum, running, handle_vote_result) at h in cc)
            | inl over ↦
                let ready : Node = record stored {
                  ready_result = set_item ℕ_discrete epoch true n.ready_result;
                  voting = Voting.set_candidates epoch w v;
                } in
                let run : handle_vote_result epoch result peer n
                    ≡ and_then (initialize_epoch epoch ready) (λ _. return true) =
                  rw (is_next, agreed, quorum, over, handle_vote_result) refl in
                record {
                  is_next = ground (arith, is_next);
                  was_over = over;
                  winner = w;
                  count = c;
                  agreed = agreed;
                  quorum = triggers-quorum c epoch result peer n quorum;
                  new_epoch =
                      ap (λ (x : Outcome Bool × Node). x.1.epoch) (sym h ∙ run)
                      ∙ ap (λ (x : Node). x.epoch)
                          (return-state (initialize_epoch epoch ready) true)
                      ∙ initialize_epoch-epoch epoch w ready
                          (get-set_item_self ℕ_discrete epoch w v.candidates);
                }
          ]
        ]
      ]
    ]
  where
    v : Voting.VotingSystem
    v = Voting.set_peer_result epoch peer result n.voting

    stored : Node
    stored = record n { voting = v }
