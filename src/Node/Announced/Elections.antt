-- ===== src/Node/Announced/Elections.antt =====
-- Vote results and the other events of a node (consensus/pkg/engine/ddpoa_node.py): what they announce.
use sawtooth_ddpoa.Prelude.{
  ℕ, ◌+◌, ◌≡◌, refl, sym, subst, ◌∙◌, inl, inr, arith, true, ◌==◌, Bool-cases, Key, Outcome-cases,
  and_then, ℕ_discrete,
}
use sawtooth_ddpoa.Prelude.Dict.{set_item, has-set_item_ne, get-set_item_self}
use sawtooth_ddpoa.Epoch
use sawtooth_ddpoa.Epoch.{Epoch}
use sawtooth_ddpoa.Voting
use sawtooth_ddpoa.Voting.{Result, VotingSystem}
use sawtooth_ddpoa.Node.{Node}
use sawtooth_ddpoa.Node.Methods.{initialize_epoch, next_epoch_number}
use sawtooth_ddpoa.Node.Handlers.{handle_vote_result, triggers}
use sawtooth_ddpoa.Node.Results.{return-state}
use sawtooth_ddpoa.Node.Announced.{
  Announced, Announced-transfer, Announced-later, initialize_epoch-rest,
}

-- The next epoch is announced with its candidates.
abbrev announce : Result → Node → Node
announce w n = record n {
  ready_result = set_item ℕ_discrete (n.epoch.number + 1) true n.ready_result;
  voting = Voting.set_candidates (n.epoch.number + 1) w n.voting;
}

announce-Announced : (w : Result) (n : Node) → Announced n → Announced (announce w n)
unfolding Voting.set_candidates Voting.get_candidates
announce-Announced w n a = record {
  bounded = λ e h. elim (ℕ_discrete (n.epoch.number + 1) e) [
    | yes p ↦ omega (arith, p)
    | no p ↦
        a.bounded e
          (sym (has-set_item_ne ℕ_discrete (n.epoch.number + 1) e true n.ready_result p) ∙ h)
  ];
  elected = λ h. (w, get-set_item_self ℕ_discrete (n.epoch.number + 1) w n.voting.candidates);
}

pub handle_vote_result-Announced :
    (epoch : ℕ) (result : Result) (peer : Key) (n : Node)
    → Announced n
    → Announced (handle_vote_result epoch result peer n).1
unfolding handle_vote_result and_then next_epoch_number Epoch.next_epoch_number
    Voting.set_peer_result
handle_vote_result-Announced epoch result peer n a =
    elim (Bool-cases (epoch == n.epoch.number + 1)) [
      | inr other ↦ rw (other, handle_vote_result) a
      | inl is_next ↦ elim (Outcome-cases (Voting.get_consensus_result epoch v)) [
        | inr (inl (e, failed)) ↦ rw (is_next, failed, handle_vote_result) kept
        | inr (inr failed) ↦ rw (is_next, failed, handle_vote_result) kept
        | inl ((w, c), agreed) ↦ elim (Bool-cases (triggers c stored)) [
          | inr no_quorum ↦ rw (is_next, agreed, no_quorum, handle_vote_result) kept
          | inl quorum ↦
              let ready : Node = record stored {
                ready_result = set_item ℕ_discrete epoch true n.ready_result;
                voting = Voting.set_candidates epoch w v;
              } in
              let number : epoch ≡ n.epoch.number + 1 = ground (arith, is_next) in
              let now_ready : Announced ready =
                subst
                  (λ k. Announced (record stored {
                    ready_result = set_item ℕ_discrete k true n.ready_result;
                    voting = Voting.set_candidates k w v;
                  }))
                  (sym number) (announce-Announced w stored kept) in
              elim (Bool-cases (Epoch.is_over n.epoch)) [
                | inr running ↦ rw (is_next, agreed, quorum, running, handle_vote_result) now_ready
                | inl over ↦
                    let (begun, rest) = initialize_epoch-rest epoch ready in
                    rw (is_next, agreed, quorum, over, handle_vote_result)
                      (subst Announced (sym (return-state (initialize_epoch epoch ready) true))
                        (Announced-later ready _ (omega (arith, begun, number)) rest now_ready))
              ]
        ]
      ]
    ]
  where
    v : VotingSystem
    v = Voting.set_peer_result epoch peer result n.voting

    stored : Node
    stored = record n { voting = v }

    kept : Announced stored
    kept = Announced-transfer n stored refl refl (λ e h. h) a
