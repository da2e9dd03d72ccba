-- ===== src/Engine/Handover.antt =====
-- Two engines at one block: the one that takes part in the epoch, and the one that catches up to the
-- block and takes the epoch over from its data (consensus/pkg/engine/ddpoa_engine.py).
use sawtooth_ddpoa.Prelude.{
  ◌+◌, ◌≡◌, refl, sym, ap, ◌∙◌, inl, inr, arith, true, false, some, length, Option-cases, BlockId,
  Key, dec_key, ℕ_discrete,
}
use sawtooth_ddpoa.Prelude.Dict.{get, has}
use sawtooth_ddpoa.Floats.{Float}
use sawtooth_ddpoa.Host.{Host}
use sawtooth_ddpoa.Service.{Block}
use sawtooth_ddpoa.Peers.{PeerNode}
use sawtooth_ddpoa.Epoch.{Epoch}
use sawtooth_ddpoa.Voting
use sawtooth_ddpoa.Node.{Node, production, update_peer}
use sawtooth_ddpoa.Node.Methods.{reward}
use sawtooth_ddpoa.Node.Handlers.{next_slot}
use sawtooth_ddpoa.Node.Takeover.{bootstrap_takeover}
use sawtooth_ddpoa.Node.Catching.{is_catching, reward-catching}
use sawtooth_ddpoa.Node.Agreement.{Agree, next_slot-Agree}
use sawtooth_ddpoa.Engine.{Engine, Env, consensus_data}
use sawtooth_ddpoa.Engine.Blocks.{handle_committed_block, is_target}
use sawtooth_ddpoa.Engine.Commits.Rounds.{known_block}
use sawtooth_ddpoa.Engine.Arrival.{taken_over, committed_block-Followed}

-- A reward changes the peers only.
reward-peers :
    (mul : Float → Float → Float) (k : Key) (n : Node)
    → (reward mul k n).1 ≡ record n { peers = (reward mul k n).1.peers }
unfolding reward update_peer
reward-peers mul k n = elim (Option-cases (get dec_key k n.peers)) [
  | inl e ↦ ground (arith, e)
  | inr (p, e) ↦ ground (arith, e)
]

-- Both know the same of the epoch after `e`: whether it is announced, and its candidates.
pub record SameNext (e : Epoch) (n m : Node) : Type 0 where
  pub announced :
      has ℕ_discrete (e.number + 1) m.ready_result ≡ has ℕ_discrete (e.number + 1) n.ready_result
  pub elected :
      Voting.get_candidates (e.number + 1) m.voting ≡ Voting.get_candidates (e.number + 1) n.voting

-- The member's node that is rewarded, and the other one that has taken the epoch over.
agree :
    (e : Epoch) (n m n' m' : Node)
    → n' ≡ record n { peers = n'.peers }
    → m' ≡ record m { peers = m'.peers }
    → n.epoch ≡ e
    → n.num_slots ≡ e.num_slots
    → SameNext e n m
    → Agree n' (record m' { num_slots = e.num_slots; epoch = e; state = production })
agree e n m n' m' p q here slots same =
    let mine : n'.epoch ≡ e = ap (λ (k : Node). k.epoch) p ∙ here in
    record {
      same_epoch = sym mine;
      same_announced =
          ap (λ (k : Node). has ℕ_discrete (e.number + 1) k.ready_result) q
          ∙ same.announced
          ∙ ap (λ (k : Node). has ℕ_discrete (e.number + 1) k.ready_result) (sym p)
          ∙ ap (λ (x : Epoch). has ℕ_discrete (x.number + 1) n'.ready_result) (sym mine);
      same_elected =
          ap (λ (k : Node). Voting.get_candidates (e.number + 1) k.voting) q
          ∙ same.elected
          ∙ ap (λ (k : Node). Voting.get_candidates (e.number + 1) k.voting) (sym p)
          ∙ ap (λ (x : Epoch). Voting.get_candidates (x.number + 1) n'.voting) (sym mine);
      same_slots = sym slots ∙ sym (ap (λ (k : Node). k.num_slots) p);
    }

module _ (h : Host) (written at_member at_joiner : Env) where
  -- A member writes the data of a block while its witnesses fill the slots of its epoch. When the
  -- block is committed there, the member is in the same epoch at the same slot and is not catching up;
  -- an engine that is catching up to this block commits it too. Both find the block and know its
  -- signer, and know the same of the next epoch. Then both have the same epoch afterwards, with the
  -- same witnesses, candidates and slot, and the engine has caught up.
  pub handover_agreement :
      (id : BlockId) (b : Block) (w s t : Engine) (p q : PeerNode)
      → h.parse b.payload ≡ some (consensus_data written w)
      → length w.node.epoch.witnesses ≡ w.node.epoch.num_slots
      → s.node.epoch ≡ w.node.epoch
      → s.node.num_slots ≡ w.node.epoch.num_slots
      → is_catching s.node ≡ false
      → is_catching t.node ≡ true
      → is_target t.fastforward_target b.block_num ≡ true
      → known_block at_member s id ≡ some b
      → known_block at_joiner t id ≡ some b
      → get dec_key b.signer_id s.node.peers ≡ some p
      → get dec_key b.signer_id t.node.peers ≡ some q
      → SameNext w.node.epoch s.node t.node
      → let member = (handle_committed_block h at_member id s).1 in
        let joiner = (handle_committed_block h at_joiner id t).1 in
        (joiner.node.epoch ≡ member.node.epoch) × (is_catching joiner.node ≡ false)
  unfolding consensus_data
  handover_agreement id b w s t p q read filled here slots takes_part catches target found_s found_t
        known_s known_t same =
      let c = consensus_data written w in
      let e = w.node.epoch in
      let n' = (reward h.mul b.signer_id s.node).1 in
      let m' = (reward h.mul b.signer_id t.node).1 in
      let (member, _) = committed_block-Followed at_member h id b c p s found_s read known_s in
      let (joiner, caught) = committed_block-Followed at_joiner h id b c q t found_t read known_t in
      let stays : taken_over at_member h b c s n' ≡ n' =
        rw (reward-catching h.mul b.signer_id s.node ∙ takes_part) refl in
      let takes : taken_over at_joiner h b c t m'
          ≡ record m' { num_slots = e.num_slots; epoch = e; state = production } =
        rw (reward-catching h.mul b.signer_id t.node ∙ catches, target)
          (bootstrap_takeover e m' filled) in
      let both =
        agree e s.node t.node n' m' (reward-peers h.mul b.signer_id s.node)
          (reward-peers h.mul b.signer_id t.node) here slots same in
      (
        ap (λ (k : Node). k.epoch) joiner
            ∙ ap (λ k. (next_slot h.sha256 b.block_id k).1.epoch) takes
            ∙ next_slot-Agree h.sha256 b.block_id n'
                (record m' { num_slots = e.num_slots; epoch = e; state = production }) both
            ∙ ap (λ k. (next_slot h.sha256 b.block_id k).1.epoch) (sym stays)
            ∙ ap (λ (k : Node). k.epoch) (sym member),
        caught ∙ rw (catches, target) refl,
      )
