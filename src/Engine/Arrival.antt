-- ===== src/Engine/Arrival.antt =====
-- What `_handle_committed_block` of consensus/pkg/engine/ddpoa_engine.py makes of the node, and when the
-- engine has caught up.
use sawtooth_ddpoa.Prelude.{
  ℕ, ◌≡◌, refl, ap, ◌∙◌, inl, inr, not, ◌&&◌, if◌then◌else◌, some, Outcome, Bool-cases, and_then,
  and_then-keeps, and_then_ok, or_raise, BlockId, dec_key,
}
use sawtooth_ddpoa.Prelude.Dict.{get}
use sawtooth_ddpoa.Prelude.Int.{pred_ℤ}
use sawtooth_ddpoa.Host.{Host}
use sawtooth_ddpoa.Service.{Block, ConsensusData}
use sawtooth_ddpoa.Peers.{PeerNode}
use sawtooth_ddpoa.Node.{Node}
use sawtooth_ddpoa.Node.Methods.{reward, bootstrap}
use sawtooth_ddpoa.Node.Handlers.{next_slot}
use sawtooth_ddpoa.Node.Catching.{is_catching, next_slot-catching, reward-catching}
use sawtooth_ddpoa.Engine.{Engine, Env, on_node, engine_next_slot}
use sawtooth_ddpoa.Engine.Catchup.{request_checks}
use sawtooth_ddpoa.Engine.Blocks.{
  handle_committed_block, take_committed, move_on, arrive, is_target,
}
use sawtooth_ddpoa.Engine.Views.{Holds, IsView, engine_next_slot-Holds, check_early-Holds}
use sawtooth_ddpoa.Engine.Counters.{rewarded}
use sawtooth_ddpoa.Engine.Commits.Rounds.{known_block}

abbrev the_node : Engine → Node
the_node s = s.node

the_node-IsView : IsView the_node
unfolding request_checks
the_node-IsView = record { logged = λ c s. refl; started = λ t s. refl; requested = λ ids s. refl }

abbrev Has : Node → Engine → Type 0
Has = Holds the_node

module _ (env : Env) (h : Host) where
  engine_next_slot-Has :
      (ts : ℕ) (s : Engine)
      → Has (next_slot h.sha256 s.pre_id s.node).1 (engine_next_slot env h ts s).1
  engine_next_slot-Has ts s =
      engine_next_slot-Holds the_node the_node-IsView _ env h ts s (record { same = refl })

  -- The node of the block's data, or the one that was there.
  abbrev pub taken_over : Block → ConsensusData → Engine → Node → Node
  taken_over b c s n =
      if is_catching n && is_target s.fastforward_target b.block_num
      then bootstrap c.epoch c.witness_idx c.candidates c.num_slots n
      else n

  arrive-node :
      (b : Block) (c : ConsensusData) (s : Engine)
      → ((arrive h env b c s).node ≡ taken_over b c s s.node)
        × ((arrive h env b c s).pre_id ≡ s.pre_id)
  unfolding arrive
  arrive-node b c s =
      elim (Bool-cases (is_catching s.node && is_target s.fastforward_target b.block_num)) [
        | inl there ↦ rw (there, arrive) (refl, refl)
        | inr on_the_way ↦ rw (on_the_way, arrive) (refl, refl)
      ]

  move_on-Has :
      (b : Block) (c : ConsensusData) (s : Engine)
      → Has (next_slot h.sha256 s.pre_id (taken_over b c s s.node)).1 (move_on h env b c s).1
  unfolding move_on and_then
  move_on-Has b c s =
      let u = arrive h env b c (record s { waiting_for_commit = pred_ℤ s.waiting_for_commit }) in
      let (node, head) =
        arrive-node b c (record s { waiting_for_commit = pred_ℤ s.waiting_for_commit }) in
      let m = taken_over b c s s.node in
      let n = (next_slot h.sha256 s.pre_id m).1 in
      let slot : Has n (engine_next_slot env h c.timestamp u).1 = record {
        same =
            (engine_next_slot-Has c.timestamp u).same
            ∙ ap (λ id. (next_slot h.sha256 id u.node).1) head
            ∙ ap (λ k. (next_slot h.sha256 s.pre_id k).1) node;
      } in
      and_then-keeps (Has n) (engine_next_slot env h c.timestamp u) _ slot
        (λ a t r. check_early-Holds the_node the_node-IsView n env h _ t r)

  taken_over-catching :
      (b : Block) (c : ConsensusData) (s : Engine) (n : Node)
      → is_catching (taken_over b c s n)
        ≡ (is_catching n && not (is_target s.fastforward_target b.block_num))
  unfolding bootstrap
  taken_over-catching b c s n = elim (Bool-cases (is_catching n)) [
    | inr no_catch ↦ rw no_catch no_catch
    | inl catches ↦ elim (Bool-cases (is_target s.fastforward_target b.block_num)) [
      | inl there ↦ rw (catches, there) refl
      | inr on_the_way ↦ rw (catches, on_the_way) catches
    ]
  ]

  -- A committed block that is found, whose data can be read and whose signer is known, rewards its
  -- signer; if the engine is catching up and this is its target, the node takes over the epoch of the
  -- block's data; then the node steps to the next slot, at this block. So the node is catching up
  -- afterwards exactly if it was before and the block is not the target.
  pub committed_block-Followed :
      (id : BlockId) (b : Block) (c : ConsensusData) (p : PeerNode) (s : Engine)
      → known_block env s id ≡ some b
      → h.parse b.payload ≡ some c
      → get dec_key b.signer_id s.node.peers ≡ some p
      → let n = (reward h.mul b.signer_id s.node).1 in
        let t = (handle_committed_block h env id s).1 in
        (t.node ≡ (next_slot h.sha256 b.block_id (taken_over b c s n)).1)
        × (is_catching t.node
            ≡ (is_catching s.node && not (is_target s.fastforward_target b.block_num)))
  unfolding handle_committed_block take_committed and_then or_raise
  committed_block-Followed id b c p s e f g =
      let after : Engine = record s { pre_id = b.block_id; pre_num = b.block_num } in
      let r = on_node (reward h.mul b.signer_id) after in
      let n = (reward h.mul b.signer_id s.node).1 in
      let m = taken_over b c s n in
      let run : handle_committed_block h env id s ≡ move_on h env b c r.1 =
        rw (e, f, handle_committed_block)
          (and_then_ok r tt (λ x. move_on h env b c) (rewarded h.mul b.signer_id p s.node g)) in
      let node : (handle_committed_block h env id s).1.node ≡ (next_slot h.sha256 b.block_id m).1 =
        ap (λ (o : Outcome (Unit {0}) × Engine). o.1.node) run ∙ (move_on-Has b c r.1).same in
      (
        node,
        ap (λ (k : Node). is_catching k) node
            ∙ next_slot-catching h.sha256 b.block_id m
            ∙ taken_over-catching b c s n
            ∙ ap (λ k. k && not (is_target s.fastforward_target b.block_num))
                (reward-catching h.mul b.signer_id s.node),
      )
