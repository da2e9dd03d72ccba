-- ===== src/Engine/Counters.antt =====
-- The counter of awaited commits, `_waiting_for_commit` of consensus/pkg/engine/ddpoa_engine.py.
use sawtooth_ddpoa.Prelude.{
  ◌≡◌, refl, ap, ◌∙◌, ◌⊎◌, inl, inr, arith, true, if◌then◌else◌, some, ok, and_then, and_then-keeps,
  and_then_ok, or_raise, BlockId, dec_key, Key, Bool-cases,
}
use sawtooth_ddpoa.Prelude.Dict.{get}
use sawtooth_ddpoa.Prelude.Int.{ℤ, pred_ℤ, add_ℕ, pred_ℤ-add_ℕ_one}
use sawtooth_ddpoa.Host.{Host}
use sawtooth_ddpoa.Service.{Block, ConsensusData}
use sawtooth_ddpoa.Floats.{Float}
use sawtooth_ddpoa.Peers.{PeerNode}
use sawtooth_ddpoa.Node.{Node, update_peer}
use sawtooth_ddpoa.Node.Methods.{reward}
use sawtooth_ddpoa.Engine.{Engine, Env, on_node}
use sawtooth_ddpoa.Engine.Catchup.{request_checks}
use sawtooth_ddpoa.Engine.Blocks.{
  handle_valid_block, handle_committed_block, take_committed, move_on, arrive,
}
use sawtooth_ddpoa.Engine.Views.{Holds, IsView, engine_next_slot-Holds, check_early-Holds}
use sawtooth_ddpoa.Engine.Safety.{IsNext, catching, next_by_turn, IsNext-iff}
use sawtooth_ddpoa.Engine.Commits.Rounds.{known_block}

abbrev counter : Engine → ℤ
counter s = s.waiting_for_commit

counter-IsView : IsView counter
unfolding request_checks
counter-IsView = record { logged = λ c s. refl; started = λ t s. refl; requested = λ ids s. refl }

abbrev Awaits : ℤ → Engine → Type 0
Awaits = Holds counter

module _ (w : ℤ) (env : Env) where
  arrive-Awaits :
      (h : Host) (b : Block) (c : ConsensusData) (s : Engine)
      → Awaits w s
      → Awaits w (arrive h env b c s)
  unfolding arrive
  arrive-Awaits h b c s a = record { same = ground (arith, a.same) }

pub rewarded :
    (mul : Float → Float → Float) (k : Key) (p : PeerNode) (n : Node)
    → get dec_key k n.peers ≡ some p
    → (reward mul k n).0 ≡ ok tt
unfolding reward update_peer
rewarded mul k p n e = ground (arith, e)

module _ (h : Host) (env : Env) where
  move_on-Awaits :
      (b : Block) (c : ConsensusData) (s : Engine)
      → Awaits (pred_ℤ s.waiting_for_commit) (move_on h env b c s).1
  unfolding move_on
  move_on-Awaits b c s =
      let w = pred_ℤ s.waiting_for_commit in
      and_then-keeps (Awaits w) _ _ (record { same = refl })
        (λ x t p. and_then-keeps (Awaits w) _ _ (arrive-Awaits w env h b c t p) (λ y u q.
          and_then-keeps (Awaits w) _ _
            (engine_next_slot-Holds counter counter-IsView w env h _ u (record { same = q.same }))
            (λ z v r. check_early-Holds counter counter-IsView w env h _ v r)))

  take_committed-Awaits :
      (b : Block) (c : ConsensusData) (p : PeerNode) (s : Engine)
      → get dec_key b.signer_id s.node.peers ≡ some p
      → Awaits (pred_ℤ s.waiting_for_commit) (take_committed h env b c s).1
  unfolding take_committed and_then
  take_committed-Awaits b c p s e =
      let after : Engine = record s { pre_id = b.block_id; pre_num = b.block_num } in
      let r = on_node (reward h.mul b.signer_id) after in
      let run : take_committed h env b c s ≡ move_on h env b c r.1 =
        and_then_ok r tt (λ x. move_on h env b c) (rewarded h.mul b.signer_id p s.node e) in
      rw run (move_on-Awaits b c r.1)

  committed_block-Awaits :
      (id : BlockId) (b : Block) (c : ConsensusData) (p : PeerNode) (s : Engine)
      → known_block env s id ≡ some b
      → h.parse b.payload ≡ some c
      → get dec_key b.signer_id s.node.peers ≡ some p
      → (handle_committed_block h env id s).1.waiting_for_commit ≡ pred_ℤ s.waiting_for_commit
  unfolding handle_committed_block and_then or_raise
  committed_block-Awaits id b c p s e f g =
      rw (e, f, handle_committed_block) (take_committed-Awaits b c p s g).same

module _ (h : Host) (env : Env) where
  valid_block_counted :
      (id : BlockId) (b : Block) (s : Engine) (later : Env)
      → env.service.blocks id ≡ some b
      → (catching s b ≡ true) ⊎ IsNext s b
      → let t = (handle_valid_block h env id s).1 in
        (t.waiting_for_commit
          ≡ (if catching s b then s.waiting_for_commit else add_ℕ s.waiting_for_commit 1))
        × (t.node ≡ s.node)
        × (known_block later t id ≡ known_block later s id)
  unfolding handle_valid_block and_then or_raise
  valid_block_counted id b s later e k = elim (Bool-cases (catching s b)) [
    | inl yes_it_is ↦ rw (e, yes_it_is, handle_valid_block) (refl, refl, refl)
    | inr is_not ↦
        let turn : next_by_turn s b ≡ true = elim k [ inl c ↦ cc | inr n ↦ (IsNext-iff s b).1 n ] in
        rw (e, is_not, turn, handle_valid_block) (refl, refl, refl)
  ]

  -- A block is found valid and asked to be committed, and then, with later answers of the service, the
  -- validator commits it; its data can be read and its signer is known. In its turn, the commit is counted up and down again, and the
  -- counter is as before. While catching up, it is only counted down: the counter is one less.
  pub commit_balance :
      (id : BlockId) (b : Block) (c : ConsensusData) (p : PeerNode) (s : Engine) (later : Env)
      → env.service.blocks id ≡ some b
      → (catching s b ≡ true) ⊎ IsNext s b
      → known_block later s id ≡ some b
      → h.parse b.payload ≡ some c
      → get dec_key b.signer_id s.node.peers ≡ some p
      → let t = (handle_valid_block h env id s).1 in
        (handle_committed_block h later id t).1.waiting_for_commit
        ≡ (if catching s b then pred_ℤ s.waiting_for_commit else s.waiting_for_commit)
  commit_balance id b c p s later e k known data_read signer =
      let t = (handle_valid_block h env id s).1 in
      let (counted, same_node, same_known) = valid_block_counted id b s later e k in
      committed_block-Awaits h later id b c p t (same_known ∙ known) data_read
        (ap (λ (n : Node). get dec_key b.signer_id n.peers) same_node ∙ signer)
      ∙ ap pred_ℤ counted
      ∙ balanced
    where
      balanced :
          pred_ℤ (if catching s b then s.waiting_for_commit else add_ℕ s.waiting_for_commit 1)
          ≡ (if catching s b then pred_ℤ s.waiting_for_commit else s.waiting_for_commit)
      balanced = elim (Bool-cases (catching s b)) [
        | inl y ↦ rw y refl
        | inr n ↦ rw n (pred_ℤ-add_ℕ_one s.waiting_for_commit)
      ]
