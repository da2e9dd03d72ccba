-- ===== src/Engine/Commits/Rounds.antt =====
-- Every branch of a round of the loop, by what it commits (consensus/pkg/engine/ddpoa_engine.py).
use mathlib.Core.List.{append-nil}
use sawtooth_ddpoa.Prelude.{
  ◌≡◌, refl, ap, ◌∙◌, arith, [], ◌∷◌, ◌++◌, ◌⊎◌, inl, inr, Option, none, some, BlockId,
  Option-cases, and_then, or_raise, dec_key,
}
use sawtooth_ddpoa.Prelude.Dict.{get}
use sawtooth_ddpoa.Host.{Host}
use sawtooth_ddpoa.Service.{Block, ConsensusData, commit_block, fail_block}
use sawtooth_ddpoa.Cache.{block_from_id}
use sawtooth_ddpoa.Node.{catching_up}
use sawtooth_ddpoa.Engine.{Engine, Env}
use sawtooth_ddpoa.Engine.Blocks.{
  handle_valid_block, handle_committed_block, take_committed, move_on, or_else,
}
use sawtooth_ddpoa.Engine.Loop.{
  Update, block_new, block_valid, block_invalid, block_commit, peer_connected, peer_disconnected,
  unknown, handle_update, handle_updates, round,
}
use sawtooth_ddpoa.Engine.Safety.{
  IsNext, Verdict, caught_up, accepted, refused, valid_block-Verdict,
}
use sawtooth_ddpoa.Engine.Frame.{bind-keeps}
use sawtooth_ddpoa.Engine.Frame.Slots.{engine_next_slot-keeps}
use sawtooth_ddpoa.Engine.Frame.Blocks.{
  handle_new_block-keeps, handle_invalid_block-keeps, check_early-keeps, arrive-keeps,
}
use sawtooth_ddpoa.Engine.Frame.Inbox.{handle_peer_connected-keeps}
use sawtooth_ddpoa.Engine.Frame.Rounds.{round-keeps}
use sawtooth_ddpoa.Engine.Commits.{commits, commits-append, Quiet, Quiet-Keeps, Quiet-refl}

-- The block that `_handle_committed_block` takes for the id.
abbrev pub known_block : Env → Engine → BlockId → Option Block
known_block env s id =
    or_else (get dec_key id s.bootstrap_cache)
      (or_else (block_from_id id s.block_cache) (env.service.blocks id))

-- What a round with the update `u` from the state `s` has done in the state `t`.
pub data Effect (env : Env) (s : Engine) (u : Option Update) (t : Engine) : Type 0 where
  nothing : Quiet s t → Effect env s u t
  -- A valid block that follows the head is asked to be committed.
  asked :
      (id : BlockId) (b : Block)
      → u ≡ some (block_valid id)
      → env.service.blocks id ≡ some b
      → b.previous_id ≡ s.pre_id
      → (s.node.state ≡ catching_up) ⊎ IsNext s b
      → commits t.calls ≡ commits s.calls ++ (id ∷ [])
      → t.pre_id ≡ s.pre_id
      → t.pre_num ≡ s.pre_num
      → Effect env s u t
  -- The validator has committed a block.
  moved :
      (id : BlockId) (b : Block)
      → u ≡ some (block_commit id)
      → known_block env s id ≡ some b
      → commits t.calls ≡ commits s.calls
      → t.pre_id ≡ b.block_id
      → t.pre_num ≡ b.block_num
      → Effect env s u t

-- What follows the handler in the round changes no effect.
then-Quiet :
    (env : Env) (s m t : Engine) (u : Option Update)
    → Effect env s u m
    → Quiet m t
    → Effect env s u t
then-Quiet env s m t u (nothing q) r = nothing (record {
  same_commits = r.same_commits ∙ q.same_commits;
  same_id = r.same_id ∙ q.same_id;
  same_num = r.same_num ∙ q.same_num;
})
then-Quiet env s m t u (asked id b e f g next c i n) r =
    asked id b e f g next (r.same_commits ∙ c) (r.same_id ∙ i) (r.same_num ∙ n)
then-Quiet env s m t u (moved id b e f c i n) r =
    moved id b e f (r.same_commits ∙ c) (r.same_id ∙ i) (r.same_num ∙ n)

module _ (host : Host) (env : Env) where
  valid_block_head :
      (id : BlockId) (s : Engine)
      → let t = (handle_valid_block host env id s).1 in
        (t.pre_id ≡ s.pre_id) × (t.pre_num ≡ s.pre_num)
  unfolding handle_valid_block and_then or_raise
  valid_block_head id s = elim (Option-cases (env.service.blocks id)) [
    | inl e ↦ rw (e, handle_valid_block) (refl, refl)
    | inr (b, e) ↦ ground (arith, e)
  ]

  valid_block-Effect :
      (id : BlockId) (s : Engine)
      → Effect env s (some (block_valid id)) (handle_valid_block host env id s).1
  unfolding handle_valid_block and_then or_raise commits
  valid_block-Effect id s = elim (Option-cases (env.service.blocks id)) [
    | inl e ↦ nothing (rw (e, handle_valid_block) (Quiet-refl s))
    | inr (b, e) ↦ found b e (valid_block-Verdict host env s id b e).2
  ]
    where
      m : Engine
      m = (handle_valid_block host env id s).1

      one_more :
          m.calls ≡ s.calls ++ (commit_block id ∷ [])
          → commits m.calls ≡ commits s.calls ++ (id ∷ [])
      one_more c = ap commits c ∙ commits-append s.calls (commit_block id ∷ [])

      found :
          (b : Block)
          → env.service.blocks id ≡ some b
          → Verdict s id b m
          → Effect env s (some (block_valid id)) m
      found b e (caught_up now c w) =
          asked id b refl e now.after_head (inl now.behind) (one_more c) (valid_block_head id s).0
            (valid_block_head id s).1
      found b e (accepted _ next c w) =
          asked id b refl e next.after_head (inr next) (one_more c) (valid_block_head id s).0
            (valid_block_head id s).1
      found b e (refused _ other c w) = nothing (record {
        same_commits = ap commits c ∙ commits-append s.calls (fail_block id ∷ []) ∙ append-nil _;
        same_id = (valid_block_head id s).0;
        same_num = (valid_block_head id s).1;
      })

  take_committed-Quiet :
      (b : Block) (c : ConsensusData) (s : Engine)
      → Quiet
          (record s { pre_id = b.block_id; pre_num = b.block_num })
          (take_committed host env b c s).1
  unfolding take_committed move_on
  take_committed-Quiet b c s =
      let after : Engine = record s { pre_id = b.block_id; pre_num = b.block_num } in
      let k = Quiet-Keeps after in
      bind-keeps (Quiet after) k _ _ (Quiet-refl after) (λ a t p.
        bind-keeps (Quiet after) k _ _ (k.silent t _ refl refl refl refl refl p) (λ d u q.
          bind-keeps (Quiet after) k _ _ (k.silent u _ refl refl refl refl refl q) (λ e v r.
            bind-keeps (Quiet after) k _ _ (arrive-keeps (Quiet after) k host env b c v r) (λ f w x.
              bind-keeps (Quiet after) k _ _ (engine_next_slot-keeps (Quiet after) k env host _ w x)
                (λ g y z. check_early-keeps (Quiet after) k host env _ y z)))))

  committed_block-Effect :
      (id : BlockId) (s : Engine)
      → Effect env s (some (block_commit id)) (handle_committed_block host env id s).1
  unfolding handle_committed_block and_then or_raise
  committed_block-Effect id s = elim (Option-cases (known_block env s id)) [
    | inl e ↦ nothing (rw (e, handle_committed_block) (Quiet-refl s))
    | inr (b, e) ↦ elim (Option-cases (host.parse b.payload)) [
      | inl f ↦ nothing (rw (e, f, handle_committed_block) (Quiet-refl s))
      | inr (consensus, f) ↦
          let kept = take_committed-Quiet b consensus s in
          rw (e, f, handle_committed_block)
            (moved id b refl e kept.same_commits kept.same_id kept.same_num)
    ]
  ]

  update-Effect : (u : Update) (s : Engine) → Effect env s (some u) (handle_update host env u s).1
  unfolding handle_update
  update-Effect (block_new b) s =
      nothing (handle_new_block-keeps (Quiet s) (Quiet-Keeps s) host env b s (Quiet-refl s))
  update-Effect (block_valid id) s = valid_block-Effect id s
  update-Effect (block_invalid id) s = nothing (
      handle_invalid_block-keeps (Quiet s) (Quiet-Keeps s) host env id s
        (λ t q. record {
          same_commits = q.same_commits;
          same_id = q.same_id;
          same_num = q.same_num;
        })
        (Quiet-refl s))
  update-Effect (block_commit id) s = committed_block-Effect id s
  update-Effect (peer_connected k) s =
      nothing (handle_peer_connected-keeps (Quiet s) (Quiet-Keeps s) host env k s (Quiet-refl s))
  update-Effect (peer_disconnected k) s = nothing (Quiet-refl s)
  update-Effect unknown s = nothing (Quiet-refl s)

  updates-Effect : (u : Option Update) (s : Engine) → Effect env s u (handle_updates host env u s).1
  updates-Effect none s = nothing (Quiet-refl s)
  updates-Effect (some u) s = update-Effect u s

  -- A round, whatever the update, the message, the answers and the exceptions, either asks for no
  -- commit and leaves the head; or asks, for a validated block that follows the head, for this one
  -- commit, and then the engine was catching up or the block has the next number and the signer
  -- whose slot it is; or makes a block the head that the validator has committed.
  pub round-Effect : (u : Option Update) (s : Engine) → Effect env s u (round host env u s).1
  round-Effect u s =
      let m = (handle_updates host env u s).1 in
      then-Quiet env s m _ u (updates-Effect u s)
        (round-keeps (Quiet m) (Quiet-Keeps m) host env u s (Quiet-refl m))
