-- ===== src/Engine/Safety.antt =====
-- What `_handle_valid_block` (consensus/pkg/engine/ddpoa_engine.py) tells the validator.
use sawtooth_ddpoa.Prelude.{
  and_then, or_raise, ◌+◌, ◌++◌, ◌≡◌, ◌↔◌, ◌&&◌, Bool, inl, inr, refl, [], ◌∷◌, some, true, false,
  BlockId, dec_key, ok, arith, ite, Bool-cases, ◌==◌,
}
use sawtooth_ddpoa.Prelude.Int.{add_ℕ, pred_ℤ}
use sawtooth_ddpoa.Service.{Block, commit_block, fail_block}
use sawtooth_ddpoa.Host.{Host}
use sawtooth_ddpoa.Node.{catching_up, is_state}
use sawtooth_ddpoa.Node.Methods.{expected_signer, is_key}
use sawtooth_ddpoa.Engine.{Engine, Env}
use sawtooth_ddpoa.Engine.Blocks.{handle_valid_block}

-- The block is the next one after the last committed, by the witness whose slot it is.
pub record IsNext (s : Engine) (b : Block) : Type 0 where
  pub after_head : b.previous_id ≡ s.pre_id
  pub in_turn : expected_signer s.node ≡ some b.signer_id
  pub next_number : b.block_num ≡ s.pre_num + 1

-- The engine is catching up and the block follows the last committed one.
pub record CatchesUp (s : Engine) (b : Block) : Type 0 where
  pub behind : s.node.state ≡ catching_up
  pub after_head : b.previous_id ≡ s.pre_id

-- The verdict on a block that the validator found valid: the state after it. The three exclude one
-- another.
pub data Verdict (s : Engine) (id : BlockId) (b : Block) (t : Engine) : Type 0 where
  -- Catching up, whatever its signer.
  caught_up :
      CatchesUp s b
      → t.calls ≡ s.calls ++ (commit_block id ∷ [])
      → t.waiting_for_commit ≡ s.waiting_for_commit
      → Verdict s id b t
  accepted :
      ¬ CatchesUp s b
      → IsNext s b
      → t.calls ≡ s.calls ++ (commit_block id ∷ [])
      → t.waiting_for_commit ≡ add_ℕ s.waiting_for_commit 1
      → Verdict s id b t
  refused :
      ¬ CatchesUp s b
      → ¬ IsNext s b
      → t.calls ≡ s.calls ++ (fail_block id ∷ [])
      → t.waiting_for_commit ≡ s.waiting_for_commit
      → Verdict s id b t

abbrev pub catching : Engine → Block → Bool
catching s b = is_state s.node.state catching_up && ite (dec_key b.previous_id s.pre_id) true false

abbrev pub next_by_turn : Engine → Block → Bool
next_by_turn s b =
    is_key (expected_signer s.node) b.signer_id
    && (ite (dec_key b.previous_id s.pre_id) true false && b.block_num == s.pre_num + 1)

CatchesUp-iff : (s : Engine) (b : Block) → (catching s b ≡ true) ↔ CatchesUp s b
CatchesUp-iff s b = (λ h. ground (arith, h), λ c. ground (arith, c.behind, c.after_head))

pub IsNext-iff : (s : Engine) (b : Block) → (next_by_turn s b ≡ true) ↔ IsNext s b
IsNext-iff s b =
    (λ h. ground (arith, h), λ n. ground (arith, n.after_head, n.in_turn, n.next_number))

-- For a block that the service returns, `_handle_valid_block` raises nothing, counts one validation
-- less, and makes exactly one call. While the engine is catching up and the block follows the head,
-- it commits the block and counts no commit to wait for. If that is not so, and the block is the next
-- one and by the expected signer, it commits the block and counts the commit. If neither is so, it
-- fails the block and counts nothing.
pub valid_block-Verdict :
    (h : Host) (env : Env) (s : Engine) (id : BlockId) (b : Block)
    → env.service.blocks id ≡ some b
    → let r = handle_valid_block h env id s in
      (r.0 ≡ ok tt)
      × (r.1.waiting_for_validation ≡ pred_ℤ s.waiting_for_validation)
      × Verdict s id b r.1
unfolding handle_valid_block and_then or_raise
valid_block-Verdict h env s id b e = elim (Bool-cases (catching s b)) [
  | inl c ↦
      rw (e, c, handle_valid_block) (refl, refl, caught_up ((CatchesUp-iff s b).0 c) refl refl)
  | inr n ↦
      let not_behind : ¬ CatchesUp s b = λ x. let y = (CatchesUp-iff s b).1 x in cc in
      elim (Bool-cases (next_by_turn s b)) [
        | inl a ↦
            rw (e, n, a, handle_valid_block)
              (refl, refl, accepted not_behind ((IsNext-iff s b).0 a) refl refl)
        | inr r ↦
            rw (e, n, r, handle_valid_block)
              (refl, refl, refused not_behind (λ x. let y = (IsNext-iff s b).1 x in cc) refl refl)
      ]
]
