-- ===== src/Engine/Catchup.antt =====
-- `fastforward` and `common_and_forked_block` of consensus/pkg/engine/ddpoa_engine.py.
use sawtooth_ddpoa.Prelude.{
  ℕ, zero, suc, List, [], ◌∷◌, map, Option, none, some, Bool, true, false, ◌||◌, length, drop,
  contains, index_of, if◌then◌else◌, ite, BlockId, dec_key, M, Outcome, ok, raise, service_error,
  value_error, skip, modify, reads, or_raise, ◌>>=◌, ◌>>◌,
}
use sawtooth_ddpoa.Prelude.Dict.{values}
use sawtooth_ddpoa.Prelude.Int.{ℤ}
use sawtooth_ddpoa.Prelude.Sorting.{sort_by}
use sawtooth_ddpoa.Utils.{try_remove}
use sawtooth_ddpoa.Service.{Block, Answers, check_blocks, fail_block}
use sawtooth_ddpoa.Cache.{block_from_id, traversable, block_path, longest_chain}
use sawtooth_ddpoa.Host.{Host}
use sawtooth_ddpoa.Node.{is_state, catching_up}
use sawtooth_ddpoa.Engine.{Engine, Env, log_call, expect_validations}

-- Blocks to be checked are counted as waiting for validation first.
unfoldable pub request_checks : List BlockId → Engine → Engine
request_checks ids s = log_call (check_blocks ids) (expect_validations (length ids) s)

-- `cond` with a value that must be there.
unfoldable pub is_some {ℓ} : {A : Type ℓ} → Option A → Bool
is_some none = false
is_some (some a) = true

unfoldable pub any_equals : (Block → Bool) → List Block → Bool
any_equals p [] = false
any_equals p (b ∷ bs) = p b || any_equals p bs

-- Back from `cur`, for as many blocks: the last common one and the block on our chain after it.
unfoldable pub search_fork :
    ℕ → Answers → List BlockId → Block → Outcome (Option (BlockId × BlockId))
unfolding contains
search_fork zero service chain cur = ok none
search_fork (suc rounds) service chain cur = elim (contains dec_key cur.previous_id chain) [
  | true ↦ ok (some (cur.previous_id, cur.block_id))
  | false ↦ elim (service.blocks cur.previous_id) [
    | none ↦ raise service_error
    | some previous ↦ search_fork rounds service chain previous
  ]
]

unfoldable pub common_and_forked_block :
    Answers → List BlockId → Outcome (Option (BlockId × BlockId))
unfolding search_fork
common_and_forked_block service chain = elim service.chain_head [
  | none ↦ raise service_error
  | some head ↦ search_fork 10 service chain head
]

module _ (h : Host) (env : Env) where
  -- The part of the chain behind the common block is checked, without the head that is given up.
  unfoldable pub leave_fork : List BlockId → Option (BlockId × BlockId) → M Engine (Unit {0})
  unfolding index_of try_remove request_checks
  leave_fork chain none = skip
  leave_fork chain (some (common, forked)) = do
    modify (log_call (fail_block forked))
    from ← or_raise value_error (index_of dec_key common chain)
    (λ s. modify (request_checks (try_remove (try_remove (drop from chain) s.pre_id) common)) s)

  -- Towards a target that is in the block cache.
  unfoldable pub follow_cached : BlockId → M Engine (Unit {0})
  unfolding traversable block_path longest_chain common_and_forked_block leave_fork request_checks
  follow_cached target_id = do
    reachable ← reads (λ s. traversable target_id s.pre_id s.block_cache)
    if reachable
        then (do
          block_ids ← reads (λ s. block_path target_id s.pre_id s.block_cache)
          modify (request_checks block_ids))
        else (do
          chain ← reads (λ s. longest_chain target_id s.block_cache)
          fork ← reads (λ s. common_and_forked_block env.service chain)
          leave_fork chain fork)

  -- By number: the sort of the pairs of id and number.
  unfoldable pub check_bootstrap_cache : Engine → Engine
  unfolding sort_by request_checks
  check_bootstrap_cache s =
      request_checks
        (map (λ (b : Block). b.block_id)
          (sort_by (λ (b : Block). b.block_num) (values s.bootstrap_cache)))
        s

  unfoldable pub fastforward : BlockId → ℤ → M Engine (Unit {0})
  unfolding block_from_id is_some any_equals follow_cached check_bootstrap_cache
  fastforward target_id target_num s =
      let ahead = record s {
        node = record s.node { state = catching_up };
        fastforward_target = some target_num;
        fastforward_target_id = some target_id;
      } in
      if ite (dec_key target_id s.pre_id) true false
      then (ok tt, record s { has_requested_bootstrap = false; bootstrap_messages_received = [] })
      else if is_state s.node.state catching_up
      then (ok tt, s)
      else if is_some (block_from_id target_id s.block_cache)
      then follow_cached target_id ahead
      else if any_equals (h.equals_block target_id) (values s.bootstrap_cache)
      then (ok tt, check_bootstrap_cache ahead)
      else (ok tt, ahead)
