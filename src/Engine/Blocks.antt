-- ===== src/Engine/Blocks.antt =====
-- The handlers of the validator's block messages, in consensus/pkg/engine/ddpoa_engine.py.
use sawtooth_ddpoa.Prelude.{
  ℕ, ◌+◌, ◌-◌, ◌*◌, List, [], ◌∷◌, Option, none, some, Bool, true, false, not, ◌&&◌, ◌||◌, ltb,
  ◌==◌, contains, if◌then◌else◌, ite, BlockId, dec_key, M, Outcome, ok, raise, hang, service_error,
  decode_error, attribute_error, modify, gets, reads, or_raise, when, ◌>>=◌, ◌>>◌,
}
use sawtooth_ddpoa.Prelude.Dict.{get, set_item}
use sawtooth_ddpoa.Prelude.Int.{ℤ, pred_ℤ, add_ℕ, is_number}
use sawtooth_ddpoa.Config.{second}
use sawtooth_ddpoa.Service.{Block, Call, ConsensusData, fail_block, commit_block}
use sawtooth_ddpoa.Cache.{BlockCache, block_from_id, block_by_num_and_signer, traversable}
use sawtooth_ddpoa.Cache
use sawtooth_ddpoa.Host.{Host}
use sawtooth_ddpoa.Node.{seen, is_state, waiting_for_bootstrap, catching_up}
use sawtooth_ddpoa.Node.Methods.{
  expected_signer, is_key, penalize, reward, downgrade, bootstrap, broadcast_bootstrap_request,
}
use sawtooth_ddpoa.Engine.{Engine, Env, on_node, log_call, waiting, engine_next_slot}
use sawtooth_ddpoa.Engine.Catchup.{request_checks}

abbrev pub log_calls : List Call → Engine → Engine
log_calls [] s = s
log_calls (c ∷ cs) s = log_calls cs (log_call c s)

unfoldable pub cached : Outcome (List Call) × BlockCache → M Engine (Unit {0})
cached (ok calls, c) s = (ok tt, log_calls calls (record s { block_cache = c }))
cached (raise e, c) s = (raise e, record s { block_cache = c })
cached (hang, c) s = (hang, record s { block_cache = c })

unfoldable pub cache_block : Block → M Engine (Unit {0})
unfolding Cache.append cached
cache_block b s = cached (Cache.append b s.block_cache) s

-- The block follows the last committed one, in the expected signer's slot.
unfoldable pub follows : Block → Engine → Bool
follows b s = ite (dec_key b.previous_id s.pre_id) true false && b.block_num == s.pre_num + 1

abbrev pub or_else : Option Block → Option Block → Option Block
or_else none o = o
or_else (some b) o = some b

abbrev pub is_target : Option ℤ → ℕ → Bool
is_target none n = false
is_target (some t) n = is_number t n

module _ (h : Host) (env : Env) where
  -- A block that is next and by the expected signer is sent to validation.
  unfoldable pub check_next : Block → Engine → Engine
  unfolding follows expected_signer request_checks
  check_next b s =
      if follows b s && is_key (expected_signer s.node) b.signer_id
      then request_checks (b.block_id ∷ []) (record s {
        waiting_for_own_block =
            s.waiting_for_own_block && not (ite (dec_key b.signer_id s.local_id) true false);
      })
      else s

  -- A block further ahead, while nothing is awaited, asks the other nodes for their heads, at most
  -- every six seconds. The walk decides only what is logged.
  unfoldable pub check_ahead : Block → M Engine (Unit {0})
  unfolding waiting traversable broadcast_bootstrap_request
  check_ahead b s =
      if ltb (s.pre_num + 1) b.block_num && not (waiting s)
      then (do
        logged ← reads (λ t. traversable b.previous_id t.pre_id t.block_cache)
        due ← gets (λ t.
            ltb (6 * second) (env.now - t.last_bootstrap_request) || not t.has_requested_bootstrap)
        when due (
            modify (λ t. record t {
              last_bootstrap_request = env.now;
              has_requested_bootstrap = true;
              node = broadcast_bootstrap_request env.now t.node;
            })))
          s
      else (ok tt, s)

  unfoldable pub place_block : Block → M Engine (Unit {0})
  unfolding set_item traversable request_checks check_ahead
  place_block b s =
      if is_state s.node.state waiting_for_bootstrap
      then (ok tt, record s { bootstrap_cache = set_item dec_key b.block_id b s.bootstrap_cache })
      else if is_state s.node.state catching_up
      then (do
        target ← or_raise attribute_error s.fastforward_target_id
        part ← reads (λ t. traversable b.block_id target t.block_cache)
        if part then modify (request_checks (b.block_id ∷ [])) else check_ahead b)
          s
      else check_ahead b s

  unfoldable pub handle_new_block : Block → M Engine (Unit {0})
  unfolding contains penalize seen cache_block check_next place_block
  handle_new_block b s =
      if not (contains dec_key b.signer_id s.members)
      then (ok tt, log_call (fail_block b.block_id) s)
      else (do
        consensus ← or_raise decode_error (h.parse b.payload)
        if ltb env.now (consensus.timestamp * second)
            then (do
              on_node (penalize h.mul b.signer_id)
              modify (log_call (fail_block b.block_id)))
            else (do
              on_node (seen env.now b.signer_id)
              cache_block b
              modify (check_next b)
              place_block b))
          s

  unfoldable pub handle_valid_block : BlockId → M Engine (Unit {0})
  unfolding expected_signer
  handle_valid_block block_id = do
    b ← or_raise service_error (env.service.blocks block_id)
    modify (λ s. record s { waiting_for_validation = pred_ℤ s.waiting_for_validation })
    (λ s.
        if is_state s.node.state catching_up && ite (dec_key b.previous_id s.pre_id) true false
        then (ok tt, log_call (commit_block block_id) s)
        else if is_key (expected_signer s.node) b.signer_id
            && (ite (dec_key b.previous_id s.pre_id) true false && b.block_num == s.pre_num + 1)
        then (
          ok tt,
          log_call (commit_block block_id)
              (record s { waiting_for_commit = add_ℕ s.waiting_for_commit 1 }),
        )
        else (ok tt, log_call (fail_block block_id) s))

  unfoldable pub handle_invalid_block : BlockId → M Engine (Unit {0})
  unfolding block_from_id penalize downgrade engine_next_slot
  handle_invalid_block block_id = do
    b ← (λ s.
        or_raise service_error
          (or_else (block_from_id block_id s.block_cache) (env.service.blocks block_id)) s)
    consensus ← or_raise decode_error (h.parse b.payload)
    on_node (penalize h.mul b.signer_id)
    on_node (downgrade b.signer_id)
    engine_next_slot env h consensus.timestamp
    modify (λ s. record s { waiting_for_validation = pred_ℤ s.waiting_for_validation })

  -- The block that the next witness has sent already is sent to validation.
  unfoldable pub check_early : ℕ → Engine → Engine
  unfolding expected_signer block_by_num_and_signer request_checks
  check_early num s = elim (expected_signer s.node) [
    | none ↦ s
    | some signer ↦ elim (block_by_num_and_signer num signer s.block_cache) [
      | none ↦ s
      | some b ↦ request_checks (b.block_id ∷ []) s
    ]
  ]

  -- At the block that was aimed at, the epoch is taken over from its data.
  unfoldable pub arrive : Block → ConsensusData → Engine → Engine
  unfolding bootstrap
  arrive b consensus s =
      if is_state s.node.state catching_up && is_target s.fastforward_target b.block_num
      then record s {
        node =
            bootstrap consensus.epoch consensus.witness_idx consensus.candidates consensus.num_slots
              s.node;
        bootstrap_messages_received = [];
        has_requested_bootstrap = false;
      }
      else s

  -- What is done when the signer has been rewarded.
  unfoldable pub move_on : Block → ConsensusData → M Engine (Unit {0})
  unfolding arrive engine_next_slot check_early
  move_on b consensus = do
    modify (λ s. record s { waiting_for_commit = pred_ℤ s.waiting_for_commit })
    modify (arrive b consensus)
    engine_next_slot env h consensus.timestamp
    modify (check_early (b.block_num + 1))

  -- What is done once the block is found and its data are read.
  unfoldable pub take_committed : Block → ConsensusData → M Engine (Unit {0})
  unfolding reward move_on
  take_committed b consensus = do
    modify (λ s. record s { pre_id = b.block_id; pre_num = b.block_num })
    on_node (reward h.mul b.signer_id)
    move_on b consensus

  unfoldable pub handle_committed_block : BlockId → M Engine (Unit {0})
  unfolding get block_from_id take_committed
  handle_committed_block block_id = do
    b ← (λ s.
        or_raise service_error
          (or_else (get dec_key block_id s.bootstrap_cache)
            (or_else (block_from_id block_id s.block_cache) (env.service.blocks block_id)))
          s)
    consensus ← or_raise decode_error (h.parse b.payload)
    take_committed b consensus
