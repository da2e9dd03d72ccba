-- ===== src/Engine/Frame/Caching.antt =====
-- What depends on the block cache in nothing holds on when a block is cached
-- (consensus/pkg/engine/ddpoa_engine.py): the cache asks for no commit and no validation.
use sawtooth_ddpoa.Prelude.{
  ◌≡◌, ◌++◌, arith, All, List, [], ◌∷◌, false, BlockId, Outcome, ok, raise, hang, Bool-cases, inl,
  inr, ltb, length, dec_key,
}
use sawtooth_ddpoa.Prelude.Dict.{set_item}
use sawtooth_ddpoa.Service.{Block, Call}
use sawtooth_ddpoa.Cache.{BlockCache, append, evict}
use sawtooth_ddpoa.Engine.{Engine, log_call}
use sawtooth_ddpoa.Engine.Blocks.{log_calls, cached, cache_block}
use sawtooth_ddpoa.Engine.Frame.{is_counted}

-- The cache asks for no commit.
abbrev NoCommits : Outcome (List Call) → Type 0
NoCommits (ok calls) = All (λ c. is_counted c ≡ false) calls
NoCommits (raise e) = Unit
NoCommits hang = Unit

evict-NoCommits : (ids : List BlockId) (c : BlockCache) → NoCommits (evict ids c).0
unfolding evict is_counted
evict-NoCommits [] c = tt
evict-NoCommits (x ∷ ids) c = ground arith

append-NoCommits : (b : Block) (c : BlockCache) → NoCommits (append b c).0
unfolding append
append-NoCommits b c = elim (Bool-cases (ltb 10 (length (c.cache_ids ++ (b.block_id ∷ []))))) [
  | inl full ↦ rw full (
      evict-NoCommits (c.cache_ids ++ (b.block_id ∷ [])) (record {
        cache = set_item dec_key b.block_id b c.cache;
        cache_ids = c.cache_ids ++ (b.block_id ∷ []);
      }))
  | inr fits ↦ rw fits tt
]

module _ (P : Engine → Type 0)
    (logs : (c : Call) (s : Engine) → is_counted c ≡ false → P s → P (log_call c s))
    (moved : (c : BlockCache) (s : Engine) → P s → P (record s { block_cache = c })) where
  log_calls-keeps :
      (cs : List Call) (s : Engine) → All (λ c. is_counted c ≡ false) cs → P s → P (log_calls cs s)
  log_calls-keeps [] s a h = h
  log_calls-keeps (c ∷ cs) s a h = log_calls-keeps cs (log_call c s) a.1 (logs c s a.0 h)

  cached-keeps :
      (r : Outcome (List Call) × BlockCache) (s : Engine) → NoCommits r.0 → P s → P (cached r s).1
  unfolding cached
  cached-keeps (ok calls, c) s a h = log_calls-keeps calls _ a (moved c s h)
  cached-keeps (raise e, c) s a h = moved c s h
  cached-keeps (hang, c) s a h = moved c s h

  pub cache_block-keeps : (b : Block) (s : Engine) → P s → P (cache_block b s).1
  unfolding cache_block
  cache_block-keeps b s h =
      cached-keeps (append b s.block_cache) s (append-NoCommits b s.block_cache) h
