-- ===== src/Cache.antt =====
-- `BlockCache` of consensus/pkg/engine/ddpoa_engine.py: the last ten blocks that were appended.
pub mod Bounded
pub mod Append
pub mod Recent
pub mod Refinement
pub mod Walk
pub mod Descent
pub mod Ancestry
pub mod Limits
use mathlib.Core.List.{reverse}
use sawtooth_ddpoa.Prelude.{
  ℕ, zero, suc, List, [], ◌∷◌, ◌++◌, Option, none, some, Bool, true, false, ◌&&◌, length, contains,
  ltb, ◌==◌, if◌then◌else◌, ite, Key, BlockId, dec_key, M, Outcome, ok, raise, hang, key_error,
}
use sawtooth_ddpoa.Prelude.Dict.{get, has, set_item, del_item}
use sawtooth_ddpoa.Service.{Block, Call, ignore_block}

pub record BlockCache : Type 0 where
  pub cache : List (BlockId × Block)
  pub cache_ids : List BlockId

unfoldable pub init : BlockCache
init = record { cache = []; cache_ids = [] }

-- Past ten ids the first goes; its `pop` raises if the block is gone already.
unfoldable pub evict : List BlockId → BlockCache → Outcome (List Call) × BlockCache
unfolding has del_item
evict [] c = (ok [], c)
evict (id_to_pop ∷ ids) c =
    if has dec_key id_to_pop c.cache
    then (
      ok (ignore_block id_to_pop ∷ []),
      record c { cache_ids = ids; cache = del_item dec_key id_to_pop c.cache },
    )
    else (raise key_error, record c { cache_ids = ids })

-- The service calls that the method makes are its result.
unfoldable pub append : Block → M BlockCache (List Call)
unfolding set_item evict
append block c =
    let ids = c.cache_ids ++ (block.block_id ∷ []) in
    let grown : BlockCache = record {
      cache = set_item dec_key block.block_id block c.cache;
      cache_ids = ids;
    } in
    if ltb 10 (length ids) then evict ids grown else (ok [], grown)

unfoldable pub block_from_id : BlockId → BlockCache → Option Block
unfolding get
block_from_id block_id c = get dec_key block_id c.cache

first_match : ℕ → Key → List (BlockId × Block) → Option Block
first_match num signer [] = none
first_match num signer ((_, b) ∷ d) =
    let rest = first_match num signer d in
    if b.block_num == num && ite (dec_key b.signer_id signer) true false then some b else rest

unfoldable pub block_by_num_and_signer : ℕ → Key → BlockCache → Option Block
unfolding first_match
block_by_num_and_signer num signer c = first_match num signer c.cache

unfoldable pub contains_id : BlockId → BlockCache → Bool
unfolding contains
contains_id block_id c = contains dec_key block_id c.cache_ids

-- The loops below follow `previous_id`. A walk through `n` cached blocks that has not ended after
-- `n + 1` steps has met a block twice and never ends: then it hangs.
unfoldable pub walk : ℕ → BlockId → BlockId → BlockCache → Outcome Bool
unfolding get
walk zero prev to c = hang
walk (suc fuel) prev to c = elim (get dec_key prev c.cache) [
  | none ↦ ok (ite (dec_key prev to) true false)
  | some curr ↦ elim (dec_key curr.block_id to) [
    | yes _ ↦ ok true
    | no _ ↦ walk fuel curr.previous_id to c
  ]
]

unfoldable pub traversable : BlockId → BlockId → BlockCache → Outcome Bool
unfolding walk
traversable from_id to_id c = walk (suc (length c.cache)) from_id to_id c

unfoldable pub path_loop : ℕ → Block → BlockId → List BlockId → BlockCache → Outcome (List BlockId)
unfolding get
path_loop zero cur to block_ids c = hang
path_loop (suc fuel) cur to block_ids c = elim (dec_key cur.previous_id to) [
  | yes _ ↦ ok (reverse (block_ids ++ (cur.block_id ∷ [])))
  | no _ ↦ elim (get dec_key cur.previous_id c.cache) [
    | none ↦ raise key_error
    | some next ↦ path_loop fuel next to (block_ids ++ (cur.block_id ∷ [])) c
  ]
]

unfoldable pub block_path : BlockId → BlockId → BlockCache → Outcome (List BlockId)
unfolding get path_loop
block_path from_id to_id c = elim (get dec_key from_id c.cache) [
  | none ↦ raise key_error
  | some cur ↦ path_loop (suc (length c.cache)) cur to_id [] c
]

unfoldable pub chain_loop : ℕ → Block → List BlockId → BlockCache → Outcome (List BlockId)
unfolding get
chain_loop zero cur block_ids c = hang
chain_loop (suc fuel) cur block_ids c = elim (get dec_key cur.previous_id c.cache) [
  | none ↦ ok (reverse block_ids)
  | some block ↦ chain_loop fuel block (block_ids ++ (block.block_id ∷ [])) c
]

unfoldable pub longest_chain : BlockId → BlockCache → Outcome (List BlockId)
unfolding get chain_loop
longest_chain from_id c = elim (get dec_key from_id c.cache) [
  | none ↦ raise key_error
  | some cur ↦ chain_loop (suc (length c.cache)) cur (from_id ∷ []) c
]
