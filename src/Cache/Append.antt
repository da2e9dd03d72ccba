-- ===== src/Cache/Append.antt =====
-- `append` (`BlockCache` of consensus/pkg/engine/ddpoa_engine.py), of a new block and of an old one.
use sawtooth_ddpoa.Prelude.{
  ◌≤◌, ◌≡◌, ◌≢◌, refl, ap, subst, ◌∙◌, List, [], ◌∷◌, ◌++◌, true, false, some, none, length,
  length-append, contains, contains-append, BlockId, dec_key, ok, arith, Bool-cases, List-cases,
  inl, inr, ltb,
}
use sawtooth_ddpoa.Prelude.Dict.{
  keys, get, has, set_item, del_item, get-set_item_self, get-del_item_ne, get-none,
  keys-set_item_old,
}
use sawtooth_ddpoa.Prelude.Distinct.{Distinct, contains_self, has-contains, keys-del_item}
use sawtooth_ddpoa.Service.{Block, Call, ignore_block}
use sawtooth_ddpoa.Cache.{BlockCache, append, evict}
use sawtooth_ddpoa.Cache.Bounded.{
  IsValid, evict-IsValid, grown, grown_ids, grown-Distinct, grown_own, remove_first,
}

-- A block with a new id is appended to a valid cache without an exception: the cache stays valid, so
-- it holds ten blocks at most, and the block is found in it under its id.
pub append-IsValid :
    (b : Block) (c : BlockCache)
    → IsValid c
    → contains dec_key b.block_id c.cache_ids ≡ false
    → (calls : List Call) × (d : BlockCache) × (append b c ≡ (ok calls, d))
      × IsValid d
      × (get dec_key b.block_id d.cache ≡ some b)
unfolding append grown
append-IsValid b c v new = elim (Bool-cases (ltb 10 (length (c.cache_ids ++ (b.block_id ∷ []))))) [
  | inr fits ↦ (
    [],
    grown b c v,
    rw fits refl,
    record {
      same_ids = grown_ids b c v new;
      distinct = grown-Distinct b c v new;
      bounded = ground (arith, fits);
      own_ids = grown_own b c v new;
    },
    get-set_item_self dec_key b.block_id b c.cache,
  )
  | inl full ↦ elim (List-cases c.cache_ids) [
    | inl e ↦ absurd (let f = rw e at full in ground (arith, f))
    | inr (x, ids, e) ↦
        let split : c.cache_ids ++ (b.block_id ∷ []) ≡ x ∷ (ids ++ (b.block_id ∷ [])) =
          ap (λ l. l ++ (b.block_id ∷ [])) e in
        let short : length (ids ++ (b.block_id ∷ [])) ≤ 10 =
          omega (arith, length-append ids (b.block_id ∷ []), ap length e, v.bounded) in
        let (run, valid) =
          evict-IsValid x (ids ++ (b.block_id ∷ [])) (grown b c v) split
            (grown_ids b c v new ∙ split)
            (subst (Distinct dec_key) split (grown-Distinct b c v new)) short
            (grown_own b c v new) in
        (
          ignore_block x ∷ [],
          _,
          rw full (rw split run),
          valid,
          get-del_item_ne dec_key x b.block_id (grown b c v).cache (older x ids e)
              ∙ get-set_item_self dec_key b.block_id b c.cache,
        )
  ]
]
  where
    older : (x : BlockId) (ids : List BlockId) → c.cache_ids ≡ x ∷ ids → x ≢ b.block_id
    older x ids e p =
        let f = subst (λ l. contains dec_key b.block_id l ≡ false) e new in
        let g = subst (λ y. contains dec_key y (x ∷ ids) ≡ true) p (contains_self dec_key x ids) in
        cc

-- When the cache is valid and full and its oldest block is appended once more, the eviction takes the
-- block that was just stored: its id is listed, and the dictionary has no block under it.
pub append_oldest_again :
    (b : Block) (c : BlockCache) (ids : List BlockId)
    → IsValid c
    → c.cache_ids ≡ b.block_id ∷ ids
    → length ids ≡ 9
    → (d : BlockCache) × (append b c ≡ (ok (ignore_block b.block_id ∷ []), d))
      × (contains dec_key b.block_id d.cache_ids ≡ true)
      × (get dec_key b.block_id d.cache ≡ none)
unfolding append evict
append_oldest_again b c ids v e nine = (
  record {
    cache = del_item dec_key b.block_id (set_item dec_key b.block_id b c.cache);
    cache_ids = ids ++ (b.block_id ∷ []);
  },
  rw (full, e, evict) (rw stored refl),
  contains-append dec_key b.block_id ids (b.block_id ∷ [])
      ∙ ground (arith, contains_self dec_key b.block_id []),
  get-none dec_key b.block_id _ gone,
)
  where
    full : ltb 10 (length (c.cache_ids ++ (b.block_id ∷ []))) ≡ true
    full = ground (arith, length-append c.cache_ids (b.block_id ∷ []), ap length e, nine)

    listed : keys (set_item dec_key b.block_id b c.cache) ≡ b.block_id ∷ ids
    listed =
        keys-set_item_old dec_key b.block_id b c.cache (
          has-contains dec_key b.block_id c.cache
          ∙ rw (v.same_ids, e) (contains_self dec_key b.block_id ids))
        ∙ v.same_ids
        ∙ e

    stored : has dec_key b.block_id (set_item dec_key b.block_id b c.cache) ≡ true
    stored = has-contains dec_key b.block_id _ ∙ rw listed (contains_self dec_key b.block_id ids)

    gone :
        has dec_key b.block_id (del_item dec_key b.block_id (set_item dec_key b.block_id b c.cache))
        ≡ false
    gone =
        has-contains dec_key b.block_id _
        ∙ rw
            (
              keys-del_item dec_key b.block_id (set_item dec_key b.block_id b c.cache),
              listed,
              remove_first b.block_id ids,
            )
            (subst (Distinct dec_key) e v.distinct).0
