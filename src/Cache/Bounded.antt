-- ===== src/Cache/Bounded.antt =====
-- What `append` (`BlockCache` of consensus/pkg/engine/ddpoa_engine.py) keeps, and how a block that is
-- appended twice breaks it.
use mathlib.Core.List.{map-append}
use sawtooth_ddpoa.Prelude.{
  ◌≤◌, ◌≡◌, refl, ap, subst, ◌∙◌, List, [], ◌∷◌, ◌++◌, true, false, length, contains, remove, All,
  All-append, BlockId, dec_key, ok, if_pos, if_neg,
}
use sawtooth_ddpoa.Prelude.Dict.{keys, set_item, del_item, length-set_item_new}
use sawtooth_ddpoa.Prelude.Distinct.{
  Distinct, contains_self, append-Distinct, has-contains, keys-del_item,
}
use sawtooth_ddpoa.Service.{Block, ignore_block}
use sawtooth_ddpoa.Cache.{BlockCache, evict}

-- The dictionary holds a block under its id for each listed id, in the order of the list, which has
-- no id twice and at most ten.
pub record IsValid (c : BlockCache) : Type 0 where
  pub same_ids : keys c.cache ≡ c.cache_ids
  pub distinct : Distinct dec_key c.cache_ids
  pub bounded : length c.cache_ids ≤ 10
  pub own_ids : All (λ e. e.1.block_id ≡ e.0) c.cache

pub del-All :
    (P : BlockId × Block → Type 0) (k : BlockId) (d : List (BlockId × Block))
    → All P d
    → All P (del_item dec_key k d)
unfolding del_item
del-All P k [] a = tt
del-All P k ((j, b) ∷ d) a = elim (dec_key j k) [
  | yes p ↦ rw (if_pos (dec_key j k) p) a.1
  | no p ↦ rw (if_neg (dec_key j k) p) (a.0, del-All P k d a.1)
]

pub remove_first : (x : BlockId) (xs : List BlockId) → remove dec_key x (x ∷ xs) ≡ xs
unfolding remove
remove_first x xs = if_pos (dec_key x x) refl xs (x ∷ remove dec_key x xs)

-- The oldest id goes from both, with one call.
pub evict-IsValid :
    (x : BlockId) (ids : List BlockId) (c : BlockCache)
    → c.cache_ids ≡ x ∷ ids
    → keys c.cache ≡ x ∷ ids
    → Distinct dec_key (x ∷ ids)
    → length ids ≤ 10
    → All (λ e. e.1.block_id ≡ e.0) c.cache
    → let d = record c { cache_ids = ids; cache = del_item dec_key x c.cache } in
      (evict (x ∷ ids) c ≡ (ok (ignore_block x ∷ []), d)) × IsValid d
unfolding evict
evict-IsValid x ids c e k d b own = (
  rw (has-contains dec_key x c.cache, k, contains_self dec_key x ids) refl,
  record {
    same_ids = keys-del_item dec_key x c.cache ∙ ap (remove dec_key x) k ∙ remove_first x ids;
    distinct = d.1;
    bounded = b;
    own_ids = del-All (λ f. f.1.block_id ≡ f.0) x c.cache own;
  },
)

keys-append : (d e : List (BlockId × Block)) → keys (d ++ e) ≡ keys d ++ keys e
keys-append d e = map-append (λ (x : BlockId × Block). x.0) d e

module _ (b : Block) (c : BlockCache) (v : IsValid c) where
  unfoldable pub grown : BlockCache
  grown = record {
    cache = set_item dec_key b.block_id b c.cache;
    cache_ids = c.cache_ids ++ (b.block_id ∷ []);
  }

  module _ (new : contains dec_key b.block_id c.cache_ids ≡ false) where
    pub at_end : set_item dec_key b.block_id b c.cache ≡ c.cache ++ ((b.block_id, b) ∷ [])
    at_end = length-set_item_new dec_key b.block_id b c.cache (
        has-contains dec_key b.block_id c.cache ∙ ap (contains dec_key b.block_id) v.same_ids ∙ new)

    pub grown_ids : keys grown.cache ≡ c.cache_ids ++ (b.block_id ∷ [])
    unfolding grown
    grown_ids =
        ap keys at_end
        ∙ keys-append c.cache ((b.block_id, b) ∷ [])
        ∙ ap (λ l. l ++ (b.block_id ∷ [])) v.same_ids

    apart :
        (a : BlockId)
        → contains dec_key a c.cache_ids ≡ true
        → contains dec_key a (b.block_id ∷ []) ≡ false
    unfolding contains
    apart a h = elim (dec_key b.block_id a) [
      | yes p ↦ absurd (let f = subst (λ x. contains dec_key x c.cache_ids ≡ false) p new in cc)
      | no p ↦ if_neg (dec_key b.block_id a) p true false
    ]

    pub grown-Distinct : Distinct dec_key (c.cache_ids ++ (b.block_id ∷ []))
    unfolding contains
    grown-Distinct =
        append-Distinct dec_key c.cache_ids (b.block_id ∷ []) v.distinct (refl, tt) apart

    pub grown_own : All (λ e. e.1.block_id ≡ e.0) grown.cache
    unfolding grown
    grown_own = rw at_end (All-append (λ e. e.1.block_id ≡ e.0) c.cache _ v.own_ids (refl, tt))
