-- ===== src/Cache/Limits.antt =====
-- What every `append` of `BlockCache` (consensus/pkg/engine/ddpoa_engine.py) keeps, also that of a block
-- that is cached already, and also where it raises.
use sawtooth_ddpoa.Prelude.{
  ℕ, suc, ◌≤◌, ◌≡◌, refl, sym, ap, subst, ◌∙◌, List, [], ◌∷◌, ◌++◌, true, false, length,
  length-append, length-perm, contains, contains-append, remove, remove-perm, All, BlockId, dec_key,
  arith, Bool-cases, inl, inr, ltb, if_pos, if_neg,
}
use sawtooth_ddpoa.Prelude.Dict.{keys, has, set_item, del_item, has-set_item_ne, has-del_item_ne}
use sawtooth_ddpoa.Prelude.Distinct.{
  Distinct, contains_self, contains_ne, contains-remove_ne, contains-remove_self,
  keys-set_item-Distinct, keys-del_item, remove-Distinct, has-contains,
}
use sawtooth_ddpoa.Service.{Block}
use sawtooth_ddpoa.Cache.{BlockCache, append, evict}
use sawtooth_ddpoa.Cache.Bounded.{del-All}

-- At most `n` ids are listed; every cached block is there once, under its own id, which is listed.
pub record Fits (n : ℕ) (ids : List BlockId) (d : List (BlockId × Block)) : Type 0 where
  pub few : length ids ≤ n
  pub distinct : Distinct dec_key (keys d)
  pub listed : (id : BlockId) → has dec_key id d ≡ true → contains dec_key id ids ≡ true
  pub own_ids : All (λ e. e.1.block_id ≡ e.0) d

abbrev pub IsBounded : BlockCache → Type 0
IsBounded c = Fits 10 c.cache_ids c.cache

-- A list without repetition is no longer than one with all its elements.
length-le :
    (xs ys : List BlockId)
    → Distinct dec_key xs
    → ((a : BlockId) → contains dec_key a xs ≡ true → contains dec_key a ys ≡ true)
    → length xs ≤ length ys
unfolding contains
length-le [] ys d h = omega arith
length-le (x ∷ xs) ys d h =
    let here : contains dec_key x ys ≡ true = h x (contains_self dec_key x xs) in
    let rest = length-le xs (remove dec_key x ys) d.1 (λ a p. elim (dec_key x a) [
      | yes same ↦ absurd (let q = subst (λ b. contains dec_key b xs ≡ false) same d.0 in cc)
      | no other ↦
          contains-remove_ne dec_key a x ys other ∙ h a (contains_ne dec_key a x xs other ∙ p)
    ]) in
    let size : length ys ≡ suc (length (remove dec_key x ys)) =
      length-perm (remove-perm dec_key x ys here) in
    omega (arith, rest, size)

set_own :
    (b : Block) (d : List (BlockId × Block))
    → All (λ e. e.1.block_id ≡ e.0) d
    → All (λ e. e.1.block_id ≡ e.0) (set_item dec_key b.block_id b d)
unfolding set_item
set_own b [] a = (refl, tt)
set_own b ((j, w) ∷ d) a = elim (dec_key j b.block_id) [
  | yes p ↦ rw (if_pos (dec_key j b.block_id) p) (sym p, a.1)
  | no p ↦ rw (if_neg (dec_key j b.block_id) p) (a.0, set_own b d a.1)
]

grow :
    (b : Block) (c : BlockCache)
    → IsBounded c
    → Fits 11 (c.cache_ids ++ (b.block_id ∷ [])) (set_item dec_key b.block_id b c.cache)
unfolding contains
grow b c v = record {
  few = omega (arith, v.few, length-append c.cache_ids (b.block_id ∷ []));
  distinct = keys-set_item-Distinct dec_key b.block_id b c.cache v.distinct;
  listed = λ id h.
      contains-append dec_key id c.cache_ids (b.block_id ∷ []) ∙ (elim (dec_key b.block_id id) [
        | yes p ↦ ground (arith, p)
        | no p ↦
            let old = v.listed id (sym (has-set_item_ne dec_key b.block_id id b c.cache p) ∙ h) in
            ground (arith, old)
      ]);
  own_ids = set_own b c.cache v.own_ids;
}

-- The oldest id goes, with its block or without.
shrink :
    (n : ℕ) (x : BlockId) (ids : List BlockId) (d : List (BlockId × Block))
    → Fits (suc n) (x ∷ ids) d
    → Fits n ids (del_item dec_key x d)
shrink n x ids d g = record {
  few = omega (arith, g.few);
  distinct = rw (keys-del_item dec_key x d) (remove-Distinct dec_key x (keys d) g.distinct);
  listed = λ id h. elim (dec_key x id) [
    | yes p ↦
        let gone : has dec_key x (del_item dec_key x d) ≡ false =
          has-contains dec_key x (del_item dec_key x d)
          ∙ ap (contains dec_key x) (keys-del_item dec_key x d)
          ∙ contains-remove_self dec_key x (keys d) g.distinct in
        absurd (let f = subst (λ k. has dec_key k (del_item dec_key x d) ≡ false) p gone in cc)
    | no p ↦
        sym (contains_ne dec_key id x ids p)
        ∙ g.listed id (sym (has-del_item_ne dec_key x id d p) ∙ h)
  ];
  own_ids = del-All (λ f. f.1.block_id ≡ f.0) x d g.own_ids;
}

unlist :
    (n : ℕ) (x : BlockId) (ids : List BlockId) (d : List (BlockId × Block))
    → Fits (suc n) (x ∷ ids) d
    → has dec_key x d ≡ false
    → Fits n ids d
unlist n x ids d g gone = record {
  few = omega (arith, g.few);
  distinct = g.distinct;
  listed = λ id h. elim (dec_key x id) [
    | yes p ↦ absurd (let f = subst (λ k. has dec_key k d ≡ false) p gone in cc)
    | no p ↦ sym (contains_ne dec_key id x ids p) ∙ g.listed id h
  ];
  own_ids = g.own_ids;
}

evict-Fits :
    (n : ℕ) (ids : List BlockId) (c : BlockCache)
    → Fits (suc n) ids c.cache
    → c.cache_ids ≡ ids
    → let d = (evict ids c).1 in Fits n d.cache_ids d.cache
unfolding evict
evict-Fits n [] c g e =
    rw e
      (record { few = omega arith; distinct = g.distinct; listed = g.listed; own_ids = g.own_ids })
evict-Fits n (x ∷ ids) c g e = elim (Bool-cases (has dec_key x c.cache)) [
  | inl here ↦ rw (here, evict) (shrink n x ids c.cache g)
  | inr gone ↦ rw (gone, evict) (unlist n x ids c.cache g gone)
]

-- Whatever block is appended, and whether this raises or not.
pub append-IsBounded : (b : Block) (c : BlockCache) → IsBounded c → IsBounded (append b c).1
unfolding append
append-IsBounded b c v =
    let ids = c.cache_ids ++ (b.block_id ∷ []) in
    let g = grow b c v in
    elim (Bool-cases (ltb 10 (length ids))) [
      | inl full ↦ rw full (
          evict-Fits 10 ids
            (record { cache = set_item dec_key b.block_id b c.cache; cache_ids = ids }) g refl)
      | inr fits ↦ rw fits (record {
        few = ground (arith, fits);
        distinct = g.distinct;
        listed = g.listed;
        own_ids = g.own_ids;
      })
    ]

-- So it has ten blocks at most.
pub bounded_cache : (c : BlockCache) → IsBounded c → length (keys c.cache) ≤ 10
bounded_cache c v =
    let most =
      length-le (keys c.cache) c.cache_ids v.distinct
        (λ a h. v.listed a (has-contains dec_key a c.cache ∙ h)) in
    omega (arith, most, v.few)
