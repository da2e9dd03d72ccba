-- ===== src/Cache/Walk.antt =====
-- `traversable` (`BlockCache` of consensus/pkg/engine/ddpoa_engine.py) ends, and decides whether the
-- blocks of the cache lead from one id to another.
use sawtooth_ddpoa.Prelude.{
  ℕ, zero, suc, ◌+◌, ◌≤◌, ◌<◌, ◌≡◌, ◌≢◌, ◌↔◌, refl, subst, sym, ap, ◌∙◌, List, [], ◌∷◌, none, some,
  Bool, true, false, length, leb, if◌then◌else◌, ite, if_pos, if_neg, BlockId, dec_key, ok, arith,
  Option-cases, inl, inr,
}
use sawtooth_ddpoa.Prelude.Dict.{get}
use sawtooth_ddpoa.Service.{Block}
use sawtooth_ddpoa.Cache.{BlockCache, walk, traversable}

-- The blocks lie under their ids, and each comes after the one before it, where this is cached too.
pub record IsOrdered (c : BlockCache) : Type 0 where
  pub own_id : (k : BlockId) (b : Block) → get dec_key k c.cache ≡ some b → b.block_id ≡ k
  pub after_previous :
      (k : BlockId) (b p : Block)
      → get dec_key k c.cache ≡ some b
      → get dec_key b.previous_id c.cache ≡ some p
      → p.block_num < b.block_num

-- From the id back by previous ids, through cached blocks.
pub data Leads (c : BlockCache) (to : BlockId) : BlockId → Type 0 where
  arrived : {from : BlockId} → from ≡ to → Leads c to from
  onward :
      {from : BlockId} (b : Block)
      → get dec_key from c.cache ≡ some b
      → Leads c to b.previous_id
      → Leads c to from

-- How many blocks have at most the number `n`.
pub up_to : ℕ → List (BlockId × Block) → ℕ
up_to n [] = 0
up_to n ((k, b) ∷ d) = (if leb b.block_num n then 1 else 0) + up_to n d

pub up_to-le : (n : ℕ) (d : List (BlockId × Block)) → up_to n d ≤ length d
unfolding up_to
up_to-le n [] = omega arith
up_to-le n ((k, b) ∷ d) = ground (arith, up_to-le n d)

up_to_mono : (m n : ℕ) (d : List (BlockId × Block)) → m ≤ n → up_to m d ≤ up_to n d
unfolding up_to
up_to_mono m n [] h = omega arith
up_to_mono m n ((k, b) ∷ d) h = ground (arith, up_to_mono m n d h)

pub up_to-lt :
    (m : ℕ) (k : BlockId) (b : Block) (d : List (BlockId × Block))
    → get dec_key k d ≡ some b
    → m < b.block_num
    → up_to m d < up_to b.block_num d
unfolding up_to get
up_to-lt m k b [] e h = cc
up_to-lt m k b ((j, x) ∷ d) e h = ground (arith, up_to-lt m k b d, up_to_mono m b.block_num d)

up_to_pos :
    (k : BlockId) (b : Block) (d : List (BlockId × Block))
    → get dec_key k d ≡ some b
    → 0 < up_to b.block_num d
unfolding up_to get
up_to_pos k b [] e = cc
up_to_pos k b ((j, x) ∷ d) e = ground (arith, up_to_pos k b d)

no_way :
    (c : BlockCache) {to from : BlockId}
    → get dec_key from c.cache ≡ none
    → from ≢ to
    → Leads c to from
    → ⊥
no_way c e apart (arrived p) = apart p
no_way c e apart (onward b f l) = cc

pub past :
    (c : BlockCache) {to from : BlockId} (b : Block)
    → get dec_key from c.cache ≡ some b
    → from ≢ to
    → Leads c to from
    → Leads c to b.previous_id
past c b e apart (arrived p) = absurd (apart p)
past c {to} b e apart (onward x f l) =
    let same : x ≡ b = cc in subst (λ (y : Block). Leads c to y.previous_id) same l

module _ (fuel : ℕ) (from to : BlockId) (c : BlockCache) where
  walk_missing :
      get dec_key from c.cache ≡ none
      → walk (suc fuel) from to c ≡ ok (ite (dec_key from to) true false)
  unfolding walk
  walk_missing e = rw (e, walk) refl

  walk_hit :
      (b : Block)
      → get dec_key from c.cache ≡ some b
      → b.block_id ≡ to
      → walk (suc fuel) from to c ≡ ok true
  unfolding walk
  walk_hit b e p = ground (arith, e, p)

  walk_past :
      (b : Block)
      → get dec_key from c.cache ≡ some b
      → b.block_id ≢ to
      → walk (suc fuel) from to c ≡ walk fuel b.previous_id to c
  unfolding walk
  walk_past b e p = ground (arith, e, p)

module _ (c : BlockCache) (o : IsOrdered c) (to : BlockId) where
  -- The fuel is more than the blocks that may still be met.
  abbrev Enough : ℕ → BlockId → Type 0
  Enough fuel from =
      (0 < fuel)
      × ((b : Block) → get dec_key from c.cache ≡ some b → up_to b.block_num c.cache < fuel)

  next-Enough :
      (fuel : ℕ) (from : BlockId) (b : Block)
      → get dec_key from c.cache ≡ some b
      → Enough (suc fuel) from
      → Enough fuel b.previous_id
  next-Enough fuel from b e h = (
    omega (arith, h.1 b e, up_to_pos from b c.cache e),
    λ p f.
        omega
          (arith, h.1 b e, up_to-lt p.block_num from b c.cache e (o.after_previous from b p e f)),
  )

  walk_decides :
      (fuel : ℕ) (from : BlockId)
      → Enough fuel from
      → (r : Bool) × (walk fuel from to c ≡ ok r) × ((r ≡ true) ↔ Leads c to from)
  walk_decides zero from h = absurd (omega arith)
  walk_decides (suc fuel) from h = elim (Option-cases (get dec_key from c.cache)) [
    | inl e ↦ elim (dec_key from to) [
      | yes p ↦ (
        true,
        walk_missing fuel from to c e ∙ ap ok (if_pos (dec_key from to) p true false),
        ((λ x. arrived p), (λ x. refl)),
      )
      | no p ↦ (
        false,
        walk_missing fuel from to c e ∙ ap ok (if_neg (dec_key from to) p true false),
        ((λ x. cc), (λ x. absurd (no_way c e p x))),
      )
    ]
    | inr (b, e) ↦ elim (dec_key b.block_id to) [
      | yes p ↦ (
        true,
        walk_hit fuel from to c b e p,
        ((λ x. arrived (sym (o.own_id from b e) ∙ p)), (λ x. refl)),
      )
      | no p ↦
          let (r, run, iff) = walk_decides fuel b.previous_id (next-Enough fuel from b e h) in
          (
            r,
            walk_past fuel from to c b e p ∙ run,
            (
              (λ x. onward b e (iff.0 x)),
              (λ x. iff.1 (past c b e (λ q. p (o.own_id from b e ∙ q)) x)),
            ),
          )
    ]
  ]

  -- In an ordered cache the walk comes to an end, and says whether the blocks lead from one id to the
  -- other.
  pub traversable_decides :
      (from : BlockId)
      → (r : Bool) × (traversable from to c ≡ ok r) × ((r ≡ true) ↔ Leads c to from)
  unfolding traversable
  traversable_decides from =
      walk_decides (suc (length c.cache)) from
        (omega arith, λ b e. omega (arith, up_to-le b.block_num c.cache))
