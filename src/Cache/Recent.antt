-- ===== src/Cache/Recent.antt =====
-- `BlockCache` of consensus/pkg/engine/ddpoa_engine.py as a queue of the ten newest blocks.
use mathlib.Core.List.{map-append}
use sawtooth_ddpoa.Prelude.{
  ℕ, suc, ◌+◌, ◌-◌, ◌≤◌, ◌<◌, ◌≡◌, refl, sym, ap, subst, ◌∙◌, List, [], ◌∷◌, ◌++◌, map, true, false,
  length, length-append, length-drop, take, drop, contains, All, BlockId, dec_key, Outcome, ok,
  arith, Bool-cases, List-cases, inl, inr, ltb, if_pos,
}
use sawtooth_ddpoa.Prelude.Dict.{keys, values, del_item, has}
use sawtooth_ddpoa.Prelude.Cuts.{drop-drop, take-append-take-drop, drop-append_le, take-append_le}
use sawtooth_ddpoa.Service.{Block, Call, ignore_block}
use sawtooth_ddpoa.Cache.{BlockCache, append, evict}
use sawtooth_ddpoa.Cache.Bounded.{IsValid, at_end, grown}

-- The abstract cache is the list of its blocks, oldest first. More than ten are cut in front.
abbrev pub overflow : List Block → ℕ
overflow bs = length bs - 10

abbrev pub newest : List Block → List Block
newest bs = drop (overflow bs) bs

-- The calls for the blocks that are cut.
abbrev pub ignored : List Block → List Call
ignored bs = map (λ b. ignore_block b.block_id) (take (overflow bs) bs)

abbrev pub blocks : BlockCache → List Block
blocks c = values c.cache

pub length-keys : (d : List (BlockId × Block)) → length (keys d) ≡ length (values d)
length-keys [] = refl
length-keys (e ∷ d) = ap suc (length-keys d)

values-append :
    (d : List (BlockId × Block)) (b : Block)
    → values (d ++ ((b.block_id, b) ∷ [])) ≡ values d ++ (b ∷ [])
values-append d b = map-append (λ (x : BlockId × Block). x.1) d ((b.block_id, b) ∷ [])

pub none_over : (xs : List Block) → length xs ≤ 10 → (newest xs ≡ xs) × (ignored xs ≡ [])
none_over xs h = let none_cut : length xs - 10 ≡ 0 = omega arith in rw none_cut (refl, refl)

one_over :
    (x : Block) (ys : List Block)
    → length (x ∷ ys) ≡ 11
    → (newest (x ∷ ys) ≡ ys) × (ignored (x ∷ ys) ≡ ignore_block x.block_id ∷ [])
one_over x ys h = let one_cut : length (x ∷ ys) - 10 ≡ 1 = omega arith in rw one_cut (refl, refl)

-- Cutting as one goes is cutting at the end.
pub newest-append :
    (xs ys : List Block)
    → (newest (newest xs ++ ys) ≡ newest (xs ++ ys))
      × (ignored xs ++ ignored (newest xs ++ ys) ≡ ignored (xs ++ ys))
newest-append xs ys =
    let m = overflow xs in
    let here : drop m xs ++ ys ≡ drop m (xs ++ ys) = sym (drop-append_le m xs ys (omega arith)) in
    let n = overflow (drop m (xs ++ ys)) in
    let sum : m + n ≡ overflow (xs ++ ys) =
      omega (arith, length-drop m (xs ++ ys), length-append xs ys) in
    let before : take m xs ≡ take m (xs ++ ys) = sym (take-append_le m xs ys (omega arith)) in
    (
      ap newest here ∙ drop-drop m n (xs ++ ys) ∙ ap (λ k. drop k (xs ++ ys)) sum,
      ap (λ l. ignored xs ++ ignored l) here
          ∙ ap (λ l. map (λ (b : Block). ignore_block b.block_id) l ++ ignored (drop m (xs ++ ys)))
              before
          ∙ sym (
              map-append (λ (b : Block). ignore_block b.block_id) (take m (xs ++ ys))
                (take n (drop m (xs ++ ys))))
          ∙ ap (map (λ (b : Block). ignore_block b.block_id))
              (take-append-take-drop m n (xs ++ ys) ∙ ap (λ k. take k (xs ++ ys)) sum),
    )

evict_first :
    (x : Block) (ids : List BlockId) (d : List (BlockId × Block)) (c : BlockCache)
    → c.cache ≡ (x.block_id, x) ∷ d
    → evict (x.block_id ∷ ids) c
      ≡ (ok (ignore_block x.block_id ∷ []), record { cache = d; cache_ids = ids })
unfolding evict has del_item
evict_first x ids d c e =
    rw
      (
        e,
        if_pos (dec_key x.block_id x.block_id) refl true (has dec_key x.block_id d),
        if_pos (dec_key x.block_id x.block_id) refl d
            ((x.block_id, x) ∷ del_item dec_key x.block_id d),
        evict,
      )
      refl

module _ (b : Block) (c : BlockCache) (v : IsValid c)
    (new : contains dec_key b.block_id c.cache_ids ≡ false) where
  length-blocks : length (blocks c) ≡ length c.cache_ids
  length-blocks = sym (length-keys c.cache) ∙ ap length v.same_ids

  full_run :
      (x : Block) (d : List (BlockId × Block))
      → c.cache ≡ (x.block_id, x) ∷ d
      → ltb 10 (length (c.cache_ids ++ (b.block_id ∷ []))) ≡ true
      → append b c ≡ (
        ok (ignore_block x.block_id ∷ []),
        record { cache = d ++ ((b.block_id, b) ∷ []); cache_ids = keys d ++ (b.block_id ∷ []) },
      )
  unfolding append grown
  full_run x d e full =
      let ids : c.cache_ids ++ (b.block_id ∷ []) ≡ x.block_id ∷ (keys d ++ (b.block_id ∷ [])) =
        ap (λ l. l ++ (b.block_id ∷ [])) (sym v.same_ids ∙ ap keys e) in
      let whole : (grown b c v).cache ≡ (x.block_id, x) ∷ (d ++ ((b.block_id, b) ∷ [])) =
        at_end b c v new ∙ ap (λ l. l ++ ((b.block_id, b) ∷ [])) e in
      rw full (
        ap (λ l. evict l (grown b c v)) ids
        ∙ evict_first x (keys d ++ (b.block_id ∷ [])) (d ++ ((b.block_id, b) ∷ [])) (grown b c v)
            whole)

  first_block :
      0 < length c.cache_ids
      → (x : Block) × (d : List (BlockId × Block)) × (c.cache ≡ (x.block_id, x) ∷ d)
  first_block h = elim (List-cases c.cache) [
    | inl e ↦ absurd (omega (arith, ap length (sym v.same_ids ∙ ap keys e)))
    | inr ((k, x), d, e) ↦
        let own = subst (All (λ (f : BlockId × Block). f.1.block_id ≡ f.0)) e v.own_ids in
        (x, d, e ∙ ap (λ j. (j, x) ∷ d) (sym own.0))
  ]

  -- One step: the concrete method follows the abstract queue.
  pub append-newest :
      ((append b c).0 ≡ ok (ignored (blocks c ++ (b ∷ []))))
      × (blocks (append b c).1 ≡ newest (blocks c ++ (b ∷ [])))
  unfolding append grown
  append-newest = elim (Bool-cases (ltb 10 (length (c.cache_ids ++ (b.block_id ∷ []))))) [
    | inr fits ↦
        let (kept, cut) = none_over (blocks c ++ (b ∷ [])) (
          ground (
            arith,
            fits,
            length-blocks,
            length-append (blocks c) (b ∷ []),
            length-append c.cache_ids (b.block_id ∷ []),
          )) in
        rw fits (rw (cut, kept) (refl, ap values (at_end b c v new) ∙ values-append c.cache b))
    | inl full ↦
        let size : length c.cache_ids ≡ 10 =
          ground (arith, full, v.bounded, length-append c.cache_ids (b.block_id ∷ [])) in
        let (x, d, e) = first_block (omega (arith, size)) in
        let run = full_run x d e full in
        let seen : blocks c ++ (b ∷ []) ≡ x ∷ (values d ++ (b ∷ [])) =
          ap (λ l. l ++ (b ∷ [])) (ap values e) in
        let (kept, cut) =
          one_over x (values d ++ (b ∷ [])) (
            omega
              (arith, ap length seen, length-append (blocks c) (b ∷ []), length-blocks, size)) in
        (
          ap (λ (r : Outcome (List Call) × BlockCache). r.0) run
              ∙ ap ok (sym (ap ignored seen ∙ cut)),
          ap (λ (r : Outcome (List Call) × BlockCache). blocks r.1) run
              ∙ values-append d b
              ∙ sym (ap newest seen ∙ kept),
        )
  ]
