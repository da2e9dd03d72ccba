-- ===== src/Cache/Descent.antt =====
-- `block_path` (`BlockCache` of consensus/pkg/engine/ddpoa_engine.py), the blocks to catch up with.
use mathlib.Core.List.{append_assoc}
use sawtooth_ddpoa.Prelude.{
  ℕ, zero, suc, ◌<◌, ◌≡◌, ◌≢◌, ap, ◌∙◌, List, [], ◌∷◌, ◌++◌, reverse, some, length, BlockId,
  dec_key, ok, arith,
}
use sawtooth_ddpoa.Prelude.Dict.{get}
use sawtooth_ddpoa.Service.{Block}
use sawtooth_ddpoa.Cache.{BlockCache, path_loop, block_path}
use sawtooth_ddpoa.Cache.Walk.{IsOrdered, Leads, arrived, onward, up_to, up_to-le, up_to-lt, past}

-- From a cached block down to the one right after `to`, newest first.
pub data Descends (c : BlockCache) (to : BlockId) : Block → List BlockId → Type 0 where
  last : (b : Block) → b.previous_id ≡ to → Descends c to b (b.block_id ∷ [])
  further :
      {l : List BlockId} (b p : Block)
      → b.previous_id ≢ to
      → get dec_key b.previous_id c.cache ≡ some p
      → Descends c to p l
      → Descends c to b (b.block_id ∷ l)

next_block :
    (c : BlockCache) {to from : BlockId}
    → from ≢ to
    → Leads c to from
    → (b : Block) × (get dec_key from c.cache ≡ some b) × Leads c to b.previous_id
next_block c apart (arrived p) = absurd (apart p)
next_block c apart (onward b e l) = (b, e, l)

module _ (c : BlockCache) (o : IsOrdered c) (to : BlockId) where
  loop_step :
      (fuel : ℕ) (b p : Block) (acc : List BlockId)
      → b.previous_id ≢ to
      → get dec_key b.previous_id c.cache ≡ some p
      → path_loop (suc fuel) b to acc c ≡ path_loop fuel p to (acc ++ (b.block_id ∷ [])) c
  unfolding path_loop
  loop_step fuel b p acc apart e = ground (arith, e, apart)

  loop_end :
      (fuel : ℕ) (b : Block) (acc : List BlockId)
      → b.previous_id ≡ to
      → path_loop (suc fuel) b to acc c ≡ ok (reverse (acc ++ (b.block_id ∷ [])))
  unfolding path_loop
  loop_end fuel b acc e = ground (arith, e)

  loop_total :
      (fuel : ℕ) (k : BlockId) (b : Block) (acc : List BlockId)
      → get dec_key k c.cache ≡ some b
      → up_to b.block_num c.cache < fuel
      → Leads c to b.previous_id
      → (l : List BlockId) × (path_loop fuel b to acc c ≡ ok (reverse (acc ++ l)))
        × Descends c to b l
  loop_total zero k b acc e h leads = absurd (omega arith)
  loop_total (suc fuel) k b acc e h leads = elim (dec_key b.previous_id to) [
    | yes q ↦ (b.block_id ∷ [], loop_end fuel b acc q, last b q)
    | no q ↦
        let (p, f, more) = next_block c q leads in
        let (l, run, down) =
          loop_total fuel b.previous_id p (acc ++ (b.block_id ∷ [])) f
            (omega (arith, up_to-lt p.block_num k b c.cache e (o.after_previous k b p e f))) more in
        (
          b.block_id ∷ l,
          loop_step fuel b p acc q f
              ∙ run
              ∙ ap (λ x. ok (reverse x)) (append_assoc acc (b.block_id ∷ []) l),
          further b p q f down,
        )
  ]

  -- In an ordered cache, where the blocks lead from a cached block to another id, the path between
  -- the two is returned without an exception: the block and those before it down to the one right
  -- after the other id, oldest first.
  pub block_path-Descends :
      (from : BlockId) (b : Block)
      → get dec_key from c.cache ≡ some b
      → from ≢ to
      → Leads c to from
      → (l : List BlockId) × (block_path from to c ≡ ok (reverse l)) × Descends c to b l
  unfolding block_path
  block_path-Descends from b e apart leads =
      let (l, run, down) =
        loop_total (suc (length c.cache)) from b [] e (omega (arith, up_to-le b.block_num c.cache))
          (past c b e apart leads) in
      (l, rw (e, block_path) run, down)
