-- ===== src/Cache/Ancestry.antt =====
-- `longest_chain` (`BlockCache` of consensus/pkg/engine/ddpoa_engine.py).
use mathlib.Core.List.{append_assoc, append-nil}
use sawtooth_ddpoa.Prelude.{
  ℕ, zero, suc, ◌<◌, ◌≡◌, refl, ap, ◌∙◌, List, [], ◌∷◌, ◌++◌, reverse, none, some, length, BlockId,
  dec_key, ok, arith, Option-cases, inl, inr,
}
use sawtooth_ddpoa.Prelude.Dict.{get}
use sawtooth_ddpoa.Service.{Block}
use sawtooth_ddpoa.Cache.{BlockCache, chain_loop, longest_chain}
use sawtooth_ddpoa.Cache.Walk.{IsOrdered, up_to, up_to-le, up_to-lt}

-- The cached blocks before a block, newest first, as far back as the cache goes.
pub data Ancestry (c : BlockCache) : Block → List BlockId → Type 0 where
  oldest : (b : Block) → get dec_key b.previous_id c.cache ≡ none → Ancestry c b []
  older :
      {l : List BlockId} (b p : Block)
      → get dec_key b.previous_id c.cache ≡ some p
      → Ancestry c p l
      → Ancestry c b (p.block_id ∷ l)

module _ (c : BlockCache) (o : IsOrdered c) where
  chain_total :
      (fuel : ℕ) (k : BlockId) (b : Block) (acc : List BlockId)
      → get dec_key k c.cache ≡ some b
      → up_to b.block_num c.cache < fuel
      → (l : List BlockId) × (chain_loop fuel b acc c ≡ ok (reverse (acc ++ l))) × Ancestry c b l
  unfolding chain_loop
  chain_total zero k b acc e h = absurd (omega arith)
  chain_total (suc fuel) k b acc e h = elim (Option-cases (get dec_key b.previous_id c.cache)) [
    | inl f ↦ ([], rw (f, chain_loop, append-nil acc) refl, oldest b f)
    | inr (p, f) ↦
        let (l, run, rest) =
          chain_total fuel b.previous_id p (acc ++ (p.block_id ∷ [])) f
            (omega (arith, up_to-lt p.block_num k b c.cache e (o.after_previous k b p e f))) in
        (
          p.block_id ∷ l,
          rw (f, chain_loop)
              (run ∙ ap (λ x. ok (reverse x)) (append_assoc acc (p.block_id ∷ []) l)),
          older b p f rest,
        )
  ]

  -- In an ordered cache the longest chain of a cached block is the block and all those that lead to it
  -- through the cache, oldest first.
  pub longest_chain-Ancestry :
      (from : BlockId) (b : Block)
      → get dec_key from c.cache ≡ some b
      → (l : List BlockId) × (longest_chain from c ≡ ok (reverse (from ∷ l))) × Ancestry c b l
  unfolding longest_chain
  longest_chain-Ancestry from b e =
      let (l, run, a) =
        chain_total (suc (length c.cache)) from b (from ∷ []) e
          (omega (arith, up_to-le b.block_num c.cache)) in
      (l, rw (e, longest_chain) run, a)
