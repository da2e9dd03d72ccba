-- ===== src/Witnesses/Caches.antt =====
-- Inputs for the theorems on the block cache (consensus/pkg/engine/ddpoa_engine.py).
use sawtooth_ddpoa.Prelude.{
  ◌≡◌, ◌≢◌, ◌++◌, ◌↔◌, refl, subst, List, [], ◌∷◌, reverse, some, Bool, true, false, ok, arith,
  dec_key, BlockId, contains,
}
use sawtooth_ddpoa.Prelude.Dict.{get}
use sawtooth_ddpoa.Prelude.Distinct.{Distinct, contains_self}
use sawtooth_ddpoa.Service.{Block}
use sawtooth_ddpoa.Cache.{BlockCache, traversable, block_path, longest_chain}
use sawtooth_ddpoa.Cache.Bounded.{IsValid}
use sawtooth_ddpoa.Cache.Recent.{blocks, newest, ignored}
use sawtooth_ddpoa.Cache.Refinement.{append_each, ids, append_each-newest}
use sawtooth_ddpoa.Cache.Walk.{IsOrdered, Leads, arrived, onward, traversable_decides}
use sawtooth_ddpoa.Cache.Descent.{Descends, block_path-Descends}
use sawtooth_ddpoa.Witnesses.Engines.{
  block_of, ten_blocks, ten_blocks-IsValid, one_block, producing, toy_host, toy_env,
}
use sawtooth_ddpoa.Prelude.Int.{pos}
use sawtooth_ddpoa.Cache.Ancestry.{Ancestry, longest_chain-Ancestry}
use sawtooth_ddpoa.Engine.{Engine}
use sawtooth_ddpoa.Engine.Catchup.{common_and_forked_block, fastforward}
use sawtooth_ddpoa.Engine.Fork.{Traced, common_and_forked_block_cases}
use sawtooth_ddpoa.Engine.Fork.Target.{Followed, ahead, fastforward-Followed}

abbrev two_more : List Block
two_more = block_of "b11" "b10" 11 ∷ block_of "b12" "b11" 12 ∷ []

all_different : Distinct dec_key (ids (blocks ten_blocks ++ two_more))
unfolding contains dec_key
all_different = (
  refl,
  (refl, (refl, (refl, (refl, (refl, (refl, (refl, (refl, (refl, (refl, (refl, tt))))))))))),
)

append_each_example :
    (d : BlockCache) × (append_each two_more ten_blocks
      ≡ (ok (ignored (blocks ten_blocks ++ two_more)), d))
    × IsValid d
    × (blocks d ≡ newest (blocks ten_blocks ++ two_more))
append_each_example = append_each-newest two_more ten_blocks ten_blocks-IsValid all_different

only_one :
    (k : BlockId) (b : Block) → get dec_key k one_block.cache ≡ some b → b ≡ block_of "b1" "b0" 1
unfolding get
only_one k b e = ground (arith, e)

not_cached : (p : Block) → get dec_key "b0" one_block.cache ≡ some p → ⊥
unfolding get dec_key
not_cached p e = cc

-- "b1" is cached, the block before it is not.
one_block-IsOrdered : IsOrdered one_block
unfolding get dec_key
one_block-IsOrdered = record {
  own_id = λ k b e. ground (arith, e);
  after_previous = λ k b p e f. absurd (
      not_cached p (
        subst (λ (x : Block). get dec_key x.previous_id one_block.cache ≡ some p) (only_one k b e)
          f));
}

abbrev first_id : BlockId
first_id = "b1"

abbrev zeroth : BlockId
zeroth = "b0"

traversable_example :
    (r : Bool) × (traversable first_id zeroth one_block ≡ ok r)
    × ((r ≡ true) ↔ Leads one_block zeroth first_id)
traversable_example = traversable_decides one_block one_block-IsOrdered zeroth first_id

apart : first_id ≢ zeroth
unfolding contains dec_key
apart p =
    let other : contains dec_key first_id ("b0" ∷ []) ≡ false = refl in
    let at_own = subst (λ x. contains dec_key x ("b0" ∷ []) ≡ false) p other in
    let own = contains_self dec_key "b0" [] in cc

block_path_example :
    (l : List BlockId) × (block_path first_id zeroth one_block ≡ ok (reverse l))
    × Descends one_block zeroth (block_of "b1" "b0" 1) l
unfolding get dec_key
block_path_example =
    block_path-Descends one_block one_block-IsOrdered zeroth first_id (block_of "b1" "b0" 1) refl
      apart (onward (block_of "b1" "b0" 1) refl (arrived refl))

longest_chain_example :
    (l : List BlockId) × (longest_chain first_id one_block ≡ ok (reverse (first_id ∷ l)))
    × Ancestry one_block (block_of "b1" "b0" 1) l
unfolding get dec_key
longest_chain_example =
    longest_chain-Ancestry one_block one_block-IsOrdered first_id (block_of "b1" "b0" 1) refl

abbrev lagging_engine : Engine
lagging_engine = record producing { pre_id = "b0"; pre_num = 0 }

search_example :
    Traced toy_env.service ("b1" ∷ []) (common_and_forked_block toy_env.service ("b1" ∷ []))
search_example = common_and_forked_block_cases toy_env.service ("b1" ∷ [])

fastforward_cached_example :
    Followed toy_host toy_env first_id
      (block_of "b1" "b0" 1)
      (ahead first_id (pos 1) lagging_engine)
      (fastforward toy_host toy_env first_id (pos 1) lagging_engine)
unfolding get dec_key
fastforward_cached_example =
    fastforward-Followed toy_host toy_env first_id (pos 1) (block_of "b1" "b0" 1) lagging_engine
      one_block-IsOrdered refl apart refl
