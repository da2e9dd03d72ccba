-- ===== src/Engine/Fork/Target.antt =====
-- `fastforward` of consensus/pkg/engine/ddpoa_engine.py, towards a block that is cached.
use sawtooth_ddpoa.Prelude.{
  ℕ, ◌<◌, ◌≡◌, ◌≢◌, refl, ap, ◌∙◌, List, ◌∷◌, reverse, some, none, true, false, BlockId, dec_key,
  drop, get_elem?, index_of-some, Outcome, ok, raise, service_error, inl, inr, Bool-cases, if_neg,
  and_then, or_raise, ite,
}
use sawtooth_ddpoa.Prelude.Dict.{get}
use sawtooth_ddpoa.Prelude.Int.{ℤ}
use sawtooth_ddpoa.Utils.{try_remove}
use sawtooth_ddpoa.Service.{Block, fail_block}
use sawtooth_ddpoa.Cache.{block_from_id, traversable, longest_chain}
use sawtooth_ddpoa.Cache.Walk.{IsOrdered, Leads, traversable_decides}
use sawtooth_ddpoa.Cache.Descent.{Descends, block_path-Descends}
use sawtooth_ddpoa.Cache.Ancestry.{Ancestry, longest_chain-Ancestry}
use sawtooth_ddpoa.Host.{Host}
use sawtooth_ddpoa.Node.{catching_up, is_state}
use sawtooth_ddpoa.Engine.{Engine, Env, log_call}
use sawtooth_ddpoa.Engine.Catchup.{
  request_checks, common_and_forked_block, leave_fork, follow_cached, fastforward, is_some,
}
use sawtooth_ddpoa.Engine.Fork.{
  Back, Traced, headless, from_head, forked, too_far, unknown, common_and_forked_block_cases,
}

-- The engine that has set its course.
abbrev pub ahead : BlockId → ℤ → Engine → Engine
ahead target_id target_num s = record s {
  node = record s.node { state = catching_up };
  fastforward_target = some target_num;
  fastforward_target_id = some target_id;
}

-- The chain from a common block on, without that block and without our head.
abbrev pub missing_part : List BlockId → ℕ → BlockId → BlockId → List BlockId
missing_part chain from common pre_id = try_remove (try_remove (drop from chain) pre_id) common

module _ (h : Host) (env : Env) (target_id : BlockId) (b : Block) (s : Engine) where
  -- The outcome `r` of following a target, in the state `s`, to the cached block `b`.
  pub data Followed (r : Outcome (Unit {0}) × Engine) : Type 0 where
    -- Our head leads to the target: the blocks after the head are checked, oldest first.
    lagging :
        (l : List BlockId)
        → Leads s.block_cache s.pre_id target_id
        → Descends s.block_cache s.pre_id b l
        → r ≡ (ok tt, request_checks (reverse l) s)
        → Followed r
    -- A fork: the block where our chain leaves that of the target is failed, and what the chain has
    -- after the common block is checked.
    leaving :
        (head : Block) (l : List BlockId) (n i : ℕ) (q : Block)
        → env.service.chain_head ≡ some head
        → (Leads s.block_cache s.pre_id target_id → ⊥)
        → Ancestry s.block_cache b l
        → n < 10
        → Back env.service (reverse (target_id ∷ l)) n head q
        → get_elem? (reverse (target_id ∷ l)) i ≡ some q.previous_id
        → r ≡ (
          ok tt,
          request_checks
              (missing_part (reverse (target_id ∷ l)) i q.previous_id s.pre_id)
              (log_call (fail_block q.block_id) s),
        )
        → Followed r
    -- Ten blocks back there is nothing in common: nothing is done.
    giving_up :
        (head : Block) (l : List BlockId) (q : Block)
        → env.service.chain_head ≡ some head
        → (Leads s.block_cache s.pre_id target_id → ⊥)
        → Ancestry s.block_cache b l
        → Back env.service (reverse (target_id ∷ l)) 10 head q
        → r ≡ (ok tt, s)
        → Followed r
    -- The service does not give the head of our chain, or not a block on the way.
    headless_chain :
        (l : List BlockId)
        → (Leads s.block_cache s.pre_id target_id → ⊥)
        → Ancestry s.block_cache b l
        → env.service.chain_head ≡ none
        → r ≡ (raise service_error, s)
        → Followed r
    lost :
        (head : Block) (l : List BlockId) (n : ℕ) (q : Block)
        → env.service.chain_head ≡ some head
        → (Leads s.block_cache s.pre_id target_id → ⊥)
        → Ancestry s.block_cache b l
        → n < 10
        → Back env.service (reverse (target_id ∷ l)) n head q
        → env.service.blocks q.previous_id ≡ none
        → r ≡ (raise service_error, s)
        → Followed r

  module _ (o : IsOrdered s.block_cache)
      (e : get dec_key target_id s.block_cache.cache ≡ some b) where
    leaves :
        (l : List BlockId)
        → (Leads s.block_cache s.pre_id target_id → ⊥)
        → Ancestry s.block_cache b l
        → traversable target_id s.pre_id s.block_cache ≡ ok false
        → longest_chain target_id s.block_cache ≡ ok (reverse (target_id ∷ l))
        → Traced env.service
            (reverse (target_id ∷ l))
            (common_and_forked_block env.service (reverse (target_id ∷ l)))
        → Followed (follow_cached h env target_id s)
    unfolding follow_cached leave_fork and_then or_raise
    leaves l apart a t c (headless e f) =
        headless_chain l apart a e (rw (t, c, f, follow_cached) refl)
    leaves l apart a t c (from_head head e (forked n q m k i f)) =
        let (j, found, _, here) = index_of-some dec_key q.previous_id (reverse (target_id ∷ l)) i in
        leaving head l n j q e apart a m k here (rw (t, c, f, found, follow_cached) refl)
    leaves l apart a t c (from_head head e (too_far q k f)) =
        giving_up head l q e apart a k (rw (t, c, f, follow_cached) refl)
    leaves l apart a t c (from_head head e (unknown n q m k i g f)) =
        lost head l n q e apart a m k g (rw (t, c, f, follow_cached) refl)

    follow_cached-Followed : target_id ≢ s.pre_id → Followed (follow_cached h env target_id s)
    unfolding follow_cached and_then
    follow_cached-Followed apart =
        let (r, t, iff) = traversable_decides s.block_cache o s.pre_id target_id in
        elim (Bool-cases r) [
          | inl y ↦
              let way = iff.0 y in
              let (l, run, d) =
                block_path-Descends s.block_cache o s.pre_id target_id b e apart way in
              lagging l way d (rw (t ∙ ap ok y, run, follow_cached) refl)
          | inr n ↦
              let (l, run, a) = longest_chain-Ancestry s.block_cache o target_id b e in
              leaves l (λ way. let z = iff.1 way in cc) a (t ∙ ap ok n) run
                (common_and_forked_block_cases env.service (reverse (target_id ∷ l)))
        ]

-- An engine that is not catching up yet is sent to a cached block other than its head, in an ordered
-- cache. It starts to catch up. If the head leads to the target, the blocks between are checked,
-- oldest first. Else, if one of the head and the nine blocks before it follows on the chain of the
-- target, the first such block is failed and the chain after the common block is checked; if none does,
-- nothing is asked; and it is an error if the service does not give the head, or a block on the way.
pub fastforward-Followed :
    (h : Host) (env : Env) (target_id : BlockId) (num : ℤ) (b : Block) (s : Engine)
    → IsOrdered s.block_cache
    → get dec_key target_id s.block_cache.cache ≡ some b
    → target_id ≢ s.pre_id
    → is_state s.node.state catching_up ≡ false
    → Followed h env target_id b (ahead target_id num s) (fastforward h env target_id num s)
unfolding fastforward block_from_id is_some
fastforward-Followed h env target_id num b s o e apart idle =
    let other : ite (dec_key target_id s.pre_id) true false ≡ false = if_neg _ apart true false in
    rw (other, idle, e, fastforward, block_from_id)
      (follow_cached-Followed h env target_id b (ahead target_id num s) o e apart)
