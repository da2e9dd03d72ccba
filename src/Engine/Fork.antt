-- ===== src/Engine/Fork.antt =====
-- `common_and_forked_block` of consensus/pkg/engine/ddpoa_engine.py: where our chain leaves another.
pub mod Target
use sawtooth_ddpoa.Prelude.{
  ℕ, zero, suc, ◌<◌, ◌≡◌, refl, List, none, some, true, false, Option, BlockId, dec_key, contains,
  Outcome, ok, raise, service_error, arith, Bool-cases, Option-cases, inl, inr,
}
use sawtooth_ddpoa.Service.{Block, Answers}
use sawtooth_ddpoa.Engine.Catchup.{search_fork, common_and_forked_block}

module _ (service : Answers) (chain : List BlockId) where
  -- `n` steps back along our chain, none of them onto a block of the other one.
  pub data Back : ℕ → Block → Block → Type 0 where
    none_yet : (b : Block) → Back zero b b
    further :
        {n : ℕ} {q : Block} (b p : Block)
        → contains dec_key b.previous_id chain ≡ false
        → service.blocks b.previous_id ≡ some p
        → Back n p q
        → Back (suc n) b q

  -- The outcome `r` of at most `rounds` steps back from `b`.
  pub data Searched (rounds : ℕ) (b : Block) (r : Outcome (Option (BlockId × BlockId)))
      : Type 0 where
    forked :
        (n : ℕ) (q : Block)
        → n < rounds
        → Back n b q
        → contains dec_key q.previous_id chain ≡ true
        → r ≡ ok (some (q.previous_id, q.block_id))
        → Searched rounds b r
    too_far : (q : Block) → Back rounds b q → r ≡ ok none → Searched rounds b r
    unknown :
        (n : ℕ) (q : Block)
        → n < rounds
        → Back n b q
        → contains dec_key q.previous_id chain ≡ false
        → service.blocks q.previous_id ≡ none
        → r ≡ raise service_error
        → Searched rounds b r

  Searched-suc :
      (rounds : ℕ) (b p : Block) (r : Outcome (Option (BlockId × BlockId)))
      → contains dec_key b.previous_id chain ≡ false
      → service.blocks b.previous_id ≡ some p
      → Searched rounds p r
      → Searched (suc rounds) b r
  Searched-suc rounds b p r h e (forked n q m k i f) =
      forked (suc n) q (omega (arith, m)) (further b p h e k) i f
  Searched-suc rounds b p r h e (too_far q k f) = too_far q (further b p h e k) f
  Searched-suc rounds b p r h e (unknown n q m k i g f) =
      unknown (suc n) q (omega (arith, m)) (further b p h e k) i g f

  search_fork-Searched :
      (rounds : ℕ) (b : Block) → Searched rounds b (search_fork rounds service chain b)
  unfolding search_fork
  search_fork-Searched zero b = too_far b (none_yet b) refl
  search_fork-Searched (suc rounds) b = elim (Bool-cases (contains dec_key b.previous_id chain)) [
    | inl shared ↦ forked zero b (omega arith) (none_yet b) shared (rw (shared, search_fork) refl)
    | inr own ↦ elim (Option-cases (service.blocks b.previous_id)) [
      | inl missing ↦
          unknown zero b (omega arith) (none_yet b) own missing
            (rw (own, missing, search_fork) refl)
      | inr (p, e) ↦
          Searched-suc rounds b p _ own e (rw (own, e, search_fork) (search_fork-Searched rounds p))
    ]
  ]

  -- The outcome `r` of the search from the head of our chain, which the service may not give.
  pub data Traced (r : Outcome (Option (BlockId × BlockId))) : Type 0 where
    headless : service.chain_head ≡ none → r ≡ raise service_error → Traced r
    from_head : (head : Block) → service.chain_head ≡ some head → Searched 10 head r → Traced r

  -- Every outcome of the search, from the head of our chain back: an error, if the service does not
  -- give the head; else, of the head and the nine blocks
  -- before it the first whose previous one is in the other chain, with that previous block; nothing, if
  -- there is none; an error, if the service does not know a block on the way.
  pub common_and_forked_block_cases : Traced (common_and_forked_block service chain)
  unfolding common_and_forked_block
  common_and_forked_block_cases = elim (Option-cases service.chain_head) [
    | inl e ↦ headless e (rw (e, common_and_forked_block) refl)
    | inr (head, e) ↦
        from_head head e (simp (e, common_and_forked_block) (search_fork-Searched 10 head))
  ]
