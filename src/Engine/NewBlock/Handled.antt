-- ===== src/Engine/NewBlock/Handled.antt =====
-- Every outcome of `_handle_new_block` (consensus/pkg/engine/ddpoa_engine.py) for a block of a member.
use mathlib.Core.List.{append_assoc}
use sawtooth_ddpoa.Prelude.{
  ◌+◌, ◌*◌, ◌≡◌, ◌≢◌, refl, sym, subst, ap, Exn, ◌∙◌, inl, inr, arith, true, false, ◌&&◌, ltb, some,
  List, [], ◌∷◌, ◌++◌, contains, length, Bool-cases, Outcome-cases, Outcome, ok, raise, hang,
  modify, ◌>>◌, and_then_ok, and_then, or_raise, BlockId, Key, dec_key,
}
use sawtooth_ddpoa.Prelude.Dict.{get, set_item}
use sawtooth_ddpoa.Prelude.Int.{add_ℕ}
use sawtooth_ddpoa.Config.{second}
use sawtooth_ddpoa.Floats.{Float}
use sawtooth_ddpoa.Host.{Host}
use sawtooth_ddpoa.Service.{Block, Call, ConsensusData, fail_block}
use sawtooth_ddpoa.Peers.{PeerNode}
use sawtooth_ddpoa.Cache.{BlockCache, append, evict}
use sawtooth_ddpoa.Node.{Node, seen, update_peer}
use sawtooth_ddpoa.Node.Methods.{expected_signer, is_key, penalize}
use sawtooth_ddpoa.Node.Catching.{is_catching}
use sawtooth_ddpoa.Engine.{Engine, Env, on_node, log_call}
use sawtooth_ddpoa.Engine.Blocks.{
  follows, cached, cache_block, check_next, place_block, handle_new_block,
}
use sawtooth_ddpoa.Engine.NewBlock.{
  is_next, reaches, once, one_if, Grown, log_calls_lem, leads, asked,
}

module _ (h : Host) (env : Env) where
  -- What becomes of a block whose data can be read, by a member that is a known peer.
  pub data Handled (s : Engine) (b : Block) (c : ConsensusData) (t : Engine) : Type 0 where
    -- Its time has not come: it is failed.
    early :
        ltb env.now (c.timestamp * second) ≡ true
        → t.calls ≡ s.calls ++ (fail_block b.block_id ∷ [])
        → t.waiting_for_validation ≡ s.waiting_for_validation
        → t.block_cache ≡ s.block_cache
        → Handled s b c t
    -- The cache raises, for an id that is listed twice: nothing is asked.
    lost :
        (e : Exn) (cache : BlockCache)
        → ltb env.now (c.timestamp * second) ≡ false
        → append b s.block_cache ≡ (raise e, cache)
        → t.calls ≡ s.calls
        → t.waiting_for_validation ≡ s.waiting_for_validation
        → t.block_cache ≡ cache
        → Handled s b c t
    -- It is cached, and sent to validation for each of two reasons.
    taken :
        (evicted : List Call) (cache : BlockCache)
        → ltb env.now (c.timestamp * second) ≡ false
        → append b s.block_cache ≡ (ok evicted, cache)
        → t.calls
          ≡ s.calls
            ++ (evicted
                ++ (once (is_next b s) b.block_id ++ once (leads h env b cache s) b.block_id))
        → t.waiting_for_validation
          ≡ add_ℕ s.waiting_for_validation (one_if (is_next b s) + one_if (leads h env b cache s))
        → t.block_cache ≡ cache
        → Handled s b c t

evict_ends : (ids : List BlockId) (c : BlockCache) → (evict ids c).0 ≢ hang
unfolding evict
evict_ends [] c h = cc
evict_ends (x ∷ ids) c h = ground (arith, h)

append_ends : (b : Block) (c : BlockCache) → (append b c).0 ≢ hang
unfolding append evict
append_ends b c h =
    let ids = c.cache_ids ++ (b.block_id ∷ []) in
    elim (Bool-cases (ltb 10 (length ids))) [
      | inl full ↦
          evict_ends ids (record { cache = set_item dec_key b.block_id b c.cache; cache_ids = ids })
            (rw full at h)
      | inr fits ↦ let k = rw fits at h in cc
    ]

penalized :
    (mul : Float → Float → Float) (k : Key) (p : PeerNode) (n : Node)
    → get dec_key k n.peers ≡ some p
    → (penalize mul k n).0 ≡ ok tt
unfolding penalize update_peer
penalized mul k p n e = ground (arith, e)

module _ (h : Host) (env : Env) where
  -- With the signer seen, the block goes into the cache and to validation.
  taken_in :
      (b : Block) (c : ConsensusData) (s : Engine) (seen_now : Node)
      → expected_signer seen_now ≡ expected_signer s.node
      → is_catching seen_now ≡ is_catching s.node
      → ltb env.now (c.timestamp * second) ≡ false
      → Handled h env s b c
          (and_then
            (cache_block b (record s { node = seen_now }))
            (λ _. modify (check_next h env b) >> place_block h env b)).1
  unfolding cache_block cached and_then follows
  taken_in b c s seen_now signer state due =
      let s1 : Engine = record s { node = seen_now } in
      let r = append b s.block_cache in
      let goes_on = λ (o : Outcome (Unit {0}) × Engine).
        and_then o (λ _. modify (check_next h env b) >> place_block h env b) in
      elim (Outcome-cases r.0) [
        | inr (inr e) ↦ absurd (append_ends b s.block_cache e)
        | inr (inl (x, e)) ↦
            let stops : r ≡ (raise x, r.1) = ap (λ o. (o, r.1)) e in
            subst (λ m. Handled h env s b c (goes_on (cached m s1)).1) (sym stops)
              (lost x r.1 due stops refl refl refl)
        | inl (evicted, e) ↦
            let full : r ≡ (ok evicted, r.1) = ap (λ o. (o, r.1)) e in
            let u : Engine = record s1 { block_cache = r.1; calls = s.calls ++ evicted } in
            let run : cached r s1 ≡ (ok tt, u) =
              ap (λ m. cached m s1) full
              ∙ ap (λ (x : Engine). (ok tt, x))
                  (log_calls_lem evicted (record s1 { block_cache = r.1 })) in
            let next : is_next b u ≡ is_next b s =
              ap (λ k. follows b s && is_key k b.signer_id) signer in
            let lead : leads h env b r.1 u ≡ leads h env b r.1 s =
              ap (λ x. x && reaches b r.1 s.fastforward_target_id) state in
            let t = (goes_on (ok tt, u)).1 in
            let grown =
              subst
                (λ y.
                  Grown (once (is_next b s) b.block_id ++ once y b.block_id)
                    (one_if (is_next b s) + one_if y) u t)
                lead
                (subst
                  (λ y.
                    Grown (once y b.block_id ++ once (leads h env b r.1 u) b.block_id)
                      (one_if y + one_if (leads h env b r.1 u)) u t)
                  next (asked h env b u)) in
            subst (λ o. Handled h env s b c (goes_on o).1) (sym run)
              (taken evicted r.1 due full (grown.calls_after ∙ append_assoc s.calls evicted _)
                grown.awaited grown.same_cache)
      ]

module _ (h : Host) (env : Env) where
  -- A new block of a member that is a known peer, whose data can be read: if its time has not come, it
  -- is failed and nothing else is asked. Else it goes into the cache, and it is sent to validation once
  -- if it follows the head in its signer's slot, and once if the engine is catching up and the cached
  -- blocks lead from it to the target, so twice if both hold; each time is counted. If the cache
  -- raises, nothing is asked.
  pub new_block-Handled :
      (b : Block) (c : ConsensusData) (p : PeerNode) (s : Engine)
      → contains dec_key b.signer_id s.members ≡ true
      → h.parse b.payload ≡ some c
      → get dec_key b.signer_id s.node.peers ≡ some p
      → Handled h env s b c (handle_new_block h env b s).1
  unfolding handle_new_block and_then or_raise seen update_peer expected_signer
  new_block-Handled b c p s member data_read known =
      elim (Bool-cases (ltb env.now (c.timestamp * second))) [
        | inl future ↦
            let m = on_node (penalize h.mul b.signer_id) s in
            let run =
              and_then_ok m tt (λ _. modify (log_call (fail_block b.block_id)))
                (penalized h.mul b.signer_id p s.node known) in
            rw (member, data_read, future, handle_new_block)
              (subst (λ o. Handled h env s b c o.1) (sym run) (early future refl refl refl))
        | inr due ↦
            rw (member, data_read, due, known, handle_new_block)
              (taken_in h env b c s _ refl refl due)
      ]
