-- ===== src/Engine/Memory.antt =====
-- The block cache of an engine over its runs (consensus/pkg/engine/ddpoa_engine.py).
use sawtooth_ddpoa.Prelude.{
  ℕ, ◌≤◌, ◌≡◌, refl, sym, ap, subst, Outcome, raise, hang, arith, true, length, contains, List,
  Option, none, some, ◌&&◌, ite, ◌==◌, ◌+◌, true, false, ok, Key, String, BlockId, dec_key,
  and_then-keeps,
}
use sawtooth_ddpoa.Prelude.Dict.{keys, has}
use sawtooth_ddpoa.Host.{Host}
use sawtooth_ddpoa.Service.{Block, Call, ConsensusData}
use sawtooth_ddpoa.Cache.{BlockCache}
use sawtooth_ddpoa.Cache
use sawtooth_ddpoa.Cache.Limits.{IsBounded, append-IsBounded, bounded_cache}
use sawtooth_ddpoa.Node
use sawtooth_ddpoa.Node.{is_state, catching_up}
use sawtooth_ddpoa.Node.Methods.{expected_signer, is_key}
use sawtooth_ddpoa.Engine.{Engine, Env, stop}
use sawtooth_ddpoa.Engine.Catchup.{request_checks}
use sawtooth_ddpoa.Engine.Blocks.{
  handle_valid_block, handle_committed_block, take_committed, move_on, cached, cache_block,
}
use sawtooth_ddpoa.Engine.Loop.{
  Update, block_new, block_valid, block_invalid, block_commit, peer_connected, peer_disconnected,
  unknown, handle_update, handle_updates, set_up,
}
use sawtooth_ddpoa.Engine.NewBlock.{log_calls_lem}
use sawtooth_ddpoa.Engine.Frame.{Keeps, bind-keeps, or_raise-keeps, if-keeps}
use sawtooth_ddpoa.Engine.Frame.Slots.{engine_next_slot-keeps}
use sawtooth_ddpoa.Engine.Frame.Blocks.{
  handle_new_block-keeps, handle_invalid_block-keeps, check_early-keeps, arrive-keeps,
}
use sawtooth_ddpoa.Engine.Frame.Inbox.{handle_peer_connected-keeps}
use sawtooth_ddpoa.Engine.Frame.Rounds.{round-keeps}
use sawtooth_ddpoa.Engine.Commits.History.{
  Step, a_round, timer, received, connecting, stopped, Run, start, more,
}

record Small (s : Engine) : Type 0 where
  fits : IsBounded s.block_cache

cached-cache :
    (r : Outcome (List Call) × BlockCache) (s : Engine) → (cached r s).1.block_cache ≡ r.1
unfolding cached
cached-cache (ok calls, c) s =
    ap (λ (t : Engine). t.block_cache) (log_calls_lem calls (record s { block_cache = c }))
cached-cache (raise e, c) s = refl
cached-cache (hang, c) s = refl

cache_block-Small : (b : Block) (s : Engine) → Small s → Small (cache_block b s).1
unfolding cache_block
cache_block-Small b s h = record {
  fits =
      subst IsBounded (sym (cached-cache (Cache.append b s.block_cache) s))
        (append-IsBounded b s.block_cache h.fits);
}

k : Keeps Small
unfolding request_checks
k = record {
  silent = λ s t c i n w d h. record { fits = subst IsBounded (sym d) h.fits };
  logs = λ c s q h. record { fits = h.fits };
  caches = cache_block-Small;
  asks = λ ids s h. record { fits = h.fits };
}

module _ (host : Host) (env : Env) where
  valid_block-Small :
      (id : BlockId) (s : Engine) → Small s → Small (handle_valid_block host env id s).1
  unfolding handle_valid_block
  valid_block-Small id s h = bind-keeps Small k _ _ (or_raise-keeps Small k _ _ s h) (λ b t p.
      bind-keeps Small k _ _ (record { fits = p.fits })
        (λ a u q.
          if-keeps Small k
            (is_state u.node.state catching_up && ite (dec_key b.previous_id u.pre_id) true false) _
            _ (record { fits = q.fits })
            (if-keeps Small k
              (is_key (expected_signer u.node) b.signer_id
                && (ite (dec_key b.previous_id u.pre_id) true false
                    && b.block_num == u.pre_num + 1))
              _ _ (record { fits = q.fits }) (record { fits = q.fits }))))

  take_committed-Small :
      (b : Block) (c : ConsensusData) (s : Engine)
      → Small s
      → Small (take_committed host env b c s).1
  unfolding take_committed move_on
  take_committed-Small b c s h =
      bind-keeps Small k _ _ (record { fits = h.fits })
        (λ a t p.
          bind-keeps Small k _ _ (record { fits = p.fits })
            (λ d u q.
              bind-keeps Small k _ _ (record { fits = q.fits })
                (λ e v r. bind-keeps Small k _ _ (arrive-keeps Small k host env b c v r) (λ f w x.
                  bind-keeps Small k _ _ (engine_next_slot-keeps Small k env host _ w x)
                    (λ g y z. check_early-keeps Small k host env _ y z)))))

  committed_block-Small :
      (id : BlockId) (s : Engine) → Small s → Small (handle_committed_block host env id s).1
  unfolding handle_committed_block
  committed_block-Small id s h = bind-keeps Small k _ _ (or_raise-keeps Small k _ _ s h) (λ b t p.
      bind-keeps Small k _ _ (or_raise-keeps Small k _ _ t p)
        (λ c u q. take_committed-Small b c u q))

  updates-Small : (u : Option Update) (s : Engine) → Small s → Small (handle_updates host env u s).1
  unfolding handle_update
  updates-Small none s h = h
  updates-Small (some (block_new b)) s h = handle_new_block-keeps Small k host env b s h
  updates-Small (some (block_valid id)) s h = valid_block-Small id s h
  updates-Small (some (block_invalid id)) s h =
      handle_invalid_block-keeps Small k host env id s (λ t b. record { fits = b.fits }) h
  updates-Small (some (block_commit id)) s h = committed_block-Small id s h
  updates-Small (some (peer_connected p)) s h = handle_peer_connected-keeps Small k host env p s h
  updates-Small (some (peer_disconnected p)) s h = h
  updates-Small (some unknown) s h = h

module _ (host : Host) where
  Step-Small : {s t : Engine} → Step host s t → Small s → Small t
  unfolding stop
  Step-Small {s} (a_round env u e) h =
      subst Small (sym e) (round-keeps Small k host env u s (updates-Small host env u s h))
  Step-Small (timer now e) h = subst Small (sym e) (record { fits = h.fits })
  Step-Small (received m e) h = subst Small (sym e) (record { fits = h.fits })
  Step-Small (connecting p l e) h = subst Small (sym e) (record { fits = h.fits })
  Step-Small (stopped e) h = subst Small (sym e) (record { fits = h.fits })

  Run-Small : {s t : Engine} → Small s → Run host s t → Small t
  Run-Small h start = h
  Run-Small h (more r e) = Step-Small e (Run-Small h r)

no_blocks : IsBounded Cache.init
unfolding Cache.init has contains
no_blocks = record { few = omega arith; distinct = tt; listed = λ id h. h; own_ids = tt }

-- In every run from the set-up of the engine, through any updates, messages, timers, connections, answers
-- and exceptions, also where the same block comes twice, the cache lists ten ids at most and holds ten
-- blocks at most, each once, under its own id, which is listed.
pub set_up-IsBounded :
    (host : Host) (now : ℕ) (local_id : Key) (members : List Key) (ips : List String) (slots : ℕ)
    (head : Block) {t : Engine}
    → Run host (set_up now local_id members ips slots head).1 t
    → IsBounded t.block_cache × (length (keys t.block_cache.cache) ≤ 10)
unfolding set_up
set_up-IsBounded host now local_id members ips slots head {t} r =
    let begun : Small (set_up now local_id members ips slots head).1 =
      and_then-keeps Small ((Node.init now local_id members slots).0, _) _
        (record { fits = no_blocks }) (λ a s h. cache_block-Small head s h) in
    let fits = (Run-Small host begun r).fits in (fits, bounded_cache t.block_cache fits)
