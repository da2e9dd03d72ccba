-- ===== src/Engine/Frame/Catchup.antt =====
-- Catching up keeps what commits and head decide (consensus/pkg/engine/ddpoa_engine.py).
use sawtooth_ddpoa.Prelude.{
  refl, List, Option, none, some, [], ok, BlockId, dec_key, ite, true, false,
}
use sawtooth_ddpoa.Prelude.Int.{ℤ}
use sawtooth_ddpoa.Prelude.Dict.{values}
use sawtooth_ddpoa.Cache.{block_from_id}
use sawtooth_ddpoa.Node.{is_state, catching_up}
use sawtooth_ddpoa.Host.{Host}
use sawtooth_ddpoa.Service.{fail_block}
use sawtooth_ddpoa.Engine.{Engine, Env}
use sawtooth_ddpoa.Engine.Catchup.{
  is_some, any_equals, request_checks, leave_fork, follow_cached, check_bootstrap_cache,
  fastforward,
}
use sawtooth_ddpoa.Engine.Frame.{
  is_counted, Keeps, bind-keeps, or_raise-keeps, if-keeps, if_call-keeps,
}

module _ (P : Engine → Type 0) (k : Keeps P) where
  pub request_checks-keeps : (ids : List BlockId) (s : Engine) → P s → P (request_checks ids s)
  request_checks-keeps ids s h = k.asks ids s h

  module _ (host : Host) (env : Env) where
    leave_fork-keeps :
        (chain : List BlockId) (fork : Option (BlockId × BlockId)) (s : Engine)
        → P s
        → P (leave_fork host env chain fork s).1
    unfolding leave_fork is_counted
    leave_fork-keeps chain none s h = h
    leave_fork-keeps chain (some (common, forked)) s h =
        bind-keeps P k _ _ (k.logs (fail_block forked) s refl h) (λ a t p.
          bind-keeps P k _ _ (or_raise-keeps P k _ _ t p) (λ b u q. request_checks-keeps _ u q))

    follow_cached-keeps :
        (target_id : BlockId) (s : Engine) → P s → P (follow_cached host env target_id s).1
    unfolding follow_cached
    follow_cached-keeps target_id s h = bind-keeps P k _ _ h (λ reachable t p.
        if_call-keeps P k reachable _ _ t
          (bind-keeps P k _ _ p (λ b u q. request_checks-keeps _ u q))
          (bind-keeps P k _ _ p
            (λ b u q. bind-keeps P k _ _ q (λ fork v r. leave_fork-keeps _ fork v r))))

    check_bootstrap_cache-keeps : (s : Engine) → P s → P (check_bootstrap_cache host env s)
    unfolding check_bootstrap_cache
    check_bootstrap_cache-keeps s h = request_checks-keeps _ s h

    pub fastforward-keeps :
        (target_id : BlockId) (target_num : ℤ) (s : Engine)
        → P s
        → P (fastforward host env target_id target_num s).1
    unfolding fastforward
    fastforward-keeps target_id target_num s h =
        let ahead : Engine = record s {
          node = record s.node { state = catching_up };
          fastforward_target = some target_num;
          fastforward_target_id = some target_id;
        } in
        let there : Engine = record s {
          has_requested_bootstrap = false;
          bootstrap_messages_received = [];
        } in
        let kept : P ahead = k.silent s ahead refl refl refl refl refl h in
        let done : P there = k.silent s there refl refl refl refl refl h in
        if-keeps P k (ite (dec_key target_id s.pre_id) true false) (ok tt, there) _ done
          (if-keeps P k (is_state s.node.state catching_up) (ok tt, s) _ h
            (if-keeps P k (is_some (block_from_id target_id s.block_cache)) _ _
              (follow_cached-keeps target_id ahead kept)
              (if-keeps P k (any_equals (host.equals_block target_id) (values s.bootstrap_cache))
                (ok tt, check_bootstrap_cache host env ahead) (ok tt, ahead)
                (check_bootstrap_cache-keeps ahead kept) kept)))
