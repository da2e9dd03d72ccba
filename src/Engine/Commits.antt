-- ===== src/Engine/Commits.antt =====
-- What one round of the loop (`start` of consensus/pkg/engine/ddpoa_engine.py) asks to commit, and where
-- it moves the head.
pub mod Rounds
pub mod History
use mathlib.Core.List.{append-nil}
use sawtooth_ddpoa.Prelude.{◌≡◌, refl, ap, ◌∙◌, arith, List, [], ◌∷◌, ◌++◌, false, BlockId}
use sawtooth_ddpoa.Service.{
  Call, check_blocks, commit_block, fail_block, ignore_block, cancel_block, initialize_block,
  summarize_block, finalize_block,
}
use sawtooth_ddpoa.Engine.{Engine, log_call}
use sawtooth_ddpoa.Engine.Catchup.{request_checks}
use sawtooth_ddpoa.Engine.Frame.{is_counted, Keeps}
use sawtooth_ddpoa.Engine.Frame.Caching.{cache_block-keeps}

-- The blocks that are asked to be committed, oldest first.
unfoldable pub commits : List Call → List BlockId
commits [] = []
commits (commit_block id ∷ cs) = id ∷ commits cs
commits (check_blocks ids ∷ cs) = commits cs
commits (fail_block id ∷ cs) = commits cs
commits (ignore_block id ∷ cs) = commits cs
commits (cancel_block ∷ cs) = commits cs
commits (initialize_block ∷ cs) = commits cs
commits (summarize_block ∷ cs) = commits cs
commits (finalize_block c ∷ cs) = commits cs

pub commits-append : (xs ys : List Call) → commits (xs ++ ys) ≡ commits xs ++ commits ys
unfolding commits
commits-append [] ys = refl
commits-append (x ∷ xs) ys = ground (arith, commits-append xs ys)

-- No further block is asked for, and the head stays.
pub record Quiet (s t : Engine) : Type 0 where
  pub same_commits : commits t.calls ≡ commits s.calls
  pub same_id : t.pre_id ≡ s.pre_id
  pub same_num : t.pre_num ≡ s.pre_num

commits-uncounted : (c : Call) → is_counted c ≡ false → commits (c ∷ []) ≡ []
unfolding is_counted commits
commits-uncounted c h = ground arith

log_call-Quiet :
    (s : Engine) (c : Call) (t : Engine)
    → commits (c ∷ []) ≡ []
    → Quiet s t
    → Quiet s (log_call c t)
log_call-Quiet s c t h q = record {
  same_commits = ground (arith, commits-append t.calls (c ∷ []), append-nil (commits t.calls));
  same_id = q.same_id;
  same_num = q.same_num;
}

pub Quiet-Keeps : (s : Engine) → Keeps (Quiet s)
unfolding request_checks commits
Quiet-Keeps s = record {
  silent = λ t u c i n w k q. record {
    same_commits = ap commits c ∙ q.same_commits;
    same_id = i ∙ q.same_id;
    same_num = n ∙ q.same_num;
  };
  logs = λ c t h q. log_call-Quiet s c t (commits-uncounted c h) q;
  caches =
      cache_block-keeps (Quiet s) (λ c t h q. log_call-Quiet s c t (commits-uncounted c h) q)
        (λ d t q. record {
          same_commits = q.same_commits;
          same_id = q.same_id;
          same_num = q.same_num;
        });
  asks = λ ids t q.
      log_call-Quiet s (check_blocks ids) _ refl
        (record { same_commits = q.same_commits; same_id = q.same_id; same_num = q.same_num });
}

pub Quiet-refl : (s : Engine) → Quiet s s
Quiet-refl s = record { same_commits = refl; same_id = refl; same_num = refl }
