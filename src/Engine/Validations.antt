-- ===== src/Engine/Validations.antt =====
-- The counter of awaited validations, `_waiting_for_validation` of
-- consensus/pkg/engine/ddpoa_engine.py, over whole runs.
pub mod Runs
use sawtooth_ddpoa.Prelude.{
  ℕ, zero, suc, ◌+◌, ◌≡◌, sym, ap, ◌∙◌, List, [], ◌∷◌, ◌++◌, length, false, BlockId, arith,
}
use sawtooth_ddpoa.Prelude.Int.{ℤ, pos, negsuc, add_ℕ, pred_ℤ}
use sawtooth_ddpoa.Service.{
  Call, check_blocks, commit_block, fail_block, ignore_block, cancel_block, initialize_block,
  summarize_block, finalize_block,
}
use sawtooth_ddpoa.Engine.{Engine, log_call}
use sawtooth_ddpoa.Engine.Catchup.{request_checks}
use sawtooth_ddpoa.Engine.Frame.{is_counted, Keeps}
use sawtooth_ddpoa.Engine.Frame.Caching.{cache_block-keeps}

-- How many blocks the calls ask to be validated.
unfoldable pub asked_for : List Call → ℕ
asked_for [] = 0
asked_for (check_blocks ids ∷ cs) = length ids + asked_for cs
asked_for (commit_block id ∷ cs) = asked_for cs
asked_for (fail_block id ∷ cs) = asked_for cs
asked_for (ignore_block id ∷ cs) = asked_for cs
asked_for (cancel_block ∷ cs) = asked_for cs
asked_for (initialize_block ∷ cs) = asked_for cs
asked_for (summarize_block ∷ cs) = asked_for cs
asked_for (finalize_block c ∷ cs) = asked_for cs

asked_for-append : (xs ys : List Call) → asked_for (xs ++ ys) ≡ asked_for xs + asked_for ys
unfolding asked_for
asked_for-append [] ys = omega arith
asked_for-append (x ∷ xs) ys = ground (arith, asked_for-append xs ys)

asked_for-uncounted : (c : Call) → is_counted c ≡ false → asked_for (c ∷ []) ≡ 0
unfolding is_counted asked_for
asked_for-uncounted c h = ground arith

add_ℕ_swap : (a : ℤ) (m n : ℕ) → add_ℕ (add_ℕ a m) n ≡ add_ℕ (add_ℕ a n) m
add_ℕ_swap (pos a) m n = ground arith
add_ℕ_swap (negsuc a) m n = ground arith

add_ℕ-pred_ℤ : (a : ℤ) (n : ℕ) → add_ℕ (pred_ℤ a) (suc n) ≡ add_ℕ a n
add_ℕ-pred_ℤ (pos zero) n = ground arith
add_ℕ-pred_ℤ (pos (suc a)) n = ground arith
add_ℕ-pred_ℤ (negsuc a) n = ground arith

-- With `n` answers so far, the counter and the answers are the validations that were asked for.
pub record Balanced (n : ℕ) (s : Engine) : Type 0 where
  pub equal : add_ℕ s.waiting_for_validation n ≡ pos (asked_for s.calls)

pub log_call-Balanced :
    (n : ℕ) (c : Call) (s : Engine)
    → asked_for (c ∷ []) ≡ 0
    → Balanced n s
    → Balanced n (log_call c s)
log_call-Balanced n c s h b = record {
  equal = b.equal ∙ ap pos (omega (arith, asked_for-append s.calls (c ∷ []), h));
}

request_checks-Balanced :
    (n : ℕ) (ids : List BlockId) (s : Engine) → Balanced n s → Balanced n (request_checks ids s)
unfolding request_checks asked_for
request_checks-Balanced n ids s b = record {
  equal =
      add_ℕ_swap s.waiting_for_validation (length ids) n
      ∙ ap (λ a. add_ℕ a (length ids)) b.equal
      ∙ ap pos (omega (arith, asked_for-append s.calls (check_blocks ids ∷ [])));
}

pub Balanced-Keeps : (n : ℕ) → Keeps (Balanced n)
Balanced-Keeps n = record {
  silent = λ s t c i k w d b. record {
    equal = ap (λ a. add_ℕ a n) w ∙ b.equal ∙ ap (λ l. pos (asked_for l)) (sym c);
  };
  logs = λ c s h b. log_call-Balanced n c s (asked_for-uncounted c h) b;
  caches =
      cache_block-keeps (Balanced n)
        (λ c s h b. log_call-Balanced n c s (asked_for-uncounted c h) b)
        (λ d s b. record { equal = b.equal });
  asks = λ ids s b. request_checks-Balanced n ids s b;
}

pub answer-Balanced :
    (n : ℕ) (s : Engine)
    → Balanced n s
    → Balanced (suc n) (record s { waiting_for_validation = pred_ℤ s.waiting_for_validation })
answer-Balanced n s b = record { equal = add_ℕ-pred_ℤ s.waiting_for_validation n ∙ b.equal }
