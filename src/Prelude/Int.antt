-- ===== src/Prelude/Int.antt =====
-- Python's integers, where a counter may fall below zero.
use Prim.Native.Nat.{ℕ, zero, suc, ◌+◌, ◌-◌}
use mathlib.Core.Path.{◌≡◌, refl}
use mathlib.Core.Bool.{Bool, true, false}
use native.Mathlib.Omega.{arith}
use sawtooth_ddpoa.Prelude.Tests.{ltb, leb, ◌==◌, if◌then◌else◌}

-- `negsuc n` is -(n + 1).
pub data ℤ : Type 0 where
  pos : ℕ → ℤ
  negsuc : ℕ → ℤ

abbrev pub add_ℕ : ℤ → ℕ → ℤ
add_ℕ (pos a) n = pos (a + n)
add_ℕ (negsuc a) n = if ltb a n then pos (n - (a + 1)) else negsuc (a - n)

-- a - 1
abbrev pub pred_ℤ : ℤ → ℤ
pred_ℤ (pos zero) = negsuc 0
pred_ℤ (pos (suc a)) = pos a
pred_ℤ (negsuc a) = negsuc (suc a)

-- a - b
abbrev pub sub_ℕ : ℕ → ℕ → ℤ
sub_ℕ a b = if leb b a then pos (a - b) else negsuc (b - a - 1)

-- 0 < a
abbrev pub is_positive : ℤ → Bool
is_positive (pos zero) = false
is_positive (pos (suc a)) = true
is_positive (negsuc a) = false

abbrev pub is_zero : ℤ → Bool
is_zero (pos zero) = true
is_zero (pos (suc a)) = false
is_zero (negsuc a) = false

-- a <= n
abbrev pub le_ℕ : ℤ → ℕ → Bool
le_ℕ (pos a) n = leb a n
le_ℕ (negsuc a) n = true

abbrev pub is_number : ℤ → ℕ → Bool
is_number (pos a) n = a == n
is_number (negsuc a) n = false

-- a < b
abbrev pub ltb_ℤ : ℤ → ℤ → Bool
ltb_ℤ (pos a) (pos b) = ltb a b
ltb_ℤ (pos a) (negsuc b) = false
ltb_ℤ (negsuc a) (pos b) = true
ltb_ℤ (negsuc a) (negsuc b) = ltb b a

pub pred_ℤ-add_ℕ_one : (a : ℤ) → pred_ℤ (add_ℕ a 1) ≡ a
pred_ℤ-add_ℕ_one (pos a) = ground arith
pred_ℤ-add_ℕ_one (negsuc zero) = refl
pred_ℤ-add_ℕ_one (negsuc (suc a)) = ground arith
