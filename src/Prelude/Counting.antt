-- ===== src/Prelude/Counting.antt =====
-- How many elements of a list pass a test.
use mathlib.Core.Path.{◌≡◌, refl, subst, ◌∙◌}
use mathlib.Core.Logic.{∥∥₁_elim}
use mathlib.Core.Bool.{Bool, true, false, ◌&&◌}
use mathlib.Core.List.{List, [], ◌∷◌, Perm, Permᴰ}
use Prim.Native.Nat.{ℕ, ◌+◌, ◌≤◌}
use native.Mathlib.Nat.{ℕ_set}
use native.Mathlib.Omega.{arith}
use sawtooth_ddpoa.Prelude.Lists.{length, contains, remove, remove-perm}
use sawtooth_ddpoa.Prelude.Tests.{if◌then◌else◌}
use sawtooth_ddpoa.Prelude.Distinct.{Distinct, contains_self, contains_ne, contains-remove_ne}

module _ {A : Type 0} where
  unfoldable pub count_if : (A → Bool) → List A → ℕ
  count_if p [] = 0
  count_if p (x ∷ xs) = (if p x then 1 else 0) + count_if p xs

  count_if-permᴰ : (p : A → Bool) {xs ys : List A} → Permᴰ xs ys → count_if p xs ≡ count_if p ys
  unfolding count_if
  count_if-permᴰ p Permᴰ.nil = refl
  count_if-permᴰ p (Permᴰ.cons e h) = ground (arith, count_if-permᴰ p h)
  count_if-permᴰ p (Permᴰ.swap e f) = ground arith
  count_if-permᴰ p (Permᴰ.trans h k) = count_if-permᴰ p h ∙ count_if-permᴰ p k

  count_if-perm : (p : A → Bool) {xs ys : List A} → Perm xs ys → count_if p xs ≡ count_if p ys
  count_if-perm p h = ∥∥₁_elim h (ℕ_set _ _) (count_if-permᴰ p)

  -- Two tests overlap where together they pass more often than there are elements.
  pub count_if-overlap :
      (p q : A → Bool) (xs : List A)
      → count_if p xs + count_if q xs ≤ length xs + count_if (λ x. p x && q x) xs
  unfolding count_if
  count_if-overlap p q [] = omega arith
  count_if-overlap p q (x ∷ xs) = ground (arith, count_if-overlap p q xs)

  pub count_if_mono :
      (p q : A → Bool) (xs : List A)
      → ((x : A) → p x ≡ true → q x ≡ true)
      → count_if p xs ≤ count_if q xs
  unfolding count_if
  count_if_mono p q [] h = omega arith
  count_if_mono p q (x ∷ xs) h = ground (arith, h x, count_if_mono p q xs h)

module _ {A : Type 0} (dec : Discrete A) (p : A → Bool) where
  pub count_if-sub :
      (xs ys : List A)
      → Distinct dec xs
      → ((a : A) → contains dec a xs ≡ true → contains dec a ys ≡ true)
      → count_if p xs ≤ count_if p ys
  unfolding count_if
  count_if-sub [] ys d sub = omega arith
  count_if-sub (x ∷ xs) ys d sub =
      let split = count_if-perm p (remove-perm dec x ys (sub x (contains_self dec x xs))) in
      omega (arith, split, count_if-sub xs (remove dec x ys) d.1 rest)
    where
      rest : (a : A) → contains dec a xs ≡ true → contains dec a (remove dec x ys) ≡ true
      rest a h = elim (dec x a) [
        | yes e ↦ absurd (let f = subst (λ b. contains dec b xs ≡ false) e d.0 in cc)
        | no n ↦ contains-remove_ne dec a x ys n ∙ sub a (contains_ne dec a x xs n ∙ h)
      ]

  pub count_if-cong :
      (q : A → Bool) (xs : List A)
      → ((a : A) → contains dec a xs ≡ true → p a ≡ q a)
      → count_if p xs ≡ count_if q xs
  unfolding count_if
  count_if-cong q [] h = refl
  count_if-cong q (x ∷ xs) h =
      ground (arith, h x (contains_self dec x xs), count_if-cong q xs (λ a m. h a (later a m)))
    where
      later : (a : A) → contains dec a xs ≡ true → contains dec a (x ∷ xs) ≡ true
      later a m = elim (dec x a) [
        | yes e ↦ subst (λ b. contains dec b (x ∷ xs) ≡ true) e (contains_self dec x xs)
        | no n ↦ contains_ne dec a x xs n ∙ m
      ]
