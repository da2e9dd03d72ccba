-- ===== src/Prelude/Lists.antt =====
-- Lists measured and indexed by native numbers, and the list operations that the program calls.
use Prim.Native.Nat.{ℕ, zero, suc, ◌+◌, ◌-◌, ◌≤◌, ◌<◌, min}
use mathlib.Core.Path.{◌≡◌, refl, sym, ap, ◌∙◌}
use mathlib.Core.Logic.{ite, if_pos, if_neg, ∥∥₁_elim}
use mathlib.Core.List.{List, [], ◌∷◌, ◌++◌, Perm, Permᴰ}
use mathlib.Core.List.Perm
use mathlib.Core.Bool.{Bool, true, false, ◌||◌}
use mathlib.Core.Option
use mathlib.Core.Option.{Option, none, some}
use native.Mathlib.Nat.{ℕ_set}
use native.Mathlib.Omega.{arith}

module _ {ℓ} {A : Type ℓ} where
  abbrev pub length : List A → ℕ
  length [] = 0
  length (x ∷ xs) = suc (length xs)

  -- `l[i]`, with `none` for an `IndexError`.
  abbrev pub get_elem? : List A → ℕ → Option A
  get_elem? [] i = none
  get_elem? (x ∷ xs) zero = some x
  get_elem? (x ∷ xs) (suc i) = get_elem? xs i

  -- `l[i] = v` at an index in range.
  abbrev pub set : List A → ℕ → A → List A
  set [] i v = []
  set (x ∷ xs) zero v = v ∷ xs
  set (x ∷ xs) (suc i) v = x ∷ set xs i v

  -- `l[:n]` and `l[n:]`.
  abbrev pub take : ℕ → List A → List A
  take zero xs = []
  take (suc n) [] = []
  take (suc n) (x ∷ xs) = x ∷ take n xs

  abbrev pub drop : ℕ → List A → List A
  drop zero xs = xs
  drop (suc n) [] = []
  drop (suc n) (x ∷ xs) = drop n xs

  -- `P` of every element.
  abbrev pub All {κ} : (A → Type κ) → List A → Type κ
  All P [] = Unit
  All P (x ∷ xs) = P x × All P xs

  -- `l.pop(i)` of an index in range.
  abbrev pub remove_at : ℕ → List A → List A
  remove_at i [] = []
  remove_at zero (x ∷ xs) = xs
  remove_at (suc i) (x ∷ xs) = x ∷ remove_at i xs

module _ {ℓ} {A : Type ℓ} where
  pub length-append : (xs ys : List A) → length (xs ++ ys) ≡ length xs + length ys
  length-append [] ys = omega arith
  length-append (x ∷ xs) ys = omega (arith, length-append xs ys)

  pub take-append-drop : (n : ℕ) (xs : List A) → take n xs ++ drop n xs ≡ xs
  take-append-drop zero xs = refl
  take-append-drop (suc n) [] = refl
  take-append-drop (suc n) (x ∷ xs) = ap (◌∷◌ x) (take-append-drop n xs)

  pub length-take : (n : ℕ) (xs : List A) → length (take n xs) ≡ min n (length xs)
  length-take zero xs = omega arith
  length-take (suc n) [] = omega arith
  length-take (suc n) (x ∷ xs) = omega (arith, length-take n xs)

  pub take-length_append : (xs ys : List A) → take (length xs) (xs ++ ys) ≡ xs
  take-length_append [] ys = refl
  take-length_append (x ∷ xs) ys = ap (◌∷◌ x) (take-length_append xs ys)

  pub drop-length_append : (xs ys : List A) → drop (length xs) (xs ++ ys) ≡ ys
  drop-length_append [] ys = refl
  drop-length_append (x ∷ xs) ys = drop-length_append xs ys

  pub take_all : (n : ℕ) (xs : List A) → length xs ≤ n → take n xs ≡ xs
  take_all zero [] h = refl
  take_all zero (x ∷ xs) h = absurd (omega arith)
  take_all (suc n) [] h = refl
  take_all (suc n) (x ∷ xs) h = ap (◌∷◌ x) (take_all n xs (omega arith))

  pub length-set : (xs : List A) (i : ℕ) (v : A) → length (set xs i v) ≡ length xs
  length-set [] i v = refl
  length-set (x ∷ xs) zero v = refl
  length-set (x ∷ xs) (suc i) v = ap suc (length-set xs i v)

  pub get_elem?-some : (xs : List A) (i : ℕ) → i < length xs → (a : A) × (get_elem? xs i ≡ some a)
  get_elem?-some [] i h = elim h [ ]
  get_elem?-some (x ∷ xs) zero h = (x, refl)
  get_elem?-some (x ∷ xs) (suc i) h = get_elem?-some xs i (omega arith)

  pub get_elem?-set_self :
      (xs : List A) (i : ℕ) (v : A) → i < length xs → get_elem? (set xs i v) i ≡ some v
  get_elem?-set_self [] i v h = elim h [ ]
  get_elem?-set_self (x ∷ xs) zero v h = refl
  get_elem?-set_self (x ∷ xs) (suc i) v h = get_elem?-set_self xs i v (omega arith)

module _ {ℓ} {A : Type ℓ} where
  length-permᴰ : {xs ys : List A} → Permᴰ xs ys → length xs ≡ length ys
  length-permᴰ Permᴰ.nil = refl
  length-permᴰ (Permᴰ.cons e p) = ap suc (length-permᴰ p)
  length-permᴰ (Permᴰ.swap e f) = refl
  length-permᴰ (Permᴰ.trans p q) = length-permᴰ p ∙ length-permᴰ q

  pub length-perm : {xs ys : List A} → Perm xs ys → length xs ≡ length ys
  length-perm p = ∥∥₁_elim p (ℕ_set _ _) length-permᴰ

  pub length-drop : (n : ℕ) (xs : List A) → length (drop n xs) ≡ length xs - n
  length-drop zero xs = omega arith
  length-drop (suc n) [] = omega arith
  length-drop (suc n) (x ∷ xs) = omega (arith, length-drop n xs)

module _ {ℓ} {A : Type ℓ} (dec : Discrete A) where
  -- `a in l`.
  unfoldable pub contains : A → List A → Bool
  contains a [] = false
  contains a (x ∷ xs) = ite (dec x a) true (contains a xs)

  -- `l.index(a)`, with `none` for a `ValueError`.
  unfoldable pub index_of : A → List A → Option ℕ
  index_of a [] = none
  index_of a (x ∷ xs) = ite (dec x a) (some 0) (Option.map suc (index_of a xs))

  -- `l.remove(a)` of an element that is there: its first occurrence goes.
  unfoldable pub remove : A → List A → List A
  remove a [] = []
  remove a (x ∷ xs) = ite (dec x a) xs (x ∷ remove a xs)

  pub remove-perm : (a : A) (xs : List A) → contains a xs ≡ true → Perm xs (a ∷ remove a xs)
  unfolding contains remove
  remove-perm a [] h = cc
  remove-perm a (x ∷ xs) h = elim (dec x a) [
    | yes hit ↦ rw (if_pos _ hit) (Perm.cons' hit Perm.rfl)
    | no miss ↦
        rw (if_neg _ miss)
          (Perm.trans (Perm.cons x (remove-perm a xs (rw (if_neg _ miss) at h))) (Perm.swap a x _))
  ]

  pub length-remove :
      (a : A) (xs : List A) → contains a xs ≡ true → suc (length (remove a xs)) ≡ length xs
  unfolding contains remove
  length-remove a [] h = cc
  length-remove a (x ∷ xs) h = elim (dec x a) [
    | yes hit ↦ rw (if_pos _ hit)
    | no miss ↦ rw (if_neg _ miss) (ap suc (length-remove a xs (rw (if_neg _ miss) at h)))
  ]

  pub index_of-some :
      (a : A) (xs : List A)
      → contains a xs ≡ true
      → (i : ℕ) × (index_of a xs ≡ some i) × (i < length xs) × (get_elem? xs i ≡ some a)
  unfolding contains index_of
  index_of-some a [] h = cc
  index_of-some a (x ∷ xs) h = elim (dec x a) [
    | yes hit ↦ (0, rw (if_pos _ hit), omega arith, ap some hit)
    | no miss ↦
        let (i, found, small, here) = index_of-some a xs (rw (if_neg _ miss) at h) in
        (suc i, rw (if_neg _ miss, found), omega (arith, small), here)
  ]

  pub index_of-none : (a : A) (xs : List A) → contains a xs ≡ false → index_of a xs ≡ none
  unfolding contains index_of
  index_of-none a [] h = refl
  index_of-none a (x ∷ xs) h = ground (arith, index_of-none a xs)

  pub contains-append :
      (a : A) (xs ys : List A) → contains a (xs ++ ys) ≡ (contains a xs || contains a ys)
  unfolding contains
  contains-append a [] ys = refl
  contains-append a (x ∷ xs) ys = ground (arith, contains-append a xs ys)

  pub remove_at-perm :
      (a : A) (xs : List A) (i : ℕ) → index_of a xs ≡ some i → Perm xs (a ∷ remove_at i xs)
  unfolding index_of
  remove_at-perm a [] i h = cc
  remove_at-perm a (x ∷ xs) i h = elim (dec x a) [
    | yes hit ↦ go_here hit i (sym (if_pos (dec x a) hit _ _) ∙ h)
    | no miss ↦ go_on (index_of a xs) i (remove_at-perm a xs) (sym (if_neg (dec x a) miss _ _) ∙ h)
  ]
    where
      go_here : x ≡ a → (j : ℕ) → some 0 ≡ some j → Perm (x ∷ xs) (a ∷ remove_at j (x ∷ xs))
      go_here hit zero e = Perm.cons' hit Perm.rfl
      go_here hit (suc j) e = absurd (ground arith)

      go_on :
          (o : Option ℕ) (j : ℕ)
          → ((k : ℕ) → o ≡ some k → Perm xs (a ∷ remove_at k xs))
          → Option.map suc o ≡ some j
          → Perm (x ∷ xs) (a ∷ remove_at j (x ∷ xs))
      go_on none j ih e = absurd (ground arith)
      go_on (some k) zero ih e = absurd (ground arith)
      go_on (some k) (suc j) ih e = Perm.trans (Perm.cons x (ih j (ground arith))) (Perm.swap a x _)

pub All-append {ℓ κ} :
    {A : Type ℓ} (P : A → Type κ) (xs ys : List A) → All P xs → All P ys → All P (xs ++ ys)
All-append P [] ys a b = b
All-append P (x ∷ xs) ys a b = (a.0, All-append P xs ys a.1 b)
