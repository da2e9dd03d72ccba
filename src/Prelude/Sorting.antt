-- ===== src/Prelude/Sorting.antt =====
-- `list.sort(key=...)`: a stable sort by a numeric key.
use mathlib.Core.Path.{◌≡◌, refl, ap}
use mathlib.Core.Logic.{ite, if_pos, if_neg}
use mathlib.Core.List.{List, [], ◌∷◌, map, Perm}
use mathlib.Core.List.Perm
use Prim.Native.Nat.{ℕ, ◌≤◌}
use native.Mathlib.Decide.{dec_lt}
use native.Mathlib.Omega.{arith}

module _ {ℓ} {A : Type ℓ} (key : A → ℕ) where
  -- Behind the elements with an equal key: `insert` is called from the right end.
  unfoldable pub insert : A → List A → List A
  unfolding dec_lt
  insert x [] = x ∷ []
  insert x (y ∷ ys) = ite (dec_lt (key y) (key x)) (y ∷ insert x ys) (x ∷ y ∷ ys)

  unfoldable pub sort_by : List A → List A
  unfolding insert
  sort_by [] = []
  sort_by (x ∷ xs) = insert x (sort_by xs)

  abbrev pub LowerBound : ℕ → List A → Type 0
  LowerBound n [] = Unit
  LowerBound n (x ∷ xs) = n ≤ key x

  abbrev pub IsSorted : List A → Type 0
  IsSorted [] = Unit
  IsSorted (x ∷ xs) = LowerBound (key x) xs × IsSorted xs

  insert-LowerBound :
      (n : ℕ) (x : A) (ys : List A) → n ≤ key x → LowerBound n ys → LowerBound n (insert x ys)
  unfolding insert
  insert-LowerBound n x [] h b = h
  insert-LowerBound n x (y ∷ ys) h b = elim (dec_lt (key y) (key x)) [
    | yes p ↦ rw (if_pos _ p) b
    | no p ↦ rw (if_neg _ p) h
  ]

  insert-IsSorted : (x : A) (ys : List A) → IsSorted ys → IsSorted (insert x ys)
  unfolding insert
  insert-IsSorted x [] s = (tt, tt)
  insert-IsSorted x (y ∷ ys) s = elim (dec_lt (key y) (key x)) [
    | yes p ↦
        rw (if_pos _ p) (insert-LowerBound (key y) x ys (omega arith) s.0, insert-IsSorted x ys s.1)
    | no p ↦ rw (if_neg _ p) (omega arith, s)
  ]

  pub sort_by-IsSorted : (xs : List A) → IsSorted (sort_by xs)
  unfolding sort_by
  sort_by-IsSorted [] = tt
  sort_by-IsSorted (x ∷ xs) = insert-IsSorted x (sort_by xs) (sort_by-IsSorted xs)

  pub insert-perm : (x : A) (ys : List A) → Perm (insert x ys) (x ∷ ys)
  unfolding insert
  insert-perm x [] = Perm.refl _
  insert-perm x (y ∷ ys) = elim (dec_lt (key y) (key x)) [
    | yes p ↦ rw (if_pos _ p) (Perm.trans (Perm.cons y (insert-perm x ys)) (Perm.swap x y ys))
    | no p ↦ rw (if_neg _ p) (Perm.refl _)
  ]

  pub sort_by-perm : (xs : List A) → Perm (sort_by xs) xs
  unfolding sort_by
  sort_by-perm [] = Perm.refl _
  sort_by-perm (x ∷ xs) = Perm.trans (insert-perm x (sort_by xs)) (Perm.cons x (sort_by-perm xs))

-- To sort pairs of an element and its key, and to drop the keys, is to sort by the key.
module _ {ℓ} {A : Type ℓ} (key : A → ℕ) where
  abbrev pub decorate : A → A × ℕ
  decorate x = (x, key x)

  insert-decorate :
      (x : A) (ys : List A)
      → insert (λ (h : A × ℕ). h.1) (decorate x) (map decorate ys) ≡ map decorate (insert key x ys)
  unfolding insert
  insert-decorate x [] = refl
  insert-decorate x (y ∷ ys) = elim (dec_lt (key y) (key x)) [
    | yes p ↦ rw (if_pos _ p, if_pos _ p) (ap (◌∷◌ (decorate y)) (insert-decorate x ys))
    | no p ↦ rw (if_neg _ p, if_neg _ p)
  ]

  sort_by-decorate :
      (xs : List A) → sort_by (λ (h : A × ℕ). h.1) (map decorate xs) ≡ map decorate (sort_by key xs)
  unfolding sort_by
  sort_by-decorate [] = refl
  sort_by-decorate (x ∷ xs) = rw (sort_by-decorate xs) (insert-decorate x (sort_by key xs))

  undecorate : (xs : List A) → map (λ (h : A × ℕ). h.0) (map decorate xs) ≡ xs
  undecorate [] = refl
  undecorate (x ∷ xs) = ap (◌∷◌ x) (undecorate xs)

  pub sort_by-undecorate :
      (xs : List A)
      → map (λ (h : A × ℕ). h.0) (sort_by (λ (h : A × ℕ). h.1) (map decorate xs)) ≡ sort_by key xs
  sort_by-undecorate xs = rw (sort_by-decorate xs) (undecorate (sort_by key xs))
