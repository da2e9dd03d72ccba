-- ===== src/Prelude/Dict.antt =====
-- Python's `dict` as an association list in insertion order: an assignment to an old key keeps its
-- place, and a new key goes to the end.
use mathlib.Core.Path.{◌≡◌, refl, ap}
use mathlib.Core.Logic.{◌≢◌, ite, if_pos, if_neg}
use mathlib.Core.Bool.{Bool, true, false}
use mathlib.Core.List.{List, [], ◌∷◌, ◌++◌, map}
use mathlib.Core.Option.{Option, none, some}
use native.Mathlib.Omega.{arith}

abbrev pub keys {ℓ κ} : {K : Type ℓ} {V : Type κ} → List (K × V) → List K
keys = map (λ e. e.0)

abbrev pub values {ℓ κ} : {K : Type ℓ} {V : Type κ} → List (K × V) → List V
values = map (λ e. e.1)

module _ {K V : Type 0} (dec : Discrete K) where
  -- `d.get(k)`.
  unfoldable pub get : K → List (K × V) → Option V
  get k [] = none
  get k ((j, v) ∷ d) = ite (dec j k) (some v) (get k d)

  -- `k in d`.
  unfoldable pub has : K → List (K × V) → Bool
  has k [] = false
  has k ((j, v) ∷ d) = ite (dec j k) true (has k d)

  -- `d[k] = v`.
  unfoldable pub set_item : K → V → List (K × V) → List (K × V)
  set_item k v [] = (k, v) ∷ []
  set_item k v ((j, w) ∷ d) = ite (dec j k) ((j, v) ∷ d) ((j, w) ∷ set_item k v d)

  -- `d.pop(k, None)`, and `del d[k]` of a key that is there.
  unfoldable pub del_item : K → List (K × V) → List (K × V)
  del_item k [] = []
  del_item k ((j, w) ∷ d) = ite (dec j k) d ((j, w) ∷ del_item k d)

  pub get-set_item_self : (k : K) (v : V) (d : List (K × V)) → get k (set_item k v d) ≡ some v
  unfolding get set_item
  get-set_item_self k v [] = ground arith
  get-set_item_self k v ((j, w) ∷ d) = ground (arith, get-set_item_self k v d)

  pub get-set_item_ne :
      (k q : K) (v : V) (d : List (K × V)) → k ≢ q → get q (set_item k v d) ≡ get q d
  unfolding get set_item
  get-set_item_ne k q v [] h = ground arith
  get-set_item_ne k q v ((j, w) ∷ d) h = ground (arith, get-set_item_ne k q v d)

  pub has-set_item_self : (k : K) (v : V) (d : List (K × V)) → has k (set_item k v d) ≡ true
  unfolding has set_item
  has-set_item_self k v [] = ground arith
  has-set_item_self k v ((j, w) ∷ d) = ground (arith, has-set_item_self k v d)

  pub has-set_item_ne :
      (k q : K) (v : V) (d : List (K × V)) → k ≢ q → has q (set_item k v d) ≡ has q d
  unfolding has set_item
  has-set_item_ne k q v [] h = ground arith
  has-set_item_ne k q v ((j, w) ∷ d) h = ground (arith, has-set_item_ne k q v d)

  pub get_of_has : (k : K) (d : List (K × V)) → has k d ≡ true → (v : V) × (get k d ≡ some v)
  unfolding get has
  get_of_has k [] h = cc
  get_of_has k ((j, v) ∷ d) h = elim (dec j k) [
    | yes hit ↦ (v, rw (if_pos _ hit))
    | no miss ↦ let (w, e) = get_of_has k d (rw (if_neg _ miss) at h) in (w, rw (if_neg _ miss) e)
  ]

  pub has_of_get : (k : K) (d : List (K × V)) {v : V} → get k d ≡ some v → has k d ≡ true
  unfolding get has
  has_of_get k [] h = cc
  has_of_get k ((j, w) ∷ d) {v} h = ground (arith, has_of_get k d {v = v})

  pub get-none : (k : K) (d : List (K × V)) → has k d ≡ false → get k d ≡ none
  unfolding get has
  get-none k [] h = refl
  get-none k ((j, w) ∷ d) h = ground (arith, get-none k d)

  -- A new key adds one entry, an old one none.
  pub length-set_item_new :
      (k : K) (v : V) (d : List (K × V)) → has k d ≡ false → set_item k v d ≡ d ++ ((k, v) ∷ [])
  unfolding has set_item
  length-set_item_new k v [] h = refl
  length-set_item_new k v ((j, w) ∷ d) h = elim (dec j k) [
    | yes hit ↦ absurd (let e = if_pos (dec j k) hit true (has k d) in cc)
    | no miss ↦
        rw (if_neg _ miss) (ap (◌∷◌ (j, w)) (length-set_item_new k v d (rw (if_neg _ miss) at h)))
  ]

  pub keys-set_item_old :
      (k : K) (v : V) (d : List (K × V)) → has k d ≡ true → keys (set_item k v d) ≡ keys d
  unfolding has set_item
  keys-set_item_old k v [] h = cc
  keys-set_item_old k v ((j, w) ∷ d) h = elim (dec j k) [
    | yes hit ↦ rw (if_pos _ hit)
    | no miss ↦ rw (if_neg _ miss) (ap (◌∷◌ j) (keys-set_item_old k v d (rw (if_neg _ miss) at h)))
  ]

  pub get-del_item_ne : (k q : K) (d : List (K × V)) → k ≢ q → get q (del_item k d) ≡ get q d
  unfolding get del_item
  get-del_item_ne k q [] h = refl
  get-del_item_ne k q ((j, w) ∷ d) h = ground (arith, get-del_item_ne k q d)

  pub has-del_item_ne : (k q : K) (d : List (K × V)) → k ≢ q → has q (del_item k d) ≡ has q d
  unfolding has del_item
  has-del_item_ne k q [] h = refl
  has-del_item_ne k q ((j, w) ∷ d) h = ground (arith, has-del_item_ne k q d)
