-- ===== src/Prelude/Distinct.antt =====
-- Lists without repetition, and when two of them are permutations of one another.
use mathlib.Core.Path.{◌≡◌, refl, sym, subst, ap, ◌∙◌}
use mathlib.Core.Logic.{◌≢◌, if_pos, if_neg, ∥∥₁_elim}
use mathlib.Core.Bool.{true, false, ◌||◌, Bool-set}
use mathlib.Core.List.{List, [], ◌∷◌, ◌++◌, Perm, Permᴰ}
use mathlib.Core.List.Perm
use mathlib.Core.Option.{Option, some}
use native.Mathlib.Omega.{arith}
use sawtooth_ddpoa.Prelude.Lists.{All, contains, contains-append, remove, remove-perm}
use sawtooth_ddpoa.Prelude.Dict.{keys, has, set_item, del_item, get}

module _ {A : Type 0} (dec : Discrete A) where
  abbrev pub Distinct : List A → Type 0
  Distinct [] = Unit
  Distinct (x ∷ xs) = (contains dec x xs ≡ false) × Distinct xs

  pub contains_nil : (x : A) → contains dec x [] ≡ false
  unfolding contains
  contains_nil x = refl

  pub contains_self : (x : A) (xs : List A) → contains dec x (x ∷ xs) ≡ true
  unfolding contains
  contains_self x xs = ground arith

  pub contains_ne : (a x : A) (xs : List A) → x ≢ a → contains dec a (x ∷ xs) ≡ contains dec a xs
  unfolding contains
  contains_ne a x xs h = if_neg (dec x a) h true (contains dec a xs)

  pub in_tail : (a x : A) (xs : List A) → contains dec a xs ≡ true → contains dec a (x ∷ xs) ≡ true
  in_tail a x xs h = elim (dec x a) [
    | yes p ↦ subst (λ b. contains dec b (x ∷ xs) ≡ true) p (contains_self x xs)
    | no p ↦ contains_ne a x xs p ∙ h
  ]

  pub contains-remove_ne :
      (a x : A) (xs : List A) → x ≢ a → contains dec a (remove dec x xs) ≡ contains dec a xs
  unfolding contains remove
  contains-remove_ne a x [] h = refl
  contains-remove_ne a x (y ∷ ys) h = ground (arith, contains-remove_ne a x ys)

  pub contains-remove_self :
      (x : A) (xs : List A) → Distinct xs → contains dec x (remove dec x xs) ≡ false
  unfolding contains remove
  contains-remove_self x [] d = refl
  contains-remove_self x (y ∷ ys) d = ground (arith, contains-remove_self x ys d.1)

  pub remove-Distinct : (x : A) (xs : List A) → Distinct xs → Distinct (remove dec x xs)
  unfolding remove
  remove-Distinct x [] d = tt
  remove-Distinct x (y ∷ ys) d = elim (dec y x) [
    | yes p ↦ rw (if_pos (dec y x) p) d.1
    | no p ↦
        rw (if_neg (dec y x) p)
          (contains-remove_ne y x ys (λ e. p (sym e)) ∙ d.0, remove-Distinct x ys d.1)
  ]

  pub contains-permᴰ :
      (a : A) {xs ys : List A} → Permᴰ xs ys → contains dec a xs ≡ contains dec a ys
  unfolding contains
  contains-permᴰ a Permᴰ.nil = refl
  contains-permᴰ a (Permᴰ.cons e p) = ground (arith, contains-permᴰ a p)
  contains-permᴰ a (Permᴰ.swap e f) = ground arith
  contains-permᴰ a (Permᴰ.trans p q) = contains-permᴰ a p ∙ contains-permᴰ a q

  pub contains-perm : (a : A) {xs ys : List A} → Perm xs ys → contains dec a xs ≡ contains dec a ys
  contains-perm a p = ∥∥₁_elim p (Bool-set _ _) (contains-permᴰ a)

  -- Two lists without repetition are permutations when they have the same elements.
  pub perm_of_same :
      (xs ys : List A)
      → Distinct xs
      → Distinct ys
      → ((a : A) → contains dec a xs ≡ contains dec a ys)
      → Perm xs ys
  perm_of_same [] [] d e h = Perm.refl _
  perm_of_same [] (y ∷ ys) d e h = let f = sym (contains_nil y) ∙ h y ∙ contains_self y ys in cc
  perm_of_same (x ∷ xs) ys d e h =
      Perm.trans (Perm.cons x (perm_of_same xs (remove dec x ys) d.1 (remove-Distinct x ys e) rest))
        (Perm.symm (remove-perm dec x ys here))
    where
      here : contains dec x ys ≡ true
      here = sym (h x) ∙ contains_self x xs

      rest : (a : A) → contains dec a xs ≡ contains dec a (remove dec x ys)
      rest a = elim (dec x a) [
        | yes p ↦
            subst (λ b. contains dec b xs ≡ contains dec b (remove dec x ys)) p
              (d.0 ∙ sym (contains-remove_self x ys e))
        | no p ↦ sym (contains_ne a x xs p) ∙ h a ∙ sym (contains-remove_ne a x ys p)
      ]

module _ {A : Type 0} (dec : Discrete A) where
  pub append-Distinct :
      (xs ys : List A)
      → Distinct dec xs
      → Distinct dec ys
      → ((a : A) → contains dec a xs ≡ true → contains dec a ys ≡ false)
      → Distinct dec (xs ++ ys)
  append-Distinct [] ys d e apart = e
  append-Distinct (x ∷ xs) ys d e apart = (
    contains-append dec x xs ys ∙ ground (arith, d.0, apart x (contains_self dec x xs)),
    append-Distinct xs ys d.1 e (λ a h. apart a (in_tail dec a x xs h)),
  )

-- The keys of a dictionary.
module _ {K V : Type 0} (dec : Discrete K) where
  pub contains-keys-set_item :
      (a k : K) (v : V) (d : List (K × V))
      → contains dec a (keys (set_item dec k v d))
        ≡ (contains dec a (keys d) || contains dec a (k ∷ []))
  unfolding contains set_item
  contains-keys-set_item a k v [] = refl
  contains-keys-set_item a k v ((j, w) ∷ d) = ground (arith, contains-keys-set_item a k v d)

  pub keys-set_item-Distinct :
      (k : K) (v : V) (d : List (K × V))
      → Distinct dec (keys d)
      → Distinct dec (keys (set_item dec k v d))
  unfolding contains set_item
  keys-set_item-Distinct k v [] h = (refl, tt)
  keys-set_item-Distinct k v ((j, w) ∷ d) h = elim (dec j k) [
    | yes p ↦ rw (if_pos (dec j k) p) h
    | no p ↦ rw (if_neg (dec j k) p) (
      ground (arith, contains-keys-set_item j k v d, λ (e : k ≡ j). p (sym e), h.0),
      keys-set_item-Distinct k v d h.1,
    )
  ]

  pub keys-del_item : (k : K) (d : List (K × V)) → keys (del_item dec k d) ≡ remove dec k (keys d)
  unfolding del_item remove
  keys-del_item k [] = refl
  keys-del_item k ((j, w) ∷ d) = elim (dec j k) [
    | yes p ↦ rw (if_pos (dec j k) p, if_pos (dec j k) p)
    | no p ↦ rw (if_neg (dec j k) p, if_neg (dec j k) p) (ap (◌∷◌ j) (keys-del_item k d))
  ]

pub some-eq : {V : Type 0} {v w : V} → ◌≡◌ {A = Option V} (some v) (some w) → v ≡ w
some-eq e = cc

module _ {K V : Type 0} (dec : Discrete K) where
  pub has-contains : (k : K) (d : List (K × V)) → has dec k d ≡ contains dec k (keys d)
  unfolding has contains
  has-contains k [] = refl
  has-contains k ((j, w) ∷ d) = ground (arith, has-contains k d)

  pub set_item-All :
      (P : V → Type 0) (k : K) (v : V) (d : List (K × V))
      → P v
      → All (λ e. P e.1) d
      → All (λ e. P e.1) (set_item dec k v d)
  unfolding set_item
  set_item-All P k v [] h a = (h, tt)
  set_item-All P k v ((j, w) ∷ d) h a = elim (dec j k) [
    | yes p ↦ rw (if_pos (dec j k) p) (h, a.1)
    | no p ↦ rw (if_neg (dec j k) p) (a.0, set_item-All P k v d h a.1)
  ]

  pub get-All :
      (P : V → Type 0) (k : K) (d : List (K × V)) {v : V}
      → All (λ e. P e.1) d
      → get dec k d ≡ some v
      → P v
  unfolding get
  get-All P k [] a h = cc
  get-All P k ((j, w) ∷ d) {v} a h = elim (dec j k) [
    | yes p ↦ subst P (some-eq (sym (if_pos (dec j k) p (some w) (get dec k d)) ∙ h)) a.0
    | no p ↦ get-All P k d a.1 (sym (if_neg (dec j k) p (some w) (get dec k d)) ∙ h)
  ]
