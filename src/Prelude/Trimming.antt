-- ===== src/Prelude/Trimming.antt =====
-- Several keys taken out of a dictionary, and lists of keys without repetition.
use Prim.Native.Nat.{ℕ, suc, ◌+◌}
use mathlib.Core.Path.{◌≡◌, refl, sym, subst, ap, ◌∙◌}
use mathlib.Core.Logic.{◌≢◌, if_pos, if_neg}
use mathlib.Core.Bool.{true, false}
use mathlib.Core.List.{List, [], ◌∷◌, ◌++◌}
use mathlib.Core.Option.{none}
use native.Mathlib.Decide.{dec_lt}
use native.Mathlib.Omega.{arith}
use sawtooth_ddpoa.Prelude.Tests.{if◌then◌else◌}
use sawtooth_ddpoa.Prelude.Lists.{length, contains, contains-append}
use sawtooth_ddpoa.Prelude.Dict.{
  has-del_item_ne, keys, has, get, del_item, get-none, get-del_item_ne,
}
use sawtooth_ddpoa.Prelude.Distinct.{
  Distinct, contains_nil, contains_self, in_tail, contains_ne, contains-remove_self, contains-perm,
  remove-Distinct, keys-del_item, has-contains,
}
use sawtooth_ddpoa.Prelude.Sorting.{insert, sort_by, sort_by-perm, insert-perm}

module _ {A : Type 0} (dec : Discrete A) where
  pub ne_of_fresh :
      (a x : A) (xs : List A) → contains dec x xs ≡ false → contains dec a xs ≡ true → x ≢ a
  ne_of_fresh a x xs f h p =
      let g : contains dec a xs ≡ false = subst (λ b. contains dec b xs ≡ false) p f in cc

  pub Distinct-left : (xs ys : List A) → Distinct dec (xs ++ ys) → Distinct dec xs
  Distinct-left [] ys d = tt
  Distinct-left (x ∷ xs) ys d =
      (ground (arith, sym (contains-append dec x xs ys) ∙ d.0), Distinct-left xs ys d.1)

  pub Distinct-apart :
      (a : A) (xs ys : List A)
      → Distinct dec (xs ++ ys)
      → contains dec a xs ≡ true
      → contains dec a ys ≡ false
  Distinct-apart a [] ys d h = absurd (let e = contains_nil dec a in cc)
  Distinct-apart a (x ∷ xs) ys d h = elim (dec x a) [
    | yes p ↦
        subst (λ b. contains dec b ys ≡ false) p
          (ground (arith, sym (contains-append dec x xs ys) ∙ d.0))
    | no p ↦ Distinct-apart a xs ys d.1 (sym (contains_ne dec a x xs p) ∙ h)
  ]

  insert-Distinct :
      (key : A → ℕ) (x : A) (ys : List A)
      → contains dec x ys ≡ false
      → Distinct dec ys
      → Distinct dec (insert key x ys)
  unfolding insert
  insert-Distinct key x [] f d = (f, tt)
  insert-Distinct key x (y ∷ ys) f d = elim (dec_lt (key y) (key x)) [
    | yes p ↦ rw (if_pos _ p) (
      contains-perm dec y (insert-perm key x ys) ∙ contains_ne dec y x ys (apart y ys f) ∙ d.0,
      insert-Distinct key x ys (sym (contains_ne dec x y ys (λ e. apart y ys f (sym e))) ∙ f) d.1,
    )
    | no p ↦ rw (if_neg _ p) (f, d)
  ]
    where
      apart : (y : A) (ys : List A) → contains dec x (y ∷ ys) ≡ false → x ≢ y
      apart y ys g e =
          let self : contains dec x (y ∷ ys) ≡ true =
            subst (λ b. contains dec b (y ∷ ys) ≡ true) (sym e) (contains_self dec y ys) in
          cc

  pub sort_by-Distinct :
      (key : A → ℕ) (xs : List A) → Distinct dec xs → Distinct dec (sort_by key xs)
  unfolding sort_by
  sort_by-Distinct key [] d = tt
  sort_by-Distinct key (x ∷ xs) d =
      insert-Distinct key x (sort_by key xs) (contains-perm dec x (sort_by-perm key xs) ∙ d.0)
        (sort_by-Distinct key xs d.1)

-- The dictionary without the keys `es`.
module _ {K V : Type 0} (dec : Discrete K) where
  unfoldable pub without : List K → List (K × V) → List (K × V)
  unfolding del_item
  without [] d = d
  without (e ∷ es) d = without es (del_item dec e d)

  -- Every key of `es` is in the dictionary.
  abbrev pub Present : List K → List (K × V) → Type 0
  Present es d = (e : K) → contains dec e es ≡ true → has dec e d ≡ true

  pub del_item-Distinct :
      (e : K) (d : List (K × V)) → Distinct dec (keys d) → Distinct dec (keys (del_item dec e d))
  del_item-Distinct e d h = rw (keys-del_item dec e d) (remove-Distinct dec e (keys d) h)

  pub get-del_item_self :
      (e : K) (d : List (K × V)) → Distinct dec (keys d) → get dec e (del_item dec e d) ≡ none
  get-del_item_self e d h = get-none dec e (del_item dec e d) (
      has-contains dec e (del_item dec e d)
      ∙ ap (contains dec e) (keys-del_item dec e d)
      ∙ contains-remove_self dec e (keys d) h)

  pub get-without :
      (q : K) (es : List K) (d : List (K × V))
      → Distinct dec (keys d)
      → get dec q (without es d) ≡ (if contains dec q es then none else get dec q d)
  unfolding without contains
  get-without q [] d h = refl
  get-without q (e ∷ es) d h =
      let rest = get-without q es (del_item dec e d) (del_item-Distinct e d h) in
      elim (dec e q) [
        | yes p ↦
            let gone : get dec q (del_item dec e d) ≡ none =
              subst (λ k. get dec k (del_item dec e d) ≡ none) p (get-del_item_self e d h) in
            ground (arith, rest, gone)
        | no p ↦ ground (arith, rest, get-del_item_ne dec e q d p)
      ]

  length-del_item :
      (e : K) (d : List (K × V)) → has dec e d ≡ true → suc (length (del_item dec e d)) ≡ length d
  unfolding has del_item
  length-del_item e [] h = cc
  length-del_item e ((j, w) ∷ d) h = ground (arith, length-del_item e d)

  pub Present-del_item :
      (e : K) (es : List K) (d : List (K × V))
      → contains dec e es ≡ false
      → Present (e ∷ es) d
      → Present es (del_item dec e d)
  Present-del_item e es d f p a h =
      has-del_item_ne dec e a d (ne_of_fresh dec a e es f h) ∙ p a (in_tail dec a e es h)

  pub length-without :
      (es : List K) (d : List (K × V))
      → Distinct dec es
      → Present es d
      → length es + length (without es d) ≡ length d
  unfolding without
  length-without [] d f p = omega arith
  length-without (e ∷ es) d f p =
      let rest = length-without es (del_item dec e d) f.1 (Present-del_item e es d f.0 p) in
      omega (arith, rest, length-del_item e d (p e (contains_self dec e es)))
