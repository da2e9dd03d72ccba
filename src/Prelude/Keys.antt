-- ===== src/Prelude/Keys.antt =====
-- Node keys and block ids. The program holds a block id as bytes and passes its hex form around;
-- `hex` is injective, so the model carries the hex form.
use Prim.Native.String.{String}
use mathlib.Core.Path.{◌≡◌, refl}
use mathlib.Core.Bool.{Bool, true, false}
use mathlib.Core.List.{List, [], ◌∷◌}
use text.Mathlib.Text.{◌==◌ as str_eq}
use text.Mathlib.TextEquality.{eq_iff}
use mathlib.Core.Logic.{◌↔◌}

-- consensus/pkg/engine/types.py: a `Key` is a `str`.
abbrev pub Key : Type 0
Key = String

abbrev pub BlockId : Type 0
BlockId = String

dec_of_test : {A : Type 0} (b : Bool) → ((b ≡ true) ↔ A) → Dec A
dec_of_test true h = yes (h.0 refl)
dec_of_test false h = no (λ a. let e = h.1 a in cc)

unfoldable pub dec_key : Discrete String
unfolding dec_of_test
dec_key a b = dec_of_test (str_eq a b) (eq_iff a b)

nil≢cons : {x : String} {xs : List String} → ¬ ([] ≡ x ∷ xs)
nil≢cons e = cc

cons≢nil : {x : String} {xs : List String} → ¬ (x ∷ xs ≡ [])
cons≢nil e = cc

head-eq : {x y : String} {xs ys : List String} → x ∷ xs ≡ y ∷ ys → x ≡ y
head-eq e = cc

tail-eq : {x y : String} {xs ys : List String} → x ∷ xs ≡ y ∷ ys → xs ≡ ys
tail-eq e = cc

both : {x y : String} {xs ys : List String} → Dec (x ≡ y) → Dec (xs ≡ ys) → Dec (x ∷ xs ≡ y ∷ ys)
both (yes p) (yes q) = yes (λ i. p i ∷ q i)
both (yes p) (no n) = no (λ e. n (tail-eq e))
both (no n) d = no (λ e. n (head-eq e))

unfoldable pub dec_keys : Discrete (List String)
unfolding dec_key both nil≢cons cons≢nil head-eq tail-eq
dec_keys [] [] = yes refl
dec_keys [] (y ∷ ys) = no nil≢cons
dec_keys (x ∷ xs) [] = no cons≢nil
dec_keys (x ∷ xs) (y ∷ ys) = both (dec_key x y) (dec_keys xs ys)
