-- ===== src/Prelude/Effects.antt =====
-- Stateful code that may raise. A call leaves a state behind also when it raises, as in Python, and
-- may block for ever in a wait on a queue.
use mathlib.Core.Path.{◌≡◌, refl, ap}
use mathlib.Core.Logic.{◌⊎◌, inl, inr}
use mathlib.Core.Bool.{Bool, true, false}
use mathlib.Core.List.{List, [], ◌∷◌}
use mathlib.Core.Option.{Option, none, some}

-- The exceptions that the modelled code raises or catches.
pub data Exn : Type 0 where
  key_error index_error value_error type_error zero_division : Exn
  attribute_error configuration_error sdk_configuration_error : Exn
  invalid_state block_not_ready service_error poll_error decode_error : Exn

pub data Outcome (A : Type 0) : Type 0 where
  ok : A → Outcome A
  raise : Exn → Outcome A
  hang : Outcome A

abbrev pub M : Type 0 → Type 0 → Type 0
M S A = S → Outcome A × S

unfoldable pub and_then : {S A B : Type 0} → Outcome A × S → (A → M S B) → Outcome B × S
and_then (ok a, s) f = f a s
and_then (raise e, s) f = (raise e, s)
and_then (hang, s) f = (hang, s)

infixl 5 ◌>>=◌ ◌>>◌
abbrev pub ◌>>=◌ : {S A B : Type 0} → M S A → (A → M S B) → M S B
◌>>=◌ m f s = and_then (m s) f

abbrev pub ◌>>◌ : {S A B : Type 0} → M S A → M S B → M S B
◌>>◌ m k s = and_then (m s) (λ _. k)

abbrev pub return : {S A : Type 0} → A → M S A
return a s = (ok a, s)

abbrev pub skip : {S : Type 0} → M S (Unit {0})
skip s = (ok tt, s)

abbrev pub throw : {S A : Type 0} → Exn → M S A
throw e s = (raise e, s)

abbrev pub block : {S A : Type 0} → M S A
block s = (hang, s)

abbrev pub modify : {S : Type 0} → (S → S) → M S (Unit {0})
modify f s = (ok tt, f s)

abbrev pub gets : {S A : Type 0} → (S → A) → M S A
gets f s = (ok (f s), s)

unfoldable pub when : {S : Type 0} → Bool → M S (Unit {0}) → M S (Unit {0})
when true m = m
when false m = skip

-- `try m except: handler`.
unfoldable pub recover : {S A : Type 0} → (Exn → M S A) → Outcome A × S → Outcome A × S
recover handler (ok a, s) = (ok a, s)
recover handler (raise e, s) = handler e s
recover handler (hang, s) = (hang, s)

abbrev pub catch : {S A : Type 0} → M S A → (Exn → M S A) → M S A
catch m handler s = recover handler (m s)

-- A call that reads the state only.
abbrev pub reads : {S A : Type 0} → (S → Outcome A) → M S A
reads f s = (f s, s)

abbrev pub lift : {S A : Type 0} → Outcome A → M S A
lift o s = (o, s)

-- `d[k]` of a missing key, and the like.
unfoldable pub or_raise : {S A : Type 0} → Exn → Option A → M S A
or_raise e none = throw e
or_raise e (some a) = return a

-- `for x in l: body(x)`.
unfoldable pub for_each : {S A : Type 0} → List A → (A → M S (Unit {0})) → M S (Unit {0})
for_each [] body = skip
for_each (x ∷ xs) body = body x >> for_each xs body

-- A call on a part of the state.
abbrev pub put_back : {S T A : Type 0} → (T → S → S) → S → Outcome A × T → Outcome A × S
put_back put s (o, t) = (o, put t s)

abbrev pub on_part : {S T A : Type 0} → (S → T) → (T → S → S) → M T A → M S A
on_part part put m s = put_back put s (m (part s))

-- What a value must satisfy, if the call returns.
abbrev pub Returns : {S A : Type 0} → Outcome A × S → (A → S → Type 0) → Type 0
Returns (ok a, s) P = P a s
Returns (raise e, s) P = ⊥
Returns (hang, s) P = ⊥

pub Outcome-cases :
    {A : Type 0} (o : Outcome A)
    → ((a : A) × (o ≡ ok a)) ⊎ (((e : Exn) × (o ≡ raise e)) ⊎ (o ≡ hang))
Outcome-cases (ok a) = inl (a, refl)
Outcome-cases (raise e) = inr (inl (e, refl))
Outcome-cases hang = inr (inr refl)

-- What a property of states needs to survive two calls in a row, whether the first raises or not.
pub and_then-keeps :
    {S A B : Type 0} (P : S → Type 0) (r : Outcome A × S) (f : A → M S B)
    → P r.1
    → ((a : A) (t : S) → P t → P (f a t).1)
    → P (and_then r f).1
unfolding and_then
and_then-keeps P (ok a, t) f h g = g a t h
and_then-keeps P (raise e, t) f h g = h
and_then-keeps P (hang, t) f h g = h

-- A call that returns is followed by the next.
pub and_then_ok :
    {S A B : Type 0} (r : Outcome A × S) (a : A) (f : A → M S B)
    → r.0 ≡ ok a
    → and_then r f ≡ f a r.1
unfolding and_then
and_then_ok (ok x, s) a f e = let same : x ≡ a = cc in ap (λ y. f y s) same
and_then_ok (raise x, s) a f e = cc
and_then_ok (hang, s) a f e = cc
