-- ===== src/Prelude/Lookups.antt =====
-- In a dictionary without repeated keys every entry is the one found under its key.
use mathlib.Core.Path.{◌≡◌, refl}
use mathlib.Core.Logic.{if_pos}
use mathlib.Core.Bool.{false}
use mathlib.Core.List.{List, [], ◌∷◌}
use mathlib.Core.Option.{some}
use native.Mathlib.Omega.{arith}
use sawtooth_ddpoa.Prelude.Lists.{All, contains}
use sawtooth_ddpoa.Prelude.Dict.{keys, get}
use sawtooth_ddpoa.Prelude.Distinct.{Distinct}

module _ {K V : Type 0} (dec : Discrete K) where
  abbrev pub Found : List (K × V) → List (K × V) → Type 0
  Found d = All (λ e. get dec e.0 d ≡ some e.1)

  Found-cons :
      (k : K) (v : V) (d xs : List (K × V))
      → contains dec k (keys xs) ≡ false
      → Found d xs
      → Found ((k, v) ∷ d) xs
  unfolding get contains
  Found-cons k v d [] h f = tt
  Found-cons k v d ((j, w) ∷ xs) h f = (ground (arith, f.0), Found-cons k v d xs (ground arith) f.1)

  pub Distinct-Found : (d : List (K × V)) → Distinct dec (keys d) → Found d d
  unfolding get
  Distinct-Found [] h = tt
  Distinct-Found ((k, v) ∷ d) h =
      (if_pos (dec k k) refl _ _, Found-cons k v d d h.0 (Distinct-Found d h.1))
