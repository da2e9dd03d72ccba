-- ===== src/Epoch/Rounds.antt =====
-- The slots of an epoch in turn: `increment_witness` and `current_witness` of
-- consensus/pkg/engine/epoch.py, from one slot to the next with no downgrade between.
use mathlib.Core.List.Perm
use native.Mathlib.Nat.{add-zero, mod-eq_of_lt, mul-add-mod_self_right}
use sawtooth_ddpoa.Prelude.{
  ℕ, zero, suc, ◌+◌, ◌*◌, ◌%◌, ◌<◌, ◌≤◌, ◌≡◌, refl, ap, ◌∙◌, String, List, [], ◌∷◌, ◌++◌, map, Perm,
  Option, some, Key, length, drop, get_elem?, get_elem?-some, ok, arith,
}
use sawtooth_ddpoa.Epoch.{
  Epoch, increment_witness, current_witness, witness_ahead, reorder_witnesslist,
}
use sawtooth_ddpoa.Epoch.Order.{reorder-perm}

module _ {ℓ} {A : Type ℓ} where
  drop-get_elem? :
      (j : ℕ) (xs : List A) (a : A) → get_elem? xs j ≡ some a → drop j xs ≡ a ∷ drop (suc j) xs
  drop-get_elem? zero (x ∷ xs) a h = ground arith
  drop-get_elem? (suc j) (x ∷ xs) a h = drop-get_elem? j xs a h
  drop-get_elem? j [] a h = cc

  drop_ge : (j : ℕ) (xs : List A) → length xs ≤ j → drop j xs ≡ []
  drop_ge zero [] h = refl
  drop_ge zero (x ∷ xs) h = absurd (omega arith)
  drop_ge (suc j) [] h = refl
  drop_ge (suc j) (x ∷ xs) h = drop_ge j xs (omega arith)

  abbrev pub concat : List (List A) → List A
  concat [] = []
  concat (xs ∷ xss) = xs ++ concat xss

mod_in_round : (r n j : ℕ) → j < n → (r * n + j) % n ≡ j
mod_in_round r n j h = mul-add-mod_self_right r n j ∙ mod-eq_of_lt h

current_at :
    (e : Epoch) (r j : ℕ)
    → j < length e.witnesses
    → e.current_witness_idx ≡ r * length e.witnesses + j
    → current_witness e ≡ get_elem? e.witnesses j
unfolding current_witness
current_at e r j h i =
    let here : (e.current_witness_idx + 0) % length e.witnesses ≡ j =
      rw i (rw add-zero (mod_in_round r (length e.witnesses) j h)) in
    rw (here, witness_ahead) (ground arith)

module _ (sha256 : String → ℕ) where
  -- For each block committed in turn, the witness whose slot it closed.
  unfoldable pub serve : List String → Epoch → List (Option Key)
  serve [] e = []
  serve (b ∷ bs) e = current_witness e ∷ serve bs (increment_witness sha256 b e).1

  unfoldable pub advance : List String → Epoch → Epoch
  advance [] e = e
  advance (b ∷ bs) e = advance bs (increment_witness sha256 b e).1

  -- Inside a round the index moves on and the witness list stays.
  increment_inside :
      (b : String) (e : Epoch) (r j : ℕ)
      → suc j < length e.witnesses
      → e.current_witness_idx ≡ r * length e.witnesses + j
      → increment_witness sha256 b e
        ≡ (ok tt, record e { current_witness_idx = r * length e.witnesses + suc j })
  unfolding increment_witness
  increment_inside b e r j h i =
      let step : e.current_witness_idx + 1 ≡ r * length e.witnesses + suc j = omega (arith, i) in
      rw step (ground (arith, mod_in_round r (length e.witnesses) (suc j) h))

  -- What one round leaves behind.
  pub record Round (r : ℕ) (e f : Epoch) : Type 0 where
    pub index : f.current_witness_idx ≡ suc r * length e.witnesses
    pub same_witnesses : Perm f.witnesses e.witnesses
    pub number : f.number ≡ e.number
    pub queue : f.candidates ≡ e.candidates
    pub slots : f.num_slots ≡ e.num_slots

  -- The last slot of a round may reorder the list.
  increment_last :
      (b : String) (e : Epoch) (r j : ℕ)
      → suc j ≡ length e.witnesses
      → e.current_witness_idx ≡ r * length e.witnesses + j
      → Round r e (increment_witness sha256 b e).1
  unfolding increment_witness reorder_witnesslist
  increment_last b e r j h i =
      let step : e.current_witness_idx + 1 ≡ suc r * length e.witnesses = omega (arith, i, h) in
      let next : Epoch = record e { current_witness_idx = e.current_witness_idx + 1 } in
      ground (arith, reorder-perm sha256 b next, Perm.refl e.witnesses)

  -- A round from its slot `j` on.
  serve_from :
      (bs : List String) (e : Epoch) (r j : ℕ)
      → length bs + j ≡ length e.witnesses
      → e.current_witness_idx ≡ r * length e.witnesses + j
      → serve bs e ≡ map some (drop j e.witnesses)
  unfolding serve
  serve_from [] e r j h i = rw (drop_ge j e.witnesses (omega (arith, h)))
  serve_from (b ∷ []) e r j h i =
      let (w, here) = get_elem?-some e.witnesses j (omega (arith, h)) in
      rw (
        current_at e r j (omega (arith, h)) i,
        here,
        drop-get_elem? j e.witnesses w here,
        drop_ge (suc j) e.witnesses (omega (arith, h)),
      )
  serve_from (b ∷ c ∷ bs) e r j h i =
      let (w, here) = get_elem?-some e.witnesses j (omega (arith, h)) in
      let next : Epoch = record e { current_witness_idx = r * length e.witnesses + suc j } in
      rw
        (
          current_at e r j (omega (arith, h)) i,
          here,
          drop-get_elem? j e.witnesses w here,
          increment_inside b e r j (omega (arith, h)) i,
        )
        (ap (◌∷◌ (some w)) (serve_from (c ∷ bs) next r (suc j) (omega (arith, h)) refl))

  advance_from :
      (b : String) (bs : List String) (e : Epoch) (r j : ℕ)
      → suc (length bs) + j ≡ length e.witnesses
      → e.current_witness_idx ≡ r * length e.witnesses + j
      → Round r e (advance (b ∷ bs) e)
  unfolding advance
  advance_from b [] e r j h i = increment_last b e r j (omega (arith, h)) i
  advance_from b (c ∷ bs) e r j h i =
      let next : Epoch = record e { current_witness_idx = r * length e.witnesses + suc j } in
      let done : Round r next (advance (c ∷ bs) next) =
        advance_from c bs next r (suc j) (omega (arith, h)) refl in
      rw (increment_inside b e r j (omega (arith, h)) i) (record {
        index = done.index;
        same_witnesses = done.same_witnesses;
        number = done.number;
        queue = done.queue;
        slots = done.slots;
      })

  pub serve-append :
      (xs ys : List String) (e : Epoch) → serve (xs ++ ys) e ≡ serve xs e ++ serve ys (advance xs e)
  unfolding serve advance
  serve-append [] ys e = refl
  serve-append (x ∷ xs) ys e = ap (◌∷◌ (current_witness e)) (serve-append xs ys _)

  pub advance-append :
      (xs ys : List String) (e : Epoch) → advance (xs ++ ys) e ≡ advance ys (advance xs e)
  unfolding advance
  advance-append [] ys e = refl
  advance-append (x ∷ xs) ys e = advance-append xs ys _

  pub serve-advance-Round :
      (bs : List String) (e : Epoch) (r : ℕ)
      → length bs ≡ length e.witnesses
      → 0 < length e.witnesses
      → e.current_witness_idx ≡ r * length e.witnesses
      → (serve bs e ≡ map some e.witnesses) × Round r e (advance bs e)
  serve-advance-Round [] e r h p i = absurd (omega (arith, h, p))
  serve-advance-Round (b ∷ bs) e r h p i = (
    serve_from (b ∷ bs) e r 0 (omega (arith, h)) (omega (arith, i)),
    advance_from b bs e r 0 (omega (arith, h)) (omega (arith, i)),
  )
