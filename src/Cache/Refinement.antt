-- ===== src/Cache/Refinement.antt =====
-- The block cache of consensus/pkg/engine/ddpoa_engine.py over many calls of `append`.
use mathlib.Core.List.{map-append, append_assoc, append-nil}
use sawtooth_ddpoa.Prelude.{
  ℕ, zero, suc, ◌≡◌, refl, sym, ap, subst, ◌∙◌, List, [], ◌∷◌, ◌++◌, map, true, false, drop, All,
  contains, contains-append, Key, BlockId, dec_key, M, length, Outcome, ok, return, ◌>>=◌, and_then,
  arith, if_neg,
}
use sawtooth_ddpoa.Prelude.Dict.{keys, values}
use sawtooth_ddpoa.Prelude.Distinct.{Distinct, contains_self}
use sawtooth_ddpoa.Prelude.Cuts.{drop-append_le}
use sawtooth_ddpoa.Service.{Block, Call}
use sawtooth_ddpoa.Cache.{BlockCache, append}
use sawtooth_ddpoa.Cache.Bounded.{IsValid}
use sawtooth_ddpoa.Cache.Append.{append-IsValid}
use sawtooth_ddpoa.Cache.Recent.{
  blocks, newest, ignored, overflow, append-newest, newest-append, none_over, length-keys,
}

-- The blocks are appended one after the other, and the calls are collected.
unfoldable pub append_each : List Block → M BlockCache (List Call)
unfolding append
append_each [] = return []
append_each (b ∷ bs) = do calls ← append b; rest ← append_each bs; return (calls ++ rest)

abbrev pub ids : List Block → List BlockId
ids = map (λ b. b.block_id)

ids-blocks :
    (d : List (BlockId × Block)) → All (λ e. e.1.block_id ≡ e.0) d → ids (values d) ≡ keys d
ids-blocks [] a = refl
ids-blocks (e ∷ d) a = ap (◌∷◌ e.1.block_id) (ids-blocks d a.1) ∙ ap (λ k. k ∷ keys d) a.0

drop-Distinct : (n : ℕ) (xs : List Key) → Distinct dec_key xs → Distinct dec_key (drop n xs)
drop-Distinct zero xs d = d
drop-Distinct (suc n) [] d = tt
drop-Distinct (suc n) (x ∷ xs) d = drop-Distinct n xs d.1

ids-drop : (n : ℕ) (bs : List Block) → ids (drop n bs) ≡ drop n (ids bs)
ids-drop zero bs = refl
ids-drop (suc n) [] = refl
ids-drop (suc n) (b ∷ bs) = ids-drop n bs

contains-front :
    (xs ys : List Key) (k : Key) → Distinct dec_key (xs ++ (k ∷ ys)) → contains dec_key k xs ≡ false
unfolding contains
contains-front [] ys k d = refl
contains-front (x ∷ xs) ys k d = elim (dec_key x k) [
  | yes p ↦ absurd (
      let inside = contains-append dec_key k xs (k ∷ ys) in
      let own = contains_self dec_key k ys in
      let outside = subst (λ z. contains dec_key z (xs ++ (k ∷ ys)) ≡ false) p d.0 in
      ground (arith, inside, own, outside))
  | no p ↦ rw (if_neg (dec_key x k) p true (contains dec_key k xs)) (contains-front xs ys k d.1)
]

-- Appending blocks whose ids are all different, also from those in a valid cache, raises nothing; the
-- cache then holds the ten newest of all these blocks in their order, and the validator was asked to
-- ignore the others, in their order.
pub append_each-newest :
    (bs : List Block) (c : BlockCache)
    → IsValid c
    → Distinct dec_key (ids (blocks c ++ bs))
    → (d : BlockCache) × (append_each bs c ≡ (ok (ignored (blocks c ++ bs)), d))
      × IsValid d
      × (blocks d ≡ newest (blocks c ++ bs))
unfolding append_each and_then
append_each-newest [] c v fresh =
    let nil = append-nil (blocks c) in
    let (kept, cut) =
      none_over (blocks c) (omega (arith, length-keys c.cache, ap length v.same_ids, v.bounded)) in
    (c, ap (λ l. (ok l, c)) (sym (ap ignored nil ∙ cut)), v, sym (ap newest nil ∙ kept))
append_each-newest (b ∷ bs) c v fresh =
    let front = blocks c ++ (b ∷ []) in
    let all : front ++ bs ≡ blocks c ++ (b ∷ bs) = append_assoc (blocks c) (b ∷ []) bs in
    let listed : c.cache_ids ≡ ids (blocks c) =
      sym v.same_ids ∙ sym (ids-blocks c.cache v.own_ids) in
    let new : contains dec_key b.block_id c.cache_ids ≡ false =
      ap (contains dec_key b.block_id) listed
      ∙ contains-front (ids (blocks c)) (ids bs) b.block_id (
          subst (Distinct dec_key) (map-append (λ (x : Block). x.block_id) (blocks c) (b ∷ bs))
            fresh) in
    let (calls, c1, run, valid, _) = append-IsValid b c v new in
    let (said, held) = append-newest b c v new in
    let now : blocks c1 ≡ newest front =
      ap (λ (r : Outcome (List Call) × BlockCache). blocks r.1) (sym run) ∙ held in
    let told : calls ≡ ignored front =
      cc (ap (λ (r : Outcome (List Call) × BlockCache). r.0) run, said) in
    let rest_of : blocks c1 ++ bs ≡ drop (overflow front) (blocks c ++ (b ∷ bs)) =
      ap (λ l. l ++ bs) now
      ∙ sym (drop-append_le (overflow front) front bs (omega arith))
      ∙ ap (drop (overflow front)) all in
    let later : Distinct dec_key (ids (blocks c1 ++ bs)) =
      subst (Distinct dec_key)
        (sym (ap ids rest_of ∙ ids-drop (overflow front) (blocks c ++ (b ∷ bs))))
        (drop-Distinct (overflow front) (ids (blocks c ++ (b ∷ bs))) fresh) in
    let (d, more, valid', held') = append_each-newest bs c1 valid later in
    let (as_one, said_as_one) = newest-append front bs in
    let spoken : calls ++ ignored (blocks c1 ++ bs) ≡ ignored (blocks c ++ (b ∷ bs)) =
      ap (λ l. l ++ ignored (blocks c1 ++ bs)) told
      ∙ ap (λ l. ignored front ++ ignored (l ++ bs)) now
      ∙ said_as_one
      ∙ ap ignored all in
    (
      d,
      rw (run, more, append_each) (ap (λ l. (ok l, d)) spoken),
      valid',
      held' ∙ ap (λ l. newest (l ++ bs)) now ∙ as_one ∙ ap newest all,
    )
