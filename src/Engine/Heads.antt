-- ===== src/Engine/Heads.antt =====
-- The head that most messages name, in `_handle_bootstrap` of consensus/pkg/engine/ddpoa_engine.py.
use sawtooth_ddpoa.Prelude.{
  ℕ, ◌+◌, ◌-◌, leb, ok, ◌≤◌, ◌<◌, ◌≡◌, refl, sym, subst, ap, ◌∙◌, List, [], ◌∷◌, Option, none, some,
  All, ite, if_pos, if_neg, BlockId, dec_key, arith, Option-cases, inl, inr, Bool-cases, List-cases,
  if◌then◌else◌,
}
use sawtooth_ddpoa.Prelude.Dict.{get, keys, set_item, get-set_item_self, get-set_item_ne}
use sawtooth_ddpoa.Prelude.Distinct.{Distinct, keys-set_item-Distinct, get-All}
use sawtooth_ddpoa.Prelude.Lookups.{Distinct-Found}
use sawtooth_ddpoa.Prelude.Int.{ℤ, pos, sub_ℕ}
use sawtooth_ddpoa.Service.{Bootstrap}
use sawtooth_ddpoa.Engine.Inbox.{Head, mention, heads, top_head, outranks, follow_head}
use sawtooth_ddpoa.Engine.Catchup.{fastforward}
use sawtooth_ddpoa.Engine.{Engine, Env}
use sawtooth_ddpoa.Host.{Host}
use sawtooth_ddpoa.Node.{online_peers}
use sawtooth_ddpoa.Voting.{consensus_amount}

-- How often the messages name an id, as the head or as the block before it.
pub mentions : BlockId → List Bootstrap → ℕ
mentions id [] = 0
mentions id (m ∷ ms) =
    ite (dec_key m.chain_head_id id) 1 0 + ite (dec_key m.pre_id id) 1 0 + mentions id ms

abbrev Blocks : Type 0
Blocks = List (BlockId × Head)

abbrev counted : Option Head → ℕ
counted none = 0
counted (some h) = h.count

counted-set :
    (q id : BlockId) (head : Head) (d : Blocks)
    → counted (get dec_key q (set_item dec_key id head d))
      ≡ ite (dec_key id q) head.count (counted (get dec_key q d))
counted-set q id head d = elim (dec_key id q) [
  | yes p ↦
      subst (λ k. counted (get dec_key k (set_item dec_key id head d)) ≡ head.count) p
        (ap counted (get-set_item_self dec_key id head d))
      ∙ sym (if_pos (dec_key id q) p _ _)
  | no p ↦ ap counted (get-set_item_ne dec_key id q head d p) ∙ sym (if_neg (dec_key id q) p _ _)
]

added :
    (q id : BlockId) (n : ℕ) (d : Blocks)
    → counted (get dec_key id d) ≡ n
    → ite (dec_key id q) (n + 1) (counted (get dec_key q d))
      ≡ counted (get dec_key q d) + ite (dec_key id q) 1 0
added q id n d h = elim (dec_key id q) [
  | yes p ↦
      let here : counted (get dec_key q d) ≡ n = subst (λ k. counted (get dec_key k d) ≡ n) p h in
      rw (if_pos (dec_key id q) p, if_pos (dec_key id q) p) (omega arith)
  | no p ↦ rw (if_neg (dec_key id q) p, if_neg (dec_key id q) p) (omega arith)
]

counted-nil : (q : BlockId) → counted (get dec_key q []) ≡ 0
unfolding get
counted-nil q = refl

counted-mention :
    (q id : BlockId) (num : ℤ) (d : Blocks)
    → counted (get dec_key q (mention id num d))
      ≡ counted (get dec_key q d) + ite (dec_key id q) 1 0
unfolding mention
counted-mention q id num d = elim (Option-cases (get dec_key id d)) [
  | inl e ↦ rw (e, mention) (counted-set q id _ d ∙ added q id 0 d (ap counted e))
  | inr (head, e) ↦ rw (e, mention) (counted-set q id _ d ∙ added q id head.count d (ap counted e))
]

counted-heads :
    (q : BlockId) (ms : List Bootstrap) (d : Blocks)
    → counted (get dec_key q (heads ms d)) ≡ counted (get dec_key q d) + mentions q ms
unfolding heads mentions
counted-heads q [] d = omega arith
counted-heads q (m ∷ ms) d =
    let once = mention m.chain_head_id (pos m.num_blocks) d in
    omega (
      arith,
      counted-heads q ms (mention m.pre_id (sub_ℕ m.num_blocks 1) once),
      counted-mention q m.pre_id (sub_ℕ m.num_blocks 1) once,
      counted-mention q m.chain_head_id (pos m.num_blocks) d,
    )

mention-Distinct :
    (id : BlockId) (num : ℤ) (d : Blocks)
    → Distinct dec_key (keys d)
    → Distinct dec_key (keys (mention id num d))
unfolding mention
mention-Distinct id num d h = elim (Option-cases (get dec_key id d)) [
  | inl e ↦ rw (e, mention) (keys-set_item-Distinct dec_key id _ d h)
  | inr (head, e) ↦ rw (e, mention) (keys-set_item-Distinct dec_key id _ d h)
]

heads-Distinct :
    (ms : List Bootstrap) (d : Blocks)
    → Distinct dec_key (keys d)
    → Distinct dec_key (keys (heads ms d))
unfolding heads
heads-Distinct [] d h = h
heads-Distinct (m ∷ ms) d h =
    heads-Distinct ms _ (mention-Distinct m.pre_id _ _ (mention-Distinct m.chain_head_id _ d h))

abbrev better : BlockId × Head → BlockId × Head → BlockId × Head
better b best = if outranks b.1 best.1 then b else best

better-le :
    (b best : BlockId × Head)
    → (best.1.count ≤ (better b best).1.count) × (b.1.count ≤ (better b best).1.count)
better-le b best = ground arith

top_head-le :
    (best : BlockId × Head) (bs : Blocks)
    → (best.1.count ≤ (top_head best bs).1.count)
      × All (λ e. e.1.count ≤ (top_head best bs).1.count) bs
unfolding top_head
top_head-le best [] = (omega arith, tt)
top_head-le best (b ∷ bs) =
    let (most, rest) = top_head-le (better b best) bs in
    let (kept, new) = better-le b best in
    (omega (arith, most, kept), (omega (arith, most, new), rest))

-- The top is one of the heads.
top_head-All :
    (P : BlockId × Head → Type 0) (best : BlockId × Head) (bs : Blocks)
    → P best
    → All P bs
    → P (top_head best bs)
unfolding top_head
top_head-All P best [] h a = h
top_head-All P best (b ∷ bs) h a = top_head-All P (better b best) bs chosen a.1
  where
    chosen : P (better b best)
    chosen = elim (Bool-cases (outranks b.1 best.1)) [ inl y ↦ rw y a.0 | inr n ↦ rw n h ]

module _ (m : Bootstrap) (ms : List Bootstrap) where
  mentioned : 0 < mentions m.chain_head_id (m ∷ ms)
  unfolding mentions
  mentioned = rw (if_pos (dec_key m.chain_head_id m.chain_head_id) refl) (omega arith)

  counted-lem :
      (bs : Blocks) (q : BlockId)
      → heads (m ∷ ms) [] ≡ bs
      → counted (get dec_key q bs) ≡ mentions q (m ∷ ms)
  unfolding get
  counted-lem bs q e =
      ap (λ d. counted (get dec_key q d)) (sym e) ∙ counted-heads q (m ∷ ms) [] ∙ omega arith

  none_above :
      (b : BlockId × Head) (bs : Blocks) (id : BlockId)
      → heads (m ∷ ms) [] ≡ b ∷ bs
      → mentions id (m ∷ ms) ≤ (top_head b bs).1.count
  none_above b bs id e =
      let n = (top_head b bs).1.count in
      let total = counted-lem (b ∷ bs) id e in
      elim (Option-cases (get dec_key id (b ∷ bs))) [
        | inl f ↦ let missing : counted (get dec_key id (b ∷ bs)) ≡ 0 = ap counted f in omega arith
        | inr (head, f) ↦
            let bound =
              get-All dec_key (λ (x : Head). x.count ≤ n) id (b ∷ bs) (top_head-le b bs) f in
            let here : counted (get dec_key id (b ∷ bs)) ≡ head.count = ap counted f in omega arith
      ]

  named :
      (b : BlockId × Head) (bs : Blocks)
      → heads (m ∷ ms) [] ≡ b ∷ bs
      → (top_head b bs).1.count ≡ mentions (top_head b bs).0 (m ∷ ms)
  named b bs e =
      let distinct = subst (λ d. Distinct dec_key (keys d)) e (heads-Distinct (m ∷ ms) [] tt) in
      let found = Distinct-Found dec_key (b ∷ bs) distinct in
      let top = top_head-All (λ x. get dec_key x.0 (b ∷ bs) ≡ some x.1) b bs found.0 found.1 in
      sym (ap counted top) ∙ counted-lem (b ∷ bs) (top_head b bs).0 e

  top_head-most :
      (b : BlockId × Head) × (bs : List (BlockId × Head)) × (heads (m ∷ ms) [] ≡ b ∷ bs)
      × ((top_head b bs).1.count ≡ mentions (top_head b bs).0 (m ∷ ms))
      × (0 < (top_head b bs).1.count)
      × ((id : BlockId) → mentions id (m ∷ ms) ≤ (top_head b bs).1.count)
  top_head-most = elim (List-cases (heads (m ∷ ms) [])) [
    | inl e ↦
        absurd
          (omega (arith, mentioned, counted-lem [] m.chain_head_id e, counted-nil m.chain_head_id))
    | inr (b, bs, e) ↦ (
      b,
      bs,
      e,
      named b bs e,
      omega (arith, mentioned, none_above b bs m.chain_head_id e),
      λ id. none_above b bs id e,
    )
  ]

  -- After one message or more there is a head to follow, which the messages name, and no id more often.
  -- The engine goes to it if its mentions reach the consensus amount less one, for the node itself;
  -- else it changes nothing.
  pub follow_head-most :
      (h : Host) (env : Env) (s : Engine)
      → (id : BlockId) × (num : ℤ) × (follow_head h env (heads (m ∷ ms) []) s ≡ (
          if leb (consensus_amount (online_peers s.node) s.node.voting - 1) (mentions id (m ∷ ms))
          then fastforward h env id num s
          else (ok tt, s)))
        × (0 < mentions id (m ∷ ms))
        × ((other : BlockId) → mentions other (m ∷ ms) ≤ mentions id (m ∷ ms))
  unfolding follow_head
  follow_head-most h env s =
      let (b, bs, e, count, some_one, most) = top_head-most in
      let top = top_head b bs in
      (
        top.0,
        top.1.num,
        rw (e, ← count, follow_head) refl,
        omega (arith, count, some_one),
        λ other. omega (arith, count, most other),
      )
