-- ===== src/Node/Liveness/Rounds.antt =====
-- The loop of `check_on_peers` of consensus/pkg/engine/consensus_node.py over all peers.
use mathlib.Core.Option.{map}
use sawtooth_ddpoa.Prelude.{
  ℕ, ◌-◌, ◌≡◌, refl, sym, subst, ap, ◌∙◌, List, [], ◌∷◌, none, some, Bool, false, ltb, Key, dec_key,
  contains, if_pos, if_neg, if◌then◌else◌, Outcome, ok, and_then_ok, for_each, modify, arith,
  Option-cases, Bool-cases, inl, inr,
}
use sawtooth_ddpoa.Prelude.Dict.{get, keys, get-none}
use sawtooth_ddpoa.Prelude.Distinct.{Distinct, some-eq, has-contains}
use sawtooth_ddpoa.Config.{peer_check_interval}
use sawtooth_ddpoa.Peers.{PeerNode}
use sawtooth_ddpoa.Peers
use sawtooth_ddpoa.Node.{Node, check_peer, check_on_peers}
use sawtooth_ddpoa.Node.Liveness.{reachable, Own, checked, Sees, Checks, check_peer-Checks}

module _ (now : ℕ) (answers : Key → Bool) where
  module _ (me : Key) (reach : Key → Bool) where
    checked-key : (p : PeerNode) → (checked now answers me reach p).key ≡ p.key
    unfolding Peers.seen Peers.set_online
    checked-key p = ground arith

    Checks-Own :
        (ks : List Key) (n : Node) (r : Outcome (Unit {0}) × Node)
        → Checks now answers me reach ks n r
        → Own n.peers
        → Own r.1.peers
    Checks-Own ks n r h own k p e = elim (Bool-cases (contains dec_key k ks)) [
      | inr out ↦ own k p (sym (rw out at (h.peers k)) ∙ e)
      | inl in_ks ↦ elim (Option-cases (get dec_key k n.peers)) [
        | inl none_there ↦
            let new : get dec_key k r.1.peers ≡ none = rw (in_ks, none_there) at (h.peers k) in cc
        | inr (q, there) ↦
            let new : get dec_key k r.1.peers ≡ some (checked now answers me reach q) =
              rw (in_ks, there) at (h.peers k) in
            let same : checked now answers me reach q ≡ p = some-eq (sym new ∙ e) in
            sym (ap (λ (x : PeerNode). x.key) same) ∙ checked-key q ∙ own k q there
      ]
    ]

    -- An entry that the first key or the others write, not both.
    pointwise :
        {A : Type 0} (x k : Key) (xs : List Key)
        → contains dec_key x xs ≡ false
        → (old new mid mid_new : A) → (mid ≡ old → mid_new ≡ new)
        → mid ≡ (if contains dec_key k (x ∷ []) then new else old)
        → {last : A} → last ≡ (if contains dec_key k xs then mid_new else mid)
        → last ≡ (if contains dec_key k (x ∷ xs) then new else old)
    unfolding contains
    pointwise x k xs out old new mid mid_new h first {last} rest = elim (dec_key x k) [
      | yes p ↦
          let gone : contains dec_key k xs ≡ false =
            subst (λ y. contains dec_key y xs ≡ false) p out in
          rw (if_pos (dec_key x k) p) (rw gone at rest ∙ rw (if_pos (dec_key x k) p) at first)
      | no p ↦
          let kept : mid ≡ old = rw (if_neg (dec_key x k) p) at first in
          rw (if_neg (dec_key x k) p) (ground (arith, kept, h kept, rest))
    ]

    -- Every key once, in any order.
    for_each-Checks :
        (ks : List Key) (n : Node)
        → Distinct dec_key ks
        → Own n.peers
        → Sees now answers me reach n
        → Checks now answers me reach ks n (for_each ks (check_peer now answers) n)
    unfolding for_each contains
    for_each-Checks [] n d own v = record { returns = refl; peers = λ k. refl; sees = v }
    for_each-Checks (x ∷ xs) n d own v =
        let first = check_peer-Checks now answers me reach x n own v in
        let m = (check_peer now answers x n).1 in
        let rest = for_each-Checks xs m d.1 (Checks-Own (x ∷ []) n _ first own) first.sees in
        subst (Checks now answers me reach (x ∷ xs) n)
          (sym (
            and_then_ok (check_peer now answers x n) tt (λ _. for_each xs (check_peer now answers))
              first.returns))
          (record {
            returns = rest.returns;
            peers = λ k.
                pointwise x k xs d.0 (get dec_key k n.peers)
                  (map (checked now answers me reach) (get dec_key k n.peers))
                  (get dec_key k m.peers)
                  (map (checked now answers me reach) (get dec_key k m.peers))
                  (λ same. rw same refl) (first.peers k) (rest.peers k);
            sees = rest.sees;
          })

  module _ (n : Node) where
    abbrev due : Bool
    due = ltb peer_check_interval (now - n.last_peer_check)

    abbrev everyone : Outcome (Unit {0}) × Node
    everyone = for_each (keys n.peers) (check_peer now answers) n

    abbrev next : PeerNode → PeerNode
    next = checked now answers n.key (reachable now answers n.communicator)

    every_key :
        (k : Key)
        → (if contains dec_key k (keys n.peers)
            then map next (get dec_key k n.peers)
            else get dec_key k n.peers)
          ≡ map next (get dec_key k n.peers)
    every_key k = elim (Bool-cases (contains dec_key k (keys n.peers))) [
      | inl here ↦ rw here refl
      | inr gone ↦
          let absent : get dec_key k n.peers ≡ none =
            get-none dec_key k n.peers (has-contains dec_key k n.peers ∙ gone) in
          rw (gone, absent) refl
    ]

    -- Where no peer is listed twice and each lies under its own key, a check returns. If it is due,
    -- it leaves each peer as `checked` says, by who answers a ping when it starts, and notes its
    -- time; if not, the peers and the time of the last check stay.
    pub check_on_peers-checked :
        Distinct dec_key (keys n.peers)
        → Own n.peers
        → ((check_on_peers now answers n).0 ≡ ok tt)
          × ((check_on_peers now answers n).1.last_peer_check
              ≡ (if due then now else n.last_peer_check))
          × ((k : Key)
              → get dec_key k (check_on_peers now answers n).1.peers
                ≡ (if due then map next (get dec_key k n.peers) else get dec_key k n.peers))
    unfolding check_on_peers
    check_on_peers-checked d own = elim (Bool-cases due) [
      | inr early ↦ rw (early, check_on_peers) (refl, refl, λ k. refl)
      | inl late ↦
          let all =
            for_each-Checks n.key (reachable now answers n.communicator) (keys n.peers) n d own
              (refl, λ k. refl) in
          let ends =
            and_then_ok everyone tt (λ _. modify (λ (m : Node). record m { last_peer_check = now }))
              all.returns in
          rw (late, check_on_peers)
            (
              ap (λ r. r.0) ends,
              ap (λ r. r.1.last_peer_check) ends,
              λ k. ap (λ r. get dec_key k r.1.peers) ends ∙ all.peers k ∙ every_key k,
            )
    ]
