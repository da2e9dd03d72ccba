-- ===== src/Node/Liveness.antt =====
-- `check_on_peers` of consensus/pkg/engine/consensus_node.py: who is online. `Rounds`
-- is about the loop over all peers.
pub mod Rounds
use mathlib.Core.Option.{map}
use sawtooth_ddpoa.Prelude.{
  ℕ, ◌-◌, ◌≡◌, refl, sym, subst, ap, ◌∙◌, List, [], ◌∷◌, Option, none, some, Bool, true, false,
  ◌&&◌, leb, Key, dec_key, contains, ite, if_pos, if_neg, if◌then◌else◌, Outcome, ok, and_then_ok,
  ◌>>=◌, ◌>>◌, arith, Option-cases, Bool-cases, inl, inr,
}
use sawtooth_ddpoa.Prelude.Dict.{get, set_item, get-set_item_self, get-set_item_ne, has_of_get}
use sawtooth_ddpoa.Prelude.Distinct.{some-eq}
use sawtooth_ddpoa.Config.{ping_threshold}
use sawtooth_ddpoa.Peers.{PeerNode}
use sawtooth_ddpoa.Peers
use sawtooth_ddpoa.Messaging.{Peer, Communicator, ping, ping_peer}
use sawtooth_ddpoa.Node.{Node, update_peer, seen, remove_peer, send_ping, check_peer}

-- Each peer lies under its own key.
abbrev pub Own : List (Key × PeerNode) → Type 0
Own d = (k : Key) (p : PeerNode) → get dec_key k d ≡ some p → p.key ≡ k

pub Own-nil : Own []
unfolding get
Own-nil k p e = cc

pub Own-cons :
    (k : Key) (p : PeerNode) (d : List (Key × PeerNode)) → p.key ≡ k → Own d → Own ((k, p) ∷ d)
unfolding get
Own-cons k p d same own j q e = elim (dec_key k j) [
  | yes here ↦
      let found : p ≡ q =
        some-eq (sym (if_pos (dec_key k j) here (some p) (get dec_key j d)) ∙ e) in
      sym (ap (λ (x : PeerNode). x.key) found) ∙ same ∙ here
  | no other ↦ own j q (sym (if_neg (dec_key k j) other (some p) (get dec_key j d)) ∙ e)
]

module _ (now : ℕ) (answers : Key → Bool) where
  -- Whether a ping is answered: there is a stub, and the peer answers.
  abbrev pub answered : Key → Option Peer → Bool
  answered k none = false
  answered k (some q) = q.has_stub && answers k

  abbrev pub reachable : Communicator → Key → Bool
  reachable c k = answered k (get dec_key k c.peers)

  reachable-set :
      (j k : Key) (q r : Peer) (c : Communicator)
      → get dec_key k c.peers ≡ some q
      → r.has_stub ≡ q.has_stub
      → reachable (record c { peers = set_item dec_key k r c.peers }) j ≡ reachable c j
  reachable-set j k q r c e h = elim (dec_key k j) [
    | yes p ↦
        subst
          (λ x.
            answered x (get dec_key x (set_item dec_key k r c.peers))
            ≡ answered x (get dec_key x c.peers))
          p
          (ap (answered k) (get-set_item_self dec_key k r c.peers)
            ∙ ap (λ b. b && answers k) h
            ∙ sym (ap (answered k) e))
    | no p ↦ ap (answered j) (get-set_item_ne dec_key k j r c.peers p)
  ]

  ping_peer_lem :
      (k : Key) (q : Peer)
      → ((ping_peer (answers k) q).0 ≡ (q.has_stub && answers k))
        × ((ping_peer (answers k) q).1.has_stub ≡ q.has_stub)
  unfolding ping_peer
  ping_peer_lem k q = (ground arith, ground arith)

  -- A ping tells whether the peer can be reached, and changes this for nobody.
  ping_lem :
      (k : Key) (c : Communicator)
      → ((ping answers k c).0 ≡ ok (reachable c k))
        × ((j : Key) → reachable (ping answers k c).1 j ≡ reachable c j)
  unfolding ping
  ping_lem k c = elim (Option-cases (get dec_key k c.peers)) [
    | inl e ↦ rw (e, ping) (refl, λ j. refl)
    | inr (q, e) ↦
        let (alive, stub) = ping_peer_lem k q in
        rw (e, ping) (ap ok alive, λ j. reachable-set j k q (ping_peer (answers k) q).1 c e stub)
  ]

  -- What a check by `me` makes of a peer, when the peers that answer are those of `reach`.
  abbrev pub checked : Key → (Key → Bool) → PeerNode → PeerNode
  checked me reach p =
      if ite (dec_key p.key me) true false
      then p
      else if leb ping_threshold (now - p.last_seen)
      then (if reach p.key then Peers.seen now p else Peers.set_online false p)
      else p

  module _ (me : Key) (reach : Key → Bool) where
    abbrev pub Sees : Node → Type 0
    Sees n = (n.key ≡ me) × ((k : Key) → reachable n.communicator k ≡ reach k)

    -- What checking some keys changes: the peers under these keys, and no stub.
    pub record Checks (ks : List Key) (n : Node) (r : Outcome (Unit {0}) × Node) : Type 0 where
      pub returns : r.0 ≡ ok tt
      pub peers :
          (k : Key)
          → get dec_key k r.1.peers ≡ (
              if contains dec_key k ks
              then map (checked me reach) (get dec_key k n.peers)
              else get dec_key k n.peers)
      pub sees : Sees r.1

    nothing_done :
        (k : Key) (n : Node)
        → Sees n
        → map (checked me reach) (get dec_key k n.peers) ≡ get dec_key k n.peers
        → Checks (k ∷ []) n (ok tt, n)
    unfolding contains
    nothing_done k n v h = record {
      returns = refl;
      peers = λ j. elim (dec_key k j) [
        | yes p ↦ rw (if_pos (dec_key k j) p) (
            sym (
              subst (λ x. map (checked me reach) (get dec_key x n.peers) ≡ get dec_key x n.peers) p
                h))
        | no p ↦ rw (if_neg (dec_key k j) p) refl
      ];
      sees = v;
    }

    written :
        (k : Key) (f : PeerNode → PeerNode) (n : Node) (p : PeerNode) (c : Communicator)
        → get dec_key k n.peers ≡ some p
        → n.key ≡ me
        → ((j : Key) → reachable c j ≡ reach j)
        → checked me reach p ≡ f p
        → Checks (k ∷ []) n (update_peer k f (record n { communicator = c }))
    unfolding contains update_peer
    written k f n p c e own v h =
        rw (e, update_peer)
          (record {
            returns = refl;
            peers = λ j. elim (dec_key k j) [
              | yes q ↦ rw (if_pos (dec_key k j) q) (
                  subst
                    (λ x.
                      get dec_key x (set_item dec_key k (f p) n.peers)
                      ≡ map (checked me reach) (get dec_key x n.peers))
                    q
                    (get-set_item_self dec_key k (f p) n.peers
                      ∙ sym (ap some h)
                      ∙ sym (ap (map (checked me reach)) e)))
              | no q ↦ rw (if_neg (dec_key k j) q) (get-set_item_ne dec_key k j (f p) n.peers q)
            ];
            sees = (own, v);
          })

    -- The late branch, on the key that the entry carries.
    late_lem :
        (k : Key) (n : Node) (p : PeerNode)
        → get dec_key k n.peers ≡ some p
        → p.key ≡ k
        → ite (dec_key p.key me) true false ≡ false
        → leb ping_threshold (now - p.last_seen) ≡ true
        → Sees n
        → Checks
            (k ∷ [])
            n
            ((do alive ← send_ping now answers k; if alive then seen now k else remove_peer k) n)
    unfolding seen remove_peer send_ping
    late_lem k n p e same other late (own, v) =
        let (alive, kept) = ping_lem k n.communicator in
        let c = (ping answers k n.communicator).1 in
        let m : Node = record n { communicator = c } in
        let view : (j : Key) → reachable c j ≡ reach j = λ j. kept j ∙ v j in
        let asked : reach p.key ≡ reachable n.communicator k = ap reach same ∙ sym (v k) in
        let what : checked me reach p
            ≡ (if reachable n.communicator k then Peers.seen now p else Peers.set_online false p) =
          rw (other, late, asked) refl in
        subst (Checks (k ∷ []) n)
          (sym (
            and_then_ok (send_ping now answers k n) (reachable n.communicator k)
              (λ alive. if alive then seen now k else remove_peer k) alive))
          (elim (Bool-cases (reachable n.communicator k)) [
            | inl up ↦ rw up (written k (Peers.seen now) n p c e own view (rw up at what))
            | inr down ↦
                rw (down, has_of_get dec_key k n.peers e)
                  (written k (Peers.set_online false) n p c e own view (rw down at what))
          ])

    pub check_peer-Checks :
        (k : Key) (n : Node) → Own n.peers → Sees n → Checks (k ∷ []) n (check_peer now answers k n)
    unfolding check_peer
    check_peer-Checks k n own v = elim (Option-cases (get dec_key k n.peers)) [
      | inl e ↦ rw (e, check_peer) (nothing_done k n v (rw e refl))
      | inr (p, e) ↦
          let me_test : ite (dec_key p.key n.key) true false ≡ ite (dec_key p.key me) true false =
            ap (λ x. ite (dec_key p.key x) true false) v.0 in
          elim (Bool-cases (ite (dec_key p.key me) true false)) [
            | inl self ↦ rw (e, me_test ∙ self, check_peer) (nothing_done k n v (rw (e, self) refl))
            | inr other ↦ elim (Bool-cases (leb ping_threshold (now - p.last_seen))) [
              | inr recent ↦
                  rw (e, me_test ∙ other, recent, check_peer)
                    (nothing_done k n v (rw (e, other, recent) refl))
              | inl late ↦
                  rw (e, me_test ∙ other, late, check_peer)
                    (subst
                      (λ j. Checks (k ∷ []) n (
                        (do
                          alive ← send_ping now answers j
                          if alive then seen now k else remove_peer j)
                          n))
                      (sym (own k p e)) (late_lem k n p e (own k p e) other late v))
            ]
          ]
    ]
