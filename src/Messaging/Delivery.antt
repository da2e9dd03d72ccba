-- ===== src/Messaging/Delivery.antt =====
-- The threads of a broadcast of consensus/pkg/engine/consensus_messaging.py.
use mathlib.Core.List.{append_assoc, append-nil, perm_append_comm}
use mathlib.Core.List.Perm
use sawtooth_ddpoa.Prelude.{
  List, [], ◌∷◌, ◌++◌, ◌≡◌, refl, sym, subst, Key, Perm, arith, Bool-cases, inl, inr, if◌then◌else◌,
}
use sawtooth_ddpoa.Service.{Message}
use sawtooth_ddpoa.Messaging.{Peer, Communicator, send_peer, broadcast, to_connected}

move_after : {A : Type 0} (cs x b a : List A) → Perm ((cs ++ x) ++ (b ++ a)) (cs ++ (b ++ (x ++ a)))
move_after cs x b a =
    let swapped : Perm ((x ++ b) ++ a) ((b ++ x) ++ a) =
      Perm.append_right a (perm_append_comm x b) in
    let grouped = subst (λ r. Perm ((x ++ b) ++ a) r) (append_assoc b x a) swapped in
    rw (append_assoc cs x (b ++ a))
      (Perm.append_left cs (subst (λ l. Perm l (b ++ (x ++ a))) (append_assoc x b a) grouped))

module _ (m : Message) where
  send_peer-to_connected :
      (k : Key) (p : Peer) (c : Communicator)
      → send_peer k p m c ≡ record c { handed_over = c.handed_over ++ to_connected m ((k, p) ∷ []) }
  unfolding send_peer to_connected
  send_peer-to_connected k p c = elim (Bool-cases p.connected) [
    | inl on ↦ rw (on, send_peer) refl
    | inr off ↦ rw (off, send_peer, append-nil c.handed_over) refl
  ]

  to_connected-append :
      (ps qs : List (Key × Peer))
      → to_connected m (ps ++ qs) ≡ to_connected m ps ++ to_connected m qs
  unfolding to_connected
  to_connected-append [] qs = refl
  to_connected-append ((k, p) ∷ ps) qs = ground (arith, to_connected-append ps qs)

  -- The peers for which a broadcast starts a thread.
  abbrev pub started : List (Key × Peer) → List (Key × Peer)
  started [] = []
  started ((k, p) ∷ ps) = let rest = started ps in if p.connected then (k, p) ∷ rest else rest

  started-to_connected : (ps : List (Key × Peer)) → to_connected m (started ps) ≡ to_connected m ps
  unfolding to_connected
  started-to_connected [] = refl
  started-to_connected ((k, p) ∷ ps) = ground (arith, started-to_connected ps)

  -- The threads of some peers have run `Peer.send`, in any order, until all are joined.
  pub data Threads : List (Key × Peer) → Communicator → Communicator → Type 0 where
    joined : (c : Communicator) → Threads [] c c
    runs :
        {c d : Communicator} (before after : List (Key × Peer)) (k : Key) (p : Peer)
        → Threads (before ++ after) (send_peer k p m c) d
        → Threads (before ++ ((k, p) ∷ after)) c d

  -- What a communicator has become by handing the message over to these peers, in some order.
  pub record HandedOver (ps : List (Key × Peer)) (c d : Communicator) : Type 0 where
    pub messages : Perm d.handed_over (c.handed_over ++ to_connected m ps)
    pub same_peers : d.peers ≡ c.peers
    pub same_queue : d.queue ≡ c.queue

  Threads-HandedOver :
      (ps : List (Key × Peer)) (c d : Communicator) → Threads ps c d → HandedOver ps c d
  unfolding to_connected
  Threads-HandedOver ps c d (joined _) = record {
    messages =
        subst (Perm c.handed_over) (sym (append-nil c.handed_over)) (Perm.refl c.handed_over);
    same_peers = refl;
    same_queue = refl;
  }
  Threads-HandedOver ps c d (runs before after k p t) =
      let first : Communicator = record c {
        handed_over = c.handed_over ++ to_connected m ((k, p) ∷ []);
      } in
      let rest : HandedOver (before ++ after) first d =
        subst (λ x. HandedOver (before ++ after) x d) (send_peer-to_connected k p c)
          (Threads-HandedOver (before ++ after) (send_peer k p m c) d t) in
      record {
        messages = Perm.trans rest.messages (
            rw
              (
                to_connected-append before after,
                to_connected-append before ((k, p) ∷ after),
                to_connected-append ((k, p) ∷ []) after,
              )
              (move_after c.handed_over (to_connected m ((k, p) ∷ [])) (to_connected m before)
                (to_connected m after)));
        same_peers = rest.same_peers;
        same_queue = rest.same_queue;
      }

  -- A broadcast starts a thread for each peer that is connected, and joins them. In whatever order the
  -- threads run `Peer.send`, the messages handed to the stubs are those of `broadcast` in some order,
  -- and peers and queue are as after `broadcast`, which are those from before.
  pub broadcast-Threads :
      (c d : Communicator)
      → Threads (started c.peers) c d
      → Perm d.handed_over (broadcast m c).handed_over
        × (d.peers ≡ (broadcast m c).peers)
        × (d.queue ≡ (broadcast m c).queue)
        × ((broadcast m c).peers ≡ c.peers)
        × ((broadcast m c).queue ≡ c.queue)
  unfolding broadcast
  broadcast-Threads c d t =
      let h = Threads-HandedOver (started c.peers) c d t in
      (
        subst (λ l. Perm d.handed_over (c.handed_over ++ l)) (started-to_connected c.peers)
            h.messages,
        h.same_peers,
        h.same_queue,
        refl,
        refl,
      )
