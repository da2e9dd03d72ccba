-- ===== src/Node/Standing.antt =====
-- The scores of peers: `penalize` and `reward` of consensus/pkg/engine/ddpoa_node.py.
use sawtooth_ddpoa.Prelude.{◌≤◌, All, Key, dec_key, arith, if_pos, if_neg, Option-cases, inl, inr}
use sawtooth_ddpoa.Prelude.Dict.{get}
use sawtooth_ddpoa.Prelude.Distinct.{set_item-All, get-All}
use sawtooth_ddpoa.Floats.{Float, float_one, penalty_factor}
use sawtooth_ddpoa.Peers.{PeerNode}
use sawtooth_ddpoa.Node.{Node, update_peer}
use sawtooth_ddpoa.Node.Methods.{penalize, reward, lower_score, raise_score}

-- IEEE multiplication rounds to nearest: a factor up to 1.0 never makes a float larger, and one from
-- 1.0 on never smaller.
pub record IsMul (mul : Float → Float → Float) : Type 0 where
  pub shrinks : (x f : Float) → f ≤ float_one → mul x f ≤ x
  pub grows : (x f : Float) → float_one ≤ f → x ≤ mul x f

-- No score is above 1.0.
abbrev pub Scored : Node → Type 0
Scored n = All (λ e. e.1.score ≤ float_one) n.peers

update_peer-Scored :
    (k : Key) (f : PeerNode → PeerNode) (n : Node)
    → ((p : PeerNode) → p.score ≤ float_one → (f p).score ≤ float_one)
    → Scored n
    → Scored (update_peer k f n).1
unfolding update_peer
update_peer-Scored k f n keeps s = elim (Option-cases (get dec_key k n.peers)) [
  | inl e ↦ rw (e, update_peer) s
  | inr (p, e) ↦
      rw (e, update_peer)
        (set_item-All dec_key (λ (x : PeerNode). x.score ≤ float_one) k (f p) n.peers
          (keeps p (get-All dec_key (λ (x : PeerNode). x.score ≤ float_one) k n.peers s e)) s)
]

module _ (mul : Float → Float → Float) (law : IsMul mul) where
  -- Where no peer's score is above 1.0, penalties and rewards, of any key, leave it so.
  standing-Scored :
      (k : Key) (n : Node) → Scored n → Scored (penalize mul k n).1 × Scored (reward mul k n).1
  unfolding penalize reward
  standing-Scored k n s = elim (dec_key k n.key) [
    | yes p ↦ rw (if_pos (dec_key k n.key) p) (s, s)
    | no p ↦ rw (if_neg (dec_key k n.key) p) (
      update_peer-Scored k (lower_score mul) n lower s,
      update_peer-Scored k (raise_score mul) n (λ q h. ground arith) s,
    )
  ]
    where
      lower : (q : PeerNode) → q.score ≤ float_one → (lower_score mul q).score ≤ float_one
      lower q h = ground (arith, law.shrinks q.score penalty_factor (omega arith))
