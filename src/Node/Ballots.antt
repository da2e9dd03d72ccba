-- ===== src/Node/Ballots.antt =====
-- `handle_vote` of consensus/pkg/engine/ddpoa_node.py takes one ballot from each peer.
use mathlib.Core.Option.{get_or}
use sawtooth_ddpoa.Prelude.{
  [], ℕ, ◌+◌, ◌≡◌, refl, ap, ◌∙◌, inl, inr, arith, true, false, ◌==◌, Option-cases, Key, Outcome,
  ok, raise, hang, M, List, some, Bool, ℕ_discrete, dec_key, when, and_then-keeps, if◌then◌else◌,
  length, none,
}
use sawtooth_ddpoa.Prelude.Dict.{values, get, set_item, get-set_item_self, has_of_get}
use sawtooth_ddpoa.Epoch
use sawtooth_ddpoa.Voting
use sawtooth_ddpoa.Voting.{Ballot, VotingSystem}
use sawtooth_ddpoa.Voting.Election.{calculate_result, keep_result}
use sawtooth_ddpoa.Host.{Host}
use sawtooth_ddpoa.Node.{Node}
use sawtooth_ddpoa.Node.Methods.{broadcast_result, next_epoch_number}
use sawtooth_ddpoa.Node.Handlers.{handle_vote, settle_ballots}

-- The epoch, the ballots, the candidates and the announced epochs stay.
pub record SameBallots (n m : Node) : Type 0 where
  pub same_epoch : m.epoch ≡ n.epoch
  pub same_ballots : m.voting.ballots ≡ n.voting.ballots
  pub same_candidates : m.voting.candidates ≡ n.voting.candidates
  pub same_ready : m.ready_result ≡ n.ready_result

-- A calculation changes nothing but the results.
abbrev OnlyResults : VotingSystem → VotingSystem → Type 0
OnlyResults v w = w ≡ record v { results = w.results }

keep_result-OnlyResults :
    (h : Host) (epoch : ℕ) (o : Outcome (List Key)) (v : VotingSystem)
    → OnlyResults v (keep_result h.sha256 h.stv epoch o v).1
unfolding keep_result Voting.set_peer_result
keep_result-OnlyResults h epoch (ok r) v = refl
keep_result-OnlyResults h epoch (raise e) v = refl
keep_result-OnlyResults h epoch hang v = refl

calculate_result-OnlyResults :
    (h : Host) (epoch : ℕ) (v : VotingSystem)
    → OnlyResults v (calculate_result h.sha256 h.stv epoch v).1
unfolding calculate_result
calculate_result-OnlyResults h epoch v = elim (Option-cases (get ℕ_discrete epoch v.ballots)) [
  | inl e ↦ rw (e, calculate_result) refl
  | inr (ballots, e) ↦
      elim (Option-cases (h.stv (length v.peer_keys) v.peer_keys (values ballots))) [
        | inl f ↦ rw (e, f, calculate_result) refl
        | inr (elected, f) ↦ rw (e, f, calculate_result) (keep_result-OnlyResults h epoch _ v)
      ]
]

copy :
    (n m t : Node)
    → t.epoch ≡ m.epoch
    → t.voting.ballots ≡ m.voting.ballots
    → t.voting.candidates ≡ m.voting.candidates
    → t.ready_result ≡ m.ready_result
    → SameBallots n m
    → SameBallots n t
copy n m t e b c r p = record {
  same_epoch = e ∙ p.same_epoch;
  same_ballots = b ∙ p.same_ballots;
  same_candidates = c ∙ p.same_candidates;
  same_ready = r ∙ p.same_ready;
}

pub broadcast_result-SameBallots :
    (h : Host) (now epoch : ℕ) (n : Node) → SameBallots n (broadcast_result h now epoch n).1
unfolding broadcast_result
broadcast_result-SameBallots h now epoch n =
    and_then-keeps (SameBallots n) _ _
      (record {
        same_epoch = refl;
        same_ballots =
            ap (λ (v : VotingSystem). v.ballots) (calculate_result-OnlyResults h epoch n.voting);
        same_candidates =
            ap (λ (v : VotingSystem). v.candidates) (calculate_result-OnlyResults h epoch n.voting);
        same_ready = refl;
      })
      (λ a t p. copy n t _ refl refl refl refl p)

after : (n m t : Node) → SameBallots n m → SameBallots m t → SameBallots n t
after n m t a b = copy n m t b.same_epoch b.same_ballots b.same_candidates b.same_ready a

pub SameBallots-refl : (n : Node) → SameBallots n n
SameBallots-refl n = record {
  same_epoch = refl;
  same_ballots = refl;
  same_candidates = refl;
  same_ready = refl;
}

when-SameBallots :
    (n : Node) (b : Bool) (x : M Node (Unit {0})) (s : Node)
    → SameBallots n s
    → SameBallots n (x s).1
    → SameBallots n (when b x s).1
unfolding when
when-SameBallots n true x s a c = c
when-SameBallots n false x s a c = a

either :
    (n : Node) (b : Bool) (x y : M Node (Unit {0})) (s : Node)
    → SameBallots n (x s).1
    → SameBallots n (y s).1
    → SameBallots n ((if b then x else y) s).1
either n true x y s a c = a
either n false x y s a c = c

pub settle_ballots-SameBallots :
    (h : Host) (now epoch : ℕ) (n : Node) → SameBallots n (settle_ballots h now epoch n).1
unfolding settle_ballots
settle_ballots-SameBallots h now epoch n =
    and_then-keeps (SameBallots n) (ok tt, record n { broadcast_timer = none }) _
      (copy n n _ refl refl refl refl (SameBallots-refl n))
      (λ a t p. and_then-keeps (SameBallots n) _ _ p (λ all_in u q.
        either n all_in _ _ u (after n u _ q (broadcast_result-SameBallots h now epoch u)) (
          and_then-keeps (SameBallots n) _ _ q
            (λ enough v r. when-SameBallots n enough _ v r (copy n v _ refl refl refl refl r)))))

-- The state in which the ballots are settled.
abbrev with_ballot : ℕ → Ballot → Key → Node → Node
with_ballot epoch votes k n = record n { voting = Voting.add_ballot epoch k votes n.voting }

stored :
    (epoch : ℕ) (votes : Ballot) (k : Key) (n : Node)
    → (d : List (Key × Ballot)) × (get ℕ_discrete epoch (with_ballot epoch votes k n).voting.ballots
        ≡ some d)
      × (get dec_key k d ≡ some votes)
unfolding Voting.add_ballot
stored epoch votes k n = (
  set_item dec_key k votes (get_or (get ℕ_discrete epoch n.voting.ballots) []),
  get-set_item_self ℕ_discrete epoch _ n.voting.ballots,
  get-set_item_self dec_key k votes _,
)

ignored_vote :
    (h : Host) (now epoch : ℕ) (votes : Ballot) (k : Key) (d : List (Key × Ballot)) (m : Node)
    → (epoch == m.epoch.number + 1) ≡ true
    → get ℕ_discrete epoch m.voting.ballots ≡ some d
    → get dec_key k d ≡ some votes
    → (again : Ballot) → handle_vote h now epoch again k m ≡ (ok tt, m)
unfolding handle_vote next_epoch_number Epoch.next_epoch_number Voting.has_voted
ignored_vote h now epoch votes k d m is_it here ballot again =
    rw (is_it, here, has_of_get dec_key k d ballot, handle_vote, Voting.has_voted) refl

-- The first ballot of a peer for the next epoch is stored, and stays: another one from this peer, at
-- any later time, changes nothing and is settled no further.
pub handle_vote_once :
    (h : Host) (now later epoch : ℕ) (votes again : Ballot) (k : Key) (n : Node)
    → epoch ≡ n.epoch.number + 1
    → Voting.has_voted k epoch n.voting ≡ false
    → let m = (handle_vote h now epoch votes k n).1 in
      (d : List (Key × Ballot)) × (get ℕ_discrete epoch m.voting.ballots ≡ some d)
      × (get dec_key k d ≡ some votes)
      × (handle_vote h later epoch again k m ≡ (ok tt, m))
unfolding handle_vote next_epoch_number Epoch.next_epoch_number Voting.has_voted
handle_vote_once h now later epoch votes again k n is_next new =
    let is_it : (epoch == n.epoch.number + 1) ≡ true = ground (arith, is_next) in
    let s = with_ballot epoch votes k n in
    let run : handle_vote h now epoch votes k n ≡ settle_ballots h now epoch s =
      rw (is_it, new, handle_vote) refl in
    let same = settle_ballots-SameBallots h now epoch s in
    let (d, here, ballot) = stored epoch votes k n in
    let kept : get ℕ_discrete epoch (settle_ballots h now epoch s).1.voting.ballots ≡ some d =
      ap (get ℕ_discrete epoch) same.same_ballots ∙ here in
    rw run (
      d,
      kept,
      ballot,
      ignored_vote h later epoch votes k d (settle_ballots h now epoch s).1
          (ap (λ (e : Epoch.Epoch). epoch == e.number + 1) same.same_epoch ∙ is_it) kept ballot
          again,
    )
