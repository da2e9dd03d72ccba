-- ===== src/Voting/Quorum.antt =====
-- `consensus_amount` of consensus/pkg/engine/voting_system.py as a quorum.
use sawtooth_ddpoa.Prelude.{
  ℕ, ◌*◌, ◌≤◌, ◌<◌, ◌≡◌, ◌≢◌, refl, subst, List, [], ◌∷◌, true, false, ◌&&◌, Bool, length, contains,
  Key, dec_key, dec_keys, ℕ_discrete, some, none, ok, ite, if_pos, if_neg, arith,
}
use sawtooth_ddpoa.Prelude.Dict.{get, keys, values}
use sawtooth_ddpoa.Prelude.Distinct.{Distinct}
use sawtooth_ddpoa.Prelude.Counting.{
  count_if, count_if-overlap, count_if_mono, count_if-sub, count_if-cong,
}
use sawtooth_ddpoa.Voting.{
  VotingSystem, Result, consensus_amount, count_equal, get_consensus_result,
}
use sawtooth_ddpoa.Voting.Tally.{get_consensus_result_max}

-- Three quorums are more than twice the peers.
pub consensus_amount-lt :
    (v : VotingSystem) (online : ℕ) → 2 * online < 3 * consensus_amount online v
unfolding consensus_amount
consensus_amount-lt v online = omega arith

-- With at least one peer online, and at least as many as there are slots, a quorum is possible.
consensus_amount-le :
    (v : VotingSystem) (online : ℕ)
    → 0 < online
    → v.num_slots ≤ online
    → consensus_amount online v ≤ online
unfolding consensus_amount
consensus_amount-le v online p h = omega arith

-- Whether the result stored for the peer is `r`.
sent : Result → List (Key × Result) → Key → Bool
unfolding get
sent r d k = elim (get dec_key k d) [ none ↦ false | some x ↦ ite (dec_keys x r) true false ]

-- The peer told two nodes different results.
unfoldable pub equivocates : List (Key × Result) → List (Key × Result) → Key → Bool
unfolding get
equivocates d e k = elim (get dec_key k d) [
  | none ↦ false
  | some x ↦ elim (get dec_key k e) [ none ↦ false | some y ↦ ite (dec_keys x y) false true ]
]

sent-equivocates :
    (r s : Result) (d e : List (Key × Result)) (k : Key)
    → r ≢ s
    → (sent r d k && sent s e k) ≡ true
    → equivocates d e k ≡ true
unfolding sent equivocates
sent-equivocates r s d e k h = ground arith

sent_first :
    (r : Result) (k : Key) (x : Result) (d : List (Key × Result))
    → sent r ((k, x) ∷ d) k ≡ ite (dec_keys x r) true false
unfolding sent
sent_first r k x d = rw (if_pos (dec_key k k) refl (some x) (get dec_key k d), sent)

sent_later :
    (r : Result) (k a : Key) (x : Result) (d : List (Key × Result))
    → k ≢ a
    → sent r ((k, x) ∷ d) a ≡ sent r d a
unfolding sent
sent_later r k a x d h = rw (if_neg (dec_key k a) h (some x) (get dec_key a d), sent)

-- Under distinct keys, the results equal to `r` are as many as the peers that sent `r`.
count_equal-sent :
    (r : Result) (d : List (Key × Result))
    → Distinct dec_key (keys d)
    → count_equal r (values d) ≡ count_if (sent r d) (keys d)
unfolding count_equal count_if
count_equal-sent r [] h = refl
count_equal-sent r ((k, x) ∷ d) h =
    let rest =
      count_if-cong dec_key (sent r ((k, x) ∷ d)) (sent r d) (keys d)
        (λ a m. sent_later r k a x d (apart a m)) in
    ground (arith, sent_first r k x d, rest, count_equal-sent r d h.1)
  where
    apart : (a : Key) → contains dec_key a (keys d) ≡ true → k ≢ a
    apart a m e = let f = subst (λ b. contains dec_key b (keys d) ≡ false) e h.0 in cc

-- A winner's count is its number of stored results.
winner_count :
    (v : VotingSystem) (epoch : ℕ) (d : List (Key × Result)) (r : Result) (n : ℕ)
    → get ℕ_discrete epoch v.results ≡ some d
    → get_consensus_result epoch v ≡ ok (r, n)
    → n ≡ count_equal r (values d)
unfolding get_consensus_result
winner_count v epoch [] r n h e = ground (arith, h, e)
winner_count v epoch (first ∷ more) r n h e =
    let (w, m, run, count, _, _) = get_consensus_result_max v epoch first more h in
    ground (arith, run, e, count)

-- The results that a node holds for an epoch: one from each of some members.
pub record Holds (v : VotingSystem) (epoch : ℕ) (members : List Key) (d : List (Key × Result))
    : Type 0 where
  pub stored : get ℕ_discrete epoch v.results ≡ some d
  pub one_each : Distinct dec_key (keys d)
  pub from_members :
      (k : Key) → contains dec_key k (keys d) ≡ true → contains dec_key k members ≡ true

quorum-sent :
    (v : VotingSystem) (epoch : ℕ) (ms : List Key) (d : List (Key × Result)) (r : Result) (n : ℕ)
    → Holds v epoch ms d
    → get_consensus_result epoch v ≡ ok (r, n)
    → n ≤ count_if (sent r d) ms
quorum-sent v epoch ms d r n h e = omega (
  arith,
  winner_count v epoch d r n h.stored e,
  count_equal-sent r d h.one_each,
  count_if-sub dec_key (sent r d) (keys d) ms h.one_each h.from_members,
)

-- Two nodes that each hold at most one result from every member, and whose winning results both
-- reach the consensus amount of all members, have the same winning result, if at most a third of
-- the members sent different results to the two.
pub agreement :
    (v w : VotingSystem) (epoch : ℕ) (members : List Key) (d e : List (Key × Result)) (r s : Result)
    (n m : ℕ)
    → Holds v epoch members d
    → Holds w epoch members e
    → 3 * count_if (equivocates d e) members ≤ length members
    → get_consensus_result epoch v ≡ ok (r, n)
    → get_consensus_result epoch w ≡ ok (s, m)
    → consensus_amount (length members) v ≤ n
    → consensus_amount (length members) w ≤ m
    → r ≡ s
agreement v w epoch ms d e r s n m hd he few er es qr qs = elim (dec_keys r s) [
  | yes p ↦ p
  | no apart ↦ absurd (
      omega (
        arith,
        quorum-sent v epoch ms d r n hd er,
        quorum-sent w epoch ms e s m he es,
        consensus_amount-lt v (length ms),
        consensus_amount-lt w (length ms),
        count_if-overlap (sent r d) (sent s e) ms,
        count_if_mono (λ k. sent r d k && sent s e k) (equivocates d e) ms
            (λ k. sent-equivocates r s d e k apart),
      ))
]
