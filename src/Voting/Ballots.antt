-- ===== src/Voting/Ballots.antt =====
-- `fill_ballot` of consensus/pkg/engine/voting_system.py ranks every peer once.
use mathlib.Core.List.{append_assoc, append-nil}
use mathlib.Core.List.Perm
use sawtooth_ddpoa.Prelude.{
  ℕ, zero, suc, ◌<◌, ◌≤◌, ◌≡◌, refl, ap, ◌∙◌, List, [], ◌∷◌, ◌++◌, All, Perm, length, contains,
  remove_at, remove_at-perm, index_of-some, Key, dec_key, some, ok, true, arith,
}
use sawtooth_ddpoa.Prelude.Dict.{get}
use sawtooth_ddpoa.Floats.{Float, float_one}
use sawtooth_ddpoa.Peers.{PeerNode}
use sawtooth_ddpoa.Voting.{VotingSystem}
use sawtooth_ddpoa.Voting.Election.{Choose, weight, weights_of, fill_loop, fill_ballot}

-- Above 0.0 and at most 1.0: `random.choices` raises where the weights sum up to 0 or are not finite.
abbrev pub Usable : Float → Type 0
Usable w = (0 < w) × (w ≤ float_one)

-- `random.choices` returns a member of the population, where each has a usable weight.
pub record IsChoice (choose : Choose) : Type 0 where
  pub picks :
      (n : ℕ) (x : Key) (xs : List Key) (ws : List Float)
      → length ws ≡ length (x ∷ xs)
      → All Usable ws
      → (k : Key) × (choose n (x ∷ xs) ws ≡ some k) × (contains dec_key k (x ∷ xs) ≡ true)

length-remove_at {ℓ} :
    {A : Type ℓ} (i : ℕ) (xs : List A) → i < length xs → suc (length (remove_at i xs)) ≡ length xs
length-remove_at i [] h = elim h [ ]
length-remove_at zero (x ∷ xs) h = refl
length-remove_at (suc i) (x ∷ xs) h = ap suc (length-remove_at i xs (omega arith))

remove_at-All : (i : ℕ) (ws : List Float) → All Usable ws → All Usable (remove_at i ws)
remove_at-All i [] a = tt
remove_at-All zero (w ∷ ws) a = a.1
remove_at-All (suc i) (w ∷ ws) a = (a.0, remove_at-All i ws a.1)

module _ (choose : Choose) (fair : IsChoice choose) where
  fill_loop_total :
      (n : ℕ) (pop : List Key) (ws : List Float) (ballot : List Key)
      → length pop ≡ n
      → length ws ≡ n
      → All Usable ws
      → (tail : List Key) × (fill_loop choose n pop ws ballot ≡ ok (ballot ++ tail)) × Perm tail pop
  unfolding fill_loop
  fill_loop_total zero [] ws ballot h g a = ([], rw (append-nil ballot), Perm.refl _)
  fill_loop_total zero (k ∷ ks) ws ballot h g a = absurd (omega (arith, h))
  fill_loop_total (suc n) [] ws ballot h g a = absurd (omega (arith, h))
  fill_loop_total (suc n) (k ∷ ks) ws ballot h g a =
      let (c, chosen, mem) = fair.picks n k ks ws (omega (arith, g, h)) a in
      let (i, found, small, _) = index_of-some dec_key c (k ∷ ks) mem in
      let (tail, run, perm) =
        fill_loop_total n (remove_at i (k ∷ ks)) (remove_at i ws) (ballot ++ (c ∷ []))
          (omega (arith, length-remove_at i (k ∷ ks) small, h))
          (omega (arith, length-remove_at i ws (omega (arith, small, g, h)), g))
          (remove_at-All i ws a) in
      (
        c ∷ tail,
        rw (chosen, found, fill_loop) (run ∙ ap ok (append_assoc ballot (c ∷ []) tail)),
        Perm.trans (Perm.cons c perm) (Perm.symm (remove_at-perm dec_key c (k ∷ ks) i found)),
      )

  -- The peers that are voted on are known, with a score above 0.0 and at most 1.0.
  abbrev pub Known : List (Key × PeerNode) → List Key → Type 0
  Known peers = All λ k. (p : PeerNode) × (get dec_key k peers ≡ some p) × Usable p.score

  weights_of_total :
      (peers : List (Key × PeerNode)) (ks : List Key)
      → Known peers ks
      → (ws : List Float) × (weights_of peers ks ≡ ok ws) × (length ws ≡ length ks) × All Usable ws
  unfolding weights_of weight
  weights_of_total peers [] kn = ([], refl, refl, tt)
  weights_of_total peers (k ∷ ks) kn =
      let (p, here, positive) = kn.0 in
      let (ws, run, same, all) = weights_of_total peers ks kn.1 in
      (
        weight p ∷ ws,
        rw (here, run, weights_of) refl,
        omega (arith, same),
        (ground (arith, positive), all),
      )

  -- With a sampler that picks members of the population where the weights are above 0.0 and at most 1.0,
  -- and with peers that are known and have such scores, the ballot is filled without an exception and ranks every peer key exactly once.
  pub fill_ballot-perm :
      (peers : List (Key × PeerNode)) (v : VotingSystem)
      → Known peers v.peer_keys
      → (ballot : List Key) × (fill_ballot choose peers v ≡ ok ballot) × Perm ballot v.peer_keys
  unfolding fill_ballot
  fill_ballot-perm peers v kn =
      let (ws, run, same, all) = weights_of_total peers v.peer_keys kn in
      let (tail, filled, perm) =
        fill_loop_total (length v.peer_keys) v.peer_keys ws [] refl same all in
      (tail, rw (run, fill_ballot) filled, perm)
