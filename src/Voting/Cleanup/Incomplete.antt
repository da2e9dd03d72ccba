-- ===== src/Voting/Cleanup/Incomplete.antt =====
-- `remove_old_epoch_data` of consensus/pkg/engine/voting_system.py meets an old epoch that has results
-- and no candidates.
use sawtooth_ddpoa.Prelude.{
  ℕ, ◌≡◌, ◌≢◌, refl, ◌∙◌, subst, List, [], ◌∷◌, ◌++◌, true, false, contains, ℕ_discrete, raise,
  key_error, and_then, for_each, arith, leb, length, contains-append,
}
use sawtooth_ddpoa.Prelude.Dict.{keys, has, del_item, has-del_item_ne}
use sawtooth_ddpoa.Prelude.Distinct.{Distinct, contains_self}
use sawtooth_ddpoa.Prelude.Trimming.{without, Present, Present-del_item}
use sawtooth_ddpoa.Voting.{VotingSystem}
use sawtooth_ddpoa.Voting.Election.{forget_epoch, old_epochs, remove_old_epoch_data}
use sawtooth_ddpoa.Voting.Cleanup.{trimmed, old-Distinct, old-Present}

-- The data of `es` is gone, and of `e` the results.
abbrev pub cut_short : List ℕ → ℕ → VotingSystem → VotingSystem
cut_short es e v = let w = trimmed es v in record w { results = del_item ℕ_discrete e w.results }

forget_until :
    (es : List ℕ) (e : ℕ) (rest : List ℕ) (v : VotingSystem)
    → Distinct ℕ_discrete (es ++ (e ∷ rest))
    → Present ℕ_discrete (es ++ (e ∷ rest)) v.results
    → Present ℕ_discrete es v.candidates
    → Present ℕ_discrete es v.ballots
    → has ℕ_discrete e v.candidates ≡ false
    → for_each (es ++ (e ∷ rest)) forget_epoch v ≡ (raise key_error, cut_short es e v)
unfolding for_each and_then forget_epoch without
forget_until [] e rest v d r c b lost = rw (r e (contains_self ℕ_discrete e rest), lost) refl
forget_until (x ∷ es) e rest v d r c b lost =
    let tail = es ++ (e ∷ rest) in
    let here = r x (contains_self ℕ_discrete x tail) in
    let known = c x (contains_self ℕ_discrete x es) in
    let cast = b x (contains_self ℕ_discrete x es) in
    let apart : x ≢ e =
      λ same. let k = subst (λ y. has ℕ_discrete y v.candidates ≡ true) same known in cc in
    let fresh : contains ℕ_discrete x es ≡ false =
      ground (arith, contains-append ℕ_discrete x es (e ∷ rest), d.0) in
    let rest =
      forget_until es e rest (trimmed (x ∷ []) v) d.1
        (Present-del_item ℕ_discrete x tail v.results d.0 r)
        (Present-del_item ℕ_discrete x es v.candidates fresh c)
        (Present-del_item ℕ_discrete x es v.ballots fresh b)
        (has-del_item_ne ℕ_discrete x e v.candidates apart ∙ lost) in
    rw (here, known, cast) rest

-- With the results of ten epochs or more, no epoch listed twice, and one that is outdated and has no
-- candidates, while those before it are complete: the removal raises a `KeyError`. The data of the
-- epochs before is gone, and the results of this one, while its ballots and the data of every later one
-- stay.
pub remove_old_epoch_data_incomplete :
    (v : VotingSystem) (es : List ℕ) (e : ℕ) (rest : List ℕ)
    → leb 10 (length v.results) ≡ true
    → Distinct ℕ_discrete (keys v.results)
    → old_epochs v ≡ es ++ (e ∷ rest)
    → Present ℕ_discrete es v.candidates
    → Present ℕ_discrete es v.ballots
    → has ℕ_discrete e v.candidates ≡ false
    → remove_old_epoch_data v ≡ (raise key_error, cut_short es e v)
unfolding remove_old_epoch_data
remove_old_epoch_data_incomplete v es e rest many distinct old known cast lost =
    rw (many, old)
      (forget_until es e rest v (subst (Distinct ℕ_discrete) old (old-Distinct v distinct))
        (subst (λ l. Present ℕ_discrete l v.results) old (old-Present v distinct)) known cast lost)
