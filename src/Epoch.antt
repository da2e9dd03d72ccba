-- ===== src/Epoch.antt =====
-- consensus/pkg/engine/epoch.py: the witness list of an epoch, its slots, and the queue of
-- candidates that stand by.
pub mod Order
pub mod Downgrade
pub mod Rounds
pub mod Turns
pub mod Transfer
pub mod Members
pub mod Replaced
use sawtooth_ddpoa.Prelude.{
  ℕ, ◌+◌, ◌-◌, ◌*◌, ◌%◌, ◌++◌, String, List, [], ◌∷◌, map, Option, none, some, Bool, not, ◌&&◌,
  length, get_elem?, set, take, drop, contains, index_of, leb, ◌==◌, if◌then◌else◌, Key, dec_key, M,
  Outcome, ok, raise, hang, zero_division, value_error,
}
use sawtooth_ddpoa.Prelude.Int.{ℤ, sub_ℕ}
use sawtooth_ddpoa.Prelude.Sorting.{sort_by}
use sawtooth_ddpoa.Config.{rounds_per_epoch}
use sawtooth_ddpoa.Utils.{str, concat_and_hash}

-- `candidates` is the queue, its front first.
pub record Epoch : Type 0 where
  pub number : ℕ
  pub current_witness_idx : ℕ
  pub candidates : List Key
  pub witnesses : List Key
  pub num_slots : ℕ

unfoldable pub init : ℕ → ℕ → Epoch
init number slots = record {
  number = number;
  current_witness_idx = 0;
  candidates = [];
  witnesses = [];
  num_slots = slots;
}

-- The queue is only added to: what stood in it stays in front.
unfoldable pub set_candidates_and_witnesses : List Key → Epoch → Epoch
set_candidates_and_witnesses cs e = record e {
  witnesses = take e.num_slots cs;
  candidates = e.candidates ++ drop e.num_slots cs;
}

unfoldable pub is_witness : Key → Epoch → Bool
is_witness k e = contains dec_key k e.witnesses

unfoldable pub position_in_witness_list : Key → Epoch → Option ℕ
position_in_witness_list k e = index_of dec_key k e.witnesses

unfoldable pub is_over : Epoch → Bool
is_over e = leb (length e.witnesses * rounds_per_epoch) e.current_witness_idx

unfoldable pub is_last_round : Epoch → Bool
is_last_round e = leb (length e.witnesses * (rounds_per_epoch - 1)) e.current_witness_idx

unfoldable pub is_initialized : Epoch → Bool
is_initialized e = not (e.current_witness_idx == 0 && length e.witnesses == 0)

unfoldable pub next_epoch_number : Epoch → ℕ
next_epoch_number e = e.number + 1

-- May be negative.
unfoldable pub slots_remaining_in_epoch : Epoch → ℤ
slots_remaining_in_epoch e = sub_ℕ (length e.witnesses * rounds_per_epoch) e.current_witness_idx

unfoldable pub full_candidate_list : Epoch → List Key
full_candidate_list e = e.witnesses ++ e.candidates

-- The witness `k` slots ahead; `none` where there are no witnesses.
witness_ahead : ℕ → Epoch → Option Key
witness_ahead k e =
    if length e.witnesses == 0
    then none
    else get_elem? e.witnesses ((e.current_witness_idx + k) % length e.witnesses)

unfoldable pub current_witness : Epoch → Option Key
unfolding witness_ahead
current_witness e = witness_ahead 0 e

unfoldable pub next_witness : Epoch → Option Key
unfolding witness_ahead
next_witness e = witness_ahead 1 e

-- `Queue.get` waits for ever on an empty queue.
swap_in : Key → ℕ → List Key → Epoch → Outcome (Unit {0}) × Epoch
swap_in k i [] e = (hang, e)
swap_in k i (c ∷ cs) e =
    (ok tt, record e { candidates = cs ++ (k ∷ []); witnesses = set e.witnesses i c })

unfoldable pub downgrade_witness : Key → M Epoch (Unit {0})
unfolding is_witness position_in_witness_list swap_in
downgrade_witness k e =
    if is_witness k e
    then elim (position_in_witness_list k e) [
      | none ↦ (raise value_error, e)
      | some i ↦ swap_in k i e.candidates e
    ]
    else (ok tt, e)

module _ (sha256 : String → ℕ) where
  unfoldable pub reorder_witnesslist : String → Epoch → Epoch
  unfolding sort_by concat_and_hash
  reorder_witnesslist seed e = record e {
    witnesses =
        map (λ (h : Key × ℕ). h.0)
          (sort_by (λ (h : Key × ℕ). h.1)
            (map
              (λ (w : Key). (w, concat_and_hash sha256 (w ∷ seed ∷ str e.current_witness_idx ∷ [])))
              e.witnesses));
  }

  -- With no witnesses the remainder by zero raises, and the index has already moved.
  unfoldable pub increment_witness : String → M Epoch (Unit {0})
  unfolding is_over
  increment_witness pre_block_id e =
      let next = record e { current_witness_idx = e.current_witness_idx + 1 } in
      if length e.witnesses == 0
      then (raise zero_division, next)
      else if next.current_witness_idx % length e.witnesses == 0 && not (is_over next)
      then (ok tt, reorder_witnesslist pre_block_id next)
      else (ok tt, next)
