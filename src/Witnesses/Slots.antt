-- ===== src/Witnesses/Slots.antt =====
-- Inputs for the theorems on missed slots and on heads (consensus/pkg/engine/ddpoa_engine.py).
use sawtooth_ddpoa.Prelude.{
  ◌-◌, ◌*◌, ◌/◌, ◌<◌, ◌≤◌, ◌≡◌, refl, List, [], ◌∷◌, some, false, ok, inl, dec_key, contains,
  index_of, leb, if◌then◌else◌, BlockId,
}
use sawtooth_ddpoa.Prelude.Dict.{get}
use sawtooth_ddpoa.Prelude.Int.{ℤ}
use sawtooth_ddpoa.Prelude.Distinct.{Distinct}
use sawtooth_ddpoa.Config.{second}
use sawtooth_ddpoa.Service.{Bootstrap}
use sawtooth_ddpoa.Epoch.{
  full_candidate_list, is_over, increment_witness, downgrade_witness, reorder_witnesslist,
}
use sawtooth_ddpoa.Utils.{str}
use sawtooth_ddpoa.Epoch.Replaced.{Replaced}
use sawtooth_ddpoa.Voting.{consensus_amount}
use sawtooth_ddpoa.Node.{online_peers}
use sawtooth_ddpoa.Node.Methods.{expected_signer}
use sawtooth_ddpoa.Engine.{handle_missed_slot}
use sawtooth_ddpoa.Engine.Inbox.{heads, follow_head}
use sawtooth_ddpoa.Engine.Catchup.{fastforward}
use sawtooth_ddpoa.Engine.Heads.{mentions, follow_head-most}
use sawtooth_ddpoa.Engine.Missed.{Serves, after, missed_slot-Replaced}
use sawtooth_ddpoa.Witnesses.Engines.{toy_host, toy_env, producing, four_candidates, known_peer}

abbrev two_messages : List Bootstrap
two_messages =
    record { chain_head_id = "b2"; num_blocks = 2; pre_id = "b1" }
    ∷ record { chain_head_id = "b1"; num_blocks = 1; pre_id = "b0" }
    ∷ []

abbrev first_message : Bootstrap
first_message = record { chain_head_id = "b2"; num_blocks = 2; pre_id = "b1" }

head_example :
    (id : BlockId) × (num : ℤ) × (follow_head toy_host toy_env
        (heads (first_message ∷ two_messages) [])
        producing
      ≡ (if leb
            (consensus_amount (online_peers producing.node) producing.node.voting - 1)
            (mentions id (first_message ∷ two_messages))
          then fastforward toy_host toy_env id num producing
          else (ok tt, producing)))
    × (0 < mentions id (first_message ∷ two_messages))
    × ((other : BlockId)
        → mentions other (first_message ∷ two_messages)
          ≤ mentions id (first_message ∷ two_messages))
head_example = follow_head-most first_message two_messages toy_host toy_env producing

toy_Serves : Serves toy_env
toy_Serves = record { cancels = inl refl; initializes = refl }

bob_in_turn : expected_signer producing.node ≡ some "bob"
unfolding expected_signer
bob_in_turn = refl

four_Distinct : Distinct dec_key (full_candidate_list four_candidates)
unfolding contains dec_key full_candidate_list
four_Distinct = (refl, (refl, (refl, (refl, tt))))

not_over : is_over (after toy_host "bob" producing) ≡ false
unfolding is_over increment_witness downgrade_witness contains dec_key index_of reorder_witnesslist
    str
not_over = refl

missed_slot_example :
    let r = handle_missed_slot toy_env toy_host producing in
    (r.0 ≡ ok tt)
    × (r.1.node.epoch ≡ after toy_host "bob" producing)
    × Replaced "bob" "carol" four_candidates (after toy_host "bob" producing)
    × (r.1.slot_started_at ≡ toy_env.now / second * second)
    × (r.1.pre_id ≡ producing.pre_id)
unfolding get dec_key
missed_slot_example =
    missed_slot-Replaced toy_env toy_host toy_Serves "bob" "carol" ("dave" ∷ []) (known_peer "bob")
      producing bob_in_turn refl refl four_Distinct not_over
