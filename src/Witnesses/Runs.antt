-- ===== src/Witnesses/Runs.antt =====
-- Inputs for the theorems on rounds and runs (consensus/pkg/engine/ddpoa_engine.py).
use sawtooth_ddpoa.Prelude.{
  recover, and_then, or_raise, length, contains, false, true, ◌≤◌, ◌∷◌, refl, ◌≡◌, some, [], inl,
  dec_key,
}
use sawtooth_ddpoa.Prelude.Dict.{get, keys}
use sawtooth_ddpoa.Prelude.Int.{pos, pred_ℤ}
use sawtooth_ddpoa.Service.{ConsensusData}
use sawtooth_ddpoa.Host.{Host}
use sawtooth_ddpoa.Messaging.{connect_peer}
use sawtooth_ddpoa.Cache.{block_from_id}
use sawtooth_ddpoa.Node.{catching_up, production}
use sawtooth_ddpoa.Node.Methods.{reward}
use sawtooth_ddpoa.Node.Handlers.{next_slot}
use sawtooth_ddpoa.Node.Catching.{is_catching}
use sawtooth_ddpoa.Engine.Arrival.{taken_over, committed_block-Followed}
use sawtooth_ddpoa.Engine.NewBlock.Handled.{Handled, new_block-Handled}
use sawtooth_ddpoa.Engine.Handover.{handover_agreement}
use sawtooth_ddpoa.Engine.{Engine, consensus_data}
use sawtooth_ddpoa.Engine.Blocks.{handle_new_block, handle_valid_block, handle_committed_block}
use sawtooth_ddpoa.Engine.Counters.{commit_balance}
use sawtooth_ddpoa.Engine.Memory.{set_up-IsBounded}
use sawtooth_ddpoa.Cache.Limits.{IsBounded}
use sawtooth_ddpoa.Engine.Loop.{
  block_new, block_valid, peer_connected, round, set_up, handle_update,
}
use sawtooth_ddpoa.Engine.Commits.{commits}
use sawtooth_ddpoa.Engine.Commits.Rounds.{Effect, round-Effect}
use sawtooth_ddpoa.Engine.Commits.History.{start, more, a_round, connecting}
use sawtooth_ddpoa.Witnesses.Engines.{
  fresh, toy_host, toy_env, producing, block_of, known_peer, engine_with, node_in, four_candidates,
}

round_example :
    Effect toy_env producing
      (some (block_valid "b2"))
      (round toy_host toy_env (some (block_valid "b2")) producing).1
round_example = round-Effect toy_host toy_env (some (block_valid "b2")) producing

abbrev data_read : ConsensusData
data_read = record {
  timestamp = 2000000;
  epoch = 4;
  witness_idx = 1;
  candidates = [];
  consensus = "";
  num_slots = 2;
}

abbrev behind : Engine
behind = engine_with (node_in catching_up four_candidates)

-- The engine is behind: b2, which follows its head, is found valid, and its commit is asked for.
abbrev one_commit : Engine
one_commit = (round toy_host toy_env (some (block_valid "b2")) behind).1

one_commit-calls : commits one_commit.calls ≡ "b2" ∷ []
unfolding commits get dec_key round recover and_then handle_update or_raise
one_commit-calls = refl

abbrev reading_host : Host
reading_host = record toy_host { parse = λ s. some data_read }

balance_example :
    let t = (handle_valid_block reading_host toy_env "b2" behind).1 in
    (handle_committed_block reading_host toy_env "b2" t).1.waiting_for_commit
    ≡ pred_ℤ behind.waiting_for_commit
unfolding block_from_id get dec_key
balance_example =
    commit_balance reading_host toy_env "b2" (block_of "b2" "b1" 2) data_read (known_peer "alice")
      behind toy_env refl (inl refl) refl refl refl

abbrev set_up_engine : Engine
set_up_engine =
    (set_up 0 "alice" ("alice" ∷ "bob" ∷ []) ("10.0.0.1" ∷ "10.0.0.2" ∷ []) 2
      (block_of "b1" "b0" 1)).1

-- The block b2 is the target, and the validator commits it.
abbrev at_target : Engine
at_target = record behind { fastforward_target = some (pos 2) }

arrival_example :
    let t = (handle_committed_block reading_host toy_env "b2" at_target).1 in
    let n = (reward toy_host.mul "alice" at_target.node).1 in
    (t.node
      ≡ (next_slot toy_host.sha256 "b2"
          (taken_over toy_env reading_host (block_of "b2" "b1" 2) data_read at_target n)).1)
    × (is_catching t.node ≡ false)
unfolding block_from_id get dec_key
arrival_example =
    committed_block-Followed toy_env reading_host "b2" (block_of "b2" "b1" 2) data_read
      (known_peer "alice") at_target refl refl refl

-- Alice makes b2 in production, and a newcomer catches up to it.
abbrev maker : Engine
maker = engine_with (node_in production four_candidates)

abbrev newcomer : Engine
newcomer = record (engine_with (node_in catching_up fresh)) { fastforward_target = some (pos 2) }

abbrev data_host : Host
data_host = record toy_host { parse = λ s. some (consensus_data toy_env maker) }

handover_example :
    let member = (handle_committed_block data_host toy_env "b2" maker).1 in
    let joiner = (handle_committed_block data_host toy_env "b2" newcomer).1 in
    (joiner.node.epoch ≡ member.node.epoch) × (is_catching joiner.node ≡ false)
unfolding block_from_id get dec_key
handover_example =
    handover_agreement data_host toy_env toy_env toy_env "b2" (block_of "b2" "b1" 2) maker maker
      newcomer (known_peer "alice") (known_peer "alice") refl refl refl refl refl refl refl refl
      refl refl refl (record { announced = refl; elected = refl })

-- The newcomer is catching up to b2 when b2 comes in.
new_block_example :
    Handled data_host toy_env
      (record newcomer { fastforward_target_id = some "b2" })
      (block_of "b2" "b1" 2)
      (consensus_data toy_env maker)
      (handle_new_block data_host toy_env
        (block_of "b2" "b1" 2)
        (record newcomer { fastforward_target_id = some "b2" })).1
unfolding contains get dec_key
new_block_example =
    new_block-Handled data_host toy_env (block_of "b2" "b1" 2) (consensus_data toy_env maker)
      (known_peer "alice") (record newcomer { fastforward_target_id = some "b2" }) refl refl refl

-- Bob is connected by the timer's thread after one try in vain; then b2 comes in.
abbrev bob_added : Engine
bob_added = (round data_host toy_env (some (peer_connected "bob")) set_up_engine).1

abbrev bob_connected : Engine
bob_connected = record bob_added {
  node = record bob_added.node {
    communicator = connect_peer "bob" (false ∷ true ∷ []) bob_added.node.communicator;
  };
}

cache_example :
    let t = (round data_host toy_env (some (block_new (block_of "b2" "b1" 2))) bob_connected).1 in
    IsBounded t.block_cache × (length (keys t.block_cache.cache) ≤ 10)
cache_example =
    set_up-IsBounded data_host 0 "alice" ("alice" ∷ "bob" ∷ []) ("10.0.0.1" ∷ "10.0.0.2" ∷ []) 2
      (block_of "b1" "b0" 1)
      (more
        (more (more start (a_round toy_env (some (peer_connected "bob")) refl))
          (connecting "bob" (false ∷ true ∷ []) refl))
        (a_round toy_env (some (block_new (block_of "b2" "b1" 2))) refl))
