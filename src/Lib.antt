-- ===== src/Lib.antt =====
-- A model of the DDPoA consensus engine for Hyperledger Sawtooth (consensus/main.py starts it): a
-- delegated proof of authority, in which the members elect the witnesses of an epoch by ranked
-- ballots, and the witnesses take turns in making blocks.
--
-- The parts, and the files that model them:
-- - Epoch.antt: `Epoch` of consensus/pkg/engine/epoch.py, the witness list with its current index, and
--   the queue of candidates. `sha256` of consensus/pkg/engine/utils.py (Utils.antt) is a parameter, and
--   its hexdigest is taken as the number that it writes, which has the same order.
-- - Voting.antt, Voting/Election.antt, Voting/Ties.antt: `VotingSystem`, `break_ties` and
--   `get_slot_winner` of consensus/pkg/engine/voting_system.py. A dictionary is a list of pairs in the
--   order of insertion (Prelude/Dict.antt). `random.choices` and the library stvpoll are parameters.
-- - Messaging.antt: `Communicator`, `Peer` and the servicer of
--   consensus/pkg/engine/consensus_messaging.py. gRPC is a parameter: which peers answer.
-- - Peers.antt, Node.antt: `PeerNode` and `ConsensusNode` of consensus/pkg/engine/consensus_node.py and
--   the state of `DDPoANode` of consensus/pkg/engine/ddpoa_node.py, whose methods are in
--   Node/Methods.antt and whose message handlers are in Node/Handlers.antt.
-- - Cache.antt: `BlockCache` of consensus/pkg/engine/ddpoa_engine.py.
-- - Engine.antt: the state of `DDPoAEngine` of consensus/pkg/engine/ddpoa_engine.py, its slots and own
--   blocks; Engine/Catchup.antt: `fastforward`; Engine/Blocks.antt: the handlers of the validator's
--   block messages; Engine/Inbox.antt: the messages of other nodes; Engine/Loop.antt: `start`, one
--   round of its loop as a function.
-- - Service.antt, Host.antt: the messages of consensus/protos, the calls of the SDK's service and its
--   answers, and the record of all parameters. Config.antt: consensus/pkg/engine/config.py.
-- Prelude and its children hold the shared helpers; Witnesses holds concrete inputs.
--
-- An engine owns a node and a block cache, a node owns an epoch, a voting system and a communicator:
-- each state is a record that holds the states it owns, and `on_part` (Prelude/Effects.antt) runs a
-- method of a part. A method is a function from a state to an outcome and a state: it returns (`ok`),
-- raises (`raise`) or waits for ever (`hang`), and what it wrote before it raised stays.
--
-- Choices. Keys and block ids are texts, the ids in hex, which the source compares as bytes or as hex;
-- both agree. Times are in microseconds, and one clock reading serves the handling of one event. The
-- validator's calls are listed in `calls` in their order. The threads of a broadcast are joined, so a
-- broadcast is one step (Messaging/Delivery.antt is about their order). A run (Engine/Commits/History.antt)
-- has these events of its own between the rounds of the loop: the timer of a broadcast result
-- (`timer_fires`), the thread that connects to a new peer (`connect_peer`), a message that the server
-- receives (`receive`), and `stop`. A message that is given to a stub may be lost: what fails in the stub is
-- caught there. Of the service's calls, cancel_block, initialize_block, summarize_block, finalize_block,
-- get_blocks and get_chain_head may raise, as their answers say; check_blocks, commit_block, fail_block
-- and ignore_block are taken to return. Scores are IEEE doubles that are not negative, read as their bit patterns
-- (Floats.antt). The weights of places are powers of two, and their sums, of at most 53 bits for up to
-- some forty members, are exact in doubles: they are numbers scaled by a power of two
-- (Voting/Ties.antt). The number of slots is not negative.
--
-- Fuel. A walk through the block cache takes one step more than the cache has blocks: a longer one has
-- met a block twice and never ends. Filling a ballot takes as many draws as there are keys. The search
-- of a fork has the ten rounds that the source gives it.
--
-- Not modelled: logging; the polls that `calculate_result` keeps; `_pre_online` and
-- `previous_result_ts`, which are only logged or never read; the start of the gRPC server; the
-- generated code of consensus/pkg/consensus; consensus/setup.py, a call of setuptools;
-- parse_kubernetes_logs.py, which opens terminals for the logs of a cluster; the tools under
-- testing, scripts and grafana, which are no part of the engine.
--
-- Two parts stand apart from the engine. Config/Paths.antt models consensus/pkg/config/path.py: the file
-- system, the environment and the TOML library are its parameters, and `__repr__` and
-- `to_toml_string`, which nothing calls, are left out. Command.antt models `main` of consensus/main.py:
-- argparse, the set-up of the logs and the SDK's driver are its parameters.
pub mod Prelude
pub mod Command
pub mod Config
pub mod Utils
pub mod Floats
pub mod Peers
pub mod Service
pub mod Cache
pub mod Messaging
pub mod Epoch
pub mod Voting
pub mod Host
pub mod Node
pub mod Engine
pub mod Witnesses
