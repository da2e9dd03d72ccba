-- ===== src/Config.antt =====
-- consensus/pkg/engine/config.py. Times are in microseconds here, and in seconds there.
pub mod Paths
use sawtooth_ddpoa.Prelude.{ℕ, ◌*◌}
use sawtooth_ddpoa.Prelude.{BlockId}

abbrev pub second : ℕ
second = 1000000

abbrev pub rounds_per_epoch : ℕ
rounds_per_epoch = 3

abbrev pub block_interval : ℕ
block_interval = 6 * second

abbrev pub slot_timeout : ℕ
slot_timeout = 90 * second

abbrev pub rebroadcast_ballot_interval : ℕ
rebroadcast_ballot_interval = 5 * second

abbrev pub peer_check_interval : ℕ
peer_check_interval = 3 * second

abbrev pub ping_threshold : ℕ
ping_threshold = 30 * second

abbrev pub genesis_block_id : BlockId
genesis_block_id = "0000000000000000"

abbrev pub voting_slots : ℕ
voting_slots = 5
