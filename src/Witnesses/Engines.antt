-- ===== src/Witnesses/Engines.antt =====
-- Inputs for the theorems on the node and the engine (consensus/pkg/engine/ddpoa_node.py and
-- consensus/pkg/engine/ddpoa_engine.py).
use sawtooth_ddpoa.Prelude.{
  ℕ, ◌≡◌, ◌≢◌, refl, subst, List, [], ◌∷◌, none, some, true, false, ok, raise, key_error, Key,
  BlockId, dec_key, contains, arith,
}
use sawtooth_ddpoa.Prelude.Dict.{get}
use sawtooth_ddpoa.Prelude.Distinct.{Distinct, contains_self}
use sawtooth_ddpoa.Prelude.Int.{pos, pred_ℤ}
use sawtooth_ddpoa.Floats.{Float, float_one}
use sawtooth_ddpoa.Peers.{PeerNode}
use sawtooth_ddpoa.Service.{Block, ignore_block}
use sawtooth_ddpoa.Epoch.{Epoch}
use sawtooth_ddpoa.Cache.{BlockCache, append, block_from_id}
use sawtooth_ddpoa.Cache.Bounded.{IsValid}
use sawtooth_ddpoa.Cache.Append.{append_oldest_again}
use sawtooth_ddpoa.Host.{Host}
use sawtooth_ddpoa.Node.{Node, State, production, waiting_for_bootstrap, catching_up}
use sawtooth_ddpoa.Node.Standing.{IsMul}
use sawtooth_ddpoa.Engine.{Engine, Env}
use sawtooth_ddpoa.Engine.Catchup.{fastforward}
use sawtooth_ddpoa.Engine.Blocks.{handle_valid_block}
use sawtooth_ddpoa.Engine.Inbox.{handle_peer_connected}
use sawtooth_ddpoa.Engine.Safety.{Verdict, valid_block-Verdict}
use sawtooth_ddpoa.Engine.Faults.{peer_connected_unknown, fastforward_uncached}
use Prim.Native.String.{len}

abbrev pub toy_mul : Float → Float → Float
toy_mul x f = x

toy_mul-IsMul : IsMul toy_mul
toy_mul-IsMul = record { shrinks = λ x f h. omega arith; grows = λ x f h. omega arith }

abbrev pub toy_host : Host
toy_host = record {
  sha256 = λ s. len s;
  mul = toy_mul;
  choose = λ n ks ws. none;
  stv = λ n ks bs. none;
  equals_block = λ id b. false;
  parse = λ s. none;
}

abbrev pub block_of : BlockId → BlockId → ℕ → Block
block_of id previous num = record {
  block_id = id;
  previous_id = previous;
  signer_id = "alice";
  block_num = num;
  payload = "";
}

abbrev pub one_block : BlockCache
one_block = record { cache = ("b1", block_of "b1" "b0" 1) ∷ []; cache_ids = "b1" ∷ [] }

one_block-IsValid : IsValid one_block
unfolding contains
one_block-IsValid = record {
  same_ids = refl;
  distinct = (refl, tt);
  bounded = omega arith;
  own_ids = (refl, tt);
}

abbrev pub nine_ids : List BlockId
nine_ids = "b2" ∷ "b3" ∷ "b4" ∷ "b5" ∷ "b6" ∷ "b7" ∷ "b8" ∷ "b9" ∷ "b10" ∷ []

abbrev pub ten_blocks : BlockCache
ten_blocks = record {
  cache =
      ("b1", block_of "b1" "b0" 1)
      ∷ ("b2", block_of "b2" "b1" 2)
      ∷ ("b3", block_of "b3" "b2" 3)
      ∷ ("b4", block_of "b4" "b3" 4)
      ∷ ("b5", block_of "b5" "b4" 5)
      ∷ ("b6", block_of "b6" "b5" 6)
      ∷ ("b7", block_of "b7" "b6" 7)
      ∷ ("b8", block_of "b8" "b7" 8)
      ∷ ("b9", block_of "b9" "b8" 9)
      ∷ ("b10", block_of "b10" "b9" 10)
      ∷ [];
  cache_ids = "b1" ∷ nine_ids;
}

ten-Distinct : Distinct dec_key ("b1" ∷ nine_ids)
unfolding contains dec_key
ten-Distinct = (refl, (refl, (refl, (refl, (refl, (refl, (refl, (refl, (refl, (refl, tt))))))))))

pub ten_blocks-IsValid : IsValid ten_blocks
ten_blocks-IsValid = record {
  same_ids = refl;
  distinct = ten-Distinct;
  bounded = omega arith;
  own_ids = (refl, (refl, (refl, (refl, (refl, (refl, (refl, (refl, (refl, (refl, tt))))))))));
}

append_oldest_again_example :
    (d : BlockCache) × (append (block_of "b1" "b0" 1) ten_blocks ≡ (ok (ignore_block "b1" ∷ []), d))
    × (contains dec_key "b1" d.cache_ids ≡ true)
    × (get dec_key "b1" d.cache ≡ none)
append_oldest_again_example =
    append_oldest_again (block_of "b1" "b0" 1) ten_blocks nine_ids ten_blocks-IsValid refl refl

abbrev pub four_candidates : Epoch
four_candidates = record {
  number = 4;
  current_witness_idx = 1;
  candidates = "carol" ∷ "dave" ∷ [];
  witnesses = "alice" ∷ "bob" ∷ [];
  num_slots = 2;
}

abbrev pub known_peer : Key → PeerNode
known_peer k = record { key = k; score = float_one; last_seen = 0; online = true }

abbrev pub node_in : State → Epoch → Node
node_in state epoch = record {
  key = "alice";
  peers = ("alice", known_peer "alice") ∷ ("bob", known_peer "bob") ∷ [];
  peer_keys = "alice" ∷ "bob" ∷ "carol" ∷ "dave" ∷ [];
  last_peer_check = 0;
  communicator = record { peers = []; queue = []; handed_over = [] };
  epoch = epoch;
  state = state;
  voting = record {
    key = "alice";
    peer_keys = "alice" ∷ "bob" ∷ "carol" ∷ "dave" ∷ [];
    ballots = [];
    results = [];
    candidates = [];
    num_slots = 2;
  };
  previous_vote_ts = 0;
  broadcast_timer = none;
  ready_result = [];
  num_slots = 2;
}

abbrev pub fresh : Epoch
fresh = record {
  number = 0;
  current_witness_idx = 0;
  candidates = [];
  witnesses = [];
  num_slots = 2;
}

abbrev pub toy_env : Env
toy_env = record {
  now = 1000000;
  answers = λ k. true;
  service = record {
    chain_head = some (block_of "b1" "b0" 1);
    blocks = λ id. some (block_of "b2" "b1" 2);
    on_cancel = none;
    on_initialize = none;
    on_summarize = none;
    on_finalize = none;
  };
}

abbrev pub engine_with : Node → Engine
engine_with n = record {
  node = n;
  block_cache = one_block;
  local_id = "alice";
  members = "alice" ∷ "bob" ∷ "carol" ∷ "dave" ∷ [];
  ips = [];
  pre_id = "b1";
  pre_num = 1;
  exit = false;
  slot_started_at = 0;
  waiting_for_own_block = false;
  waiting_for_commit = pos 0;
  waiting_for_validation = pos 1;
  bootstrap_messages_received = [];
  bootstrap_cache = [];
  fastforward_target = none;
  fastforward_target_id = none;
  has_requested_bootstrap = false;
  last_bootstrap_request = 0;
  calls = [];
  starting_up = false;
  engine_start = 0;
  pre_bootstrap_request = 0;
}

abbrev pub producing : Engine
producing = engine_with (node_in production four_candidates)

valid_block_example :
    let r = handle_valid_block toy_host toy_env "b2" producing in
    (r.0 ≡ ok tt)
    × (r.1.waiting_for_validation ≡ pred_ℤ producing.waiting_for_validation)
    × Verdict producing "b2" (block_of "b2" "b1" 2) r.1
valid_block_example =
    valid_block-Verdict toy_host toy_env producing "b2" (block_of "b2" "b1" 2) refl

abbrev pub bootstrapping : Engine
bootstrapping = engine_with (node_in waiting_for_bootstrap fresh)

peer_connected_example :
    handle_peer_connected toy_host toy_env "bob" bootstrapping ≡ (raise key_error, bootstrapping)
unfolding get
peer_connected_example = peer_connected_unknown toy_host toy_env bootstrapping "bob" refl refl

abbrev pub target : BlockId
target = "b7"

apart : target ≢ "b1"
unfolding contains dec_key
apart p =
    let other : contains dec_key target ("b1" ∷ []) ≡ false = refl in
    let at_own = subst (λ x. contains dec_key x ("b1" ∷ []) ≡ false) p other in
    let own = contains_self dec_key "b1" [] in cc

fastforward_example :
    let t = (fastforward toy_host toy_env target (pos 7) bootstrapping).1 in
    ((fastforward toy_host toy_env target (pos 7) bootstrapping).0 ≡ ok tt)
    × (t.node.state ≡ catching_up)
    × (t.calls ≡ bootstrapping.calls)
    × (t.bootstrap_cache ≡ bootstrapping.bootstrap_cache)
    × (fastforward toy_host toy_env target (pos 8) t ≡ (ok tt, t))
unfolding block_from_id get dec_key
fastforward_example =
    fastforward_uncached toy_host toy_env toy_env bootstrapping target target (pos 7) (pos 8)
      (λ b. refl) apart apart refl refl
