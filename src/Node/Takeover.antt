-- ===== src/Node/Takeover.antt =====
-- `bootstrap` of consensus/pkg/engine/ddpoa_node.py takes over an epoch from the data of a block.
use sawtooth_ddpoa.Prelude.{◌≡◌, length, arith}
use sawtooth_ddpoa.Epoch.{Epoch, full_candidate_list}
use sawtooth_ddpoa.Epoch.Transfer.{set-full_candidate_list}
use sawtooth_ddpoa.Node.{Node, production}
use sawtooth_ddpoa.Node.Methods.{bootstrap}

-- A node that is given the number, the witness index, the full candidate list and the number of slots
-- of an epoch whose witnesses fill its slots holds that very epoch afterwards, is in production with
-- that number of slots, and keeps its votes, peers and messages.
pub bootstrap_takeover :
    (e : Epoch) (n : Node)
    → length e.witnesses ≡ e.num_slots
    → bootstrap e.number e.current_witness_idx (full_candidate_list e) e.num_slots n
      ≡ record n { num_slots = e.num_slots; epoch = e; state = production }
unfolding bootstrap
bootstrap_takeover e n h = ground (arith, set-full_candidate_list e h)
