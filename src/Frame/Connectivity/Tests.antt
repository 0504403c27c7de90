-- ===== src/Frame/Connectivity/Tests.antt =====
-- Runs of analyzeConnectivity, and its theorems at the model of two pieces.
use architect_simulator.Base.{◌≡◌, ◌↔◌, refl, true, false, In, some, ℕ, get_elem?}
use architect_simulator.Base.Int.{pos, ◌+ℤ◌, ◌-ℤ◌, ◌*ℤ◌}
use architect_simulator.Base.Real.{integers}
use architect_simulator.Frame.Types.{vec_sub, norm, dot}
use architect_simulator.Frame.Model.{Node, index_of}
use architect_simulator.Frame.Model.Verdict.{ok, each, distinct}
use architect_simulator.Frame.Model.Checks.{check_node, check_member}
use architect_simulator.Frame.Model.Validate.{validate}
use architect_simulator.Frame.Model.Samples.{two_pieces, node, point}
use architect_simulator.Frame.Connectivity.Loops.{fully_fixed}
use architect_simulator.Frame.Connectivity.Cluster.{analyze_connectivity}
use architect_simulator.Frame.Connectivity.Adds.{touches}
use architect_simulator.Frame.Connectivity.Edges.{edges}
use architect_simulator.Frame.Connectivity.Detached.{Supported, InCluster}
use architect_simulator.Frame.Connectivity.Support.{detached_iff}
use architect_simulator.Frame.Connectivity.Loose.{loose_nodes_iff}

valid : validate two_pieces (integers.lit 1 6) ≡ ok
unfolding validate each distinct check_node check_member index_of norm dot vec_sub ◌+ℤ◌ ◌-ℤ◌ ◌*ℤ◌
valid = refl

detached_iff_example :
    InCluster two_pieces (node 12 (point 0 5 0) false)
    ↔ ((touches (edges two_pieces) 2 ≡ true) × (¬ Supported two_pieces 2))
detached_iff_example = detached_iff two_pieces valid 2 (node 12 (point 0 5 0) false) refl

loose_nodes_iff_example : In (pos 14) (analyze_connectivity two_pieces).loose_nodes ↔ (
    (k : ℕ) × (n : Node integers) × (get_elem? two_pieces.nodes k ≡ some n)
    × (pos 14 ≡ n.id)
    × (touches (edges two_pieces) k ≡ false)
    × (fully_fixed n.fixed ≡ false))
loose_nodes_iff_example = loose_nodes_iff two_pieces (pos 14) valid
