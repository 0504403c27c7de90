-- ===== src/Frame/Model/Tests.antt =====
-- Runs of validate, and its theorem at a model.
use architect_simulator.Base.{◌≡◌, refl, [], ◌∷◌}
use architect_simulator.Base.Int.{pos, ◌+ℤ◌, ◌-ℤ◌, ◌*ℤ◌}
use architect_simulator.Frame.Types.{vec_sub, norm, dot}
use architect_simulator.Frame.Model.{index_of}
use architect_simulator.Frame.Model.Verdict.{ok, bad, each, distinct}
use architect_simulator.Frame.Model.Checks.{check_node, check_member}
use architect_simulator.Frame.Model.Validate.{validate, IsWellFormed, validate-IsWellFormed}
use architect_simulator.Frame.Model.Samples.{two_pieces, member}

two_pieces_valid : validate two_pieces (pos 1) ≡ ok
unfolding validate each distinct check_node check_member index_of norm dot vec_sub ◌+ℤ◌ ◌-ℤ◌ ◌*ℤ◌
two_pieces_valid = refl

dangling :
    validate (record two_pieces { members = member 1 10 99 ∷ [] }) (pos 1)
    ≡ bad "member references missing node"
unfolding validate each distinct check_node check_member index_of norm dot vec_sub ◌+ℤ◌ ◌-ℤ◌ ◌*ℤ◌
dangling = refl

twins :
    validate (record two_pieces { members = member 1 10 11 ∷ member 1 12 13 ∷ [] }) (pos 1)
    ≡ bad "duplicate member id"
unfolding validate each distinct check_node check_member index_of
twins = refl

validate-IsWellFormed_example : IsWellFormed two_pieces
validate-IsWellFormed_example = validate-IsWellFormed two_pieces (pos 1) two_pieces_valid
