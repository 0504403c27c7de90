-- ===== src/TensionOnly/Tests.antt =====
-- A model with one tension-only member, and the theorems of the iteration at it.
use architect_simulator.Base.{
  ◌≡◌, refl, ℕ, zero, suc, Bool, true, false, List, [], ◌∷◌, arith, map, ◌<◌,
}
use architect_simulator.Base.Int.{ℤ, pos, ◌+ℤ◌, ◌-ℤ◌, ◌*ℤ◌}
use architect_simulator.Frame.Types.{dot, vec_sub}
use architect_simulator.Base.Real.{integers}
use architect_simulator.Frame.Model.{Member, FrameModel, index_of}
use architect_simulator.Frame.Model.Samples.{point, two_pieces}
use architect_simulator.TensionOnly.{
  Session, TensionOnlyOptions, run_tension_only, flags_from, bytes,
}
use architect_simulator.TensionOnly.Flips.{n_true}
use architect_simulator.TensionOnly.Rounds.{MonotoneEnd}
use architect_simulator.TensionOnly.Settles.{policy, start_flags, run_tension_only-MonotoneEnd}

-- Both members are tension-only.
abbrev braced : FrameModel integers
braced = record two_pieces {
  members = map (λ (m : Member integers). record m { tension_only = true }) two_pieces.members;
}

-- The number of members that have been deactivated; the first solve compresses the first member, and
-- later ones compress nothing.
abbrev session : Session integers
session = record {
  State = ℕ;
  start = λ model. 0;
  is_valid = λ s. true;
  diagnostic = λ s. "";
  solve = λ s. (s, record { singular = false; diagnostic = ""; u = []; axial = axial s });
  set_member_active = λ s id b. suc s;
  local_axis = λ p q r. point 1 0 0;
}
  where
    axial : ℕ → List ℤ
    axial zero = pos 5 ∷ pos 0 ∷ []
    axial (suc n) = []

abbrev options : Bool → TensionOnlyOptions integers
options allow = record { max_iter = pos 32; allow_reactivation = allow; axial_tol = pos 0 }

slackens : (run_tension_only session braced (options true)).slack ≡ pos 1 ∷ []
unfolding run_tension_only index_of dot vec_sub ◌+ℤ◌ ◌-ℤ◌ ◌*ℤ◌
slackens = refl

monotone :
    policy session braced (options false) (run_tension_only session braced (options false)) ≡ false
unfolding run_tension_only
monotone = refl

few : n_true (bytes (start_flags session braced (options false))) < 32
unfolding n_true flags_from
few = omega arith

run_tension_only-MonotoneEnd_example :
    MonotoneEnd session braced
      (options false)
      (session.start braced)
      (start_flags session braced (options false))
      (run_tension_only session braced (options false))
run_tension_only-MonotoneEnd_example =
    run_tension_only-MonotoneEnd session braced (options false) monotone few
