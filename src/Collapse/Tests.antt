-- ===== src/Collapse/Tests.antt =====
-- Runs of the collapse driver over an engine that is made up, and its theorems at them.
use architect_simulator.Base.{ap}
use architect_simulator.Frame.Types.{norm, dot, vec_sub}
use architect_simulator.Base.Int.{◌+ℤ◌, ◌-ℤ◌, ◌*ℤ◌}
use architect_simulator.Frame.Model.{ShellQuad}
use architect_simulator.Frame.Model.Verdict.{ok, each, distinct}
use architect_simulator.Frame.Model.Checks.{check_node, check_member}
use architect_simulator.Frame.Model.Validate.{validate}
use architect_simulator.Frame.Connectivity.Cluster.{analyze_connectivity, report}
use architect_simulator.Collapse.Cleanup.{clean_up}
use architect_simulator.Collapse.Debris.{Anchored, clean_up-Anchored}
use mathlib.Core.List.{foldl}
use architect_simulator.Collapse.Screen.{
  Event, EventKind, hinge, member_removal, no_event, consider, Screen, screen, removal,
}
use architect_simulator.Collapse.Comparison.{IsOrdered}
use architect_simulator.Collapse.Order.{Beats}
use architect_simulator.Collapse.Worst.{screen-Beats}
use architect_simulator.Collapse.Candidates
use architect_simulator.Collapse.Cleanup.{pin_node}
use architect_simulator.Base.{In, inl, ◌⊎◌, arith, ◌≡◌, refl, ℕ, true, false, List, [], ◌∷◌, map}
use architect_simulator.Base.Int.{pos}
use architect_simulator.Base.Real.{integers}
use architect_simulator.Frame.Types.{dof6}
use architect_simulator.Frame.Model.{Member, FrameModel, index_of}
use architect_simulator.Frame.Model.Samples.{point, two_pieces}
use architect_simulator.Collapse.{Engine, MemberEndForces, CollapseOptions, crush}
use architect_simulator.Collapse.Driver.{run_progressive_collapse}
use architect_simulator.Collapse.Finishes.{Finishes, run_progressive_collapse-Finishes}

abbrev forces : ℕ → MemberEndForces integers
forces n = record { axial = pos n; vy = pos 0; vz = pos 0; twist = pos 0; my = pos 0; mz = pos 0 }

-- Each member in turn has more axial force than the one before, and the axial force is the risk.
abbrev engine : Engine integers
engine = record {
  ShellForces = Unit;
  solve = λ model. record {
    singular = false;
    diagnostic = "";
    u = [];
    member_forces =
        map (λ (m : Member integers). record { end_i = forces 3; end_j = forces 2 }) model.members;
    shell_forces = [];
    pivot_margin = pos 1;
  };
  check_section = λ f s c. record { risk = f.axial; mode = crush; tau = pos 0; s_tor = pos 0 };
  check_shell_surface = λ f t c. pos 0;
  local_axes = λ p q r. (point 0 1 0, point 0 0 1);
  infinity = pos 1000;
}

abbrev options : ℕ → CollapseOptions integers
options threshold = record {
  dlf = pos 2;
  remove_threshold = pos threshold;
  max_steps = pos 8;
  initial_removals = [];
  initial_shell_removals = [];
  plastic_hinges = false;
  nm_interaction = false;
}

run_progressive_collapse-Finishes_example :
    Finishes engine (options 2) (run_progressive_collapse engine (options 2) two_pieces)
run_progressive_collapse-Finishes_example =
    run_progressive_collapse-Finishes engine (options 2) two_pieces

integers-IsOrdered : IsOrdered integers
integers-IsOrdered = record {
  irreflexive = λ a. ground arith;
  lt_lt = λ a b c p q. ground (arith, p, q);
  lt_same = λ a b c p q. ground (arith, p, q);
  same_lt = λ a b c p q. ground (arith, p, q);
  same_same = λ a b c p q. ground (arith, p, q);
  same_sym = λ a b p. ground (arith, p);
}

abbrev candidate : ℕ → EventKind → ℕ → Event integers
candidate ratio kind id = record {
  ratio = pos ratio;
  kind = kind;
  id = pos id;
  dof = pos 0;
  mp_signed = pos 0;
  mode = crush;
  eligible = true;
}

abbrev candidates : List (Event integers)
candidates =
    candidate 3 hinge 1
    ∷ candidate 3 member_removal 7
    ∷ candidate 3 member_removal 5
    ∷ candidate 2 member_removal 1
    ∷ []

-- The worst ratio, a removal before the hinge, the smaller id.
selected : foldl consider no_event candidates ≡ candidate 3 member_removal 5
unfolding consider
selected = refl

-- The screen finds the first of the members that are worst.
screened :
    Event.id (Screen.best (screen engine (options 2) two_pieces (engine.solve two_pieces))) ≡ pos 1
unfolding screen
screened = refl

-- The removal of member 1 for its greater end.
abbrev first_removal : Event integers
first_removal = removal engine (options 2) (pos 3) member_removal (pos 1) crush

first_removal-In :
    In first_removal (Candidates.candidates engine (options 2) two_pieces (engine.solve two_pieces))
first_removal-In = inl refl

screen-Beats_example :
    (((screen engine (options 2) two_pieces (engine.solve two_pieces)).best ≡ no_event)
      ⊎ In
          (screen engine (options 2) two_pieces (engine.solve two_pieces)).best
          (Candidates.candidates engine (options 2) two_pieces (engine.solve two_pieces)))
    × Beats (screen engine (options 2) two_pieces (engine.solve two_pieces)).best first_removal
screen-Beats_example =
    screen-Beats engine (options 2) integers-IsOrdered two_pieces (engine.solve two_pieces)
      first_removal first_removal-In

-- A node that is pinned is held and has no load.
pinned :
    FrameModel.nodal_loads (
      pin_node
        (record two_pieces { nodal_loads = (record { node = pos 11; comp = dof6 (pos 5) }) ∷ [] })
        (pos 11))
    ≡ []
unfolding pin_node index_of
pinned = refl

valid : validate two_pieces (integers.lit 1 6) ≡ ok
unfolding validate each distinct check_node check_member index_of norm dot vec_sub ◌+ℤ◌ ◌-ℤ◌ ◌*ℤ◌
valid = refl

connected_valid : (analyze_connectivity two_pieces).valid ≡ true
unfolding analyze_connectivity report
connected_valid = ap (λ v. (report two_pieces v).valid) valid

clean_up-Anchored_example :
    ((m : Member integers)
      → In m (clean_up two_pieces (analyze_connectivity two_pieces)).members
      → m.active ≡ true
      → In m two_pieces.members × Anchored two_pieces m.i)
    × ((s : ShellQuad integers)
        → In s (clean_up two_pieces (analyze_connectivity two_pieces)).shells
        → s.active ≡ true
        → In s two_pieces.shells × Anchored two_pieces s.n.n0)
clean_up-Anchored_example = clean_up-Anchored two_pieces connected_valid
