-- ===== src/Registry/Tests.antt =====
-- Runs of the registry over the small engine, and its theorems at them.
use architect_simulator.Base.{
  ◌≡◌, refl, true, false, List, [], ◌∷◌, none, some, replicate, arith, ◌↔◌, inr,
}
use architect_simulator.Base.Int.{pos, negsuc, ◌+ℤ◌, ◌*ℤ◌, ◌-ℤ◌}
use architect_simulator.Frame.Types.{norm, vec_sub, vec_add}
use architect_simulator.Frame.Model.Samples.{point, steel, square}
use architect_simulator.Interactive.Samples.{engine, unload_1, unload_12}
use architect_simulator.Registry.{Registry, Component, empty_model, empty_patch}
use architect_simulator.Registry.Solving.{request_solve, merge_patch, patch_rank}
use architect_simulator.Registry.Model.{pick_ref_vec_for_axis}
use architect_simulator.Registry.Members.{initialize, register_member}
use architect_simulator.Registry.Calls.{
  run, registers, supports, deactivates, requests, resets, flushes, distributes, Call,
}
use architect_simulator.Registry.Invariant.{Succeeds, initialize-IsConsistent, run-IsConsistent}
use architect_simulator.Registry.Again.{register_member-again}
use architect_simulator.Registry.Consistency.{IsConsistent}
use architect_simulator.Registry.Deactivation.{deactivate_member_lem}
use architect_simulator.Base.{get_elem?}
use architect_simulator.Base.Real.{integers}
use architect_simulator.Interactive.Host.{UeMember}
use architect_simulator.Registry.Solving.{find_key}
use architect_simulator.Registry.Members.{deactivate_member, deactivation, forget, component_at}
use architect_simulator.Interactive.Calls.{parts}
use architect_simulator.Interactive.Sessions.{by_patch, by_throw}
use architect_simulator.Registry.Loss.{Loss, execute_solve-IsStuck_iff}
use architect_simulator.Registry.Solving.{execute_solve}
use architect_simulator.Interactive.{loads_touched}
use architect_simulator.Interactive.Host.{Platform, threw}
use architect_simulator.Frame.Model.Samples.{two_pieces}
use architect_simulator.Registry.Bursts.{requests_all, merged, requests_all-merged}
use architect_simulator.Registry.Stuck.{
  IsStuck, Unseen, Solve, asks, marks, solve_steps, solve_steps-IsStuck,
}

-- A beam of length 3 from the origin.
abbrev beam : Component engine
beam = record {
  member_idx = negsuc 0;
  registered = false;
  cached_utilization = pos 0;
  material_id = pos 0;
  section_id = pos 0;
  end_i_offset = point 0 0 0;
  end_j_offset = point 3 0 0;
  owner = some (point 0 0 0);
}

abbrev blank : Registry engine
blank = record {
  current_model = empty_model;
  index_to_component = [];
  next_member_idx = 0;
  pending_patch = empty_patch;
  timer_armed = false;
  pending_rank = 0;
  session_started = false;
  needs_rebaseline = false;
  components = some beam ∷ [];
  engine = some (record { live = none; cached = none });
  has_world = true;
  broadcasts = [];
}

abbrev calls : List (Call engine)
calls =
    registers 0
    ∷ supports (point 0 0 0)
    ∷ requests unload_12
    ∷ flushes
    ∷ requests unload_1
    ∷ Call.fires
    ∷ distributes (record {
      singular = false;
      diagnostic = "";
      utilization = record { member_idx = pos 0; risk = pos 1 } ∷ [];
    })
    ∷ deactivates (pos 0)
    ∷ resets
    ∷ []

run-IsConsistent_example : Succeeds (run (initialize blank) calls)
run-IsConsistent_example = run-IsConsistent (initialize blank) calls (initialize-IsConsistent blank)

abbrev with_beam : Registry engine
with_beam = record blank {
  current_model = record empty_model {
    nodes =
        record {
          id = 0;
          position = point 0 0 0;
          fixed = replicate 6 false;
          prescribed = replicate 6 (pos 0);
        }
        ∷ record {
          id = 1;
          position = point 3 0 0;
          fixed = replicate 6 false;
          prescribed = replicate 6 (pos 0);
        }
        ∷ [];
    members =
        record {
          id = 0;
          i = 0;
          j = 1;
          mat_idx = pos 0;
          sec_idx = pos 0;
          ref_vec = point 0 0 1;
          release = replicate 12 false;
          active = true;
          tension_only = false;
        }
        ∷ [];
    materials = steel ∷ [];
    sections = square ∷ [];
  };
  index_to_component = (0, 0) ∷ [];
  next_member_idx = 1;
  components = some (record beam { member_idx = pos 0; registered = true }) ∷ [];
}

register_beam : register_member blank 0 ≡ some (with_beam, pos 0)
unfolding register_member norm vec_sub vec_add ◌+ℤ◌ ◌*ℤ◌ ◌-ℤ◌ pick_ref_vec_for_axis
register_beam = refl

register_member-again_example : register_member with_beam 0 ≡ some (with_beam, pos 0)
register_member-again_example = register_member-again blank 0 (with_beam, pos 0) register_beam

requests_all-merged_example :
    requests_all blank (unload_1 ∷ unload_12 ∷ [])
    ≡ request_solve blank (merged unload_1 (unload_12 ∷ []))
unfolding merge_patch
requests_all-merged_example =
    requests_all-merged blank unload_1 (unload_12 ∷ []) (unfold patch_rank merged in omega arith)

abbrev lost : Registry engine
lost = record with_beam { session_started = true }

solve_steps-IsStuck_example :
    IsStuck (solve_steps lost (asks unload_1 ∷ Solve.fires ∷ marks ∷ Solve.fires ∷ []))
    × Unseen lost (solve_steps lost (asks unload_1 ∷ Solve.fires ∷ marks ∷ Solve.fires ∷ []))
solve_steps-IsStuck_example =
    solve_steps-IsStuck lost (asks unload_1 ∷ Solve.fires ∷ marks ∷ Solve.fires ∷ []) (refl, refl)

beam-IsConsistent : IsConsistent with_beam
unfolding norm vec_sub ◌+ℤ◌ ◌*ℤ◌ ◌-ℤ◌ patch_rank
beam-IsConsistent = (
  (
    (
      (refl, (refl, tt)),
      ((refl, refl), ((refl, refl), tt)),
      (refl, tt),
      ((omega arith, omega arith, refl), tt),
      ((refl, tt), (tt, tt)),
    ),
    refl,
    (omega arith, tt),
  ),
  omega arith,
  λ w. omega arith,
)

abbrev beam_member : UeMember integers
beam_member = record {
  id = 0;
  i = 0;
  j = 1;
  mat_idx = pos 0;
  sec_idx = pos 0;
  ref_vec = point 0 0 1;
  release = replicate 12 false;
  active = true;
  tension_only = false;
}

abbrev registered_beam : Component engine
registered_beam = record beam { member_idx = pos 0; registered = true }

deactivate_member_lem_example :
    (get_elem? (deactivate_member with_beam (pos 0)).current_model.members 0
      ≡ some (record beam_member { active = false }))
    × ((deactivate_member with_beam (pos 0)).pending_patch
        ≡ merge_patch empty_patch (deactivation 0))
    × (component_at (deactivate_member with_beam (pos 0)).components 0
        ≡ some (forget registered_beam))
unfolding find_key component_at
deactivate_member_lem_example =
    deactivate_member_lem with_beam 0 0 beam_member registered_beam beam-IsConsistent refl refl refl
      (omega arith)

-- An engine whose constructor throws, with a session that was started before.
abbrev fragile : Platform
fragile = record engine { new_session = λ m o. threw }

abbrev loaded : Registry fragile
loaded = record {
  current_model = empty_model;
  index_to_component = [];
  next_member_idx = 0;
  pending_patch = unload_1;
  timer_armed = true;
  pending_rank = 1;
  session_started = true;
  needs_rebaseline = false;
  components = [];
  engine = some (record { live = some []; cached = some two_pieces });
  has_world = true;
  broadcasts = [];
}

execute_solve-IsStuck_iff_example :
    IsStuck (execute_solve loaded)
    ↔ Loss fragile (parts fragile (some []) (some two_pieces)) unload_1
execute_solve-IsStuck_iff_example =
    execute_solve-IsStuck_iff loaded (parts fragile (some []) (some two_pieces)) refl refl

-- The constructor throws for the model without loads, and the session is lost.
loaded-IsStuck : IsStuck (execute_solve loaded)
unfolding loads_touched
loaded-IsStuck =
    execute_solve-IsStuck_iff_example.1
      (inr (by_patch unload_1 [] two_pieces refl refl refl by_throw))
