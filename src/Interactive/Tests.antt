-- ===== src/Interactive/Tests.antt =====
-- Runs of the interactive subsystem, and its theorems at them.
use architect_simulator.Base.{◌≡◌, refl, true, false, List, [], ◌∷◌, none, some, inl}
use architect_simulator.Base.Int.{ℤ, pos}
use architect_simulator.Base.Real.{integers}
use architect_simulator.Frame.Types.{Dof6}
use architect_simulator.Frame.Model.{NodalLoad}
use architect_simulator.Frame.Model.Samples.{two_pieces}
use architect_simulator.Interactive.{Subsystem, apply_patch_and_resolve, loads_touched, patch_loads}
use architect_simulator.Interactive.Host.{Platform, UeLoad, threw, session}
use architect_simulator.Interactive.Loads.{set_load, add_load, set_loads, add_loads, plus}
use architect_simulator.Interactive.Patches.{load_at, set_load-add_load}
use architect_simulator.Interactive.Calls.{
  starts, applies, rebaselines, resolves, run, HasModel, run-HasModel, parts,
}
use architect_simulator.Interactive.Sessions.{
  run_gone, Fails, Loses, by_patch, by_throw, apply_forgets_toggles,
}
use architect_simulator.Interactive.Samples.{engine, no_patch, unload_1, unload_12, empty_def}

abbrev idle : Subsystem engine
idle = record { live = none; cached = none }

run-HasModel_example :
    HasModel engine (run engine idle (starts empty_def true ∷ applies unload_1 ∷ resolves ∷ []))
run-HasModel_example =
    run-HasModel engine idle (starts empty_def true ∷ applies unload_1 ∷ resolves ∷ []) (inl refl)

-- An engine that makes no session for a model without loads.
abbrev unloaded_fails : Platform
unloaded_fails = record engine {
  new_session = λ m o. elim m.nodal_loads [ [] ↦ threw | l ∷ ls ↦ session [] ];
}

abbrev started : Subsystem unloaded_fails
started = record { live = some []; cached = some two_pieces }

unload_Loses : Loses unloaded_fails started (applies unload_1)
unfolding loads_touched patch_loads add_loads set_loads
unload_Loses = by_patch unload_1 [] two_pieces refl refl refl by_throw

run_gone_example :
    ((run unloaded_fails started (applies unload_1 ∷ rebaselines ∷ resolves ∷ [])).live ≡ none)
    × Fails unloaded_fails
        (run unloaded_fails started (applies unload_1 ∷ rebaselines ∷ resolves ∷ []))
        no_patch
run_gone_example =
    run_gone unloaded_fails started (applies unload_1) (rebaselines ∷ resolves ∷ []) no_patch
      unload_Loses (refl, (refl, tt))

apply_forgets_toggles_example :
    apply_patch_and_resolve (parts engine (some []) (some two_pieces)) unload_1
    ≡ apply_patch_and_resolve
        (parts engine (some ((pos 1, false) ∷ [])) (some two_pieces))
        unload_12
unfolding loads_touched
apply_forgets_toggles_example =
    apply_forgets_toggles engine [] ((pos 1, false) ∷ []) two_pieces unload_1 unload_12 refl refl
      refl refl

abbrev push : UeLoad integers
push = record { node = pos 3; comp = pos 1 ∷ pos 2 ∷ pos 0 ∷ pos 0 ∷ pos 0 ∷ pos 0 ∷ [] }

abbrev pushed : Dof6 ℤ
pushed = record { ux = pos 1; uy = pos 2; uz = pos 0; rx = pos 0; ry = pos 0; rz = pos 0 }

abbrev before : List (NodalLoad integers)
before = record { node = pos 3; comp = pushed } ∷ []

set_load-add_load_example :
    (load_at (pos 3) (set_load push before) ≡ some pushed)
    × (load_at (pos 3) (add_load push before) ≡ some (plus integers pushed pushed))
unfolding load_at
set_load-add_load_example = set_load-add_load push pushed (pos 3) before refl
