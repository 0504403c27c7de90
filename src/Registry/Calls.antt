-- ===== src/Registry/Calls.antt =====
-- The calls that the registry takes between Initialize and Deinitialize, as steps.
use architect_simulator.Base.{ℕ, Bool, List, [], ◌∷◌, ◌++◌, Option, none, some}
use architect_simulator.Base.Int.{ℤ}
use architect_simulator.Frame.Types.{Vec3}
use architect_simulator.Frame.Model.{Material, Section, ShellQuad, MemberUdl, ShellPressure}
use architect_simulator.Interactive.Host.{Platform, Patch, UeLoad, UeResult}
use architect_simulator.Registry.{Registry, Component}
use architect_simulator.Registry.Model.{update}
use architect_simulator.Registry.Solving.{
  request_solve, mark_needs_rebaseline, timer_fires, flush_and_start_session,
  distribute_solve_result,
}
use architect_simulator.Registry.Boundary.{
  register_fixed_support, restore_libraries, apply_fixity_at, inject_nodal_loads,
  inject_member_udls, inject_shells, inject_shell_pressures, find_or_add_node_public,
  set_member_flags,
}
use architect_simulator.Registry.Members.{
  reset, state_of, begin_play, register_member, deactivate_member, end_play,
}

pub data Call (P : Platform) : Type 0 where
  resets : Call P
  supports : Vec3 P.real → Call P
  restores : List (Material P.real) → List (Section P.real) → Call P
  fixes : Vec3 P.real → List Bool → List P.real.carrier → Call P
  injects_loads : List (UeLoad P.real) → Call P
  injects_udls : List (MemberUdl P.real) → Call P
  injects_shells : List (ShellQuad P.real) → Call P
  injects_pressures : List (ShellPressure P.real) → Call P
  finds : Vec3 P.real → Call P
  flags : ℤ → Bool → List Bool → Call P
  registers : ℕ → Call P
  deactivates : ℤ → Call P
  begins_play : ℕ → Call P
  ends_play : ℕ → Call P
  requests : Patch P.real → Call P
  flushes : Call P
  distributes : UeResult P.real → Call P
  marks : Call P
  fires : Call P
  spawns : Component P → Call P
  destroys : ℕ → Call P

module _ {P : Platform} where
  -- The state after a call; none where a check() of the code fails.
  unfoldable pub step : Registry P → Call P → Option (Registry P)
  step s resets = some (reset s)
  step s (supports p) = some (register_fixed_support s p).0
  step s (restores ms ss) = some (restore_libraries s ms ss).0
  step s (fixes p fixed prescribed) = some (apply_fixity_at s p fixed prescribed).0
  step s (injects_loads ls) = some (inject_nodal_loads s ls)
  step s (injects_udls us) = some (inject_member_udls s us)
  step s (injects_shells qs) = some (inject_shells s qs)
  step s (injects_pressures ps) = some (inject_shell_pressures s ps)
  step s (finds p) = some (find_or_add_node_public s p).0
  step s (flags i t r) = some (set_member_flags s i t r).0
  step s (registers ref) = state_of (register_member s ref)
  step s (begins_play ref) = begin_play s ref
  step s (deactivates i) = some (deactivate_member s i)
  step s (ends_play ref) = some (end_play s ref)
  step s (requests p) = some (request_solve s p)
  step s flushes = some (flush_and_start_session s).0
  step s (distributes r) = some (distribute_solve_result s r)
  step s marks = some (mark_needs_rebaseline s)
  step s fires = some (timer_fires s)
  step s (spawns c) = some (record s { components = s.components ++ some c ∷ [] })
  step s (destroys ref) = some (record s { components = update s.components ref (λ c. none) })

  unfoldable pub run : Registry P → List (Call P) → Option (Registry P)
  unfolding step
  run s [] = some s
  run s (c ∷ cs) = elim (step s c) [ none ↦ none | some t ↦ run t cs ]
