-- ===== src/Interactive.antt =====
-- UFrameInteractiveSubsystem of Plugins/FrameSolver/Source/FrameCoreUE/Private/FrameInteractiveSubsystem.cpp:
-- one engine session and the model that it was made from.
pub mod Calls
pub mod Host
pub mod Loads
pub mod Patches
pub mod Samples
pub mod Sessions
pub mod Tests
use Prim.Native.String.{String}
use mathlib.Core.List.{foldl}
use architect_simulator.Base.{
  Bool, true, false, not, ◌&&◌, ◌||◌, List, [], ◌∷◌, Option, none, some, if◌then◌else◌,
}
use architect_simulator.Base.Int.{ℤ, eqb_ℤ}
use architect_simulator.Base.Real.{Real}
use architect_simulator.Frame.Types.{Dof6}
use architect_simulator.Frame.Model.{FrameModel, NodalLoad}
use Host.{
  Platform, UeLoad, ModelDef, Patch, UeResult, Made, threw, invalid, session, Marshalled, refused,
  model,
}
use Loads.{set_loads, add_loads}

pub record Subsystem (P : Platform) : Type 0 where
  pub live : Option P.Session
  pub cached : Option (FrameModel P.real)

abbrev pub is_empty : {A : Type 0} → List A → Bool
is_empty [] = true
is_empty (x ∷ xs) = false

module _ {R : Real} where
  -- Reset, then set, then add.
  unfoldable pub patch_loads : Patch R → FrameModel R → FrameModel R
  patch_loads p m =
      let kept = if p.reset_loads then [] else m.nodal_loads in
      record m { nodal_loads = add_loads p.add_loads (set_loads p.set_loads kept) }

  unfoldable pub loads_touched : Patch R → Bool
  loads_touched p = p.reset_loads || not (is_empty p.set_loads) || not (is_empty p.add_loads)

  abbrev pub failed : String → UeResult R
  failed why = record { singular = true; diagnostic = why; utilization = [] }

module _ (P : Platform) where
  -- The toggles of a patch, in the order of the four loops.
  unfoldable pub toggle : Patch P.real → P.Session → P.Session
  toggle p s₀ =
      let s₁ =
        foldl (λ (s : P.Session) (id : ℤ). P.set_member_active s id false) s₀
          p.deactivate_members in
      let s₂ =
        foldl (λ (s : P.Session) (id : ℤ). P.set_member_active s id true) s₁ p.reactivate_members in
      let s₃ =
        foldl (λ (s : P.Session) (id : ℤ). P.set_shell_active s id false) s₂ p.deactivate_shells in
      foldl (λ (s : P.Session) (id : ℤ). P.set_shell_active s id true) s₃ p.reactivate_shells

module _ {P : Platform} where
  -- Session and Cached are deleted and set to null.
  unfoldable pub end_session : Subsystem P → Subsystem P
  end_session s = record { live = none; cached = none }

  -- `new ReSolveSession(Cached->Model, eopts)` in StartSession, and what follows.
  unfoldable pub open_session : FrameModel P.real → Made P.Session → Subsystem P × Bool
  open_session m threw = (record { live = none; cached = none }, false)
  open_session m (invalid why) = (record { live = none; cached = none }, false)
  open_session m (session s) = (record { live = some s; cached = some m }, true)

  unfoldable pub start_marshalled : P.Options → Marshalled P.real → Subsystem P × Bool
  unfolding open_session
  start_marshalled opts (refused why) = (record { live = none; cached = none }, false)
  start_marshalled opts (model m) = open_session m (P.new_session m opts)

  -- The session that is there is ended first.
  unfoldable pub start_session : Subsystem P → ModelDef P.real → P.Options → Subsystem P × Bool
  unfolding start_marshalled
  start_session s def opts = start_marshalled opts (P.from_blueprint def)

  -- Session->solve(nullptr), marshalled.
  unfoldable pub solve_with : P.Session → FrameModel P.real → Subsystem P × UeResult P.real × Bool
  solve_with s m =
      let (s', r) = P.solve s in
      (record { live = some s'; cached = some m }, P.to_blueprint m r, not (P.is_singular r))

  -- The session made anew after the loads have changed.
  unfoldable pub renewed : FrameModel P.real → Made P.Session → Subsystem P × UeResult P.real × Bool
  unfolding solve_with
  renewed m threw = (
    record { live = none; cached = some m },
    failed "ApplyPatchAndResolve: session re-init threw",
    false,
  )
  renewed m (invalid why) = (record { live = none; cached = some m }, failed why, false)
  renewed m (session s) = solve_with s m

  unfoldable pub patch_session :
      Patch P.real → P.Session → FrameModel P.real → Subsystem P × UeResult P.real × Bool
  unfolding toggle patch_loads loads_touched renewed solve_with
  patch_session p s m =
      let toggled = toggle P p s in
      let m' = patch_loads p m in
      if loads_touched p
      then renewed m' (P.new_session m' P.default_options)
      else solve_with toggled m'

  unfoldable pub apply_patch_and_resolve :
      Subsystem P → Patch P.real → Subsystem P × UeResult P.real × Bool
  unfolding patch_session
  apply_patch_and_resolve s p = elim s.live [
    | none ↦ (s, failed "ApplyPatchAndResolve: no active session", false)
    | some live ↦ elim s.cached [
      | none ↦ (s, failed "ApplyPatchAndResolve: no active session", false)
      | some m ↦ patch_session p live m
    ]
  ]

  unfoldable pub rebaseline : Subsystem P → Subsystem P
  rebaseline s = elim s.live [ none ↦ s | some live ↦ record s { live = some (P.rebaseline live) } ]

  -- A solve with no patch.
  unfoldable pub resolve_current : Subsystem P → Subsystem P × UeResult P.real × Bool
  unfolding solve_with
  resolve_current s = elim s.live [
    | none ↦ (s, failed "ResolveCurrent: no active session", false)
    | some live ↦ elim s.cached [
      | none ↦ (s, failed "ResolveCurrent: no active session", false)
      | some m ↦ solve_with live m
    ]
  ]
