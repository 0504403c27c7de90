-- ===== src/Collapse/Driver.antt =====
-- runProgressiveCollapse of FrameCore/Private/Collapse.cpp. The loop takes fuel, and running out of it is
-- an outcome of its own; maxSteps rounds are given.
use architect_simulator.Base.{
  ℕ, zero, suc, ◌*◌, true, false, not, ◌||◌, List, [], ◌∷◌, ◌++◌, Option, none, some, if◌then◌else◌,
  length, replicate,
}
use mathlib.Core.List.{foldl}
use architect_simulator.Base.Int.{ℤ, pos, pos_part, ltb_ℤ, leb_ℤ}
use architect_simulator.Base.Real.{Real}
use architect_simulator.Frame.Types.{zero_of}
use architect_simulator.Frame.Model.{FrameModel, member_index, shell_index}
use architect_simulator.Frame.Model.Verdict.{Verdict, ok, bad}
use architect_simulator.Frame.Model.Validate.{validate}
use architect_simulator.Frame.Connectivity.Cluster.{ConnectivityResult, analyze_connectivity}
use architect_simulator.Collapse.{
  FailMode, unfailed, SolveResult, Engine, CollapseHingeEvent, CollapseOptions, CollapseOutcome,
  stable, collapsed, out_of_steps, invalid, CollapseStep, Diagnostic, nothing, note, invalid_model,
  missing_member, missing_shell, mechanism, CollapseHistory,
}
use architect_simulator.Collapse.Screen.{
  EventKind, none_yet, member_removal, shell_removal, hinge, Event, screen, safety_factor,
}
use architect_simulator.Collapse.Cleanup.{
  any_active, deactivate_shell_of, clean_up, scale_loads, remove_member, form_hinge,
}

-- What the loop carries from one step to the next.
pub record Run (R : Real) : Type 0 where
  pub work : FrameModel R
  pub pending : List ℤ
  pub pending_shells : List ℤ
  pub pending_hinges : List (CollapseHingeEvent R)
  pub driver_formed : List (CollapseHingeEvent R)
  pub pending_mode : FailMode
  pub pending_ratio : R.carrier
  pub steps : List (CollapseStep R)

pub data Progress (R : Real) : Type 0 where
  ended : CollapseHistory R → Progress R
  going : Run R → Progress R

pub data Driven (R : Real) : Type 0 where
  finished : CollapseHistory R → Driven R
  out_of_fuel : Driven R

module _ {R : Real} (engine : Engine R) (opts : CollapseOptions R) where
  -- The step's record with what was applied.
  unfoldable pub opened : ℕ → Run R → CollapseStep R
  opened step run = record {
    step = step;
    removed_members = run.pending;
    removed_shells = run.pending_shells;
    formed_hinges = run.pending_hinges;
    mode = run.pending_mode;
    trigger_ratio = run.pending_ratio;
    detached = [];
    solved = false;
    max_dc = zero_of R;
    safety_factor = zero_of R;
    pivot_margin = zero_of R;
    u = [];
  }

  unfoldable pub apply_pending : Run R → FrameModel R
  unfolding remove_member deactivate_shell_of form_hinge
  apply_pending run =
      foldl (form_hinge engine)
        (foldl deactivate_shell_of
          (foldl (remove_member engine run.driver_formed) run.work run.pending) run.pending_shells)
        run.pending_hinges

  abbrev pub close :
      List (CollapseStep R) → CollapseStep R → CollapseOutcome → Diagnostic → Progress R
  close steps s outcome diagnostic =
      ended (record { outcome = outcome; diagnostic = diagnostic; steps = steps ++ s ∷ [] })

  -- The switch on the kind of the winning event, which the next step applies.
  abbrev pub queue_kind : Run R → Event R → EventKind → Run R
  queue_kind run e member_removal = record run {
    pending = e.id ∷ [];
    pending_shells = [];
    pending_hinges = [];
    pending_mode = e.mode;
    pending_ratio = e.ratio;
  }
  queue_kind run e shell_removal = record run {
    pending = [];
    pending_shells = e.id ∷ [];
    pending_hinges = [];
    pending_mode = e.mode;
    pending_ratio = e.ratio;
  }
  queue_kind run e hinge = record run {
    pending = [];
    pending_shells = [];
    pending_hinges = (record { member = e.id; dof = e.dof; mp = e.mp_signed }) ∷ [];
    pending_mode = e.mode;
    pending_ratio = e.ratio;
  }
  queue_kind run e none_yet = record run {
    pending = [];
    pending_shells = [];
    pending_hinges = (record { member = e.id; dof = e.dof; mp = e.mp_signed }) ∷ [];
    pending_mode = e.mode;
    pending_ratio = e.ratio;
  }

  unfoldable pub queue : Run R → Event R → Run R
  queue run e = queue_kind run e e.kind

  -- The terminal checks after the screen; the run has what the step left.
  unfoldable pub settle : Run R → CollapseStep R → Event R → Progress R
  unfolding queue
  settle run s best =
      if not best.eligible
      then close run.steps s stable nothing
      else if leb_ℤ opts.max_steps (pos (suc (length run.steps)))
      then close run.steps s out_of_steps (note "step budget exhausted with events still occurring")
      else going (queue (record run { steps = run.steps ++ s ∷ [] }) best)

  unfoldable pub solve_step : Run R → CollapseStep R → SolveResult R engine.ShellForces → Progress R
  unfolding screen safety_factor settle
  solve_step run s r =
      if r.singular
      then close run.steps (record s { pivot_margin = r.pivot_margin }) collapsed
          (mechanism r.diagnostic)
      else (let sc = screen engine opts run.work r in
          settle run
            (record s {
              solved = true;
              u = r.u;
              pivot_margin = r.pivot_margin;
              max_dc = if sc.any then sc.max_dc else zero_of R;
              safety_factor = safety_factor engine opts sc;
            })
            sc.best)

  -- After the connectivity of the working model is known.
  unfoldable pub connected : Run R → CollapseStep R → ConnectivityResult R → Progress R
  unfolding clean_up any_active solve_step
  connected run s conn =
      let work = clean_up run.work conn in
      let s₁ = record s { detached = conn.detached } in
      if not conn.valid
      then close run.steps s invalid (note "connectivity analysis failed on the working model")
      else if not (any_active work)
      then close run.steps (record s₁ { u = replicate (length work.nodes * 6) (zero_of R) })
          collapsed (note "no active element remains grounded")
      else solve_step (record run { work = work }) s₁ (engine.solve work)

  -- One round of the loop.
  unfoldable pub step_once : Run R → Progress R
  unfolding opened apply_pending connected
  step_once run =
      let work = apply_pending run in
      let next = record run {
        work = work;
        driver_formed = run.driver_formed ++ run.pending_hinges;
      } in
      connected next (opened (length run.steps) run) (analyze_connectivity work)

  unfoldable pub drive : ℕ → Run R → Driven R
  unfolding step_once
  drive zero run = out_of_fuel
  drive (suc fuel) run = elim (step_once run) [
    | ended h ↦ finished h
    | going next ↦ drive fuel next
  ]

  -- The first id that is not there.
  unfoldable pub first_missing : (ℤ → Option ℕ) → List ℤ → Option ℤ
  first_missing find [] = none
  first_missing find (id ∷ ids) =
      let later = first_missing find ids in elim (find id) [ none ↦ some id | some k ↦ later ]

  abbrev pub refuse : Diagnostic → Driven R
  refuse why = finished (record { outcome = invalid; diagnostic = why; steps = [] })

  unfoldable pub run_removals : FrameModel R → Option ℤ → Option ℤ → Driven R
  unfolding drive
  run_removals work (some id) sid = refuse (missing_member id)
  run_removals work none (some sid) = refuse (missing_shell sid)
  run_removals work none none = drive (pos_part opts.max_steps) (record {
    work = work;
    pending = opts.initial_removals;
    pending_shells = opts.initial_shell_removals;
    pending_hinges = [];
    driver_formed = [];
    pending_mode = unfailed;
    pending_ratio = zero_of R;
    steps = [];
  })

  unfoldable pub run_validated : FrameModel R → Verdict → Driven R
  unfolding run_removals first_missing scale_loads
  run_validated model (bad why) = refuse (invalid_model why)
  run_validated model ok =
      let work = scale_loads model opts.dlf in
      run_removals work (first_missing (member_index work) opts.initial_removals)
        (first_missing (shell_index work) opts.initial_shell_removals)

  unfoldable pub run_progressive_collapse : FrameModel R → Driven R
  unfolding run_validated
  run_progressive_collapse model =
      if ltb_ℤ opts.max_steps (pos 1)
      then refuse (note "CollapseOptions.maxSteps must be >= 1")
      else if not (R.is_finite opts.dlf) || R.le opts.dlf (zero_of R)
      then refuse (note "CollapseOptions.dlf must be finite and > 0")
      else if not (R.is_finite opts.remove_threshold) || R.lt opts.remove_threshold (zero_of R)
      then refuse (note "CollapseOptions.removeThreshold must be finite and >= 0")
      else run_validated model (validate model (R.lit 1 6))
