-- ===== src/Collapse/Steps.antt =====
-- What one round of runProgressiveCollapse (FrameCore/Private/Collapse.cpp) records and queues.
use architect_simulator.Base.{
  ◌≡◌, refl, ℕ, suc, ◌*◌, Bool, true, false, not, List, [], ◌∷◌, ◌++◌, length, replicate,
  if◌then◌else◌,
}
use architect_simulator.Base.Int.{ℤ, pos, leb_ℤ}
use architect_simulator.Base.Real.{Real}
use architect_simulator.Frame.Types.{zero_of}
use architect_simulator.Frame.Model.{FrameModel}
use architect_simulator.Frame.Connectivity.Cluster.{ConnectivityResult, analyze_connectivity}
use architect_simulator.Collapse.{
  SolveResult, Engine, CollapseHingeEvent, CollapseOptions, CollapseOutcome, stable, collapsed,
  out_of_steps, invalid, CollapseStep, nothing, note, mechanism, CollapseHistory,
}
use architect_simulator.Collapse.Screen.{
  EventKind, none_yet, member_removal, shell_removal, hinge, Event, Screen, screen, safety_factor,
}
use architect_simulator.Collapse.Cleanup.{any_active, clean_up}
use architect_simulator.Collapse.Eligible.{Reached, IsEvent, screen-IsEvent}
use architect_simulator.Collapse.Driver.{
  Run, Progress, ended, going, opened, apply_pending, close, queue, queue_kind, settle, solve_step,
  connected, step_once,
}

module _ {R : Real} (engine : Engine R) (opts : CollapseOptions R) where
  -- Exactly one element is removed or hinged, and its ratio had reached its limit.
  pub data OneEvent (members shells : List ℤ) (hinges : List (CollapseHingeEvent R))
      (ratio : R.carrier) : Type 0 where
    removed_member :
        (id : ℤ)
        → members ≡ id ∷ []
        → shells ≡ []
        → hinges ≡ []
        → R.lt opts.remove_threshold ratio ≡ true
        → OneEvent members shells hinges ratio
    removed_shell :
        (id : ℤ)
        → members ≡ []
        → shells ≡ id ∷ []
        → hinges ≡ []
        → R.lt opts.remove_threshold ratio ≡ true
        → OneEvent members shells hinges ratio
    formed_hinge :
        (h : CollapseHingeEvent R)
        → members ≡ []
        → shells ≡ []
        → hinges ≡ h ∷ []
        → opts.plastic_hinges ≡ true
        → R.le (R.lit 1 0) ratio ≡ true
        → OneEvent members shells hinges ratio

  -- The step has the number of the steps before it and what was pending.
  abbrev pub Records : Run R → CollapseStep R → Type 0
  Records run s =
      (s.step ≡ length run.steps)
      × (s.removed_members ≡ run.pending)
      × (s.removed_shells ≡ run.pending_shells)
      × (s.formed_hinges ≡ run.pending_hinges)
      × (s.trigger_ratio ≡ run.pending_ratio)

  -- What the last step of a run has, by its outcome.
  abbrev pub Closes : CollapseOutcome → ℕ → CollapseStep R → Type 0
  Closes stable n s = s.solved ≡ true
  Closes collapsed n s = s.solved ≡ false
  Closes out_of_steps n s = (s.solved ≡ true) × (leb_ℤ opts.max_steps (pos n) ≡ true)
  Closes invalid n s = s.solved ≡ false

  pub data Stepped (run : Run R) : Progress R → Type 0 where
    ends :
        (h : CollapseHistory R) (s : CollapseStep R)
        → h.steps ≡ run.steps ++ s ∷ []
        → Records run s
        → Closes h.outcome (suc (length run.steps)) s
        → Stepped run (ended h)
    goes :
        (next : Run R) (s : CollapseStep R)
        → next.steps ≡ run.steps ++ s ∷ []
        → Records run s
        → leb_ℤ opts.max_steps (pos (suc (length run.steps))) ≡ false
        → OneEvent next.pending next.pending_shells next.pending_hinges next.pending_ratio
        → Stepped run (going next)

  queue-Stepped :
      (run : Run R) (s : CollapseStep R) (best : Event R) (kind : EventKind)
      → Records run s
      → leb_ℤ opts.max_steps (pos (suc (length run.steps))) ≡ false
      → Reached engine opts kind best.ratio
      → Stepped run
          (going (queue_kind engine opts (record run { steps = run.steps ++ s ∷ [] }) best kind))
  queue-Stepped run s best member_removal r l e =
      goes _ s refl r l (removed_member best.id refl refl refl e)
  queue-Stepped run s best shell_removal r l e =
      goes _ s refl r l (removed_shell best.id refl refl refl e)
  queue-Stepped run s best hinge r l e = goes _ s refl r l (formed_hinge _ refl refl refl e.0 e.1)
  queue-Stepped run s best none_yet r l e = elim e [ ]

  settle-Stepped :
      (run : Run R) (s : CollapseStep R) (best : Event R)
      → Records run s
      → s.solved ≡ true
      → IsEvent engine opts best
      → Stepped run (settle engine opts run s best)
  unfolding settle queue
  settle-Stepped run s best r v i =
      go best.eligible refl (leb_ℤ opts.max_steps (pos (suc (length run.steps)))) refl
    where
      go :
          (a : Bool)
          → best.eligible ≡ a
          → (b : Bool) → leb_ℤ opts.max_steps (pos (suc (length run.steps))) ≡ b
          → Stepped run (
              if not a
              then close engine opts run.steps s stable nothing
              else if b
              then close engine opts run.steps s out_of_steps
                  (note "step budget exhausted with events still occurring")
              else going (
                  queue_kind engine opts
                    (record run { steps = run.steps ++ s ∷ [] })
                    best
                    best.kind))
      go false e b l = ends _ s refl r v
      go true e true l = ends _ s refl r (v, l)
      go true e false l = queue-Stepped run s best best.kind r l (i e)

  solve_step-Stepped :
      (run : Run R) (s : CollapseStep R) (r : SolveResult R engine.ShellForces)
      → Records run s
      → s.solved ≡ false
      → Stepped run (solve_step engine opts run s r)
  unfolding solve_step
  solve_step-Stepped run s r k f = go r.singular
    where
      sc : Screen R
      sc = screen engine opts run.work r

      s₁ : CollapseStep R
      s₁ = record s {
        solved = true;
        u = r.u;
        pivot_margin = r.pivot_margin;
        max_dc = if sc.any then sc.max_dc else zero_of R;
        safety_factor = safety_factor engine opts sc;
      }

      go :
          (b : Bool)
          → Stepped run (
              if b
              then close engine opts run.steps
                  (record s { pivot_margin = r.pivot_margin })
                  collapsed
                  (mechanism r.diagnostic)
              else settle engine opts run s₁ sc.best)
      go true = ends _ (record s { pivot_margin = r.pivot_margin }) refl k f
      go false = settle-Stepped run s₁ sc.best k refl (screen-IsEvent engine opts run.work r)

  connected-Stepped :
      (run : Run R) (s : CollapseStep R) (conn : ConnectivityResult R)
      → Records run s
      → s.solved ≡ false
      → Stepped run (connected engine opts run s conn)
  unfolding connected
  connected-Stepped run s conn k f = go (not conn.valid) (not (any_active work))
    where
      work : FrameModel R
      work = clean_up run.work conn

      s₁ : CollapseStep R
      s₁ = record s { detached = conn.detached }

      last : CollapseStep R
      last = record s₁ { u = replicate (length work.nodes * 6) (zero_of R) }

      relabel : (p : Progress R) → Stepped (record run { work = work }) p → Stepped run p
      relabel p (ends h t e r c) = ends h t e r c
      relabel p (goes next t e r l o) = goes next t e r l o

      go :
          (a b : Bool)
          → Stepped run (
              if a
              then close engine opts run.steps s invalid
                  (note "connectivity analysis failed on the working model")
              else if b
              then close engine opts run.steps last collapsed
                  (note "no active element remains grounded")
              else solve_step engine opts (record run { work = work }) s₁ (engine.solve work))
      go true b = ends _ s refl k f
      go false true = ends _ last refl k f
      go false false =
          relabel _ (solve_step-Stepped (record run { work = work }) s₁ (engine.solve work) k f)

  -- A round records what was pending under the next number. It ends the run, or it queues one event and
  -- the budget is not yet reached.
  pub step_once-Stepped : (run : Run R) → Stepped run (step_once engine opts run)
  unfolding step_once opened
  step_once-Stepped run =
      let work = apply_pending engine opts run in
      relabel _ (
        connected-Stepped
          (record run { work = work; driver_formed = run.driver_formed ++ run.pending_hinges })
          (opened engine opts (length run.steps) run) (analyze_connectivity work)
          (refl, refl, refl, refl, refl) refl)
    where
      relabel :
          (p : Progress R)
          → Stepped
              (record run {
                work = apply_pending engine opts run;
                driver_formed = run.driver_formed ++ run.pending_hinges;
              })
              p
          → Stepped run p
      relabel p (ends h t e r c) = ends h t e r c
      relabel p (goes next t e r l o) = goes next t e r l o
