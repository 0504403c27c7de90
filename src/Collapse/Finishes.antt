-- ===== src/Collapse/Finishes.antt =====
-- runProgressiveCollapse (FrameCore/Private/Collapse.cpp) from its start to its end.
use architect_simulator.Base.{
  ◌≡◌, refl, ap, sym, ◌∙◌, subst, ℕ, zero, suc, ◌+◌, ◌≤◌, ◌<◌, Bool, true, false, not, ◌||◌, List,
  [], ◌∷◌, ◌++◌, Option, none, some, length, length-append, if◌then◌else◌, arith,
}
use architect_simulator.Base.Int.{ℤ, pos, pos_part, ltb_ℤ}
use architect_simulator.Base.Real.{Real}
use architect_simulator.Frame.Types.{zero_of}
use architect_simulator.Frame.Model.{FrameModel}
use architect_simulator.Frame.Model.Verdict.{Verdict, ok, bad}
use architect_simulator.Frame.Model.Validate.{validate}
use architect_simulator.Collapse.{
  Engine, CollapseHingeEvent, CollapseOptions, invalid, CollapseStep, note, CollapseHistory,
}
use architect_simulator.Collapse.Cleanup.{scale_loads}
use architect_simulator.Collapse.Driver.{
  Run, Progress, ended, going, Driven, finished, out_of_fuel, step_once, drive, refuse,
  run_removals, run_validated, run_progressive_collapse,
}
use architect_simulator.Collapse.Steps.{
  OneEvent, Records, Closes, Stepped, ends, goes, step_once-Stepped,
}

module _ {R : Real} (engine : Engine R) (opts : CollapseOptions R) where
  -- The first step has the scenario's removals, every later step one event.
  abbrev pub Caused : ℕ → List ℤ → List ℤ → List (CollapseHingeEvent R) → R.carrier → Type 0
  Caused zero members shells hinges ratio = Unit
  Caused (suc n) members shells hinges ratio = OneEvent engine opts members shells hinges ratio

  -- Steps in order from a number on.
  abbrev pub Numbered : ℕ → List (CollapseStep R) → Type 0
  Numbered n [] = Unit
  Numbered n (s ∷ ss) =
      (s.step ≡ n)
      × Caused n s.removed_members s.removed_shells s.formed_hinges s.trigger_ratio
      × Numbered (suc n) ss

  Numbered-append :
      (n : ℕ) (xs : List (CollapseStep R)) (s : CollapseStep R)
      → Numbered n xs
      → s.step ≡ n + length xs
      → Caused (n + length xs) s.removed_members s.removed_shells s.formed_hinges s.trigger_ratio
      → Numbered n (xs ++ s ∷ [])
  Numbered-append n [] s h e c =
      let at : n + 0 ≡ n = omega arith in
      (
        e ∙ at,
        subst (λ k. Caused k s.removed_members s.removed_shells s.formed_hinges s.trigger_ratio) at
            c,
        tt,
      )
  Numbered-append n (x ∷ xs) s h e c =
      let at : n + suc (length xs) ≡ suc n + length xs = omega arith in
      (
        h.0,
        h.1,
        Numbered-append (suc n) xs s h.2 (e ∙ at) (
            subst (λ k. Caused k s.removed_members s.removed_shells s.formed_hinges s.trigger_ratio)
              at c),
      )

  -- A history is a refusal without steps, or steps within the budget whose last one fits the outcome.
  pub data IsHistory (h : CollapseHistory R) : Type 0 where
    rejected : h.outcome ≡ invalid → h.steps ≡ [] → IsHistory h
    ran :
        (before : List (CollapseStep R)) (last : CollapseStep R)
        → h.steps ≡ before ++ last ∷ []
        → length h.steps ≤ pos_part opts.max_steps
        → Numbered 0 h.steps
        → Closes engine opts h.outcome (length h.steps) last
        → IsHistory h

  abbrev pub Finishes : Driven R → Type 0
  Finishes (finished h) = IsHistory h
  Finishes out_of_fuel = ⊥

  CausedRun : Run R → Type 0
  CausedRun run =
      Caused (length run.steps) run.pending run.pending_shells run.pending_hinges run.pending_ratio

  Records-Numbered :
      (run : Run R) (s : CollapseStep R)
      → Numbered 0 run.steps
      → CausedRun run
      → Records engine opts run s
      → Numbered 0 (run.steps ++ s ∷ [])
  unfolding CausedRun
  Records-Numbered run s n c r =
      let at : 0 + length run.steps ≡ length run.steps = omega arith in
      Numbered-append 0 run.steps s n (r.0 ∙ sym at) (
        subst (λ k. Caused k s.removed_members s.removed_shells s.formed_hinges s.trigger_ratio)
          (sym at) (rw (r.1, r.2, r.3, r.4) c))

  length-snoc :
      (run : Run R) (s : CollapseStep R) (steps : List (CollapseStep R))
      → steps ≡ run.steps ++ s ∷ []
      → length steps ≡ suc (length run.steps)
  length-snoc run s steps e = omega (arith, ap length e, length-append run.steps (s ∷ []))

  OneEvent-CausedRun :
      (run next : Run R)
      → length next.steps ≡ suc (length run.steps)
      → OneEvent engine opts next.pending next.pending_shells next.pending_hinges next.pending_ratio
      → CausedRun next
  unfolding CausedRun
  OneEvent-CausedRun run next e o =
      subst (λ k. Caused k next.pending next.pending_shells next.pending_hinges next.pending_ratio)
        (sym e) o

  -- One round and what follows it, where what follows finishes.
  round-Finishes :
      (fuel : ℕ) (run : Run R) (p : Progress R)
      → Stepped engine opts run p
      → length run.steps < pos_part opts.max_steps
      → Numbered 0 run.steps
      → CausedRun run
      → ((next : Run R)
          → length next.steps ≡ suc (length run.steps)
          → length next.steps < pos_part opts.max_steps
          → Numbered 0 next.steps
          → CausedRun next
          → Finishes (drive engine opts fuel next))
      → Finishes (elim p [ ended h ↦ finished h | going next ↦ drive engine opts fuel next ])
  round-Finishes fuel run p (ends h s e r c) l n d f =
      let size = length-snoc run s h.steps e in
      ran run.steps s e (omega (arith, size, l))
        (subst (Numbered 0) (sym e) (Records-Numbered run s n d r))
        (subst (λ k. Closes engine opts h.outcome k s) (sym size) c)
  round-Finishes fuel run p (goes next s e r m o) l n d f =
      let size = length-snoc run s next.steps e in
      f next size (ground (arith, m, size))
        (subst (Numbered 0) (sym e) (Records-Numbered run s n d r))
        (OneEvent-CausedRun run next size o)

  drive-Finishes :
      (fuel : ℕ) (run : Run R)
      → fuel + length run.steps ≡ pos_part opts.max_steps
      → length run.steps < pos_part opts.max_steps
      → Numbered 0 run.steps
      → CausedRun run
      → Finishes (drive engine opts fuel run)
  unfolding drive
  drive-Finishes zero run e l n c = omega (arith, e, l)
  drive-Finishes (suc fuel) run e l n c =
      round-Finishes fuel run (step_once engine opts run) (step_once-Stepped engine opts run) l n c
        (λ next size m n' c'. drive-Finishes fuel next (omega (arith, e, size)) m n' c')

  run_removals-Finishes :
      (work : FrameModel R) (mid sid : Option ℤ)
      → 1 ≤ pos_part opts.max_steps
      → Finishes (run_removals engine opts work mid sid)
  unfolding run_removals CausedRun
  run_removals-Finishes work (some id) sid l = rejected refl refl
  run_removals-Finishes work none (some sid) l = rejected refl refl
  run_removals-Finishes work none none l =
      drive-Finishes (pos_part opts.max_steps) _ (omega arith) (omega (arith, l)) tt tt

  run_validated-Finishes :
      (model : FrameModel R) (v : Verdict)
      → 1 ≤ pos_part opts.max_steps
      → Finishes (run_validated engine opts model v)
  unfolding run_validated
  run_validated-Finishes model (bad why) l = rejected refl refl
  run_validated-Finishes model ok l = run_removals-Finishes (scale_loads model opts.dlf) _ _ l

  -- The driver ends on every model, with every options and with any engine, within maxSteps recorded
  -- steps, which are numbered from 0. Each step after the first removes one element whose ratio is above
  -- the threshold, or, with plastic hinges only, forms one hinge whose ratio is at least 1. The last step
  -- is solved where the outcome is Stable or MaxSteps, then with the budget used up, and is not where it
  -- is Collapsed; a run that is refused has no steps.
  pub run_progressive_collapse-Finishes :
      (model : FrameModel R) → Finishes (run_progressive_collapse engine opts model)
  unfolding run_progressive_collapse
  run_progressive_collapse-Finishes model =
      go (ltb_ℤ opts.max_steps (pos 1)) refl
        (not (R.is_finite opts.dlf) || R.le opts.dlf (zero_of R))
        (not (R.is_finite opts.remove_threshold) || R.lt opts.remove_threshold (zero_of R))
    where
      go :
          (a : Bool)
          → ltb_ℤ opts.max_steps (pos 1) ≡ a
          → (b c : Bool)
          → Finishes (
              if a
              then refuse engine opts (note "CollapseOptions.maxSteps must be >= 1")
              else if b
              then refuse engine opts (note "CollapseOptions.dlf must be finite and > 0")
              else if c
              then refuse engine opts
                  (note "CollapseOptions.removeThreshold must be finite and >= 0")
              else run_validated engine opts model (validate model (R.lit 1 6)))
      go true e b c = rejected refl refl
      go false e true c = rejected refl refl
      go false e false true = rejected refl refl
      go false e false false =
          run_validated-Finishes model (validate model (R.lit 1 6)) (ground (arith, e))
