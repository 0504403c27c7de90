-- ===== src/Registry/Stuck.antt =====
-- The registry once its engine has lost the session that the registry takes to be started.
use architect_simulator.Base.{
  ◌≡◌, refl, ap, ◌∙◌, ◌+◌, Bool, true, false, List, [], ◌∷◌, Option, none, some, if◌then◌else◌, ltb,
}
use architect_simulator.Interactive.{Subsystem, rebaseline, apply_patch_and_resolve}
use architect_simulator.Interactive.Host.{Platform, Patch, UeResult}
use architect_simulator.Registry.{Registry, max_rank_before_rebaseline}
use architect_simulator.Registry.Solving.{
  drop_pending, solve_flushed, flush_and_start_session, execute_solve, solve_started, rebaselined,
  finish_solve, request_solve, timer_fires, mark_needs_rebaseline, merge_patch, patch_rank,
}

-- The calls that ask for a solve.
pub data Solve (P : Platform) : Type 0 where
  asks : Patch P.real → Solve P
  marks : Solve P
  fires : Solve P

module _ {P : Platform} where
  abbrev pub Gone : Option (Subsystem P) → Type 0
  Gone none = ⊥
  Gone (some e) = e.live ≡ none

  -- The registry takes a session to be started that the engine does not have.
  abbrev pub IsStuck : Registry P → Type 0
  IsStuck s = (s.session_started ≡ true) × Gone s.engine

  -- What the components and the listeners see.
  abbrev pub Unseen : Registry P → Registry P → Type 0
  Unseen s t = (t.broadcasts ≡ s.broadcasts) × (t.components ≡ s.components)

  abbrev Stays : Registry P → Registry P → Type 0
  Stays s t = IsStuck t × Unseen s t

  rebaseline-gone : (e : Subsystem P) → e.live ≡ none → rebaseline e ≡ e
  unfolding rebaseline
  rebaseline-gone e h = rw h refl

  apply-gone :
      (e : Subsystem P) (p : Patch P.real)
      → e.live ≡ none
      → ((apply_patch_and_resolve e p).0 ≡ e) × ((apply_patch_and_resolve e p).2 ≡ false)
  unfolding apply_patch_and_resolve
  apply-gone e p h = rw h (refl, refl)

  finish_solve-Stays :
      (s : Registry P) (r : Subsystem P × UeResult P.real × Bool)
      → s.session_started ≡ true
      → r.0.live ≡ none
      → r.2 ≡ false
      → Stays s (finish_solve s r)
  unfolding finish_solve
  finish_solve-Stays s (e, res, false) h l o = ((h, l), (refl, refl))
  finish_solve-Stays s (e, res, true) h l o = cc

  rebaselined-Stays :
      (b : Bool) (s : Registry P) (e : Subsystem P)
      → s.session_started ≡ true
      → e.live ≡ none
      → let due = rebaselined b s e in
        Stays s (finish_solve due.0 (apply_patch_and_resolve due.1 due.0.pending_patch))
  unfolding rebaselined
  rebaselined-Stays false s e h l =
      let a = apply-gone e s.pending_patch l in
      finish_solve-Stays s (apply_patch_and_resolve e s.pending_patch) h (ap (λ x. x.live) a.0 ∙ l)
        a.1
  rebaselined-Stays true s e h l =
      let same = rebaseline-gone e l in
      let l' : (rebaseline e).live ≡ none = ap (λ x. x.live) same ∙ l in
      let a = apply-gone (rebaseline e) s.pending_patch l' in
      finish_solve-Stays (record s { needs_rebaseline = false; pending_rank = 0 })
        (apply_patch_and_resolve (rebaseline e) s.pending_patch) h (ap (λ x. x.live) a.0 ∙ l') a.1

  execute_solve-Stays : (s : Registry P) → IsStuck s → Stays s (execute_solve s)
  unfolding execute_solve solve_started
  execute_solve-Stays s (h, g) = go s.engine g s.session_started h
    where
      go :
          (o : Option (Subsystem P))
          → Gone o
          → (b : Bool) → b ≡ true
          → Stays s (elim o [
            | none ↦ drop_pending s
            | some e ↦ if b then solve_started s e else solve_flushed (flush_and_start_session s)
          ])
      go none g b t = absurd g
      go (some e) g false t = cc
      go (some e) g true t = (rebaselined-Stays s.needs_rebaseline s e h g)

  request_solve-Stays :
      (s : Registry P) (p : Patch P.real) → IsStuck s → Stays s (request_solve s p)
  unfolding request_solve
  request_solve-Stays s p h =
      go s.has_world (ltb max_rank_before_rebaseline (s.pending_rank + patch_rank p))
    where
      s₁ : Registry P
      s₁ = record s {
        pending_patch = merge_patch s.pending_patch p;
        pending_rank = s.pending_rank + patch_rank p;
      }

      forced : Registry P
      forced = record s₁ { timer_armed = false; needs_rebaseline = true }

      go :
          (w b : Bool)
          → Stays s (
              if w
              then (if b then execute_solve forced else record s₁ { timer_armed = true })
              else s₁)
      go false b = (h, (refl, refl))
      go true false = (h, (refl, refl))
      go true true = execute_solve-Stays forced h

  timer_fires-Stays : (s : Registry P) → IsStuck s → Stays s (timer_fires s)
  unfolding timer_fires
  timer_fires-Stays s h = go s.timer_armed
    where
      go : (b : Bool) → Stays s (if b then execute_solve (record s { timer_armed = false }) else s)
      go true = execute_solve-Stays (record s { timer_armed = false }) h
      go false = (h, (refl, refl))

  unfoldable pub solve_step : Registry P → Solve P → Registry P
  unfolding request_solve mark_needs_rebaseline timer_fires
  solve_step s (asks p) = request_solve s p
  solve_step s marks = mark_needs_rebaseline s
  solve_step s fires = timer_fires s

  unfoldable pub solve_steps : Registry P → List (Solve P) → Registry P
  unfolding solve_step
  solve_steps s [] = s
  solve_steps s (c ∷ cs) = solve_steps (solve_step s c) cs

  solve_step-Stays : (s : Registry P) (c : Solve P) → IsStuck s → Stays s (solve_step s c)
  unfolding solve_step mark_needs_rebaseline
  solve_step-Stays s (asks p) h = request_solve-Stays s p h
  solve_step-Stays s marks h = (h, (refl, refl))
  solve_step-Stays s fires h = timer_fires-Stays s h

  -- Where the registry takes a session to be started that the engine has lost, no request, rebaseline
  -- mark or timer callback has it recover: it stays so, no result is broadcast and no component changes.
  pub solve_steps-IsStuck :
      (s : Registry P) (cs : List (Solve P))
      → IsStuck s
      → IsStuck (solve_steps s cs) × Unseen s (solve_steps s cs)
  unfolding solve_steps
  solve_steps-IsStuck s [] h = (h, (refl, refl))
  solve_steps-IsStuck s (c ∷ cs) h =
      let one = solve_step-Stays s c h in
      let rest = solve_steps-IsStuck (solve_step s c) cs one.0 in
      (rest.0, (rest.1.0 ∙ one.1.0, rest.1.1 ∙ one.1.1))
