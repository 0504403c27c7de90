-- ===== src/Registry/Loss.antt =====
-- When the registry comes to take a lost session to be started.
use Prim.Native.String.{String}
use architect_simulator.Base.{
  ◌≡◌, refl, sym, ◌∙◌, subst, Bool, true, false, Option, none, some, List, if◌then◌else◌, ◌↔◌, ◌⊎◌,
  inl, inr, Bool-cases,
}
use mathlib.Core.Option.{some-ne-none}
use architect_simulator.Frame.Model.{FrameModel}
use architect_simulator.Interactive.{
  Subsystem, apply_patch_and_resolve, patch_session, renewed, solve_with, toggle, rebaseline,
  patch_loads, loads_touched,
}
use architect_simulator.Interactive.Host.{
  Platform, Patch, Made, threw, invalid, session, UeResult, Utilization,
}
use architect_simulator.Interactive.Calls.{applies, parts}
use architect_simulator.Interactive.Sessions.{
  NotMade, by_throw, by_check, Loses, by_patch, apply-Loses,
}
use architect_simulator.Registry.{Registry}
use architect_simulator.Registry.Solving.{
  execute_solve, solve_started, solve_flushed, flush_and_start_session, rebaselined, finish_solve,
  drop_pending,
}
use architect_simulator.Registry.Stuck.{IsStuck, Gone}

module _ (P : Platform) where
  -- There is no session, or the patch touches the loads and the engine makes no session anew.
  abbrev pub Loss : Subsystem P → Patch P.real → Type 0
  Loss e p = (e.live ≡ none) ⊎ Loses P e (applies p)

  renewed-NotMade :
      (m : FrameModel P.real) (r : Made P.Session)
      → (renewed {P = P} m r).0.live ≡ none
      → NotMade P r
  unfolding renewed solve_with
  renewed-NotMade m threw h = by_throw
  renewed-NotMade m (invalid why) h = by_check why
  renewed-NotMade m (session x) h = absurd (some-ne-none (P.solve x).0 h)

  patch_session-Loss :
      (l : Option P.Session) (c : Option (FrameModel P.real)) (p : Patch P.real) (x : P.Session)
      (m : FrameModel P.real)
      → l ≡ some x
      → c ≡ some m
      → (patch_session {P = P} p x m).0.live ≡ none
      → Loss (parts P l c) p
  unfolding patch_session solve_with
  patch_session-Loss l c p x m e f h = elim (Bool-cases (loads_touched p)) [
    | inl t ↦ inr (
        by_patch p x m e f t (
          renewed-NotMade (patch_loads p m) (P.new_session (patch_loads p m) P.default_options)
            (rw t at h)))
    | inr t ↦ absurd (some-ne-none (P.solve (toggle P p x)).0 (rw t at h))
  ]

  apply_patch_and_resolve-Loss :
      (l : Option P.Session) (c : Option (FrameModel P.real)) (p : Patch P.real)
      → (apply_patch_and_resolve (parts P l c) p).0.live ≡ none
      → Loss (parts P l c) p
  unfolding apply_patch_and_resolve
  apply_patch_and_resolve-Loss none c p h = inl refl
  apply_patch_and_resolve-Loss (some x) none p h = inl h
  apply_patch_and_resolve-Loss (some x) (some m) p h =
      patch_session-Loss (some x) (some m) p x m refl refl h

  none-lost :
      (c : Option (FrameModel P.real)) (p : Patch P.real)
      → (apply_patch_and_resolve (parts P none c) p).0.live ≡ none
  unfolding apply_patch_and_resolve
  none-lost c p = refl

  Loss-lost :
      (e : Subsystem P) (p : Patch P.real) → Loss e p → (apply_patch_and_resolve e p).0.live ≡ none
  Loss-lost e p (inl h) =
      subst (λ l. (apply_patch_and_resolve (parts P l e.cached) p).0.live ≡ none) (sym h)
        (none-lost e.cached p)
  Loss-lost e p (inr k) = apply-Loses P e p k

  -- A rebaseline neither loses nor saves a session.
  rebaseline-Loss :
      (l : Option P.Session) (c : Option (FrameModel P.real)) (p : Patch P.real)
      → Loss (rebaseline (parts P l c)) p ↔ Loss (parts P l c) p
  unfolding rebaseline
  rebaseline-Loss none c p = (λ h. inl refl, λ h. inl refl)
  rebaseline-Loss (some x) c p = (there, back)
    where
      there : Loss (parts P (some (P.rebaseline x)) c) p → Loss (parts P (some x) c) p
      there (inl h) = absurd (some-ne-none (P.rebaseline x) h)
      there (inr (by_patch q y m l k t n)) = inr (by_patch q x m refl k t n)

      back : Loss (parts P (some x) c) p → Loss (parts P (some (P.rebaseline x)) c) p
      back (inl h) = absurd (some-ne-none x h)
      back (inr (by_patch q y m l k t n)) = inr (by_patch q (P.rebaseline x) m refl k t n)

module _ {P : Platform} where
  finish_solve-engine :
      (s : Registry P) (e : Subsystem P) (ok b : Bool) (d : String) (u : List (Utilization P.real))
      → let t = finish_solve s (e, record { singular = b; diagnostic = d; utilization = u }, ok) in
        (t.engine ≡ some e) × (t.session_started ≡ s.session_started)
  unfolding finish_solve
  finish_solve-engine s e false b d u = (refl, refl)
  finish_solve-engine s e true true d u = (refl, refl)
  finish_solve-engine s e true false d u = (refl, refl)

  finish_solve-IsStuck_iff :
      (s : Registry P) (r : Subsystem P × UeResult P.real × Bool)
      → s.session_started ≡ true
      → IsStuck (finish_solve s r) ↔ (r.0.live ≡ none)
  finish_solve-IsStuck_iff s (e, res, ok) h =
      let (g, k) = finish_solve-engine s e ok res.singular res.diagnostic res.utilization in
      (λ st. subst Gone g st.1, λ l. (k ∙ h, subst Gone (sym g) l))

  apply-IsStuck_iff :
      (s : Registry P) (e : Subsystem P)
      → s.session_started ≡ true
      → IsStuck (finish_solve s (apply_patch_and_resolve e s.pending_patch))
        ↔ Loss P e s.pending_patch
  apply-IsStuck_iff s e h =
      let f = finish_solve-IsStuck_iff s (apply_patch_and_resolve e s.pending_patch) h in
      (
        λ st. apply_patch_and_resolve-Loss P e.live e.cached s.pending_patch (f.0 st),
        λ l. f.1 (Loss-lost P e s.pending_patch l),
      )

  rebaselined-IsStuck_iff :
      (b : Bool) (s : Registry P) (e : Subsystem P)
      → s.session_started ≡ true
      → let due = rebaselined b s e in
        IsStuck (finish_solve due.0 (apply_patch_and_resolve due.1 due.0.pending_patch))
        ↔ Loss P e s.pending_patch
  unfolding rebaselined
  rebaselined-IsStuck_iff false s e h = apply-IsStuck_iff s e h
  rebaselined-IsStuck_iff true s e h =
      let a =
        apply-IsStuck_iff (record s { needs_rebaseline = false; pending_rank = 0 }) (rebaseline e)
          h in
      let r = rebaseline-Loss P e.live e.cached s.pending_patch in
      (λ st. r.0 (a.0 st), λ l. a.1 (r.1 l))

  some_is : (f e : Subsystem P) → Option.some f ≡ some e → e ≡ f
  some_is f e q = cc

  -- A solve of a registry with a session started leaves it stuck, a session taken to be started that the engine
  -- does not have, exactly where the engine had none or where the queued patch touches the loads and the
  -- engine makes no session for the model with them; a rebaseline that is due makes no difference.
  pub execute_solve-IsStuck_iff :
      (s : Registry P) (e : Subsystem P)
      → s.engine ≡ some e
      → s.session_started ≡ true
      → IsStuck (execute_solve s) ↔ Loss P e s.pending_patch
  unfolding execute_solve solve_started
  execute_solve-IsStuck_iff s e g h = go s.engine s.session_started g h
    where
      go :
          (o : Option (Subsystem P)) (b : Bool)
          → o ≡ some e
          → b ≡ true
          → IsStuck (elim o [
            | none ↦ drop_pending s
            | some e ↦ if b then solve_started s e else solve_flushed (flush_and_start_session s)
          ])
            ↔ Loss P e s.pending_patch
      go none b q r = cc
      go (some f) false q r = cc
      go (some f) true q r =
          subst (λ (f : Subsystem P). IsStuck (solve_started s f) ↔ Loss P e s.pending_patch)
            (some_is f e q) (rebaselined-IsStuck_iff s.needs_rebaseline s e h)
