-- ===== src/Interactive/Sessions.antt =====
-- The life of the engine session in UFrameInteractiveSubsystem.
use Prim.Native.String.{String}
use architect_simulator.Base.{
  ◌≡◌, refl, sym, ◌∙◌, Bool, true, false, subst, All, List, [], ◌∷◌, Option, none, some,
}
use architect_simulator.Frame.Model.{FrameModel}
use architect_simulator.Interactive.Host.{
  Platform, ModelDef, Patch, Made, threw, invalid, session, Marshalled, refused, model,
}
use architect_simulator.Interactive.{
  Subsystem, start_session, open_session, start_marshalled, patch_loads, loads_touched,
  patch_session, apply_patch_and_resolve, rebaseline, resolve_current, renewed, end_session, failed,
}
use architect_simulator.Interactive.Calls.{
  Call, starts, ends, applies, rebaselines, resolves, step, run, parts,
}

module _ (P : Platform) where
  abbrev pub is_start : Call P → Bool
  is_start (starts def opts) = true
  is_start ends = false
  is_start (applies p) = false
  is_start rebaselines = false
  is_start resolves = false

  -- The engine makes no session.
  pub data NotMade : Made P.Session → Type 0 where
    by_throw : NotMade threw
    by_check : (why : String) → NotMade (invalid why)

  -- The calls that leave no session: EndSession, a StartSession that fails, and a patch of the loads after
  -- which the session is not made anew.
  pub data Loses (s : Subsystem P) : Call P → Type 0 where
    by_end : Loses s ends
    by_refusal :
        (def : ModelDef P.real) (opts : P.Options) (why : String)
        → P.from_blueprint def ≡ refused why
        → Loses s (starts def opts)
    by_start :
        (def : ModelDef P.real) (opts : P.Options) (m : FrameModel P.real)
        → P.from_blueprint def ≡ model m
        → NotMade (P.new_session m opts)
        → Loses s (starts def opts)
    by_patch :
        (p : Patch P.real) (x : P.Session) (m : FrameModel P.real)
        → s.live ≡ some x
        → s.cached ≡ some m
        → loads_touched p ≡ true
        → NotMade (P.new_session (patch_loads p m) P.default_options)
        → Loses s (applies p)

  open_session-gone :
      (m : FrameModel P.real) (r : Made P.Session)
      → NotMade r
      → (open_session {P = P} m r).0.live ≡ none
  unfolding open_session
  open_session-gone m threw by_throw = refl
  open_session-gone m (invalid why) (by_check w) = refl
  open_session-gone m (session x) n = elim n [ ]

  renewed-gone :
      (m : FrameModel P.real) (r : Made P.Session) → NotMade r → (renewed {P = P} m r).0.live ≡ none
  unfolding renewed
  renewed-gone m threw by_throw = refl
  renewed-gone m (invalid why) (by_check w) = refl
  renewed-gone m (session x) n = elim n [ ]

  pub patch_session-gone :
      (p : Patch P.real) (x : P.Session) (m : FrameModel P.real)
      → loads_touched p ≡ true
      → NotMade (P.new_session (patch_loads p m) P.default_options)
      → (patch_session {P = P} p x m).0.live ≡ none
  unfolding patch_session
  patch_session-gone p x m e n =
      rw (e, patch_session)
        (renewed-gone (patch_loads p m) (P.new_session (patch_loads p m) P.default_options) n)

  start_session-gone :
      (s : Subsystem P) (def : ModelDef P.real) (opts : P.Options) (r : Marshalled P.real)
      → P.from_blueprint def ≡ r
      → (start_marshalled {P = P} opts r).0.live ≡ none
      → (start_session s def opts).0.live ≡ none
  unfolding start_session
  start_session-gone s def opts r e h =
      subst (λ r. (start_marshalled {P = P} opts r).0.live ≡ none) (sym e) h

  step-Loses : (s : Subsystem P) (call : Call P) → Loses s call → (step P s call).live ≡ none
  unfolding step
  step-Loses s ends by_end = unfold end_session in refl
  step-Loses s (starts d o) (by_refusal def opts why e) =
      start_session-gone s def opts (refused why) e (unfold start_marshalled in refl)
  step-Loses s (starts d o) (by_start def opts m e n) =
      start_session-gone s def opts (model m) e
        (unfold start_marshalled in open_session-gone m (P.new_session m opts) n)
  step-Loses s (applies q) (by_patch p x m l c e n) =
      unfold apply_patch_and_resolve in rw (l, c) (patch_session-gone p x m e n)
  step-Loses s rebaselines l = elim l [ ]
  step-Loses s resolves l = elim l [ ]

  pub apply-Loses :
      (s : Subsystem P) (p : Patch P.real)
      → Loses s (applies p)
      → (apply_patch_and_resolve s p).0.live ≡ none
  unfolding step
  apply-Loses s p l = step-Loses s (applies p) l

  step_gone :
      (s : Subsystem P) (call : Call P)
      → s.live ≡ none
      → is_start call ≡ false
      → (step P s call).live ≡ none
  unfolding step
  step_gone s (starts def opts) h n = cc
  step_gone s ends h n = unfold end_session in refl
  step_gone s (applies p) h n = unfold apply_patch_and_resolve in rw h refl
  step_gone s rebaselines h n = unfold rebaseline in rw h refl
  step_gone s resolves h n = unfold resolve_current in rw h refl

  run-none :
      (s : Subsystem P) (cs : List (Call P))
      → s.live ≡ none
      → All (λ c. is_start c ≡ false) cs
      → (run P s cs).live ≡ none
  unfolding run
  run-none s [] h n = h
  run-none s (c ∷ cs) h n = run-none (step P s c) cs (step_gone s c h n.0) n.1

  -- What a patch gives where there is no session.
  abbrev pub Fails : Subsystem P → Patch P.real → Type 0
  Fails s p =
      apply_patch_and_resolve s p ≡ (s, failed "ApplyPatchAndResolve: no active session", false)

  none-Fails : (c : Option (FrameModel P.real)) (p : Patch P.real) → Fails (parts P none c) p
  unfolding apply_patch_and_resolve
  none-Fails c p = refl

  gone-Fails : (s : Subsystem P) (p : Patch P.real) → s.live ≡ none → Fails s p
  gone-Fails s p h = subst (λ l. Fails (parts P l s.cached) p) (sym h) (none-Fails s.cached p)

  -- After EndSession, a StartSession that the marshalling or the engine fails, or a patch of the loads after
  -- which the engine makes no session, there is no session until the next StartSession: whatever other calls
  -- come between, every patch returns false with the diagnostic of no active session and changes nothing.
  pub run_gone :
      (s : Subsystem P) (c : Call P) (cs : List (Call P)) (p : Patch P.real)
      → Loses s c
      → All (λ c. is_start c ≡ false) cs
      → ((run P s (c ∷ cs)).live ≡ none) × Fails (run P s (c ∷ cs)) p
  unfolding run
  run_gone s c cs p l n =
      let gone = run-none (step P s c) cs (step-Loses s c l) n in
      (gone, gone-Fails (run P (step P s c) cs) p gone)

  patch_session_touched :
      (p : Patch P.real) (s : P.Session) (m : FrameModel P.real)
      → loads_touched p ≡ true
      → patch_session {P = P} p s m
        ≡ renewed (patch_loads p m) (P.new_session (patch_loads p m) P.default_options)
  unfolding patch_session
  patch_session_touched p s m e = rw (e, patch_session)

  -- A patch that touches the loads makes the session anew from the cached model: whatever had been
  -- toggled, by this patch or in the session before it, the outcome is the same.
  pub apply_forgets_toggles :
      (s t : P.Session) (m : FrameModel P.real) (p q : Patch P.real)
      → loads_touched p ≡ true
      → q.reset_loads ≡ p.reset_loads
      → q.set_loads ≡ p.set_loads
      → q.add_loads ≡ p.add_loads
      → apply_patch_and_resolve (parts P (some s) (some m)) p
        ≡ apply_patch_and_resolve (parts P (some t) (some m)) q
  unfolding apply_patch_and_resolve
  apply_forgets_toggles s t m p q touched r x a =
      let loads : patch_loads q m ≡ patch_loads p m = unfold patch_loads in rw (r, x, a) in
      let touched' : loads_touched q ≡ loads_touched p = unfold loads_touched in rw (r, x, a) in
      cc (
        patch_session_touched p s m touched,
        patch_session_touched q t m (touched' ∙ touched),
        loads,
      )
