-- ===== src/Interactive/Calls.antt =====
-- The calls of UFrameInteractiveSubsystem, and the session beside its model.
use architect_simulator.Base.{
  ◌≡◌, refl, sym, Bool, true, false, subst, List, [], ◌∷◌, Option, none, some, Bool-cases, inl, inr,
  ◌⊎◌, not, ◌||◌, true_ne_false, if◌then◌else◌,
}
use mathlib.Core.List.{foldl}
use architect_simulator.Base.Int.{ℤ}
use architect_simulator.Interactive.Loads.{set_loads, add_loads}
use architect_simulator.Frame.Model.{FrameModel}
use architect_simulator.Interactive.Host.{
  Platform, ModelDef, Patch, UeLoad, Made, threw, invalid, session, Marshalled, refused, model,
}
use architect_simulator.Interactive.{
  Subsystem, start_session, open_session, start_marshalled, patch_loads, loads_touched,
  patch_session, apply_patch_and_resolve, rebaseline, resolve_current, renewed, end_session, toggle,
  solve_with, is_empty,
}

-- The calls of the subsystem.
pub data Call (P : Platform) : Type 0 where
  starts : ModelDef P.real → P.Options → Call P
  ends : Call P
  applies : Patch P.real → Call P
  rebaselines : Call P
  resolves : Call P

module _ (P : Platform) where
  unfoldable pub step : Subsystem P → Call P → Subsystem P
  step s (starts def opts) = (start_session s def opts).0
  step s ends = end_session s
  step s (applies p) = (apply_patch_and_resolve s p).0
  step s rebaselines = rebaseline s
  step s resolves = (resolve_current s).0

  unfoldable pub run : Subsystem P → List (Call P) → Subsystem P
  run s [] = s
  run s (c ∷ cs) = run (step s c) cs

  -- The session is one that the engine made for the model, and all that came after are toggles, rebaselines
  -- and solves.
  pub data Descends (m : FrameModel P.real) : P.Session → Type 0 where
    made : (opts : P.Options) (x : P.Session) → P.new_session m opts ≡ session x → Descends m x
    toggles_member :
        (x : P.Session) (id : ℤ) (on : Bool)
        → Descends m x
        → Descends m (P.set_member_active x id on)
    toggles_shell :
        (x : P.Session) (id : ℤ) (on : Bool)
        → Descends m x
        → Descends m (P.set_shell_active x id on)
    rebaselined : (x : P.Session) → Descends m x → Descends m (P.rebaseline x)
    solved : (x : P.Session) → Descends m x → Descends m (P.solve x).0

  -- A session that is there has the model that it was made for beside it.
  abbrev pub HasModel : Subsystem P → Type 0
  HasModel s =
      (s.live ≡ none)
      ⊎ ((x : P.Session) × (m : FrameModel P.real) × (s.live ≡ some x)
          × (s.cached ≡ some m)
          × Descends m x)

  solve_with-HasModel :
      (x : P.Session) (m : FrameModel P.real) → Descends m x → HasModel (solve_with {P = P} x m).0
  unfolding solve_with
  solve_with-HasModel x m d = inr ((P.solve x).0, m, refl, refl, solved x d)

  open_session-HasModel :
      (m : FrameModel P.real) (opts : P.Options) (r : Made P.Session)
      → P.new_session m opts ≡ r
      → HasModel (open_session m r).0
  unfolding open_session
  open_session-HasModel m opts threw e = inl refl
  open_session-HasModel m opts (invalid why) e = inl refl
  open_session-HasModel m opts (session x) e = inr (x, m, refl, refl, made opts x e)

  renewed-HasModel :
      (m : FrameModel P.real) (opts : P.Options) (r : Made P.Session)
      → P.new_session m opts ≡ r
      → HasModel (renewed m r).0
  unfolding renewed
  renewed-HasModel m opts threw e = inl refl
  renewed-HasModel m opts (invalid why) e = inl refl
  renewed-HasModel m opts (session x) e = solve_with-HasModel x m (made opts x e)

  start_session-HasModel :
      (s : Subsystem P) (def : ModelDef P.real) (opts : P.Options)
      → HasModel (start_session s def opts).0
  unfolding start_session
  start_session-HasModel s def opts = go (P.from_blueprint def)
    where
      go : (r : Marshalled P.real) → HasModel (start_marshalled opts r).0
      go (refused why) = inl refl
      go (model m) = open_session-HasModel m opts (P.new_session m opts) refl

  members-Descends :
      (m : FrameModel P.real) (on : Bool) (ids : List ℤ) (x : P.Session)
      → Descends m x
      → Descends m (foldl (λ (s : P.Session) (id : ℤ). P.set_member_active s id on) x ids)
  members-Descends m on [] x d = d
  members-Descends m on (id ∷ ids) x d =
      members-Descends m on ids (P.set_member_active x id on) (toggles_member x id on d)

  shells-Descends :
      (m : FrameModel P.real) (on : Bool) (ids : List ℤ) (x : P.Session)
      → Descends m x
      → Descends m (foldl (λ (s : P.Session) (id : ℤ). P.set_shell_active s id on) x ids)
  shells-Descends m on [] x d = d
  shells-Descends m on (id ∷ ids) x d =
      shells-Descends m on ids (P.set_shell_active x id on) (toggles_shell x id on d)

  toggle-Descends :
      (p : Patch P.real) (m : FrameModel P.real) (x : P.Session)
      → Descends m x
      → Descends m (toggle P p x)
  unfolding toggle
  toggle-Descends p m x d = shells-Descends m true p.reactivate_shells _ (
      shells-Descends m false p.deactivate_shells _ (
        members-Descends m true p.reactivate_members _
          (members-Descends m false p.deactivate_members x d)))

  -- A patch that does not touch the loads leaves the model as it is.
  untouched :
      (p : Patch P.real) (m : FrameModel P.real) → loads_touched p ≡ false → patch_loads p m ≡ m
  unfolding loads_touched patch_loads set_loads add_loads
  untouched p m e = go p.reset_loads p.set_loads p.add_loads e
    where
      go :
          (r : Bool) (xs ys : List (UeLoad P.real))
          → r || not (is_empty xs) || not (is_empty ys) ≡ false
          → record m { nodal_loads = add_loads ys (set_loads xs (if r then [] else m.nodal_loads)) }
            ≡ m
      go false [] [] e = refl
      go false [] (y ∷ ys) e = elim (true_ne_false e) [ ]
      go false (x ∷ xs) ys e = elim (true_ne_false e) [ ]
      go true xs ys e = elim (true_ne_false e) [ ]

  patch_session-HasModel :
      (p : Patch P.real) (x : P.Session) (m : FrameModel P.real)
      → Descends m x
      → HasModel (patch_session {P = P} p x m).0
  unfolding patch_session
  patch_session-HasModel p x m d = elim (Bool-cases (loads_touched p)) [
    | inl e ↦
        rw (e, patch_session)
          (renewed-HasModel (patch_loads p m) P.default_options
            (P.new_session (patch_loads p m) P.default_options) refl)
    | inr e ↦
        rw (e, patch_session)
          (subst (λ m'. HasModel (solve_with {P = P} (toggle P p x) m').0) (sym (untouched p m e))
            (solve_with-HasModel (toggle P p x) m (toggle-Descends p m x d)))
  ]

  abbrev pub parts : Option P.Session → Option (FrameModel P.real) → Subsystem P
  parts l c = record { live = l; cached = c }

  step-HasModel : (s : Subsystem P) (call : Call P) → HasModel s → HasModel (step s call)
  unfolding step
  step-HasModel s (starts def opts) h = start_session-HasModel s def opts
  step-HasModel s ends h = unfold end_session in inl refl
  step-HasModel s (applies p) (inl e) = unfold apply_patch_and_resolve in rw e (inl refl)
  step-HasModel s (applies p) (inr (x, m, e, c, d)) =
      unfold apply_patch_and_resolve in rw (e, c) (patch_session-HasModel p x m d)
  step-HasModel s rebaselines (inl e) = unfold rebaseline in rw e (inl refl)
  step-HasModel s rebaselines (inr (x, m, e, c, d)) =
      unfold rebaseline in rw e (inr (P.rebaseline x, m, refl, c, rebaselined x d))
  step-HasModel s resolves (inl e) = unfold resolve_current in rw e (inl refl)
  step-HasModel s resolves (inr (x, m, e, c, d)) =
      unfold resolve_current in rw (e, c) (solve_with-HasModel x m d)

  -- Whatever calls are made, a session that is there was made by the engine for the very model that is cached
  -- beside it, and has only been toggled, rebaselined and solved since.
  pub run-HasModel : (s : Subsystem P) (cs : List (Call P)) → HasModel s → HasModel (run s cs)
  unfolding run
  run-HasModel s [] h = h
  run-HasModel s (c ∷ cs) h = run-HasModel (step s c) cs (step-HasModel s c h)
