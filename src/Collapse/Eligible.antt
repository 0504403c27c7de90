-- ===== src/Collapse/Eligible.antt =====
-- Which events the screen of runProgressiveCollapse (FrameCore/Private/Collapse.cpp) selects.
use architect_simulator.Base.{
  ◌≡◌, refl, Bool, true, false, not, ◌&&◌, ◌||◌, List, [], ◌∷◌, Option, none, some, if◌then◌else◌,
  arith,
}
use architect_simulator.Base.Int.{ℤ, pos}
use architect_simulator.Base.Real.{Real}
use architect_simulator.Frame.Types.{zero_of}
use architect_simulator.Frame.Model.{Member, ShellQuad, Section, Material, FrameModel, element_at}
use architect_simulator.Collapse.{
  FailMode, bending, shell_von_mises, MemberForcePair, DemandResult, SolveResult, Engine,
  CollapseOptions,
}
use architect_simulator.Collapse.Screen.{
  EventKind, none_yet, member_removal, shell_removal, hinge, Event, no_event, precedes, consider,
  reduced_plastic_moment, Screen, removal, consider_hinge, consider_ductile, screen_sized,
  screen_found, screen_member, screen_members, screen_facet, screen_shell, screen_shells, screen,
}

module _ {R : Real} (engine : Engine R) (opts : CollapseOptions R) where
  -- The condition on the ratio of an event of a kind.
  abbrev pub Reached : EventKind → R.carrier → Type 0
  Reached none_yet ratio = ⊥
  Reached member_removal ratio = R.lt opts.remove_threshold ratio ≡ true
  Reached shell_removal ratio = R.lt opts.remove_threshold ratio ≡ true
  Reached hinge ratio = (opts.plastic_hinges ≡ true) × (R.le (R.lit 1 0) ratio ≡ true)

  abbrev pub IsEvent : Event R → Type 0
  IsEvent e = e.eligible ≡ true → Reached e.kind e.ratio

  no_event-IsEvent : IsEvent no_event
  no_event-IsEvent h = ground (arith, h)

  consider-IsEvent : (best c : Event R) → IsEvent best → IsEvent c → IsEvent (consider best c)
  unfolding consider
  consider-IsEvent best c hb hc = go (not c.eligible) (not best.eligible || precedes c best)
    where
      go : (a b : Bool) → IsEvent (if a then best else if b then c else best)
      go true b = hb
      go false true = hc
      go false false = hb

  removal-IsEvent :
      (ratio : R.carrier) (id : ℤ) (mode : FailMode)
      → IsEvent (removal engine opts ratio member_removal id mode)
  removal-IsEvent ratio id mode h = h

  consider_hinge-IsEvent :
      (mem : Member R) (ny : R.carrier) (best : Event R) (dof : ℤ) (moment mp0 n : R.carrier)
      → opts.plastic_hinges ≡ true
      → IsEvent best
      → IsEvent (consider_hinge engine opts mem ny best dof moment mp0 n)
  unfolding consider_hinge
  consider_hinge-IsEvent mem ny best dof moment mp0 n plastic h =
      go (not (R.lt (zero_of R) (reduced_plastic_moment R mp0 n ny)))
    where
      c : Event R
      c = record {
        ratio = R.div (R.abs moment) (reduced_plastic_moment R mp0 n ny);
        kind = hinge;
        id = mem.id;
        dof = dof;
        mp_signed =
            if R.le (zero_of R) moment
            then reduced_plastic_moment R mp0 n ny
            else R.neg (reduced_plastic_moment R mp0 n ny);
        mode = bending;
        eligible = R.le (R.lit 1 0) (R.div (R.abs moment) (reduced_plastic_moment R mp0 n ny));
      }

      go : (b : Bool) → IsEvent (if b then best else consider best c)
      go true = h
      go false = consider-IsEvent best c h (λ e. (plastic, e))

  consider_ductile-IsEvent :
      (mem : Member R) (sec : Section R) (mat : Material R) (mf : MemberForcePair R)
      (di dj : DemandResult R) (best : Event R)
      → opts.plastic_hinges ≡ true
      → IsEvent best
      → IsEvent (consider_ductile engine opts mem sec mat mf di dj best)
  unfolding consider_ductile
  consider_ductile-IsEvent mem sec mat mf di dj best plastic h =
      let hinged : (b : Event R) (dof : ℤ) (moment mp0 n : R.carrier)
          → IsEvent b
          → IsEvent (consider_hinge engine opts mem (R.mul mat.fy sec.area) b dof moment mp0 n) =
        λ b dof moment mp0 n hb.
          consider_hinge-IsEvent mem (R.mul mat.fy sec.area) b dof moment mp0 n plastic hb in
      consider-IsEvent _ (removal engine opts _ member_removal mem.id _)
        (hinged _ (pos 11) _ _ _
          (hinged _ (pos 10) _ _ _ (hinged _ (pos 5) _ _ _ (hinged best (pos 4) _ _ _ h))))
        (λ e. e)

  abbrev IsScreen : Screen R → Type 0
  IsScreen s = IsEvent s.best

  screen_sized-IsScreen :
      (mem : Member R) (sec : Section R) (mat : Material R) (mf : MemberForcePair R) (s : Screen R)
      → IsScreen s
      → IsScreen (screen_sized engine opts mem sec mat mf s)
  unfolding screen_sized
  screen_sized-IsScreen mem sec mat mf s h =
      go (opts.plastic_hinges) refl (R.lt (zero_of R) mat.fy) (R.lt (zero_of R) sec.zy)
        (R.lt (zero_of R) sec.zz)
    where
      di : DemandResult R
      di = engine.check_section mf.end_i sec mat.cap

      dj : DemandResult R
      dj = engine.check_section mf.end_j sec mat.cap

      d : DemandResult R
      d = if R.le dj.risk di.risk then di else dj

      brittle : IsEvent (consider s.best (removal engine opts d.risk member_removal mem.id d.mode))
      brittle =
          consider-IsEvent s.best (removal engine opts d.risk member_removal mem.id d.mode) h
            (λ e. e)

      go :
          (plastic : Bool)
          → opts.plastic_hinges ≡ plastic
          → (a b c : Bool)
          → IsEvent (
              if plastic && a && b && c
              then consider_ductile engine opts mem sec mat mf di dj s.best
              else consider s.best (removal engine opts d.risk member_removal mem.id d.mode))
      go false e a b c = brittle
      go true e false b c = brittle
      go true e true false c = brittle
      go true e true true false = brittle
      go true e true true true = consider_ductile-IsEvent mem sec mat mf di dj s.best e h

  screen_found-IsScreen :
      (mem : Member R) (sec : Option (Section R)) (mat : Option (Material R))
      (mf : MemberForcePair R) (s : Screen R)
      → IsScreen s
      → IsScreen (screen_found engine opts mem sec mat mf s)
  screen_found-IsScreen mem (some sec) (some mat) mf s h = screen_sized-IsScreen mem sec mat mf s h
  screen_found-IsScreen mem none mat mf s h = h
  screen_found-IsScreen mem (some sec) none mf s h = h

  screen_member-IsScreen :
      (work : FrameModel R) (mem : Member R) (mf : MemberForcePair R) (s : Screen R)
      → IsScreen s
      → IsScreen (screen_member engine opts work mem mf s)
  unfolding screen_member
  screen_member-IsScreen work mem mf s h = go (not mem.active)
    where
      go :
          (b : Bool)
          → IsScreen (
              if b
              then s
              else screen_found engine opts mem
                  (element_at work.sections mem.sec_idx)
                  (element_at work.materials mem.mat_idx)
                  mf
                  s)
      go true = h
      go false =
          screen_found-IsScreen mem (element_at work.sections mem.sec_idx)
            (element_at work.materials mem.mat_idx) mf s h

  screen_members-IsScreen :
      (work : FrameModel R) (ms : List (Member R)) (fs : List (MemberForcePair R)) (s : Screen R)
      → IsScreen s
      → IsScreen (screen_members engine opts work ms fs s)
  unfolding screen_members
  screen_members-IsScreen work (m ∷ ms) (f ∷ fs) s h =
      screen_members-IsScreen work ms fs _ (screen_member-IsScreen work m f s h)
  screen_members-IsScreen work [] fs s h = h
  screen_members-IsScreen work (m ∷ ms) [] s h = h

  screen_facet-IsScreen :
      (sh : ShellQuad R) (mat : Option (Material R)) (f : engine.ShellForces) (s : Screen R)
      → IsScreen s
      → IsScreen (screen_facet engine opts sh mat f s)
  screen_facet-IsScreen sh none f s h = h
  screen_facet-IsScreen sh (some mat) f s h =
      consider-IsEvent s.best
        (removal engine opts (engine.check_shell_surface f sh.t mat.cap) shell_removal sh.id
          shell_von_mises)
        h (λ e. e)

  screen_shell-IsScreen :
      (work : FrameModel R) (sh : ShellQuad R) (f : engine.ShellForces) (s : Screen R)
      → IsScreen s
      → IsScreen (screen_shell engine opts work sh f s)
  unfolding screen_shell
  screen_shell-IsScreen work sh f s h = go (not sh.active)
    where
      go :
          (b : Bool)
          → IsScreen (
              if b
              then s
              else screen_facet engine opts sh (element_at work.materials sh.mat_idx) f s)
      go true = h
      go false = screen_facet-IsScreen sh (element_at work.materials sh.mat_idx) f s h

  screen_shells-IsScreen :
      (work : FrameModel R) (hs : List (ShellQuad R)) (fs : List engine.ShellForces) (s : Screen R)
      → IsScreen s
      → IsScreen (screen_shells engine opts work hs fs s)
  unfolding screen_shells
  screen_shells-IsScreen work (h ∷ hs) (f ∷ fs) s i =
      screen_shells-IsScreen work hs fs _ (screen_shell-IsScreen work h f s i)
  screen_shells-IsScreen work [] fs s i = i
  screen_shells-IsScreen work (h ∷ hs) [] s i = i

  -- The event that a screen selects is one whose ratio has reached its limit.
  pub screen-IsEvent :
      (work : FrameModel R) (r : SolveResult R engine.ShellForces)
      → IsEvent (Screen.best (screen engine opts work r))
  unfolding screen
  screen-IsEvent work r = screen_shells-IsScreen work work.shells r.shell_forces _ (
      screen_members-IsScreen work work.members r.member_forces
        (record { any = false; max_dc = zero_of R; best = no_event }) no_event-IsEvent)
