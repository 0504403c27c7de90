-- ===== src/Collapse/Screen.antt =====
-- The screen of a step of runProgressiveCollapse (FrameCore/Private/Collapse.cpp): the worst D/C and the
-- event that the next step applies; reducedPlasticMoment is of FrameCore/Public/FrameCore/NMInteraction.h.
use architect_simulator.Base.{
  Bool, true, false, not, ◌&&◌, ◌||◌, List, [], ◌∷◌, Option, none, some, if◌then◌else◌,
}
use architect_simulator.Base.Int.{ℤ, pos, ltb_ℤ, eqb_ℤ}
use architect_simulator.Base.Real.{Real}
use architect_simulator.Frame.Types.{fmax, zero_of}
use architect_simulator.Frame.Model.{Member, ShellQuad, Section, Material, FrameModel, element_at}
use architect_simulator.Collapse.{
  FailMode, unfailed, crush, tension, shear, bending, torsion, shell_von_mises, MemberForcePair,
  DemandResult, SolveResult, Engine, CollapseOptions,
}

pub data EventKind : Type 0 where
  none_yet : EventKind
  member_removal : EventKind
  shell_removal : EventKind
  hinge : EventKind

-- The number of a kind in the source, one higher.
abbrev pub rank_of : EventKind → ℤ
rank_of none_yet = pos 0
rank_of member_removal = pos 1
rank_of shell_removal = pos 2
rank_of hinge = pos 3

pub record Event (R : Real) : Type 0 where
  pub ratio : R.carrier
  pub kind : EventKind
  pub id : ℤ
  pub dof : ℤ
  pub mp_signed : R.carrier
  pub mode : FailMode
  pub eligible : Bool

-- a == b of floating-point numbers.
abbrev pub same : (R : Real) → R.carrier → R.carrier → Bool
same R a b = R.le a b && R.le b a

unfoldable pub reduced_plastic_moment : (R : Real) → R.carrier → R.carrier → R.carrier → R.carrier
reduced_plastic_moment R mp n ny =
    let q = R.div n ny in
    let f = R.sub (R.lit 1 0) (R.mul q q) in
    if not (R.lt (zero_of R) mp)
    then zero_of R
    else if not (R.lt (zero_of R) ny)
    then mp
    else if R.lt (zero_of R) f
    then R.mul mp f
    else zero_of R

module _ {R : Real} where
  -- `Event best` before anything is considered.
  abbrev pub no_event : Event R
  no_event = record {
    ratio = zero_of R;
    kind = none_yet;
    id = pos 0;
    dof = pos 0;
    mp_signed = zero_of R;
    mode = unfailed;
    eligible = false;
  }

  -- Whether the candidate goes before what is best so far.
  unfoldable pub precedes : Event R → Event R → Bool
  precedes c best =
      R.lt best.ratio c.ratio
      || (same R c.ratio best.ratio
          && (ltb_ℤ (rank_of c.kind) (rank_of best.kind)
              || (eqb_ℤ (rank_of c.kind) (rank_of best.kind)
                  && (ltb_ℤ c.id best.id || (eqb_ℤ c.id best.id && ltb_ℤ c.dof best.dof)))))

  unfoldable pub consider : Event R → Event R → Event R
  unfolding precedes
  consider best c =
      if not c.eligible then best else if not best.eligible || precedes c best then c else best

-- What the loops over the elements keep: any, maxDC and best.
pub record Screen (R : Real) : Type 0 where
  pub any : Bool
  pub max_dc : R.carrier
  pub best : Event R

module _ {R : Real} (engine : Engine R) (opts : CollapseOptions R) where
  abbrev pub ratio_of : R.carrier → R.carrier → R.carrier
  ratio_of demand cap =
      if R.lt (zero_of R) cap
      then R.div demand cap
      else if R.lt (zero_of R) demand
      then engine.infinity
      else zero_of R

  abbrev pub removal : R.carrier → EventKind → ℤ → FailMode → Event R
  removal ratio kind id mode = record {
    ratio = ratio;
    kind = kind;
    id = id;
    dof = pos 0;
    mp_signed = zero_of R;
    mode = mode;
    eligible = R.lt opts.remove_threshold ratio;
  }

  -- A hinge candidate at one end and axis: its dof, its moment, its plastic moment and its axial force.
  unfoldable pub consider_hinge :
      Member R → R.carrier → Event R → ℤ → R.carrier → R.carrier → R.carrier → Event R
  unfolding consider reduced_plastic_moment
  consider_hinge mem ny best dof moment mp0 n =
      let mpk = reduced_plastic_moment R mp0 n ny in
      let ratio = R.div (R.abs moment) mpk in
      if not (R.lt (zero_of R) mpk)
      then best
      else consider best (record {
        ratio = ratio;
        kind = hinge;
        id = mem.id;
        dof = dof;
        mp_signed = if R.le (zero_of R) moment then mpk else R.neg mpk;
        mode = bending;
        eligible = R.le (R.lit 1 0) ratio;
      })

  -- if (r > rB) { rB = r; mB = mode; }
  abbrev pub worse : R.carrier × FailMode → R.carrier → FailMode → R.carrier × FailMode
  worse (rb, mb) r mode = if R.lt rb r then (r, mode) else (rb, mb)

  -- The separable ratios of a member whose bending is ductile.
  unfoldable pub brittle_remainder :
      Section R
      → Material R
      → MemberForcePair R
      → DemandResult R
      → DemandResult R
      → R.carrier × FailMode
  brittle_remainder sec mat mf di dj =
      let a = fmax R sec.area (R.lit 1 12) in
      let sni = R.div mf.end_i.axial a in
      let snj = R.div mf.end_j.axial a in
      let rc = ratio_of (fmax R (fmax R sni snj) (zero_of R)) mat.cap.comp in
      let rx = ratio_of (fmax R (fmax R (R.neg sni) (R.neg snj)) (zero_of R)) mat.cap.tens in
      let rs = ratio_of (fmax R di.tau dj.tau) mat.cap.shear in
      let rt = ratio_of (fmax R di.s_tor dj.s_tor) mat.cap.tors in
      worse (worse (worse (rc, crush) rx tension) rs shear) rt torsion

  -- The four hinge candidates of a member in the order of the source, then its brittle remainder.
  unfoldable pub consider_ductile :
      Member R
      → Section R
      → Material R
      → MemberForcePair R
      → DemandResult R
      → DemandResult R
      → Event R
      → Event R
  unfolding consider consider_hinge brittle_remainder
  consider_ductile mem sec mat mf di dj best =
      let mpy = R.mul mat.fy sec.zy in
      let mpz = R.mul mat.fy sec.zz in
      let ny = R.mul mat.fy sec.area in
      let ni = if opts.nm_interaction then mf.end_i.axial else zero_of R in
      let nj = if opts.nm_interaction then mf.end_j.axial else zero_of R in
      let b1 = consider_hinge mem ny best (pos 4) mf.end_i.my mpy ni in
      let b2 = consider_hinge mem ny b1 (pos 5) mf.end_i.mz mpz ni in
      let b3 = consider_hinge mem ny b2 (pos 10) mf.end_j.my mpy nj in
      let b4 = consider_hinge mem ny b3 (pos 11) mf.end_j.mz mpz nj in
      let (rb, mb) = brittle_remainder sec mat mf di dj in
      consider b4 (removal rb member_removal mem.id mb)

  abbrev pub hinge_capable : Section R → Material R → Bool
  hinge_capable sec mat =
      opts.plastic_hinges
      && R.lt (zero_of R) mat.fy
      && R.lt (zero_of R) sec.zy
      && R.lt (zero_of R) sec.zz

  unfoldable pub screen_sized :
      Member R → Section R → Material R → MemberForcePair R → Screen R → Screen R
  unfolding consider consider_ductile
  screen_sized mem sec mat mf s =
      let di = engine.check_section mf.end_i sec mat.cap in
      let dj = engine.check_section mf.end_j sec mat.cap in
      let d = if R.le dj.risk di.risk then di else dj in
      record {
        any = true;
        max_dc = fmax R s.max_dc d.risk;
        best =
            if hinge_capable sec mat
            then consider_ductile mem sec mat mf di dj s.best
            else consider s.best (removal d.risk member_removal mem.id d.mode);
      }

  abbrev pub screen_found :
      Member R → Option (Section R) → Option (Material R) → MemberForcePair R → Screen R → Screen R
  screen_found mem (some sec) (some mat) mf s = screen_sized mem sec mat mf s
  screen_found mem none mat mf s = s
  screen_found mem (some sec) none mf s = s

  unfoldable pub screen_member : FrameModel R → Member R → MemberForcePair R → Screen R → Screen R
  unfolding screen_sized
  screen_member work mem mf s =
      if not mem.active
      then s
      else screen_found mem (element_at work.sections mem.sec_idx)
          (element_at work.materials mem.mat_idx) mf s

  -- Up to the shorter of the two lists.
  unfoldable pub screen_members :
      FrameModel R → List (Member R) → List (MemberForcePair R) → Screen R → Screen R
  unfolding screen_member
  screen_members work (m ∷ ms) (f ∷ fs) s = screen_members work ms fs (screen_member work m f s)
  screen_members work [] fs s = s
  screen_members work (m ∷ ms) [] s = s

  abbrev pub screen_facet :
      ShellQuad R → Option (Material R) → engine.ShellForces → Screen R → Screen R
  screen_facet sh none f s = s
  screen_facet sh (some mat) f s =
      let risk = engine.check_shell_surface f sh.t mat.cap in
      record {
        any = true;
        max_dc = fmax R s.max_dc risk;
        best = consider s.best (removal risk shell_removal sh.id shell_von_mises);
      }

  unfoldable pub screen_shell :
      FrameModel R → ShellQuad R → engine.ShellForces → Screen R → Screen R
  unfolding consider
  screen_shell work sh f s =
      if not sh.active then s else screen_facet sh (element_at work.materials sh.mat_idx) f s

  unfoldable pub screen_shells :
      FrameModel R → List (ShellQuad R) → List engine.ShellForces → Screen R → Screen R
  unfolding screen_shell
  screen_shells work (h ∷ hs) (f ∷ fs) s = screen_shells work hs fs (screen_shell work h f s)
  screen_shells work [] fs s = s
  screen_shells work (h ∷ hs) [] s = s

  unfoldable pub screen : FrameModel R → SolveResult R engine.ShellForces → Screen R
  unfolding screen_members screen_shells
  screen work r =
      let start : Screen R = record { any = false; max_dc = zero_of R; best = no_event } in
      screen_shells work work.shells r.shell_forces
        (screen_members work work.members r.member_forces start)

  unfoldable pub safety_factor : Screen R → R.carrier
  safety_factor s =
      if not s.any
      then zero_of R
      else if R.lt (zero_of R) s.max_dc
      then R.div (R.lit 1 0) s.max_dc
      else engine.infinity
