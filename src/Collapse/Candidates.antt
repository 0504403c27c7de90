-- ===== src/Collapse/Candidates.antt =====
-- The candidates for the next event of runProgressiveCollapse (FrameCore/Private/Collapse.cpp), one list for
-- each element, in the order of the elements: a description of what its screen chooses from.
use architect_simulator.Base.{List, [], ◌∷◌, ◌++◌, Option, none, some, if◌then◌else◌}
use architect_simulator.Base.Int.{ℤ, pos}
use architect_simulator.Base.Real.{Real}
use architect_simulator.Frame.Types.{zero_of}
use architect_simulator.Frame.Model.{Member, ShellQuad, Section, Material, FrameModel, element_at}
use architect_simulator.Collapse.{
  bending, shell_von_mises, MemberForcePair, DemandResult, SolveResult, Engine, CollapseOptions,
}
use architect_simulator.Collapse.Screen.{
  Event, hinge, member_removal, shell_removal, reduced_plastic_moment, removal, brittle_remainder,
  hinge_capable,
}

module _ {R : Real} (engine : Engine R) (opts : CollapseOptions R) where
  -- The hinge at one end and axis, where some plastic moment is left beside the axial force.
  abbrev pub hinge_candidates :
      Member R → R.carrier → ℤ → R.carrier → R.carrier → R.carrier → List (Event R)
  hinge_candidates mem ny dof moment mp0 n =
      let mpk = reduced_plastic_moment R mp0 n ny in
      let ratio = R.div (R.abs moment) mpk in
      if R.lt (zero_of R) mpk
      then record {
        ratio = ratio;
        kind = hinge;
        id = mem.id;
        dof = dof;
        mp_signed = if R.le (zero_of R) moment then mpk else R.neg mpk;
        mode = bending;
        eligible = R.le (R.lit 1 0) ratio;
      }
        ∷ []
      else []

  -- The four hinges of a member that can have them, and its removal for the other ratios.
  abbrev pub ductile_candidates :
      Member R
      → Section R
      → Material R
      → MemberForcePair R
      → DemandResult R
      → DemandResult R
      → List (Event R)
  ductile_candidates mem sec mat mf di dj =
      let ny = R.mul mat.fy sec.area in
      let ni = if opts.nm_interaction then mf.end_i.axial else zero_of R in
      let nj = if opts.nm_interaction then mf.end_j.axial else zero_of R in
      let brittle = brittle_remainder engine opts sec mat mf di dj in
      hinge_candidates mem ny (pos 4) mf.end_i.my (R.mul mat.fy sec.zy) ni
      ++ hinge_candidates mem ny (pos 5) mf.end_i.mz (R.mul mat.fy sec.zz) ni
      ++ hinge_candidates mem ny (pos 10) mf.end_j.my (R.mul mat.fy sec.zy) nj
      ++ hinge_candidates mem ny (pos 11) mf.end_j.mz (R.mul mat.fy sec.zz) nj
      ++ removal engine opts brittle.0 member_removal mem.id brittle.1 ∷ []

  -- The candidates of a member: those above, or its removal for the worse of its ends.
  abbrev pub sized_candidates :
      Member R → Section R → Material R → MemberForcePair R → List (Event R)
  sized_candidates mem sec mat mf =
      let di = engine.check_section mf.end_i sec mat.cap in
      let dj = engine.check_section mf.end_j sec mat.cap in
      let d = if R.le dj.risk di.risk then di else dj in
      if hinge_capable engine opts sec mat
      then ductile_candidates mem sec mat mf di dj
      else removal engine opts d.risk member_removal mem.id d.mode ∷ []

  -- An active member whose section and material are there.
  abbrev pub found_candidates :
      Member R → Option (Section R) → Option (Material R) → MemberForcePair R → List (Event R)
  found_candidates mem (some sec) (some mat) mf = sized_candidates mem sec mat mf
  found_candidates mem none mat mf = []
  found_candidates mem (some sec) none mf = []

  abbrev pub member_candidates :
      FrameModel R → List (Member R) → List (MemberForcePair R) → List (Event R)
  member_candidates work (m ∷ ms) (f ∷ fs) =
      (if m.active
        then found_candidates m (element_at work.sections m.sec_idx)
            (element_at work.materials m.mat_idx) f
        else [])
      ++ member_candidates work ms fs
  member_candidates work [] fs = []
  member_candidates work (m ∷ ms) [] = []

  -- An active shell whose material is there.
  abbrev pub facet_candidates :
      ShellQuad R → Option (Material R) → engine.ShellForces → List (Event R)
  facet_candidates sh none f = []
  facet_candidates sh (some mat) f =
      removal engine opts (engine.check_shell_surface f sh.t mat.cap) shell_removal sh.id
        shell_von_mises
      ∷ []

  abbrev pub shell_candidates :
      FrameModel R → List (ShellQuad R) → List engine.ShellForces → List (Event R)
  shell_candidates work (h ∷ hs) (f ∷ fs) =
      (if h.active then facet_candidates h (element_at work.materials h.mat_idx) f else [])
      ++ shell_candidates work hs fs
  shell_candidates work [] fs = []
  shell_candidates work (h ∷ hs) [] = []

  -- The members' before the shells'.
  abbrev pub candidates : FrameModel R → SolveResult R engine.ShellForces → List (Event R)
  candidates work r =
      member_candidates work work.members r.member_forces
      ++ shell_candidates work work.shells r.shell_forces
