-- ===== src/Collapse.antt =====
-- The data of the progressive-collapse driver: FrameCore/Public/FrameCore/Collapse.h, SolveResult.h and
-- ISectionStrength.h under Plugins/FrameSolver/Source, and what the driver calls. The factorisation with
-- its solve, the section screens and the local axes of a member are operations of an Engine.
pub mod Screen
pub mod Cleanup
pub mod Driver
pub mod Survivors
pub mod Debris
pub mod Eligible
pub mod Steps
pub mod Finishes
pub mod Comparison
pub mod Order
pub mod Candidates
pub mod Worst
pub mod Tests
use Prim.Native.String.{String}
use architect_simulator.Base.{ℕ, Bool, true, false, List, []}
use architect_simulator.Base.Int.{ℤ}
use architect_simulator.Base.Real.{Real}
use architect_simulator.Frame.Types.{Vec3}
use architect_simulator.Frame.Model.{FrameModel, Section, Capacity}
use architect_simulator.Frame.Connectivity.Cluster.{FragmentCluster}

pub data FailMode : Type 0 where
  unfailed : FailMode
  crush : FailMode
  tension : FailMode
  shear : FailMode
  bending : FailMode
  torsion : FailMode
  shell_von_mises : FailMode

-- Member end forces in local coordinates.
pub record MemberEndForces (R : Real) : Type 0 where
  pub axial : R.carrier
  pub vy : R.carrier
  pub vz : R.carrier
  pub twist : R.carrier
  pub my : R.carrier
  pub mz : R.carrier

pub record MemberForcePair (R : Real) : Type 0 where
  pub end_i : MemberEndForces R
  pub end_j : MemberEndForces R

pub record DemandResult (R : Real) : Type 0 where
  pub risk : R.carrier
  pub mode : FailMode
  pub tau : R.carrier
  pub s_tor : R.carrier

-- The fields of SolveResult that the driver reads; the forces in a shell are of a type of their own.
pub record SolveResult (R : Real) (ShellForces : Type 0) : Type 0 where
  pub singular : Bool
  pub diagnostic : String
  pub u : List R.carrier
  pub member_forces : List (MemberForcePair R)
  pub shell_forces : List ShellForces
  pub pivot_margin : R.carrier

-- assembleAndFactor followed by solveLoad with the solve options, ElasticAllowable::checkSection, the
-- risk that checkShellSurface gives, the y and z axes of memberLocalAxes, and the infinity of `real`.
pub record Engine (R : Real) : Type 1 where
  pub ShellForces : Type 0
  pub solve : FrameModel R → SolveResult R ShellForces
  pub check_section : MemberEndForces R → Section R → Capacity R → DemandResult R
  pub check_shell_surface : ShellForces → R.carrier → Capacity R → R.carrier
  pub local_axes : Vec3 R → Vec3 R → Vec3 R → Vec3 R × Vec3 R
  pub infinity : R.carrier

pub record CollapseHingeEvent (R : Real) : Type 0 where
  pub member : ℤ
  pub dof : ℤ
  pub mp : R.carrier

-- CollapseOptions without the options of the solve, which are the engine's.
pub record CollapseOptions (R : Real) : Type 0 where
  pub dlf : R.carrier
  pub remove_threshold : R.carrier
  pub max_steps : ℤ
  pub initial_removals : List ℤ
  pub initial_shell_removals : List ℤ
  pub plastic_hinges : Bool
  pub nm_interaction : Bool

pub data CollapseOutcome : Type 0 where
  stable : CollapseOutcome
  collapsed : CollapseOutcome
  out_of_steps : CollapseOutcome
  invalid : CollapseOutcome

pub record CollapseStep (R : Real) : Type 0 where
  pub step : ℕ
  pub removed_members : List ℤ
  pub removed_shells : List ℤ
  pub formed_hinges : List (CollapseHingeEvent R)
  pub mode : FailMode
  pub trigger_ratio : R.carrier
  pub detached : List (FragmentCluster R)
  pub solved : Bool
  pub max_dc : R.carrier
  pub safety_factor : R.carrier
  pub pivot_margin : R.carrier
  pub u : List R.carrier

-- The texts that the driver puts together.
pub data Diagnostic : Type 0 where
  nothing : Diagnostic
  note : String → Diagnostic
  invalid_model : String → Diagnostic
  missing_member : ℤ → Diagnostic
  missing_shell : ℤ → Diagnostic
  mechanism : String → Diagnostic

pub record CollapseHistory (R : Real) : Type 0 where
  pub outcome : CollapseOutcome
  pub diagnostic : Diagnostic
  pub steps : List (CollapseStep R)
