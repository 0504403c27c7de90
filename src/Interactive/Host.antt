-- ===== src/Interactive/Host.antt =====
-- What UFrameInteractiveSubsystem and UArchSimModelRegistry call: Unreal's vectors and transforms, the
-- re-solve engine (frame::ReSolveSession, Plugins/FrameSolver/Source/FrameCore/Private/Reanalysis.cpp)
-- and the marshalling to and from it. None of it is given a definition here.
use Prim.Native.String.{String}
use architect_simulator.Base.{ℕ, Bool, List}
use architect_simulator.Base.Int.{ℤ}
use architect_simulator.Base.Real.{Real}
use architect_simulator.Frame.Types.{Vec3}
use architect_simulator.Frame.Model.{
  Material, Section, ShellQuad, MemberUdl, ShellPressure, FrameModel,
}

-- FFrameNode
pub record UeNode (R : Real) : Type 0 where
  pub id : ℕ
  pub position : Vec3 R
  pub fixed : List Bool
  pub prescribed : List R.carrier

-- FFrameMember
pub record UeMember (R : Real) : Type 0 where
  pub id : ℕ
  pub i : ℕ
  pub j : ℕ
  pub mat_idx : ℤ
  pub sec_idx : ℤ
  pub ref_vec : Vec3 R
  pub release : List Bool
  pub active : Bool
  pub tension_only : Bool

-- FFrameNodalLoad
pub record UeLoad (R : Real) : Type 0 where
  pub node : ℤ
  pub comp : List R.carrier

-- FFrameModelDef
pub record ModelDef (R : Real) : Type 0 where
  pub nodes : List (UeNode R)
  pub members : List (UeMember R)
  pub shells : List (ShellQuad R)
  pub materials : List (Material R)
  pub sections : List (Section R)
  pub nodal_loads : List (UeLoad R)
  pub member_udls : List (MemberUdl R)
  pub shell_pressures : List (ShellPressure R)

-- FFrameModelPatch
pub record Patch (R : Real) : Type 0 where
  pub deactivate_members : List ℤ
  pub reactivate_members : List ℤ
  pub deactivate_shells : List ℤ
  pub reactivate_shells : List ℤ
  pub reset_loads : Bool
  pub set_loads : List (UeLoad R)
  pub add_loads : List (UeLoad R)

-- FFrameMemberUtilization, the member's index and Peak.Risk.
pub record Utilization (R : Real) : Type 0 where
  pub member_idx : ℤ
  pub risk : R.carrier

-- FFrameSolveResult
pub record UeResult (R : Real) : Type 0 where
  pub singular : Bool
  pub diagnostic : String
  pub utilization : List (Utilization R)

-- What `new frame::ReSolveSession(...)` does, `valid()` and `diagnostic()` included.
pub data Made (Session : Type 0) : Type 0 where
  threw : Made Session
  invalid : String → Made Session
  session : Session → Made Session

-- The outcome of FromBlueprint on a model.
pub data Marshalled (R : Real) : Type 0 where
  refused : String → Marshalled R
  model : FrameModel R → Marshalled R

pub record Platform : Type 1 where
  pub real : Real
  pub Transform : Type 0
  pub transform_position : Transform → Vec3 real → Vec3 real
  pub dist : Vec3 real → Vec3 real → real.carrier
  pub size : Vec3 real → real.carrier
  pub scaled : Vec3 real → real.carrier → Vec3 real
  pub minus : Vec3 real → Vec3 real → Vec3 real
  pub over : Vec3 real → real.carrier → Vec3 real
  pub magnitude : real.carrier → real.carrier
  pub contains_nan : Vec3 real → Bool
  pub s275 : Material real
  pub rectangle_200 : Section real
  pub Session : Type 0
  pub Options : Type 0
  pub SolveResult : Type 0
  pub default_options : Options
  pub registry_options : Options
  pub new_session : FrameModel real → Options → Made Session
  pub set_member_active : Session → ℤ → Bool → Session
  pub set_shell_active : Session → ℤ → Bool → Session
  pub rebaseline : Session → Session
  pub solve : Session → Session × SolveResult
  pub is_singular : SolveResult → Bool
  pub from_blueprint : ModelDef real → Marshalled real
  pub to_blueprint : FrameModel real → SolveResult → UeResult real
