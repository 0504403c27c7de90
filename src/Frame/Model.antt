-- ===== src/Frame/Model.antt =====
-- FrameModel and the structs that it holds, of Plugins/FrameSolver/Source/FrameCore/Public/FrameCore:
-- Node.h, Member.h, Material.h, Section.h, Load.h, Shell.h, Hinge.h, FrameModel.h. Ids are `int`, so
-- they may be negative; `nodeIndex` and its siblings return `none` where the source returns -1.
pub mod Verdict
pub mod Checks
pub mod Quad
pub mod Validate
pub mod Indices
pub mod Samples
pub mod Tests
use architect_simulator.Base.{
  ℕ, suc, ◌*◌, Bool, true, false, List, [], ◌∷◌, Option, none, some, length, get_elem?,
  if◌then◌else◌,
}
use architect_simulator.Base.Int.{ℤ, pos, negsuc, eqb_ℤ}
use architect_simulator.Base.Real.{Real}
use architect_simulator.Frame.Types.{Vec3, Dof6}

pub record Node (R : Real) : Type 0 where
  pub id : ℤ
  pub position : Vec3 R
  pub fixed : Dof6 Bool
  pub prescribed : Dof6 R.carrier

pub record Capacity (R : Real) : Type 0 where
  pub comp : R.carrier
  pub tens : R.carrier
  pub shear : R.carrier
  pub bend : R.carrier
  pub tors : R.carrier
  pub vm : R.carrier

pub record Material (R : Real) : Type 0 where
  pub young : R.carrier
  pub shear_modulus : R.carrier
  pub nu : R.carrier
  pub rho : R.carrier
  pub fy : R.carrier
  pub cap : Capacity R

pub record Section (R : Real) : Type 0 where
  pub area : R.carrier
  pub iy : R.carrier
  pub iz : R.carrier
  pub torsion : R.carrier
  pub cy : R.carrier
  pub cz : R.carrier
  pub asy : R.carrier
  pub asz : R.carrier
  pub zy : R.carrier
  pub zz : R.carrier

pub record Member (R : Real) : Type 0 where
  pub id : ℤ
  pub i : ℤ
  pub j : ℤ
  pub mat_idx : ℤ
  pub sec_idx : ℤ
  pub ref_vec : Vec3 R
  pub release : Dof6 Bool × Dof6 Bool
  pub active : Bool
  pub tension_only : Bool

-- int n[4]
pub record Corners (A : Type 0) : Type 0 where
  pub n0 : A
  pub n1 : A
  pub n2 : A
  pub n3 : A

pub record ShellQuad (R : Real) : Type 0 where
  pub id : ℤ
  pub n : Corners ℤ
  pub mat_idx : ℤ
  pub t : R.carrier
  pub active : Bool

pub record NodalLoad (R : Real) : Type 0 where
  pub node : ℤ
  pub comp : Dof6 R.carrier

pub record MemberUdl (R : Real) : Type 0 where
  pub member : ℤ
  pub w_local : Vec3 R

pub record ShellPressure (R : Real) : Type 0 where
  pub shell : ℤ
  pub p : R.carrier

pub record PlasticHinge (R : Real) : Type 0 where
  pub member : ℤ
  pub dof : ℤ
  pub mp : R.carrier

pub record FrameModel (R : Real) : Type 0 where
  pub nodes : List (Node R)
  pub members : List (Member R)
  pub shells : List (ShellQuad R)
  pub materials : List (Material R)
  pub sections : List (Section R)
  pub nodal_loads : List (NodalLoad R)
  pub member_udls : List (MemberUdl R)
  pub shell_pressures : List (ShellPressure R)
  pub hinges : List (PlasticHinge R)

abbrev pub next_index : Option ℕ → Option ℕ
next_index none = none
next_index (some k) = some (suc k)

-- The first index whose id matches.
unfoldable pub index_of : {A : Type 0} → (A → ℤ) → List A → ℤ → Option ℕ
index_of key [] id = none
index_of key (x ∷ xs) id = if eqb_ℤ (key x) id then some 0 else next_index (index_of key xs id)

module _ {R : Real} where
  abbrev pub node_index : FrameModel R → ℤ → Option ℕ
  node_index model id = index_of (λ (n : Node R). n.id) model.nodes id

  abbrev pub member_index : FrameModel R → ℤ → Option ℕ
  member_index model id = index_of (λ (m : Member R). m.id) model.members id

  abbrev pub shell_index : FrameModel R → ℤ → Option ℕ
  shell_index model id = index_of (λ (s : ShellQuad R). s.id) model.shells id

-- xs[i] behind the guard `i >= 0 && i < xs.size()`.
abbrev pub element_at : {A : Type 0} → List A → ℤ → Option A
element_at xs (pos k) = get_elem? xs k
element_at xs (negsuc k) = none
