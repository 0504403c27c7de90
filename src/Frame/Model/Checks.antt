-- ===== src/Frame/Model/Checks.antt =====
-- The guards of FrameModel::validate (Plugins/FrameSolver/Source/FrameCore/Private/FrameModel.cpp)
-- on a node, a member, a load and a hinge, each with the message that it leaves in `why`.
use architect_simulator.Base.{ℕ, Bool, not, ◌&&◌, ◌||◌, none, some, any, get_elem?}
use architect_simulator.Base.Int.{pos, eqb_ℤ}
use architect_simulator.Base.Real.{Real}
use architect_simulator.Frame.Types.{Vec3, Dof6, vec_sub, norm, zero_of}
use architect_simulator.Frame.Model.Verdict.{Verdict, ◌>>◌, reject, need}
use architect_simulator.Frame.Model.{
  Node, Material, Section, Member, ShellQuad, NodalLoad, MemberUdl, ShellPressure, PlasticHinge,
  FrameModel, node_index, element_at,
}

module _ (R : Real) where
  abbrev pub finite_vec3 : Vec3 R → Bool
  finite_vec3 v = R.is_finite v.x && R.is_finite v.y && R.is_finite v.z

  abbrev pub finite_dof6 : Dof6 R.carrier → Bool
  finite_dof6 v =
      R.is_finite v.ux
      && R.is_finite v.uy
      && R.is_finite v.uz
      && R.is_finite v.rx
      && R.is_finite v.ry
      && R.is_finite v.rz

  -- x <= 0
  abbrev pub non_positive : R.carrier → Bool
  non_positive x = R.le x (zero_of R)

  unfoldable pub check_node : Node R → Verdict
  check_node n = do
    reject (not (finite_vec3 n.position)) "node has non-finite coordinate"
    reject (not (finite_dof6 n.prescribed)) "node has non-finite prescribed displacement"

  abbrev pub finite_material : Material R → Bool
  finite_material m =
      R.is_finite m.young && R.is_finite m.shear_modulus && R.is_finite m.nu && R.is_finite m.rho

  abbrev pub finite_section : Section R → Bool
  finite_section s =
      R.is_finite s.area
      && R.is_finite s.iy
      && R.is_finite s.iz
      && R.is_finite s.torsion
      && R.is_finite s.cy
      && R.is_finite s.cz
      && R.is_finite s.asy
      && R.is_finite s.asz

  abbrev pub position_of : FrameModel R → ℕ → Vec3 R
  position_of model k = elim (get_elem? model.nodes k) [
    | some n ↦ n.position
    | none ↦ record { x = zero_of R; y = zero_of R; z = zero_of R }
  ]

  unfoldable pub check_member : FrameModel R → Member R → Verdict
  check_member model m = need (node_index model m.i) "member references missing node" λ ni.
      need (node_index model m.j) "member references missing node" λ nj.
        reject (eqb_ℤ m.i m.j) "member endpoints identical (i == j)"
        >> need (element_at model.materials m.mat_idx) "member material index out of range" λ mat.
          need (element_at model.sections m.sec_idx) "member section index out of range" λ sec. do
            reject (not (finite_vec3 m.ref_vec)) "member has non-finite reference vector"
            reject (not (finite_material mat)) "member material has non-finite property"
            reject (non_positive mat.young || non_positive mat.shear_modulus) "non-positive E or G"
            reject (R.lt mat.rho (zero_of R)) "negative density"
            reject (not (finite_section sec)) "member section has non-finite property"
            reject
                (non_positive sec.area
                  || non_positive sec.iy
                  || non_positive sec.iz
                  || non_positive sec.torsion)
                "non-positive section property"
            reject (non_positive (norm (vec_sub (position_of model nj) (position_of model ni))))
                "coincident member endpoints"

  unfoldable pub check_load : FrameModel R → NodalLoad R → Verdict
  check_load model l =
      need (node_index model l.node) "nodal load references missing node"
        λ _. reject (not (finite_dof6 l.comp)) "nodal load has non-finite component"

  unfoldable pub check_udl : FrameModel R → MemberUdl R → Verdict
  check_udl model u = do
    reject (not (any (λ (m : Member R). eqb_ℤ m.id u.member) model.members))
        "member UDL references missing member"
    reject (not (finite_vec3 u.w_local)) "member UDL has non-finite component"

  unfoldable pub check_pressure : FrameModel R → ShellPressure R → Verdict
  check_pressure model sp = do
    reject (not (any (λ (s : ShellQuad R). eqb_ℤ s.id sp.shell) model.shells))
        "shell pressure references missing shell"
    reject (not (R.is_finite sp.p)) "shell pressure has non-finite value"

  unfoldable pub check_hinge : FrameModel R → PlasticHinge R → Verdict
  check_hinge model h = do
    reject (not (any (λ (m : Member R). eqb_ℤ m.id h.member) model.members))
        "plastic hinge references missing member"
    reject
        (not (eqb_ℤ h.dof (pos 4))
          && not (eqb_ℤ h.dof (pos 5))
          && not (eqb_ℤ h.dof (pos 10))
          && not (eqb_ℤ h.dof (pos 11)))
        "plastic hinge dof must be a bending rotation (4/5/10/11)"
    reject (not (R.is_finite h.mp)) "plastic hinge has non-finite Mp"
