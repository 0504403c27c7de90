-- ===== src/Collapse/Cleanup.antt =====
-- What a step of runProgressiveCollapse (FrameCore/Private/Collapse.cpp) does to its working model before
-- it solves: the events, the fragments and the pins of CollapseSupport.h.
use architect_simulator.Base.{
  ℕ, zero, suc, Bool, true, false, ◌||◌, List, [], ◌∷◌, ◌++◌, Option, none, some, any,
  if◌then◌else◌, map, get_elem?,
}
use mathlib.Core.List.{foldl}
use architect_simulator.Base.Int.{ℤ, pos, ltb_ℤ, eqb_ℤ}
use architect_simulator.Base.Real.{Real}
use architect_simulator.Frame.Types.{Dof6, dof6, vec_scale, zero_of}
use architect_simulator.Frame.Model.{
  Node, Member, ShellQuad, NodalLoad, MemberUdl, ShellPressure, FrameModel, node_index,
  member_index, shell_index,
}
use architect_simulator.Frame.Model.Checks.{position_of}
use architect_simulator.Frame.Connectivity.Cluster.{FragmentCluster, ConnectivityResult}
use architect_simulator.Collapse.{Engine, CollapseHingeEvent}

-- xs[k] changed, where there is one.
unfoldable pub change_at : {A : Type 0} → (A → A) → ℕ → List A → List A
change_at f k [] = []
change_at f zero (x ∷ xs) = f x ∷ xs
change_at f (suc k) (x ∷ xs) = x ∷ change_at f k xs

-- The same at the position of an id; an id that is not there is none of those that come here.
abbrev pub change_found : {A : Type 0} → (A → A) → Option ℕ → List A → List A
change_found f none xs = xs
change_found f (some k) xs = change_at f k xs

abbrev pub found_at : {A : Type 0} → Option ℕ → List A → Option A
found_at none xs = none
found_at (some k) xs = get_elem? xs k

unfoldable pub filter_out : {A : Type 0} → (A → Bool) → List A → List A
filter_out p [] = []
filter_out p (x ∷ xs) = let rest = filter_out p xs in if p x then rest else x ∷ rest

abbrev pub scale_dofs : (R : Real) → R.carrier → Dof6 R.carrier → Dof6 R.carrier
scale_dofs R k c = record {
  ux = R.mul c.ux k;
  uy = R.mul c.uy k;
  uz = R.mul c.uz k;
  rx = R.mul c.rx k;
  ry = R.mul c.ry k;
  rz = R.mul c.rz k;
}

module _ {R : Real} where
  abbrev pub fix_node : Node R → Node R
  fix_node n = record n { fixed = dof6 true; prescribed = dof6 (zero_of R) }

  unfoldable pub pin_node : FrameModel R → ℤ → FrameModel R
  unfolding change_at filter_out
  pin_node work nid = elim (node_index work nid) [
    | none ↦ work
    | some k ↦ record work {
      nodes = change_at fix_node k work.nodes;
      nodal_loads = filter_out (λ (nl : NodalLoad R). eqb_ℤ nl.node nid) work.nodal_loads;
    }
  ]

  unfoldable pub any_active : FrameModel R → Bool
  any_active work =
      any (λ (m : Member R). m.active) work.members
      || any (λ (s : ShellQuad R). s.active) work.shells

  unfoldable pub deactivate_member_of : FrameModel R → ℤ → FrameModel R
  unfolding change_at
  deactivate_member_of work id = record work {
    members =
        change_found (λ (m : Member R). record m { active = false }) (member_index work id)
          work.members;
  }

  unfoldable pub deactivate_shell_of : FrameModel R → ℤ → FrameModel R
  unfolding change_at
  deactivate_shell_of work id = record work {
    shells =
        change_found (λ (s : ShellQuad R). record s { active = false }) (shell_index work id)
          work.shells;
  }

  unfoldable pub clear_fragment : FrameModel R → FragmentCluster R → FrameModel R
  unfolding deactivate_member_of deactivate_shell_of pin_node
  clear_fragment work fc =
      foldl pin_node
        (foldl deactivate_shell_of (foldl deactivate_member_of work fc.members) fc.shells) fc.nodes

  -- What is no longer connected to a support is deactivated and pinned, and so are the loose nodes.
  unfoldable pub clean_up : FrameModel R → ConnectivityResult R → FrameModel R
  unfolding clear_fragment pin_node
  clean_up work conn = foldl pin_node (foldl clear_fragment work conn.detached) conn.loose_nodes

  -- The force loads by the dynamic load factor; prescribed displacements stay.
  unfoldable pub scale_loads : FrameModel R → R.carrier → FrameModel R
  unfolding vec_scale
  scale_loads work dlf = record work {
    nodal_loads =
        map (λ (nl : NodalLoad R). record nl { comp = scale_dofs R dlf nl.comp }) work.nodal_loads;
    member_udls =
        map (λ (u : MemberUdl R). record u { w_local = vec_scale u.w_local dlf }) work.member_udls;
    shell_pressures =
        map (λ (sp : ShellPressure R). record sp { p = R.mul sp.p dlf }) work.shell_pressures;
  }

module _ {R : Real} (engine : Engine R) where
  -- The moment at the hinge's node, about the member's axis that the hinge turns on.
  abbrev pub hinge_load :
      FrameModel R
      → CollapseHingeEvent R
      → R.carrier
      → Member R
      → Option ℕ
      → Option ℕ
      → FrameModel R
  hinge_load work h sign mem none nj = work
  hinge_load work h sign mem (some ni) none = work
  hinge_load work h sign mem (some ni) (some nj) =
      let (ay, az) =
        engine.local_axes (position_of R work ni) (position_of R work nj) mem.ref_vec in
      let axis = if eqb_ℤ h.dof (pos 4) || eqb_ℤ h.dof (pos 10) then ay else az in
      let m = R.mul (R.neg sign) h.mp in
      record work {
        nodal_loads =
            work.nodal_loads
            ++ (record {
              node = if ltb_ℤ h.dof (pos 6) then mem.i else mem.j;
              comp = record {
                ux = zero_of R;
                uy = zero_of R;
                uz = zero_of R;
                rx = R.mul m axis.x;
                ry = R.mul m axis.y;
                rz = R.mul m axis.z;
              };
            })
              ∷ [];
      }

  abbrev pub hinge_on :
      FrameModel R → CollapseHingeEvent R → R.carrier → Option (Member R) → FrameModel R
  hinge_on work h sign none = work
  hinge_on work h sign (some mem) =
      hinge_load work h sign mem (node_index work mem.i) (node_index work mem.j)

  unfoldable pub add_hinge_node_moment :
      FrameModel R → CollapseHingeEvent R → R.carrier → FrameModel R
  add_hinge_node_moment work h sign =
      hinge_on work h sign (found_at (member_index work h.member) work.members)

  -- The removal of a member takes back the moments of the hinges that the driver formed on it.
  unfoldable pub remove_member : List (CollapseHingeEvent R) → FrameModel R → ℤ → FrameModel R
  unfolding deactivate_member_of add_hinge_node_moment
  remove_member formed work id =
      foldl
        (λ w (h : CollapseHingeEvent R).
          if eqb_ℤ h.member id then add_hinge_node_moment w h (R.neg (R.lit 1 0)) else w)
        (deactivate_member_of work id) formed

  unfoldable pub form_hinge : FrameModel R → CollapseHingeEvent R → FrameModel R
  unfolding add_hinge_node_moment
  form_hinge work h =
      add_hinge_node_moment
        (record work {
          hinges = work.hinges ++ (record { member = h.member; dof = h.dof; mp = h.mp }) ∷ [];
        })
        h (R.lit 1 0)
