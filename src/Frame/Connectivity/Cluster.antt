-- ===== src/Frame/Connectivity/Cluster.antt =====
-- The loop of analyzeConnectivity (Plugins/FrameSolver/Source/FrameCore/Private/Connectivity.cpp) over
-- the components: the floating ones become clusters with their elements and mass properties.
use architect_simulator.Base.{
  ℕ, suc, Bool, true, false, ◌&&◌, List, [], ◌∷◌, map, Option, none, some, get_elem?, length,
  replicate, if◌then◌else◌, leb, ◌==◌,
}
use mathlib.Core.List.{foldl}
use architect_simulator.Base.Int.{ℤ, pos, ltb_ℤ, leb_ℤ, eqb_ℤ}
use architect_simulator.Base.Real.{Real}
use architect_simulator.Frame.Types.{Vec3, Dof6, vec_sub, vec_add, vec_scale, norm, zero_of, dof6}
use architect_simulator.Frame.Sort.{sort}
use architect_simulator.Frame.Model.{Member, ShellQuad, FrameModel, node_index, element_at}
use architect_simulator.Frame.Model.Verdict.{Verdict, ok, bad}
use architect_simulator.Frame.Model.Checks.{position_of}
use architect_simulator.Frame.Model.Validate.{validate}
use architect_simulator.Frame.UnionFind.{Parents, find, singletons}
use architect_simulator.Frame.Connectivity.Mass.{
  MassAgg, add_scaled_outer, add_rod, add_triangle, triangle_area, empty_mass,
}
use architect_simulator.Frame.Connectivity.Loops.{
  Links, link_members, link_shells, loose, Comp, group,
}

-- `centre` is the `com` of the source.
pub record FragmentCluster (R : Real) : Type 0 where
  pub nodes : List ℤ
  pub members : List ℤ
  pub shells : List ℤ
  pub mass : R.carrier
  pub centre : Vec3 R
  pub inertia : Dof6 R.carrier
  pub vel : Vec3 R
  pub ang_vel : Vec3 R

pub record ConnectivityResult (R : Real) : Type 0 where
  pub detached : List (FragmentCluster R)
  pub loose_nodes : List ℤ
  pub grounded_components : ℕ
  pub valid : Bool

-- std::pair<int, size_t>, an id and a position, in their order.
abbrev pub pair_le : ℤ × ℕ → ℤ × ℕ → Bool
pair_le (a, i) (b, j) = if ltb_ℤ a b then true else eqb_ℤ a b && leb i j

-- Whether an active element's first node has the root, and the parents after find.
abbrev pub visit_element : Parents → ℕ → Bool → Option ℕ → Parents × Bool
visit_element uf root false n = (uf, false)
visit_element uf root true none = (uf, false)
visit_element uf root true (some k) = ((find uf k).0, (find uf k).1 == root)

-- The positions from e on of the active elements whose first node has the root, with their ids.
unfoldable pub gather :
    {A : Type 0}
    → (A → Bool)
    → (A → ℤ)
    → (A → Option ℕ)
    → ℕ
    → ℕ
    → List A
    → Parents
    → Parents × List (ℤ × ℕ)
gather active id_of node root e [] uf = (uf, [])
gather active id_of node root e (x ∷ xs) uf =
    let (uf₁, here) = visit_element uf root (active x) (node x) in
    let (uf₂, rest) = gather active id_of node root (suc e) xs uf₁ in
    (uf₂, if here then (id_of x, e) ∷ rest else rest)

module _ {R : Real} (model : FrameModel R) where
  open R use {carrier, lit, add, sub, mul, div, neg, lt}

  -- materials[idx].rho if the index is in range, else 0.
  unfoldable pub rho_of : ℤ → carrier
  rho_of idx = elim (element_at model.materials idx) [ none ↦ zero_of R | some m ↦ m.rho ]

  unfoldable pub area_of : ℤ → carrier
  area_of idx = elim (element_at model.sections idx) [ none ↦ zero_of R | some s ↦ s.area ]

  -- model.nodes[model.nodeIndex(id)].pos
  unfoldable pub point : ℤ → Vec3 R
  point id = elim (node_index model id) [
    | none ↦ record { x = zero_of R; y = zero_of R; z = zero_of R }
    | some k ↦ position_of R model k
  ]

  unfoldable pub add_member : MassAgg R → ℤ × ℕ → MassAgg R
  add_member agg (_, e) = elim (get_elem? model.members e) [
    | none ↦ agg
    | some mem ↦
        let pi = point mem.i in
        let pj = point mem.j in
        add_rod agg pi pj (
          mul (mul (mul (rho_of mem.mat_idx) (lit 1 12)) (area_of mem.sec_idx))
            (norm (vec_sub pj pi)))
  ]

  unfoldable pub add_shell : MassAgg R → ℤ × ℕ → MassAgg R
  add_shell agg (_, s) = elim (get_elem? model.shells s) [
    | none ↦ agg
    | some sh ↦
        let sigma = mul (mul (rho_of sh.mat_idx) (lit 1 12)) sh.t in
        let p0 = point sh.n.n0 in
        let p1 = point sh.n.n1 in
        let p2 = point sh.n.n2 in
        let p3 = point sh.n.n3 in
        let half = add_triangle agg p0 p1 p2 (mul sigma (triangle_area p0 p1 p2)) in
        add_triangle half p0 p2 p3 (mul sigma (triangle_area p0 p2 p3))
  ]

  -- The ids of the nodes at the indices.
  unfoldable pub node_ids : List ℕ → List ℤ
  node_ids [] = []
  node_ids (k ∷ ks) = elim (get_elem? model.nodes k) [
    | none ↦ node_ids ks
    | some n ↦ n.id ∷ node_ids ks
  ]

  unfoldable pub origin : Vec3 R
  origin = record { x = zero_of R; y = zero_of R; z = zero_of R }

  -- Mass, centre of mass and inertia tensor from the moments; a massless cluster has the mean of
  -- its nodes for a centre.
  unfoldable pub with_mass : FragmentCluster R → MassAgg R → List ℕ → FragmentCluster R
  with_mass fc agg node_idx =
      let one = lit 1 0 in
      let centre = vec_scale agg.first (div one agg.mass) in
      let s = add_scaled_outer agg.second centre (neg agg.mass) in
      let total =
        foldl (λ (v : Vec3 R) (k : ℕ). vec_add v (position_of R model k)) origin node_idx in
      let heavy : Dof6 carrier = record {
        ux = add s.yy s.zz;
        uy = add s.xx s.zz;
        uz = add s.xx s.yy;
        rx = neg s.xy;
        ry = neg s.xz;
        rz = neg s.yz;
      } in
      if lt (zero_of R) agg.mass
      then record fc { mass = agg.mass; centre = centre; inertia = heavy }
      else record fc {
        mass = agg.mass;
        centre = vec_scale total (div one (lit (length node_idx) 0));
        inertia = dof6 (zero_of R);
      }

  -- One component that floats.
  unfoldable pub cluster : ℕ → Comp → Parents → Parents × FragmentCluster R
  cluster root c uf =
      let (uf₁, mem_found) =
        gather (λ (m : Member R). m.active) (λ m. m.id) (λ m. node_index model m.i) root 0
          model.members uf in
      let (uf₂, sh_found) =
        gather (λ (s : ShellQuad R). s.active) (λ s. s.id) (λ s. node_index model s.n.n0) root 0
          model.shells uf₁ in
      let mem_idx = sort pair_le mem_found in
      let sh_idx = sort pair_le sh_found in
      let agg = foldl add_shell (foldl add_member (empty_mass R) mem_idx) sh_idx in
      let fc : FragmentCluster R = record {
        nodes = sort leb_ℤ (node_ids c.node_idx);
        members = map (λ (p : ℤ × ℕ). p.0) mem_idx;
        shells = map (λ (p : ℤ × ℕ). p.0) sh_idx;
        mass = zero_of R;
        centre = origin;
        inertia = dof6 (zero_of R);
        vel = origin;
        ang_vel = origin;
      } in
      (uf₂, with_mass fc agg c.node_idx)

  -- A grounded component is counted, any other gives a cluster.
  unfoldable pub visit_component : ℕ × Comp → Parents → Parents × Option (FragmentCluster R)
  visit_component (root, c) uf =
      if c.grounded then (uf, none) else (let (uf₁, fc) = cluster root c uf in (uf₁, some fc))

  unfoldable pub collect :
      Option (FragmentCluster R) → ℕ × List (FragmentCluster R) → ℕ × List (FragmentCluster R)
  collect none (n, fcs) = (suc n, fcs)
  collect (some fc) (n, fcs) = (n, fc ∷ fcs)

  -- The loop over the components, in the order of their roots.
  unfoldable pub clusters : List (ℕ × Comp) → Parents → ℕ × List (FragmentCluster R)
  clusters [] uf = (0, [])
  clusters (rc ∷ comps) uf =
      let (uf₁, found) = visit_component rc uf in collect found (clusters comps uf₁)

  -- The parents and marks after the loops over the members and the shells.
  unfoldable pub linked : Links
  linked =
      let n = length model.nodes in
      link_shells model
        (link_members model (record { uf = singletons n; attached = replicate n false })
          model.members)
        model.shells

  unfoldable pub groups : Parents × List (ℕ × Comp)
  groups = group linked.attached 0 model.nodes (linked.uf, [])

abbrev pub front : List ℤ → ℤ
front [] = pos 0
front (x ∷ xs) = x

-- a.nodes.front() < b.nodes.front()
abbrev pub front_le : {R : Real} → FragmentCluster R → FragmentCluster R → Bool
front_le a b = leb_ℤ (front a.nodes) (front b.nodes)

-- The result, once `validate` has answered.
unfoldable pub report : {R : Real} → FrameModel R → Verdict → ConnectivityResult R
report model (bad why) = record {
  detached = [];
  loose_nodes = [];
  grounded_components = 0;
  valid = false;
}
report {R} model ok =
    let (n, fcs) = clusters model (groups model).1 (groups model).0 in
    record {
      detached = sort front_le fcs;
      loose_nodes = sort leb_ℤ (loose (linked model).attached 0 model.nodes);
      grounded_components = n;
      valid = true;
    }

-- With the default warp tolerance of validate.
unfoldable pub analyze_connectivity : {R : Real} → FrameModel R → ConnectivityResult R
analyze_connectivity {R} model = report model (validate model (R.lit 1 6))
