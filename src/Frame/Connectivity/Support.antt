-- ===== src/Frame/Connectivity/Support.antt =====
-- The contract of analyzeConnectivity (Plugins/FrameSolver/Source/FrameCore/Public/FrameCore/Connectivity.h):
-- `detached` holds the pieces that no path of active elements ties to a support, and those alone.
use architect_simulator.Base.{
  ℕ, zero, suc, ◌<◌, ◌≡◌, ◌↔◌, sym, ap, ◌∙◌, subst, true, List, [], ◌∷◌, some, get_elem?, length,
  All-In, In, In-map, In-unmap, arith, Bool-cases, Option-cases, inl, inr,
}
use architect_simulator.Base.Int.{leb_ℤ}
use architect_simulator.Base.Real.{Real}
use architect_simulator.Frame.Sort.{sort, sort-In, In-sort}
use architect_simulator.Frame.Model.{Node, FrameModel}
use architect_simulator.Frame.Model.Verdict.{ok}
use architect_simulator.Frame.Model.Indices.{index_of-get_elem?}
use architect_simulator.Frame.Model.Validate.{validate, IsWellFormed, validate-IsWellFormed}
use architect_simulator.Frame.UnionFind.{Parents, singletons}
use architect_simulator.Frame.UnionFind.Forest.{Root, Root-unique}
use architect_simulator.Frame.UnionFind.Components.{
  Linked, symm, trans, Same-Linked, Represents, unite_all-singletons-Represents, length-unite_all,
  singletons-Represents, length-singletons,
}
use architect_simulator.Frame.Connectivity.Loops.{Comp}
use architect_simulator.Frame.Connectivity.Cluster.{
  FragmentCluster, clusters, linked, groups, front_le, report, analyze_connectivity,
}
use architect_simulator.Frame.Connectivity.Adds.{touches}
use architect_simulator.Frame.Connectivity.Edges.{edges, linked-uf, linked-attached, edges-in}
use architect_simulator.Frame.Connectivity.Comps.{held, In-Ascending_unique}
use architect_simulator.Frame.Connectivity.Groups.{CompOk, Grouped, group-groups}
use architect_simulator.Frame.Connectivity.Detached.{
  floating, floating-In, In-floating, ids_of, clusters-nodes, node_ids-In, In-node_ids, Supported,
  InCluster, touches-Linked, any_of-In, In-any_of,
}

get_elem?-lt : {A : Type 0} (xs : List A) (k : ℕ) (x : A) → get_elem? xs k ≡ some x → k < length xs
get_elem?-lt [] k x h = cc
get_elem?-lt (y ∷ xs) zero x h = omega arith
get_elem?-lt (y ∷ xs) (suc k) x h = omega (arith, get_elem?-lt xs k x h)

module _ {R : Real} (model : FrameModel R) (valid : validate model (R.lit 1 6) ≡ ok) where
  abbrev pub uf : Parents
  uf = (linked model).uf

  abbrev pub comps : List (ℕ × Comp)
  comps = (groups model).1

  pub well_formed : IsWellFormed model
  well_formed = validate-IsWellFormed model (R.lit 1 6) valid

  pub represents : Represents uf (edges model)
  represents =
      rw (linked-uf model)
        (unite_all-singletons-Represents (length model.nodes) (edges model) (edges-in model))

  pub size : length uf ≡ length model.nodes
  size = rw (linked-uf model) (
      length-unite_all (singletons (length model.nodes)) (edges model)
        (singletons-Represents (length model.nodes)).forest
        (rw (length-singletons (length model.nodes)) (edges-in model))
      ∙ length-singletons (length model.nodes))

  pub grouped : Grouped model.nodes (linked model).attached uf (length model.nodes) (groups model)
  unfolding groups
  grouped = group-groups model.nodes (linked model).attached uf represents.forest size

  pub comp_ok :
      (r : ℕ) (c : Comp)
      → In (r, c) comps
      → CompOk model.nodes (linked model).attached uf (length model.nodes) (r, c)
  comp_ok r c i = All-In _ comps (r, c) grouped.comps_ok i

  -- The node at an index of a component: marked, with the root of the component.
  pub member_of :
      (r : ℕ) (c : Comp) (k : ℕ)
      → In (r, c) comps
      → In k c.node_idx
      → (touches (edges model) k ≡ true) × Root uf k r
  member_of r c k i h =
      let (_, m, root) = All-In _ c.node_idx k (comp_ok r c i).members h in
      (sym (linked-attached model k) ∙ m, root)

  -- Tied nodes stand in one component.
  same_comp :
      (r : ℕ) (c : Comp) (k l : ℕ)
      → In (r, c) comps
      → In k c.node_idx
      → l < length model.nodes
      → Linked (edges model) k l
      → In l c.node_idx
  same_comp r c k l i h lt tied = elim (touches-Linked (edges model) k l tied) [
    | inl e ↦ rw (← e) h
    | inr (_, t) ↦
        let ((s, d), j, h') = grouped.covers l lt (linked-attached model l ∙ t) in
        let (_, root_l) = member_of s d l j h' in
        let (_, root_k) = member_of r c k i h in
        let (q, from_k, from_l) = Same-Linked represents tied in
        let one : s ≡ r = Root-unique root_l from_l ∙ Root-unique from_k root_k in
        let entry : d ≡ c =
          In-Ascending_unique 0 r d c comps grouped.ascending (subst (λ x. In (x, d) comps) one j)
            i in
        subst (λ (x : Comp). In l x.node_idx) entry h'
  ]

  -- Nodes of one component are tied.
  comp-Linked :
      (r : ℕ) (c : Comp) (k l : ℕ)
      → In (r, c) comps
      → In k c.node_idx
      → In l c.node_idx
      → Linked (edges model) k l
  comp-Linked r c k l i h h' =
      trans (represents.sound k r (member_of r c k i h).1)
        (symm (represents.sound l r (member_of r c l i h').1))

  -- A component is grounded exactly when its nodes are tied to a support.
  pub grounded-Supported :
      (r : ℕ) (c : Comp) (k : ℕ)
      → In (r, c) comps
      → In k c.node_idx
      → c.grounded ≡ true
      → Supported model k
  grounded-Supported r c k i h g =
      let (l, h', e) =
        In-any_of (held model.nodes) c.node_idx (sym (comp_ok r c i).grounded_is ∙ g) in
      elim (Option-cases (get_elem? model.nodes l)) [
        | inl f ↦ cc (rw (f, held) at e)
        | inr (m, f) ↦ (l, m, f, comp-Linked r c k l i h h', rw (f, held) at e)
      ]

  Supported-grounded :
      (r : ℕ) (c : Comp) (k : ℕ)
      → In (r, c) comps
      → In k c.node_idx
      → Supported model k
      → c.grounded ≡ true
  Supported-grounded r c k i h (l, m, f, tied, fixed) =
      (comp_ok r c i).grounded_is
      ∙ any_of-In (held model.nodes) c.node_idx l
          (same_comp r c k l i h (get_elem?-lt model.nodes l m f) tied) (rw (f, held) fixed)

  pub detached_is :
      (analyze_connectivity model).detached
      ≡ sort front_le (clusters model comps (groups model).0).1
  unfolding analyze_connectivity report
  detached_is = ap (λ v. (report model v).detached) valid

  -- The clusters are those of the floating components, in another order.
  detached_from :
      (fc : FragmentCluster R)
      → In fc (analyze_connectivity model).detached
      → (c : Comp) × In c (floating comps) × (fc.nodes ≡ ids_of model c)
  detached_from fc h =
      let i = In-sort front_le fc _ (rw detached_is at h) in
      let j = In-map (λ (x : FragmentCluster R). x.nodes) fc _ i in
      let (c, e, k) =
        In-unmap (ids_of model) fc.nodes (floating comps)
          (rw (clusters-nodes model comps (groups model).0) at j) in
      (c, k, e)

  detached_of :
      (c : Comp)
      → In c (floating comps)
      → (fc : FragmentCluster R) × In fc (analyze_connectivity model).detached
        × (ids_of model c ≡ fc.nodes)
  detached_of c h =
      let j = In-map (ids_of model) c (floating comps) h in
      let (fc, e, k) =
        In-unmap (λ (x : FragmentCluster R). x.nodes) (ids_of model c)
          (clusters model comps (groups model).0).1
          (rw (← clusters-nodes model comps (groups model).0) at j) in
      (fc, rw detached_is (sort-In front_le fc _ k), e)

  -- Nodes with one id are one.
  same_node :
      (k l : ℕ) (n m : Node R)
      → get_elem? model.nodes k ≡ some n
      → get_elem? model.nodes l ≡ some m
      → n.id ≡ m.id
      → l ≡ k
  same_node k l n m e f q =
      let a = index_of-get_elem? (λ (x : Node R). x.id) model.nodes k n well_formed.node_ids e in
      let b = index_of-get_elem? (λ (x : Node R). x.id) model.nodes l m well_formed.node_ids f in
      cc (a, b, q)

  -- A node of a valid model stands in a cluster of `detached` exactly when an active element has it
  -- for an end and no path of active elements ties it to a node with a held degree of freedom.
  pub detached_iff :
      (k : ℕ) (n : Node R)
      → get_elem? model.nodes k ≡ some n
      → InCluster model n ↔ ((touches (edges model) k ≡ true) × (¬ Supported model k))
  detached_iff k n e = (forth, back)
    where
      forth : InCluster model n → (touches (edges model) k ≡ true) × (¬ Supported model k)
      forth (fc, h, i) =
          let (c, j, q) = detached_from fc h in
          let (r, entry, floats) = In-floating c comps j in
          let (l, m, at_l, f, id) =
            In-node_ids model c.node_idx n.id (In-sort leb_ℤ n.id _ (rw q at i)) in
          let at_k = subst (λ x. In x c.node_idx) (same_node k l n m e f id) at_l in
          ((member_of r c k entry at_k).0, λ s. cc (Supported-grounded r c k entry at_k s, floats))

      back : (touches (edges model) k ≡ true) × (¬ Supported model k) → InCluster model n
      back (t, free) =
          let ((r, c), entry, at_k) =
            grouped.covers k (get_elem?-lt model.nodes k n e) (linked-attached model k ∙ t) in
          elim (Bool-cases c.grounded) [
            | inl g ↦ absurd (free (grounded-Supported r c k entry at_k g))
            | inr g ↦
                let (fc, h, q) = detached_of c (floating-In r c comps entry g) in
                (fc, h, rw (← q) (sort-In leb_ℤ n.id _ (node_ids-In model c.node_idx k n at_k e)))
          ]
