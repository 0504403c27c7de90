-- ===== src/Frame/Connectivity/Fragments.antt =====
-- The elements of the fragments that analyzeConnectivity reports
-- (Plugins/FrameSolver/Source/FrameCore/Public/FrameCore/Connectivity.h).
use architect_simulator.Base.{
  ==_refl, ◌||◌, ℕ, ◌≡◌, ◌<◌, refl, sym, ap, ◌∙◌, Bool, true, false, List, [], ◌∷◌, some, length,
  In, inl, inr, ◌⊎◌, Bool-cases, All-In,
}
use architect_simulator.Base.Real.{Real}
use architect_simulator.Frame.Sort.{sort-In}
use architect_simulator.Frame.Model.{Member, ShellQuad, FrameModel, node_index}
use architect_simulator.Frame.Model.Verdict.{ok}
use architect_simulator.Frame.Model.Validate.{validate}
use architect_simulator.Frame.UnionFind.Forest.{Root}
use architect_simulator.Frame.Connectivity.Loops.{Comp, ends, corners}
use architect_simulator.Frame.Connectivity.Cluster.{
  FragmentCluster, cluster, groups, front_le, analyze_connectivity,
}
use architect_simulator.Frame.Connectivity.Adds.{touches, any-append}
use architect_simulator.Frame.Connectivity.Edges.{
  edges, members_edges, shells_edges, member_edges, shell_edges, linked-attached, node_index-lt,
}
use architect_simulator.Frame.Connectivity.Detached.{Supported}
use architect_simulator.Frame.Connectivity.Gathered.{
  Keeps, clusters-In, cluster-In_members, cluster-In_shells,
}
use architect_simulator.Frame.Connectivity.Support.{
  uf, comps, well_formed, size, grouped, member_of, grounded-Supported, detached_is,
}

or_left : (a b : Bool) → a ≡ true → a || b ≡ true
or_left a b e = rw e refl

or_right : (a b : Bool) → b ≡ true → a || b ≡ true
or_right true b e = refl
or_right false b e = e

module _ {R : Real} (model : FrameModel R) where
  touches-ends :
      (m : Member R) (k l : ℕ)
      → m.active ≡ true
      → node_index model m.i ≡ some k
      → node_index model m.j ≡ some l
      → touches (member_edges model m) k ≡ true
  unfolding ends
  touches-ends m k l a i j = rw (a, i, j, ends) (or_left _ _ (or_left _ _ (==_refl k)))

  touches-corners :
      (s : ShellQuad R) (k b c d : ℕ)
      → s.active ≡ true
      → node_index model s.n.n0 ≡ some k
      → node_index model s.n.n1 ≡ some b
      → node_index model s.n.n2 ≡ some c
      → node_index model s.n.n3 ≡ some d
      → touches (shell_edges model s) k ≡ true
  unfolding corners
  touches-corners s k b c d a e0 e1 e2 e3 =
      rw (a, e0, e1, e2, e3, corners) (or_left _ _ (or_left _ _ (==_refl k)))

  touches-members :
      (ms : List (Member R)) (m : Member R) (k : ℕ)
      → In m ms
      → touches (member_edges model m) k ≡ true
      → touches (members_edges model ms) k ≡ true
  unfolding members_edges
  touches-members [] m k i t = absurd i
  touches-members (x ∷ ms) m k (inl e) t =
      any-append _ (member_edges model x) (members_edges model ms)
      ∙ or_left _ _ (ap (λ y. touches (member_edges model y) k) (sym e) ∙ t)
  touches-members (x ∷ ms) m k (inr i) t =
      any-append _ (member_edges model x) (members_edges model ms)
      ∙ or_right _ _ (touches-members ms m k i t)

  touches-shells :
      (ss : List (ShellQuad R)) (s : ShellQuad R) (k : ℕ)
      → In s ss
      → touches (shell_edges model s) k ≡ true
      → touches (shells_edges model ss) k ≡ true
  unfolding shells_edges
  touches-shells [] s k i t = absurd i
  touches-shells (x ∷ ss) s k (inl e) t =
      any-append _ (shell_edges model x) (shells_edges model ss)
      ∙ or_left _ _ (ap (λ y. touches (shell_edges model y) k) (sym e) ∙ t)
  touches-shells (x ∷ ss) s k (inr i) t =
      any-append _ (shell_edges model x) (shells_edges model ss)
      ∙ or_right _ _ (touches-shells ss s k i t)

module _ {R : Real} (model : FrameModel R) (valid : validate model (R.lit 1 6) ≡ ok) where
  -- A touched node is tied to a support, or its component floats.
  floats :
      (k : ℕ)
      → k < length model.nodes
      → touches (edges model) k ≡ true
      → Supported model k
        ⊎ ((r : ℕ) × (c : Comp) × In (r, c) (comps model valid)
            × Root (uf model valid) k r
            × (c.grounded ≡ false))
  floats k l t =
      let ((r, c), entry, at_k) = (grouped model valid).covers k l (linked-attached model k ∙ t) in
      elim (Bool-cases c.grounded) [
        | inl g ↦ inl (grounded-Supported model valid r c k entry at_k g)
        | inr f ↦ inr (r, c, entry, (member_of model valid r c k entry at_k).1, f)
      ]

  -- A fragment with the active elements whose first node stands at the index.
  abbrev FragmentAt : ℕ → Type 0
  FragmentAt k =
      (fc : FragmentCluster R) × In fc (analyze_connectivity model).detached
      × ((m : Member R)
          → In m model.members
          → m.active ≡ true
          → node_index model m.i ≡ some k
          → In m.id fc.members)
      × ((s : ShellQuad R)
          → In s model.shells
          → s.active ≡ true
          → node_index model s.n.n0 ≡ some k
          → In s.id fc.shells)

  fragment_at :
      (k : ℕ)
      → k < length model.nodes
      → touches (edges model) k ≡ true
      → Supported model k ⊎ FragmentAt k
  fragment_at k l t = elim (floats k l t) [
    | inl s ↦ inl s
    | inr (r, c, entry, root, g) ↦
        let start : Keeps (uf model valid) (groups model).0 = record {
          forest = (grouped model valid).forest;
          same = (grouped model valid).same;
        } in
        let (uf', keeps, found) =
          clusters-In model (uf model valid) (size model valid) (comps model valid) (groups model).0
            r c start entry g in
        inr (
          (cluster model r c uf').1,
          rw (detached_is model valid) (sort-In front_le _ _ found),
          (λ m i a n.
              cluster-In_members model (uf model valid) (size model valid) r k c uf' m keeps i a n
                root),
          (λ s i a n.
              cluster-In_shells model (uf model valid) (size model valid) r k c uf' s keeps i a n
                root),
        )
  ]

  -- The first node of an active member of a valid model is tied to a support by active elements, or the
  -- member is one of a fragment.
  pub member_fragment :
      (m : Member R)
      → In m model.members
      → m.active ≡ true
      → ((k : ℕ) × (node_index model m.i ≡ some k) × Supported model k)
        ⊎ ((fc : FragmentCluster R) × In fc (analyze_connectivity model).detached
            × In m.id fc.members)
  member_fragment m i a =
      let ((k, n), (l, j), _, _, _) =
        All-In _ model.members m (well_formed model valid).member_refs i in
      let t =
        any-append _ (members_edges model model.members) (shells_edges model model.shells)
        ∙ or_left _ _
            (touches-members model model.members m k i (touches-ends model m k l a n j)) in
      elim (fragment_at k (node_index-lt model m.i k n) (unfold edges in t)) [
        | inl s ↦ inl (k, n, s)
        | inr (fc, found, members, _) ↦ inr (fc, found, members m i a n)
      ]

  -- The same for an active shell.
  pub shell_fragment :
      (s : ShellQuad R)
      → In s model.shells
      → s.active ≡ true
      → ((k : ℕ) × (node_index model s.n.n0 ≡ some k) × Supported model k)
        ⊎ ((fc : FragmentCluster R) × In fc (analyze_connectivity model).detached
            × In s.id fc.shells)
  shell_fragment s i a =
      let ((k, n), (b, e1), (c, e2), (d, e3), _, _) =
        All-In _ model.shells s (well_formed model valid).shell_refs i in
      let t =
        any-append _ (members_edges model model.members) (shells_edges model model.shells)
        ∙ or_right _ _ (
            touches-shells model model.shells s k i
              (touches-corners model s k b c d a n e1 e2 e3)) in
      elim (fragment_at k (node_index-lt model s.n.n0 k n) (unfold edges in t)) [
        | inl h ↦ inl (k, n, h)
        | inr (fc, found, _, shells) ↦ inr (fc, found, shells s i a n)
      ]
