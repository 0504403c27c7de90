-- ===== src/Frame/Connectivity/Gathered.antt =====
-- What the loop over the components of analyzeConnectivity
-- (Plugins/FrameSolver/Source/FrameCore/Private/Connectivity.cpp) gathers into a cluster.
use architect_simulator.Base.{
  true_ne_false, ℕ, suc, ◌<◌, ◌≡◌, refl, sym, ap, ◌∙◌, subst, Bool, true, false, List, [], ◌∷◌, map,
  Option, none, some, length, In, In-map, inl, inr, if◌then◌else◌, ◌==◌, ==_refl, Bool-cases,
}
use architect_simulator.Base.Int.{ℤ}
use architect_simulator.Base.Real.{Real}
use architect_simulator.Frame.Types.{zero_of}
use architect_simulator.Frame.Sort.{sort, sort-In}
use architect_simulator.Frame.Model.{Member, ShellQuad, FrameModel, node_index}
use architect_simulator.Frame.UnionFind.{Parents, find}
use architect_simulator.Frame.UnionFind.Forest.{Root, Root-unique, IsForest}
use architect_simulator.Frame.UnionFind.Halving.{SameRoots, SameRoots-trans, find-Finds}
use architect_simulator.Frame.Connectivity.Mass.{MassAgg}
use architect_simulator.Frame.Connectivity.Loops.{Comp}
use architect_simulator.Frame.Connectivity.Cluster.{
  FragmentCluster, visit_element, gather, with_mass, cluster, visit_component, collect, clusters,
  pair_le,
}
use architect_simulator.Frame.Connectivity.Edges.{node_index-lt}

-- The parents are a forest with the roots of p.
pub record Keeps (p uf : Parents) : Type 0 where
  pub forest : IsForest uf
  pub same : SameRoots p uf

In-kept :
    (rest : List (ℤ × ℕ)) (c d : ℤ × ℕ) (b : Bool) → In c rest → In c (if b then d ∷ rest else rest)
In-kept rest c d true m = inr m
In-kept rest c d false m = m

module _ {A : Type 0} (active : A → Bool) (id_of : A → ℤ) (node : A → Option ℕ) (root : ℕ)
    (p : Parents) (ranged : (x : A) (k : ℕ) → node x ≡ some k → k < length p) where
  find-Keeps : (uf : Parents) (k : ℕ) → k < length p → Keeps p uf → Keeps p (find uf k).0
  find-Keeps uf k l h =
      let f = find-Finds uf k h.forest (subst (λ n. k < n) (sym h.same.size) l) in
      record { forest = f.forest; same = SameRoots-trans h.same f.same }

  visit_element-Keeps :
      (uf : Parents) (x : A) (a : Bool) (o : Option ℕ)
      → node x ≡ o
      → Keeps p uf
      → Keeps p (visit_element uf root a o).0
  visit_element-Keeps uf x false o e h = h
  visit_element-Keeps uf x true none e h = h
  visit_element-Keeps uf x true (some k) e h = find-Keeps uf k (ranged x k e) h

  pub gather-Keeps :
      (e : ℕ) (xs : List A) (uf : Parents)
      → Keeps p uf
      → Keeps p (gather active id_of node root e xs uf).0
  unfolding gather
  gather-Keeps e [] uf h = h
  gather-Keeps e (x ∷ xs) uf h =
      gather-Keeps (suc e) xs (visit_element uf root (active x) (node x)).0
        (visit_element-Keeps uf x (active x) (node x) refl h)

  -- The root that find gives is that of p.
  visit_element-here :
      (uf : Parents) (k : ℕ)
      → k < length p
      → Keeps p uf
      → Root p k root
      → ((find uf k).1 == root) ≡ true
  visit_element-here uf k l h r =
      let f = find-Finds uf k h.forest (subst (λ n. k < n) (sym h.same.size) l) in
      let e : (find uf k).1 ≡ root = Root-unique f.root (h.same.forth r) in
      ap (λ x. x == root) e ∙ ==_refl root

  pub gather-In :
      (e : ℕ) (xs : List A) (uf : Parents) (x : A) (k : ℕ)
      → Keeps p uf
      → In x xs
      → active x ≡ true
      → node x ≡ some k
      → Root p k root
      → (j : ℕ) × In (id_of x, j) (gather active id_of node root e xs uf).1
  unfolding gather
  gather-In e [] uf x k h i a n r = absurd i
  gather-In e (y ∷ xs) uf x k h (inl q) a n r =
      let here : (visit_element uf root (active y) (node y)).1 ≡ true =
        rw (ap active (sym q) ∙ a, ap node (sym q) ∙ n)
          (visit_element-here uf k (ranged x k n) h r) in
      (e, rw here (inl (ap (λ z. (id_of z, e)) q)))
  gather-In e (y ∷ xs) uf x k h (inr i) a n r =
      let (j, found) =
        gather-In (suc e) xs (visit_element uf root (active y) (node y)).0 x k
          (visit_element-Keeps uf y (active y) (node y) refl h) i a n r in
      (j, In-kept _ _ (id_of y, e) (visit_element uf root (active y) (node y)).1 found)

module _ {R : Real} (model : FrameModel R) (p : Parents)
    (size : length p ≡ length model.nodes) where
  node_of_member : Member R → Option ℕ
  node_of_member m = node_index model m.i

  in_range : (id : ℤ) (k : ℕ) → node_index model id ≡ some k → k < length p
  in_range id k e = subst (λ n. k < n) (sym size) (node_index-lt model id k e)

  gather_members : ℕ → Parents → Parents × List (ℤ × ℕ)
  gather_members root uf =
      gather (λ (m : Member R). m.active) (λ m. m.id) (λ m. node_index model m.i) root 0
        model.members uf

  gather_shells : ℕ → Parents → Parents × List (ℤ × ℕ)
  gather_shells root uf =
      gather (λ (s : ShellQuad R). s.active) (λ s. s.id) (λ s. node_index model s.n.n0) root 0
        model.shells uf

  with_mass_elements :
      (fc : FragmentCluster R) (agg : MassAgg R) (ks : List ℕ)
      → ((with_mass model fc agg ks).members ≡ fc.members)
        × ((with_mass model fc agg ks).shells ≡ fc.shells)
  unfolding with_mass
  with_mass_elements fc agg ks = elim (Bool-cases (R.lt (zero_of R) agg.mass)) [
    | inl e ↦ rw e (refl, refl)
    | inr e ↦ rw e (refl, refl)
  ]

  cluster_elements :
      (root : ℕ) (c : Comp) (uf : Parents)
      → ((cluster model root c uf).1.members
          ≡ map (λ (q : ℤ × ℕ). q.0) (sort pair_le (gather_members root uf).1))
        × ((cluster model root c uf).1.shells
            ≡ map
                (λ (q : ℤ × ℕ). q.0)
                (sort pair_le (gather_shells root (gather_members root uf).0).1))
  unfolding cluster gather_members gather_shells
  cluster_elements root c uf = with_mass_elements _ _ c.node_idx

  cluster-Keeps :
      (root : ℕ) (c : Comp) (uf : Parents) → Keeps p uf → Keeps p (cluster model root c uf).0
  unfolding cluster
  cluster-Keeps root c uf h =
      gather-Keeps (λ (s : ShellQuad R). s.active) (λ s. s.id) (λ s. node_index model s.n.n0) root p
        (λ s k e. in_range s.n.n0 k e) 0 model.shells _
        (gather-Keeps (λ (m : Member R). m.active) (λ m. m.id) (λ m. node_index model m.i) root p
          (λ m k e. in_range m.i k e) 0 model.members uf h)

  In-firsts :
      (id : ℤ) (j : ℕ) (found : List (ℤ × ℕ))
      → In (id, j) found
      → In id (map (λ (q : ℤ × ℕ). q.0) (sort pair_le found))
  In-firsts id j found i = In-map (λ (q : ℤ × ℕ). q.0) (id, j) _ (sort-In pair_le (id, j) found i)

  pub cluster-In_members :
      (root k : ℕ) (c : Comp) (uf : Parents) (m : Member R)
      → Keeps p uf
      → In m model.members
      → m.active ≡ true
      → node_index model m.i ≡ some k
      → Root p k root
      → In m.id (cluster model root c uf).1.members
  cluster-In_members root k c uf m h i a n r =
      let (j, found) =
        gather-In (λ (x : Member R). x.active) (λ x. x.id) (λ x. node_index model x.i) root p
          (λ x l e. in_range x.i l e) 0 model.members uf m k h i a n r in
      subst (In m.id) (sym (cluster_elements root c uf).0)
        (unfold gather_members in In-firsts m.id j _ found)

  pub cluster-In_shells :
      (root k : ℕ) (c : Comp) (uf : Parents) (s : ShellQuad R)
      → Keeps p uf
      → In s model.shells
      → s.active ≡ true
      → node_index model s.n.n0 ≡ some k
      → Root p k root
      → In s.id (cluster model root c uf).1.shells
  cluster-In_shells root k c uf s h i a n r =
      let h' =
        gather-Keeps (λ (m : Member R). m.active) (λ m. m.id) (λ m. node_index model m.i) root p
          (λ m l e. in_range m.i l e) 0 model.members uf h in
      let (j, found) =
        gather-In (λ (x : ShellQuad R). x.active) (λ x. x.id) (λ x. node_index model x.n.n0) root p
          (λ x l e. in_range x.n.n0 l e) 0 model.shells _ s k h' i a n r in
      subst (In s.id) (sym (cluster_elements root c uf).1)
        (unfold gather_members gather_shells in In-firsts s.id j _ found)

  -- A component that floats has a cluster, made with parents that keep the roots.
  pub clusters-In :
      (comps : List (ℕ × Comp)) (uf : Parents) (r : ℕ) (c : Comp)
      → Keeps p uf
      → In (r, c) comps
      → c.grounded ≡ false
      → (uf' : Parents) × Keeps p uf' × In (cluster model r c uf').1 (clusters model comps uf).1
  unfolding clusters visit_component collect
  clusters-In [] uf r c h i g = absurd i
  clusters-In ((s, d) ∷ comps) uf r c h i g =
      go d.grounded refl i (λ j. clusters-In comps uf r c h j g)
        (λ j. clusters-In comps (cluster model s d uf).0 r c (cluster-Keeps s d uf h) j g)
    where
      go :
          (b : Bool)
          → d.grounded ≡ b
          → In (r, c) ((s, d) ∷ comps)
          → (In (r, c) comps
              → (uf' : Parents) × Keeps p uf'
                × In (cluster model r c uf').1 (clusters model comps uf).1)
          → (In (r, c) comps
              → (uf' : Parents) × Keeps p uf'
                × In (cluster model r c uf').1 (clusters model comps (cluster model s d uf).0).1)
          → let found : Parents × Option (FragmentCluster R) =
              if b then (uf, none) else ((cluster model s d uf).0, some (cluster model s d uf).1) in
            (uf' : Parents) × Keeps p uf'
            × In (cluster model r c uf').1 (collect model found.1 (clusters model comps found.0)).1
      go true e (inl q) f f' =
          let no : true ≡ false = sym e ∙ sym (ap (λ (x : ℕ × Comp). x.1.grounded) q) ∙ g in
          elim (true_ne_false no) [ ]
      go true e (inr j) f f' = f j
      go false e (inl q) f f' = (uf, h, inl (ap (λ (x : ℕ × Comp). (cluster model x.0 x.1 uf).1) q))
      go false e (inr j) f f' = let (uf', h', k) = f' j in (uf', h', inr k)
