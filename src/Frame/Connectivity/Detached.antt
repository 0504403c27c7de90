-- ===== src/Frame/Connectivity/Detached.antt =====
-- What analyzeConnectivity promises (Plugins/FrameSolver/Source/FrameCore/Public/FrameCore/Connectivity.h):
-- the clusters in `detached` are the connected pieces that no path of active elements ties to a support.
use architect_simulator.Base.{
  ℕ, ◌≡◌, refl, sym, ap, ◌∙◌, Bool, true, false, List, [], ◌∷◌, map, Option, none, some, get_elem?,
  In, arith, if◌then◌else◌, Bool-cases, Option-cases, inl, inr, ◌⊎◌, any,
}
use architect_simulator.Base.Int.{ℤ, leb_ℤ}
use architect_simulator.Base.Real.{Real}
use architect_simulator.Frame.Types.{zero_of}
use architect_simulator.Frame.Connectivity.Mass.{MassAgg}
use architect_simulator.Frame.Sort.{sort}
use architect_simulator.Frame.Model.{Node, FrameModel}
use architect_simulator.Frame.UnionFind.{Parents}
use architect_simulator.Frame.UnionFind.Components.{Edges, Linked, edge, equal, symm, trans, Occurs}
use architect_simulator.Frame.Connectivity.Loops.{any_fixed, Comp}
use architect_simulator.Frame.Connectivity.Cluster.{
  FragmentCluster, node_ids, with_mass, cluster, visit_component, collect, clusters,
  analyze_connectivity,
}
use architect_simulator.Frame.Connectivity.Adds.{touches}
use architect_simulator.Frame.Connectivity.Edges.{edges}

abbrev keep_unless : Bool → Comp → List Comp → List Comp
keep_unless true c rest = rest
keep_unless false c rest = c ∷ rest

-- The components that no support holds.
pub floating : List (ℕ × Comp) → List Comp
floating [] = []
floating ((r, c) ∷ comps) = keep_unless c.grounded c (floating comps)

In-keep_unless :
    (b : Bool) (c d : Comp) (rest : List Comp)
    → In c (keep_unless b d rest)
    → ((c ≡ d) × (b ≡ false)) ⊎ In c rest
In-keep_unless true c d rest h = inr h
In-keep_unless false c d rest (inl e) = inl (e, refl)
In-keep_unless false c d rest (inr h) = inr h

keep_unless-In :
    (b : Bool) (c d : Comp) (rest : List Comp)
    → ((c ≡ d) × (b ≡ false)) ⊎ In c rest
    → In c (keep_unless b d rest)
keep_unless-In true c d rest (inl (e, f)) = cc
keep_unless-In true c d rest (inr h) = h
keep_unless-In false c d rest (inl (e, f)) = inl e
keep_unless-In false c d rest (inr h) = inr h

pub floating-In :
    (r : ℕ) (c : Comp) (comps : List (ℕ × Comp))
    → In (r, c) comps
    → c.grounded ≡ false
    → In c (floating comps)
unfolding floating
floating-In r c [] h g = h
floating-In r c ((s, d) ∷ comps) (inl e) g =
    let same : c ≡ d = ap (λ (rc : ℕ × Comp). rc.1) e in
    keep_unless-In d.grounded c d (floating comps)
      (inl (same, sym (ap (λ (x : Comp). x.grounded) same) ∙ g))
floating-In r c ((s, d) ∷ comps) (inr h) g =
    keep_unless-In d.grounded c d (floating comps) (inr (floating-In r c comps h g))

pub In-floating :
    (c : Comp) (comps : List (ℕ × Comp))
    → In c (floating comps)
    → (r : ℕ) × In (r, c) comps × (c.grounded ≡ false)
unfolding floating
In-floating c [] h = absurd h
In-floating c ((s, d) ∷ comps) h = elim (In-keep_unless d.grounded c d (floating comps) h) [
  | inl (e, f) ↦ (s, inl (ap (λ (x : Comp). (s, x)) e), ap (λ (x : Comp). x.grounded) e ∙ f)
  | inr k ↦ let (r, i, g) = In-floating c comps k in (r, inr i, g)
]

module _ {R : Real} (model : FrameModel R) where
  -- The node ids of a component, ascending.
  abbrev pub ids_of : Comp → List ℤ
  ids_of c = sort leb_ℤ (node_ids model c.node_idx)

  with_mass-nodes :
      (fc : FragmentCluster R) (agg : MassAgg R) (ks : List ℕ)
      → (with_mass model fc agg ks).nodes ≡ fc.nodes
  unfolding with_mass
  with_mass-nodes fc agg ks = elim (Bool-cases (R.lt (zero_of R) agg.mass)) [
    | inl e ↦ rw e
    | inr e ↦ rw e
  ]

  cluster-nodes :
      (root : ℕ) (c : Comp) (uf : Parents) → (cluster model root c uf).1.nodes ≡ ids_of c
  unfolding cluster
  cluster-nodes root c uf = with_mass-nodes _ _ c.node_idx

  pub clusters-nodes :
      (comps : List (ℕ × Comp)) (uf : Parents)
      → map (λ (fc : FragmentCluster R). fc.nodes) (clusters model comps uf).1
        ≡ map ids_of (floating comps)
  unfolding clusters visit_component collect floating
  clusters-nodes [] uf = refl
  clusters-nodes ((r, c) ∷ comps) uf =
      step c.grounded (clusters-nodes comps uf) (clusters-nodes comps (cluster model r c uf).0)
    where
      step :
          (b : Bool)
          → map (λ (fc : FragmentCluster R). fc.nodes) (clusters model comps uf).1
            ≡ map ids_of (floating comps)
          → map
              (λ (fc : FragmentCluster R). fc.nodes)
              (clusters model comps (cluster model r c uf).0).1
            ≡ map ids_of (floating comps)
          → let found : Parents × Option (FragmentCluster R) =
              if b then (uf, none) else ((cluster model r c uf).0, some (cluster model r c uf).1) in
            map
              (λ (fc : FragmentCluster R). fc.nodes)
              (collect model found.1 (clusters model comps found.0)).1
            ≡ map ids_of (keep_unless b c (floating comps))
      step true whole after = whole
      step false whole after = cc (cluster-nodes r c uf, after)

  pub node_ids-In :
      (ks : List ℕ) (k : ℕ) (n : Node R)
      → In k ks
      → get_elem? model.nodes k ≡ some n
      → In n.id (node_ids model ks)
  unfolding node_ids
  node_ids-In [] k n h e = h
  node_ids-In (j ∷ ks) k n (inl f) e =
      let here : get_elem? model.nodes j ≡ some n = rw (← f) e in rw (here, node_ids) (inl refl)
  node_ids-In (j ∷ ks) k n (inr h) e = elim (Option-cases (get_elem? model.nodes j)) [
    | inl f ↦ rw (f, node_ids) (node_ids-In ks k n h e)
    | inr (m, f) ↦ rw (f, node_ids) (inr (node_ids-In ks k n h e))
  ]

  pub In-node_ids :
      (ks : List ℕ) (id : ℤ)
      → In id (node_ids model ks)
      → (k : ℕ) × (n : Node R) × In k ks × (get_elem? model.nodes k ≡ some n) × (id ≡ n.id)
  unfolding node_ids
  In-node_ids [] id h = absurd h
  In-node_ids (j ∷ ks) id h = elim (Option-cases (get_elem? model.nodes j)) [
    | inl f ↦ let (k, n, i, e, q) = In-node_ids ks id (rw (f, node_ids) at h) in (k, n, inr i, e, q)
    | inr (m, f) ↦ elim (rw (f, node_ids) at h) [
      | inl q ↦ (j, m, inl refl, f, q)
      | inr h' ↦ let (k, n, i, e, q) = In-node_ids ks id h' in (k, n, inr i, e, q)
    ]
  ]

  -- The node is tied, by a path of active elements, to a node with a held degree of freedom.
  abbrev pub Supported : ℕ → Type 0
  Supported k =
      (l : ℕ) × (m : Node R) × (get_elem? model.nodes l ≡ some m)
      × Linked (edges model) k l
      × (any_fixed m.fixed ≡ true)

  -- The node stands in one of the clusters.
  abbrev pub InCluster : Node R → Type 0
  InCluster n =
      (fc : FragmentCluster R) × In fc (analyze_connectivity model).detached × In n.id fc.nodes

touches-Occurs :
    (a b : ℕ) (es : Edges) → Occurs a b es → (touches es a ≡ true) × (touches es b ≡ true)
touches-Occurs a b [] h = absurd h
touches-Occurs a b ((c, d) ∷ es) (inl (e, f)) = (ground arith, ground arith)
touches-Occurs a b ((c, d) ∷ es) (inr h) = ground (arith, touches-Occurs a b es h)

-- Tied nodes are one, or both are ends of active elements.
pub touches-Linked :
    (es : Edges) (a b : ℕ)
    → Linked es a b
    → (a ≡ b) ⊎ ((touches es a ≡ true) × (touches es b ≡ true))
touches-Linked es a b (edge o) = inr (touches-Occurs a b es o)
touches-Linked es a b (equal e) = inl e
touches-Linked es a b (symm h) = elim (touches-Linked es b a h) [
  | inl e ↦ inl (sym e)
  | inr (x, y) ↦ inr (y, x)
]
touches-Linked es a c (trans {b} g h) = elim (touches-Linked es a b g) [
  | inl e ↦ elim (touches-Linked es b c h) [ inl f ↦ inl (e ∙ f) | inr (x, y) ↦ inr (rw e x, y) ]
  | inr (x, y) ↦ elim (touches-Linked es b c h) [
    | inl f ↦ inr (x, rw (← f) y)
    | inr (_, z) ↦ inr (x, z)
  ]
]

pub any_of-In :
    {A : Type 0} (p : A → Bool) (xs : List A) (a : A) → In a xs → p a ≡ true → any p xs ≡ true
any_of-In p [] a h e = absurd h
any_of-In p (x ∷ xs) a (inl q) e = let here : p x ≡ true = rw (← q) e in ground arith
any_of-In p (x ∷ xs) a (inr h) e = ground (arith, any_of-In p xs a h e)

pub In-any_of :
    {A : Type 0} (p : A → Bool) (xs : List A) → any p xs ≡ true → (a : A) × In a xs × (p a ≡ true)
In-any_of p [] h = cc
In-any_of p (x ∷ xs) h = elim (Bool-cases (p x)) [
  | inl e ↦ (x, inl refl, e)
  | inr e ↦ let (a, i, q) = In-any_of p xs (rw e at h) in (a, inr i, q)
]
