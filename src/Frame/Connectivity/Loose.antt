-- ===== src/Frame/Connectivity/Loose.antt =====
-- The bare nodes of analyzeConnectivity (`looseNodes`).
use architect_simulator.Base.{
  ℕ, zero, suc, ◌+◌, ◌≡◌, ◌↔◌, refl, sym, ap, ◌∙◌, subst, Bool, false, List, [], ◌∷◌, some, get_or,
  get_elem?, In, arith, Bool-cases, inl, inr,
}
use architect_simulator.Base.Int.{ℤ, leb_ℤ}
use architect_simulator.Base.Real.{Real}
use architect_simulator.Frame.Sort.{sort, sort-In, In-sort}
use architect_simulator.Frame.Model.{Node, FrameModel}
use architect_simulator.Frame.Model.Verdict.{ok}
use architect_simulator.Frame.Model.Validate.{validate}
use architect_simulator.Frame.Connectivity.Loops.{fully_fixed, loose}
use architect_simulator.Frame.Connectivity.Cluster.{linked, report, analyze_connectivity}
use architect_simulator.Frame.Connectivity.Adds.{touches}
use architect_simulator.Frame.Connectivity.Edges.{edges, linked-attached}

module _ {R : Real} (marks : List Bool) where
  -- A node at distance i from index k that is not marked and not encastred.
  abbrev IsBare : ℕ → List (Node R) → ℤ → Type 0
  IsBare k ns id =
      (i : ℕ) × (n : Node R) × (get_elem? ns i ≡ some n)
      × (id ≡ n.id)
      × (get_or marks (k + i) false ≡ false)
      × (fully_fixed n.fixed ≡ false)

  IsBare-cons :
      (k : ℕ) (n : Node R) (ns : List (Node R)) (id : ℤ)
      → IsBare (suc k) ns id
      → IsBare k (n ∷ ns) id
  IsBare-cons k n ns id (i, m, e, q, u, f) =
      (suc i, m, e, q, (let s : k + suc i ≡ suc k + i = omega arith in rw s u), f)

  loose-IsBare : (k : ℕ) (ns : List (Node R)) (id : ℤ) → In id (loose marks k ns) → IsBare k ns id
  unfolding loose
  loose-IsBare k [] id h = absurd h
  loose-IsBare k (n ∷ ns) id h = elim (Bool-cases (get_or marks k false)) [
    | inl m ↦ IsBare-cons k n ns id (loose-IsBare (suc k) ns id (rw m at h))
    | inr m ↦ elim (Bool-cases (fully_fixed n.fixed)) [
      | inl f ↦ IsBare-cons k n ns id (loose-IsBare (suc k) ns id (rw (m, f) at h))
      | inr f ↦ elim (rw (m, f) at h) [
        | inl q ↦ (0, n, refl, q, (let s : k + 0 ≡ k = omega arith in rw s m), f)
        | inr h' ↦ IsBare-cons k n ns id (loose-IsBare (suc k) ns id h')
      ]
    ]
  ]

  IsBare-loose :
      (k : ℕ) (ns : List (Node R)) (i : ℕ) (n : Node R)
      → get_elem? ns i ≡ some n
      → get_or marks (k + i) false ≡ false
      → fully_fixed n.fixed ≡ false
      → In n.id (loose marks k ns)
  unfolding loose
  IsBare-loose k [] i n e u f = cc
  IsBare-loose k (x ∷ ns) zero n e u f =
      let same : x ≡ n = ground arith in
      let m : get_or marks k false ≡ false = (let s : k + 0 ≡ k = omega arith in rw s at u) in
      let g : fully_fixed x.fixed ≡ false = rw same f in
      rw (m, g) (inl (ap (λ (y : Node R). y.id) (sym same)))
  IsBare-loose k (x ∷ ns) (suc i) n e u f =
      let rest =
        IsBare-loose (suc k) ns i n e (let s : k + suc i ≡ suc k + i = omega arith in rw s at u)
          f in
      elim (Bool-cases (get_or marks k false)) [
        | inl m ↦ rw m rest
        | inr m ↦ elim (Bool-cases (fully_fixed x.fixed)) [
          | inl g ↦ rw (m, g) rest
          | inr g ↦ rw (m, g) (inr rest)
        ]
      ]

-- `looseNodes` of a valid model holds the ids of the nodes that no active element has for an end and
-- that have a free degree of freedom, and no others.
pub loose_nodes_iff :
    {R : Real} (model : FrameModel R) (id : ℤ)
    → validate model (R.lit 1 6) ≡ ok
    → In id (analyze_connectivity model).loose_nodes ↔ (
        (k : ℕ) × (n : Node R) × (get_elem? model.nodes k ≡ some n)
        × (id ≡ n.id)
        × (touches (edges model) k ≡ false)
        × (fully_fixed n.fixed ≡ false))
unfolding analyze_connectivity report
loose_nodes_iff {R} model id valid = (forth, back)
  where
    marks : List Bool
    marks = (linked model).attached

    is : (analyze_connectivity model).loose_nodes ≡ sort leb_ℤ (loose marks 0 model.nodes)
    is = ap (λ v. (report model v).loose_nodes) valid

    Bare : Type 0
    Bare =
        (k : ℕ) × (n : Node R) × (get_elem? model.nodes k ≡ some n)
        × (id ≡ n.id)
        × (touches (edges model) k ≡ false)
        × (fully_fixed n.fixed ≡ false)

    forth : In id (analyze_connectivity model).loose_nodes → Bare
    forth h =
        let (k, n, e, q, u, f) =
          loose-IsBare marks 0 model.nodes id (In-sort leb_ℤ id _ (subst (In id) is h)) in
        (
          k,
          n,
          e,
          q,
          sym (linked-attached model k) ∙ (let s : 0 + k ≡ k = omega arith in rw s at u),
          f,
        )

    back : Bare → In id (analyze_connectivity model).loose_nodes
    back (k, n, e, q, u, f) =
        let marked : get_or marks (0 + k) false ≡ false =
          (let s : 0 + k ≡ k = omega arith in rw s (linked-attached model k ∙ u)) in
        subst (In id) (sym is)
          (rw q (sort-In leb_ℤ n.id _ (IsBare-loose marks 0 model.nodes k n e marked f)))
