-- ===== src/Frame/Connectivity/Comps.antt =====
-- The components that analyzeConnectivity keeps in a map, and what `push_node` does to them.
use architect_simulator.Base.{
  ℕ, suc, ◌≤◌, ◌≡◌, refl, sym, ap, ◌∙◌, Bool, false, List, [], ◌∷◌, none, some, get_elem?, In,
  In-append, arith, Bool-cases, inl, inr, ◌==◌, ltb,
}
use architect_simulator.Base.Real.{Real}
use architect_simulator.Frame.Model.{Node}
use architect_simulator.Frame.Connectivity.Loops.{any_fixed, Comp, push_node}

-- The keys of the map ascend from `lo` on.
abbrev pub Ascending : ℕ → List (ℕ × Comp) → Type 0
Ascending lo [] = Unit {0}
Ascending lo ((r, c) ∷ comps) = (lo ≤ r) × Ascending (suc r) comps

pub push_node-Ascending :
    (lo root k : ℕ) (fixed : Bool) (comps : List (ℕ × Comp))
    → lo ≤ root
    → Ascending lo comps
    → Ascending lo (push_node root k fixed comps)
unfolding push_node
push_node-Ascending lo root k fixed [] h a = (h, tt)
push_node-Ascending lo root k fixed ((r, c) ∷ comps) h a = elim (Bool-cases (r == root)) [
  | inl e ↦ rw e a
  | inr e ↦ elim (Bool-cases (ltb root r)) [
    | inl f ↦ rw (e, f) (h, (ground arith, a.1))
    | inr f ↦ rw (e, f) (a.0, push_node-Ascending (suc r) root k fixed comps (ground arith) a.1)
  ]
]

In-Ascending :
    (lo r : ℕ) (c : Comp) (comps : List (ℕ × Comp)) → Ascending lo comps → In (r, c) comps → lo ≤ r
In-Ascending lo r c [] a h = absurd h
In-Ascending lo r c ((s, d) ∷ comps) a (inl e) =
    let key = ap (λ (rc : ℕ × Comp). rc.0) e in omega arith
In-Ascending lo r c ((s, d) ∷ comps) a (inr h) = omega (arith, In-Ascending (suc s) r c comps a.1 h)

-- A key has one entry.
pub In-Ascending_unique :
    (lo r : ℕ) (c d : Comp) (comps : List (ℕ × Comp))
    → Ascending lo comps
    → In (r, c) comps
    → In (r, d) comps
    → c ≡ d
In-Ascending_unique lo r c d [] a h k = absurd h
In-Ascending_unique lo r c d ((s, e) ∷ comps) a (inl h) (inl k) =
    ap (λ (rc : ℕ × Comp). rc.1) (h ∙ sym k)
In-Ascending_unique lo r c d ((s, e) ∷ comps) a (inl h) (inr k) =
    let key = ap (λ (rc : ℕ × Comp). rc.0) h in
    absurd (omega (arith, In-Ascending (suc s) r d comps a.1 k))
In-Ascending_unique lo r c d ((s, e) ∷ comps) a (inr h) (inl k) =
    let key = ap (λ (rc : ℕ × Comp). rc.0) k in
    absurd (omega (arith, In-Ascending (suc s) r c comps a.1 h))
In-Ascending_unique lo r c d ((s, e) ∷ comps) a (inr h) (inr k) =
    In-Ascending_unique (suc s) r c d comps a.1 h k

-- The node stands in some component.
abbrev pub Covered : ℕ → List (ℕ × Comp) → Type 0
Covered k comps = (rc : ℕ × Comp) × In rc comps × In k rc.1.node_idx

pub push_node_new :
    (root k : ℕ) (fixed : Bool) (comps : List (ℕ × Comp)) → Covered k (push_node root k fixed comps)
unfolding push_node
push_node_new root k fixed [] = (_, inl refl, inl refl)
push_node_new root k fixed ((r, c) ∷ comps) = elim (Bool-cases (r == root)) [
  | inl e ↦ rw e (_, inl refl, In-append k c.node_idx (k ∷ []) (inr (inl refl)))
  | inr e ↦ elim (Bool-cases (ltb root r)) [
    | inl f ↦ rw (e, f) (_, inl refl, inl refl)
    | inr f ↦ let (rc, h, i) = push_node_new root k fixed comps in rw (e, f) (rc, inr h, i)
  ]
]

pub push_node_old :
    (root k : ℕ) (fixed : Bool) (comps : List (ℕ × Comp)) (m : ℕ)
    → Covered m comps
    → Covered m (push_node root k fixed comps)
unfolding push_node
push_node_old root k fixed [] m (rc, h, i) = absurd h
push_node_old root k fixed ((r, c) ∷ comps) m (rc, h, i) = elim (Bool-cases (r == root)) [
  | inl e ↦ elim h [
    | inl f ↦ rw e (
      _,
      inl refl,
      In-append m c.node_idx (k ∷ []) (inl (rw (ap (λ (rc : ℕ × Comp). rc.1.node_idx) f) at i)),
    )
    | inr f ↦ rw e (rc, inr f, i)
  ]
  | inr e ↦ elim (Bool-cases (ltb root r)) [
    | inl f ↦ rw (e, f) (rc, inr h, i)
    | inr f ↦ elim h [
      | inl g ↦ rw (e, f) (rc, inl g, i)
      | inr g ↦
          let (sd, l, n) = push_node_old root k fixed comps m (rc, g, i) in rw (e, f) (sd, inr l, n)
    ]
  ]
]

-- Some degree of freedom of the node is held.
abbrev pub held : {R : Real} → List (Node R) → ℕ → Bool
held nodes k = elim (get_elem? nodes k) [ none ↦ false | some n ↦ any_fixed n.fixed ]
