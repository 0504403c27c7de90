-- ===== src/Frame/Connectivity/Groups.antt =====
-- The components by root, which analyzeConnectivity collects in a map: one entry for each root, with
-- exactly the marked nodes below it, and grounded when one of them is held.
use architect_simulator.Base.{
  ℕ, suc, ◌<◌, ◌≡◌, refl, sym, ap, ◌∙◌, subst, Bool, true, false, List, [], ◌∷◌, ◌++◌, append_assoc,
  append-nil, some, get_or, get_elem?, length, length-append, All, All-append, All-map, arith,
  Bool-cases, inl, inr, ◌==◌, ◌||◌, any, ltb,
}
use architect_simulator.Base.Real.{Real}
use architect_simulator.Frame.Model.{Node}
use architect_simulator.Frame.UnionFind.{Parents, find}
use architect_simulator.Frame.UnionFind.Forest.{Root, IsForest}
use architect_simulator.Frame.UnionFind.Halving.{
  SameRoots, SameRoots-refl, SameRoots-trans, find-Finds,
}
use architect_simulator.Frame.Connectivity.Loops.{any_fixed, Comp, push_node, group_node, group}
use architect_simulator.Frame.Connectivity.Comps.{
  Ascending, push_node-Ascending, Covered, push_node_new, push_node_old, held,
}

module _ {R : Real} (nodes : List (Node R)) (marks : List Bool) (p : Parents) where
  -- After `j` nodes: the entry holds marked nodes with its root, and knows whether one is held.
  pub record CompOk (j : ℕ) (rc : ℕ × Comp) : Type 0 where
    pub members : All (λ k. (k < j) × (get_or marks k false ≡ true) × Root p k rc.0) rc.1.node_idx
    pub grounded_is : rc.1.grounded ≡ any (held nodes) rc.1.node_idx

  any-held-append :
      (ks : List ℕ) (k : ℕ)
      → any (held nodes) (ks ++ k ∷ []) ≡ (any (held nodes) ks || held nodes k)
  any-held-append [] k = ground arith
  any-held-append (x ∷ ks) k = ground (arith, any-held-append ks k)

  CompOk-suc : (j : ℕ) (rc : ℕ × Comp) → CompOk j rc → CompOk (suc j) rc
  CompOk-suc j rc v = record {
    members = All-map rc.1.node_idx (λ k h. (omega arith, h.1, h.2)) v.members;
    grounded_is = v.grounded_is;
  }

  push_node-CompOk :
      (root j : ℕ) (comps : List (ℕ × Comp))
      → get_or marks j false ≡ true
      → Root p j root
      → All (CompOk j) comps
      → All (CompOk (suc j)) (push_node root j (held nodes j) comps)
  unfolding push_node
  push_node-CompOk root j [] m h a =
      (record { members = ((omega arith, m, h), tt); grounded_is = ground arith }, tt)
  push_node-CompOk root j ((r, c) ∷ comps) m h a = elim (Bool-cases (r == root)) [
    | inl e ↦
        let same : root ≡ r = ground arith in
        rw e (
          record {
            members =
                All-append _ c.node_idx (j ∷ []) (CompOk-suc j (r, c) a.0).members
                  ((omega arith, m, subst (Root p j) same h), tt);
            grounded_is = ground (arith, any-held-append c.node_idx j, a.0.grounded_is);
          },
          All-map comps (CompOk-suc j) a.1,
        )
    | inr e ↦ elim (Bool-cases (ltb root r)) [
      | inl f ↦
          rw (e, f)
            (
              record { members = ((omega arith, m, h), tt); grounded_is = ground arith },
              (CompOk-suc j (r, c) a.0, All-map comps (CompOk-suc j) a.1),
            )
      | inr f ↦ rw (e, f) (CompOk-suc j (r, c) a.0, push_node-CompOk root j comps m h a.1)
    ]
  ]

  -- What the loop has established after `j` nodes.
  pub record Grouped (j : ℕ) (state : Parents × List (ℕ × Comp)) : Type 0 where
    pub forest : IsForest state.0
    pub same : SameRoots p state.0
    pub comps_ok : All (CompOk j) state.1
    pub ascending : Ascending 0 state.1
    pub covers : (k : ℕ) → k < j → get_or marks k false ≡ true → Covered k state.1

  unmarked-covers :
      (j : ℕ) (comps : List (ℕ × Comp))
      → get_or marks j false ≡ false
      → ((k : ℕ) → k < j → get_or marks k false ≡ true → Covered k comps)
      → (k : ℕ) → k < suc j
      → get_or marks k false ≡ true
      → Covered k comps
  unmarked-covers j comps u c k lt m = elim (Bool-cases (k == j)) [
    | inl e ↦ let same : k ≡ j = ground arith in cc (rw same at m, u)
    | inr e ↦ c k (ground arith) m
  ]

  group_node-Grouped :
      (j : ℕ) (n : Node R) (state : Parents × List (ℕ × Comp))
      → get_elem? nodes j ≡ some n
      → j < length p
      → Grouped j state
      → Grouped (suc j) (group_node marks j n state)
  unfolding group_node
  group_node-Grouped j n (uf, comps) e lt g = elim (Bool-cases (get_or marks j false)) [
    | inr u ↦ rw u (record {
      forest = g.forest;
      same = g.same;
      comps_ok = All-map comps (CompOk-suc j) g.comps_ok;
      ascending = g.ascending;
      covers = unmarked-covers j comps u g.covers;
    })
    | inl m ↦
        let found = find-Finds uf j g.forest (rw g.same.size lt) in
        let held_is : held nodes j ≡ any_fixed n.fixed = rw (e, held) in
        rw (m, ← held_is)
          (record {
            forest = found.forest;
            same = SameRoots-trans g.same found.same;
            comps_ok = push_node-CompOk (find uf j).1 j comps m (g.same.back found.root) g.comps_ok;
            ascending =
                push_node-Ascending 0 (find uf j).1 j (held nodes j) comps (omega arith)
                  g.ascending;
            covers = λ k lt' mk. elim (Bool-cases (k == j)) [
              | inl same ↦
                  let k_is : k ≡ j = ground arith in
                  rw k_is (push_node_new (find uf j).1 j (held nodes j) comps)
              | inr other ↦
                  push_node_old (find uf j).1 j (held nodes j) comps k
                    (g.covers k (ground arith) mk)
            ];
          })
  ]

  get_elem?-middle :
      (pre : List (Node R)) (n : Node R) (rest : List (Node R))
      → get_elem? (pre ++ n ∷ rest) (length pre) ≡ some n
  get_elem?-middle [] n rest = refl
  get_elem?-middle (x ∷ pre) n rest = get_elem?-middle pre n rest

  group-Grouped :
      (pre ns : List (Node R)) (j : ℕ) (state : Parents × List (ℕ × Comp))
      → nodes ≡ pre ++ ns
      → length pre ≡ j
      → length p ≡ length nodes
      → Grouped j state
      → Grouped (length nodes) (group marks j ns state)
  unfolding group
  group-Grouped pre [] j state e l s g =
      let total : j ≡ length nodes = rw e (rw append-nil (sym l)) in
      subst (λ k. Grouped k state) total g
  group-Grouped pre (n ∷ ns) j state e l s g =
      group-Grouped (pre ++ n ∷ []) ns (suc j) (group_node marks j n state)
        (e ∙ sym (append_assoc pre (n ∷ []) ns)) (omega (arith, length-append pre (n ∷ []), l)) s
        (group_node-Grouped j n state (rw (e, ← l) (get_elem?-middle pre n ns))
          (omega (arith, s, l, ap length e, length-append pre (n ∷ ns))) g)

  -- The loop from the empty map: every marked node is in the entry of its root.
  pub group-groups :
      IsForest p → length p ≡ length nodes → Grouped (length nodes) (group marks 0 nodes (p, []))
  group-groups f s =
      group-Grouped [] nodes 0 (p, []) refl refl s
        (record {
          forest = f;
          same = SameRoots-refl p;
          comps_ok = tt;
          ascending = tt;
          covers = λ k lt m. absurd (omega arith);
        })
