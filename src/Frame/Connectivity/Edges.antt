-- ===== src/Frame/Connectivity/Edges.antt =====
-- The graph that the active elements span, and its union-find: the first two loops of
-- analyzeConnectivity unite exactly the ends of active members and the sides of active shells.
use architect_simulator.Base.{
  ℕ, zero, suc, ◌<◌, ◌≡◌, refl, ◌∙◌, Bool, true, false, List, [], ◌∷◌, ◌++◌, some, get_or, length,
  replicate, length-replicate, All, All-append, arith, if◌then◌else◌, Option-cases, inl, inr,
}
use architect_simulator.Base.Int.{ℤ}
use architect_simulator.Base.Real.{Real}
use architect_simulator.Frame.Model.{Node, Member, ShellQuad, FrameModel, node_index}
use architect_simulator.Frame.Model.Indices.{index_of-some}
use architect_simulator.Frame.UnionFind.{unite_all, singletons}
use architect_simulator.Frame.UnionFind.Components.{Edges, InRange}
use architect_simulator.Frame.Connectivity.Loops.{
  Links, ends, corners, link_member, link_members, link_shell, link_shells,
}
use architect_simulator.Frame.Connectivity.Cluster.{linked}
use architect_simulator.Frame.Connectivity.Adds.{
  pair_edges, quad_edges, touches, Adds, Adds-nil, Adds-append, link_pair-Adds, link_quad-Adds,
}

module _ {R : Real} (model : FrameModel R) where
  abbrev pub member_edges : Member R → Edges
  member_edges m = if m.active then pair_edges (ends model m) else []

  abbrev pub shell_edges : ShellQuad R → Edges
  shell_edges s = if s.active then quad_edges (corners model s) else []

  unfoldable pub members_edges : List (Member R) → Edges
  members_edges [] = []
  members_edges (m ∷ ms) = member_edges m ++ members_edges ms

  unfoldable pub shells_edges : List (ShellQuad R) → Edges
  shells_edges [] = []
  shells_edges (s ∷ ss) = shell_edges s ++ shells_edges ss

  -- The pairs of node indices that an active element joins.
  unfoldable pub edges : Edges
  unfolding members_edges shells_edges ends corners
  edges = members_edges model.members ++ shells_edges model.shells

  abbrev pub IndicesIn : Edges → Type 0
  IndicesIn = All (InRange (length model.nodes))

  pub node_index-lt : (id : ℤ) (k : ℕ) → node_index model id ≡ some k → k < length model.nodes
  node_index-lt id k e = (index_of-some (λ (n : Node R). n.id) model.nodes id k e).3

  ends-in : (m : Member R) → IndicesIn (pair_edges (ends model m))
  unfolding ends
  ends-in m = elim (Option-cases (node_index model m.i)) [
    | inl e ↦ rw (e, ends) tt
    | inr (a, e) ↦ elim (Option-cases (node_index model m.j)) [
      | inl f ↦ rw (e, f, ends) tt
      | inr (b, f) ↦ rw (e, f, ends) ((node_index-lt m.i a e, node_index-lt m.j b f), tt)
    ]
  ]

  corners-in : (s : ShellQuad R) → IndicesIn (quad_edges (corners model s))
  unfolding corners
  corners-in s = elim (Option-cases (node_index model s.n.n0)) [
    | inl e ↦ rw (e, corners) tt
    | inr (a, ea) ↦ elim (Option-cases (node_index model s.n.n1)) [
      | inl e ↦ rw (ea, e, corners) tt
      | inr (b, eb) ↦ elim (Option-cases (node_index model s.n.n2)) [
        | inl e ↦ rw (ea, eb, e, corners) tt
        | inr (c, ec) ↦ elim (Option-cases (node_index model s.n.n3)) [
          | inl e ↦ rw (ea, eb, ec, e, corners) tt
          | inr (d, ed) ↦
              let la = node_index-lt s.n.n0 a ea in
              let lb = node_index-lt s.n.n1 b eb in
              let lc = node_index-lt s.n.n2 c ec in
              let ld = node_index-lt s.n.n3 d ed in
              rw (ea, eb, ec, ed, corners) ((la, lb), ((lb, lc), ((lc, ld), ((ld, la), tt))))
        ]
      ]
    ]
  ]

  if-in : (b : Bool) (es : Edges) → IndicesIn es → IndicesIn (if b then es else [])
  if-in true es h = h
  if-in false es h = tt

  if-Adds :
      (b : Bool) {l l' : Links} {es : Edges}
      → Adds l es l'
      → Adds l (if b then es else []) (if b then l' else l)
  if-Adds true a = a
  if-Adds false {l} a = Adds-nil l

  link_members-Adds :
      (l : Links) (ms : List (Member R))
      → length l.attached ≡ length model.nodes
      → Adds l (members_edges ms) (link_members model l ms)
  unfolding members_edges link_members
  link_members-Adds l [] h = Adds-nil l
  link_members-Adds l (m ∷ ms) h =
      let one = if-Adds m.active (link_pair-Adds l (ends model m) (rw h (ends-in m))) in
      Adds-append one (link_members-Adds (link_member model l m) ms (one.size ∙ h))

  link_shells-Adds :
      (l : Links) (ss : List (ShellQuad R))
      → length l.attached ≡ length model.nodes
      → Adds l (shells_edges ss) (link_shells model l ss)
  unfolding shells_edges link_shells
  link_shells-Adds l [] h = Adds-nil l
  link_shells-Adds l (s ∷ ss) h =
      let one = if-Adds s.active (link_quad-Adds l (corners model s) (rw h (corners-in s))) in
      Adds-append one (link_shells-Adds (link_shell model l s) ss (one.size ∙ h))

  abbrev pub at_start : Links
  at_start = record {
    uf = singletons (length model.nodes);
    attached = replicate (length model.nodes) false;
  }

  linked-Adds : Adds at_start edges (linked model)
  unfolding linked edges
  linked-Adds =
      let first =
        link_members-Adds at_start model.members (length-replicate (length model.nodes) false) in
      Adds-append first
        (link_shells-Adds _ model.shells (first.size ∙ length-replicate (length model.nodes) false))

  -- The parents after both loops are those of the pairs united in order.
  pub linked-uf : (linked model).uf ≡ unite_all (singletons (length model.nodes)) edges
  linked-uf = linked-Adds.uf_is

  get_or-replicate : (n k : ℕ) → get_or (replicate n false) k false ≡ false
  get_or-replicate zero k = refl
  get_or-replicate (suc n) zero = refl
  get_or-replicate (suc n) (suc k) = get_or-replicate n k

  -- A node is marked exactly when a pair has it for an end.
  pub linked-attached : (k : ℕ) → get_or (linked model).attached k false ≡ touches edges k
  linked-attached k = ground (arith, linked-Adds.marks k, get_or-replicate (length model.nodes) k)

  members_edges-in : (ms : List (Member R)) → IndicesIn (members_edges ms)
  unfolding members_edges
  members_edges-in [] = tt
  members_edges-in (m ∷ ms) =
      All-append (InRange (length model.nodes)) (member_edges m) (members_edges ms)
        (if-in m.active (pair_edges (ends model m)) (ends-in m)) (members_edges-in ms)

  shells_edges-in : (ss : List (ShellQuad R)) → IndicesIn (shells_edges ss)
  unfolding shells_edges
  shells_edges-in [] = tt
  shells_edges-in (s ∷ ss) =
      All-append (InRange (length model.nodes)) (shell_edges s) (shells_edges ss)
        (if-in s.active (quad_edges (corners model s)) (corners-in s)) (shells_edges-in ss)

  -- Every pair is of node indices.
  pub edges-in : IndicesIn edges
  unfolding edges
  edges-in =
      All-append (InRange (length model.nodes)) (members_edges model.members)
        (shells_edges model.shells) (members_edges-in model.members) (shells_edges-in model.shells)
