-- ===== src/Frame/Connectivity/Loops.antt =====
-- The loops of analyzeConnectivity (Plugins/FrameSolver/Source/FrameCore/Private/Connectivity.cpp)
-- over elements and nodes: uniting the ends, the bare nodes, and the components by root.
use architect_simulator.Base.{
  ℕ, suc, Bool, true, false, ◌&&◌, ◌||◌, List, [], ◌∷◌, ◌++◌, Option, none, some, get_or, set,
  if◌then◌else◌, ltb, ◌==◌,
}
use architect_simulator.Base.Int.{ℤ}
use architect_simulator.Base.Real.{Real}
use architect_simulator.Frame.Types.{Dof6}
use architect_simulator.Frame.Model.{Node, Member, Corners, ShellQuad, FrameModel, node_index}
use architect_simulator.Frame.UnionFind.{Parents, find, unite}

-- `uf` and `attached`.
pub record Links : Type 0 where
  pub uf : Parents
  pub attached : List Bool

-- The body of the loop over the members, from the indices of the ends.
abbrev pub link_pair : Links → Option (ℕ × ℕ) → Links
link_pair l none = l
link_pair l (some (a, b)) = record {
  uf = unite l.uf a b;
  attached = set (set l.attached b true) a true;
}

-- The body of the loop over the shells, from the indices of the corners.
abbrev pub link_quad : Links → Option (Corners ℕ) → Links
link_quad l none = l
link_quad l (some c) = record {
  uf = unite (unite (unite (unite l.uf c.n0 c.n1) c.n1 c.n2) c.n2 c.n3) c.n3 c.n0;
  attached = set (set (set (set l.attached c.n0 true) c.n1 true) c.n2 true) c.n3 true;
}

module _ {R : Real} (model : FrameModel R) where
  -- The indices of both ends. `validate` has passed: they are there.
  unfoldable pub ends : Member R → Option (ℕ × ℕ)
  ends m = elim (node_index model m.i) [
    | none ↦ none
    | some a ↦ elim (node_index model m.j) [ none ↦ none | some b ↦ some (a, b) ]
  ]

  unfoldable pub corners : ShellQuad R → Option (Corners ℕ)
  corners s = elim (node_index model s.n.n0) [
    | none ↦ none
    | some a ↦ elim (node_index model s.n.n1) [
      | none ↦ none
      | some b ↦ elim (node_index model s.n.n2) [
        | none ↦ none
        | some c ↦ elim (node_index model s.n.n3) [
          | none ↦ none
          | some d ↦ some (record { n0 = a; n1 = b; n2 = c; n3 = d })
        ]
      ]
    ]
  ]

  unfoldable pub link_member : Links → Member R → Links
  unfolding ends
  link_member l m = if m.active then link_pair l (ends m) else l

  unfoldable pub link_members : Links → List (Member R) → Links
  unfolding link_member
  link_members l [] = l
  link_members l (m ∷ ms) = link_members (link_member l m) ms

  unfoldable pub link_shell : Links → ShellQuad R → Links
  unfolding corners
  link_shell l s = if s.active then link_quad l (corners s) else l

  unfoldable pub link_shells : Links → List (ShellQuad R) → Links
  unfolding link_shell
  link_shells l [] = l
  link_shells l (s ∷ ss) = link_shells (link_shell l s) ss

abbrev pub fully_fixed : Dof6 Bool → Bool
fully_fixed f = f.ux && f.uy && f.uz && f.rx && f.ry && f.rz

abbrev pub any_fixed : Dof6 Bool → Bool
any_fixed f = f.ux || f.uy || f.uz || f.rx || f.ry || f.rz

-- The ids of the nodes from index k on that no active element touches and that are not encastred.
unfoldable pub loose : {R : Real} → List Bool → ℕ → List (Node R) → List ℤ
loose attached k [] = []
loose attached k (n ∷ ns) =
    let rest = loose attached (suc k) ns in
    if get_or attached k false then rest else if fully_fixed n.fixed then rest else n.id ∷ rest

pub record Comp : Type 0 where
  pub node_idx : List ℕ
  pub grounded : Bool

-- comps[root], then the node pushed: the map is a list in the order of its keys.
unfoldable pub push_node : ℕ → ℕ → Bool → List (ℕ × Comp) → List (ℕ × Comp)
push_node root k fixed [] = (root, record { node_idx = k ∷ []; grounded = fixed }) ∷ []
push_node root k fixed ((r, c) ∷ comps) =
    if r == root
    then (r, record { node_idx = c.node_idx ++ k ∷ []; grounded = c.grounded || fixed }) ∷ comps
    else if ltb root r
    then (root, record { node_idx = k ∷ []; grounded = fixed }) ∷ (r, c) ∷ comps
    else (r, c) ∷ push_node root k fixed comps

-- One round of the loop over the nodes. `find` shortens paths, so the parents are passed on.
unfoldable pub group_node :
    {R : Real} → List Bool → ℕ → Node R → Parents × List (ℕ × Comp) → Parents × List (ℕ × Comp)
group_node attached k n (uf, comps) =
    if get_or attached k false
    then ((find uf k).0, push_node (find uf k).1 k (any_fixed n.fixed) comps)
    else (uf, comps)

unfoldable pub group :
    {R : Real}
    → List Bool
    → ℕ
    → List (Node R)
    → Parents × List (ℕ × Comp)
    → Parents × List (ℕ × Comp)
unfolding group_node push_node
group attached k [] state = state
group attached k (n ∷ ns) state = group attached (suc k) ns (group_node attached k n state)
