-- ===== src/Registry/Consistency.antt =====
-- The invariant of UArchSimModelRegistry and the edits of the model that keep it.
use architect_simulator.Base.{
  ◌≡◌, refl, ℕ, suc, ◌<◌, ◌≤◌, true, List, [], ◌∷◌, ◌++◌, Option, none, some, length, length-append,
  All, All-append, All-map, arith,
}
use architect_simulator.Base.Real.{Real}
use architect_simulator.Frame.Types.{Vec3}
use architect_simulator.Interactive.Host.{Platform, ModelDef, UeNode, UeMember}
use architect_simulator.Registry.{Registry, max_rank_before_rebaseline}
use architect_simulator.Registry.Model.{
  update, ensure_default_libraries, find_node, find_or_add_node, free_node,
}
use architect_simulator.Registry.Solving.{patch_rank}
use architect_simulator.Registry.Numbering.{
  Numbered, Numbered-append, Numbered-update, length-update, All-update, find_node_lt,
}
use architect_simulator.Registry.Separation.{Spread, Spread-append, Spread-update}

module _ {R : Real} where
  abbrev pub FullNode : UeNode R → Type 0
  FullNode n = (length n.fixed ≡ 6) × (length n.prescribed ≡ 6)

  -- A member stands between nodes that are there, and has its twelve releases.
  abbrev pub Linked : ℕ → UeMember R → Type 0
  Linked k x = (x.i < k) × (x.j < k) × (length x.release ≡ 12)

  abbrev pub node_id : UeNode R → ℕ
  node_id n = n.id

  abbrev pub member_id : UeMember R → ℕ
  member_id x = x.id

  Linked-weaken :
      (k n : ℕ) → k ≤ n → (xs : List (UeMember R)) → All (Linked k) xs → All (Linked n) xs
  Linked-weaken k n le xs h =
      All-map xs (λ x l. (omega (arith, l.0, le), omega (arith, l.1, le), l.2)) h

module _ (P : Platform) where
  abbrev pub IsSound : ModelDef P.real → Type 0
  IsSound m =
      Numbered node_id 0 m.nodes
      × All FullNode m.nodes
      × Numbered member_id 0 m.members
      × All (Linked (length m.nodes)) m.members
      × Spread P m.nodes

  pub find_or_add_node-IsSound :
      (m : ModelDef P.real) (p : Vec3 P.real)
      → IsSound m
      → IsSound (find_or_add_node P m p).0
        × ((find_or_add_node P m p).1 < length (find_or_add_node P m p).0.nodes)
        × (length m.nodes ≤ length (find_or_add_node P m p).0.nodes)
        × ((find_or_add_node P m p).0.members ≡ m.members)
  unfolding find_or_add_node
  find_or_add_node-IsSound m p h = go (find_node P m.nodes p) refl
    where
      n : ℕ
      n = length m.nodes

      grown : length (m.nodes ++ free_node P n p ∷ []) ≡ suc n
      grown = omega (arith, length-append m.nodes (free_node P n p ∷ []))

      Result : ModelDef P.real × ℕ → Type 0
      Result r =
          IsSound r.0
          × (r.1 < length r.0.nodes)
          × (n ≤ length r.0.nodes)
          × (r.0.members ≡ m.members)

      go :
          (o : Option ℕ)
          → find_node P m.nodes p ≡ o
          → Result (elim o as (λ o. ModelDef P.real × ℕ) [
            | some i ↦ (m, i)
            | none ↦ (record m { nodes = m.nodes ++ free_node P n p ∷ [] }, n)
          ])
      go (some i) e = (h, find_node_lt P m.nodes p i e, omega arith, refl)
      go none e = (
        (
          Numbered-append node_id 0 m.nodes (free_node P n p) h.0 (omega arith),
          All-append FullNode m.nodes (free_node P n p ∷ []) h.1 ((refl, refl), tt),
          h.2,
          Linked-weaken n (length (m.nodes ++ free_node P n p ∷ [])) (omega (arith, grown))
              m.members h.3,
          Spread-append P m.nodes (free_node P n p) e h.4,
        ),
        omega (arith, grown),
        omega (arith, grown),
        refl,
      )

  pub ensure_default_libraries-IsSound :
      (m : ModelDef P.real) → IsSound m → IsSound (ensure_default_libraries P m)
  unfolding ensure_default_libraries
  ensure_default_libraries-IsSound m h = h

  -- A write of a node that leaves its id and its lengths.
  pub update_node-IsSound :
      (m : ModelDef P.real) (i : ℕ) (g : UeNode P.real → UeNode P.real)
      → ((n : UeNode P.real) → (g n).id ≡ n.id)
      → ((n : UeNode P.real) → (g n).position ≡ n.position)
      → ((n : UeNode P.real) → FullNode n → FullNode (g n))
      → IsSound m
      → IsSound (record m { nodes = update m.nodes i g })
  update_node-IsSound m i g same place full h =
      let len = length-update m.nodes i g in
      (
        Numbered-update node_id g 0 m.nodes i same h.0,
        All-update FullNode g m.nodes i full h.1,
        h.2,
        Linked-weaken (length m.nodes) (length (update m.nodes i g)) (omega (arith, len)) m.members
            h.3,
        Spread-update P g m.nodes i place h.4,
      )

  pub update_member-IsSound :
      (m : ModelDef P.real) (i : ℕ) (g : UeMember P.real → UeMember P.real)
      → ((x : UeMember P.real) → (g x).id ≡ x.id)
      → ((x : UeMember P.real) → Linked (length m.nodes) x → Linked (length m.nodes) (g x))
      → IsSound m
      → IsSound (record m { members = update m.members i g })
  update_member-IsSound m i g same linked h = (
    h.0,
    h.1,
    Numbered-update member_id g 0 m.members i same h.2,
    All-update (Linked (length m.nodes)) g m.members i linked h.3,
    h.4,
  )

  pub append_member-IsSound :
      (m : ModelDef P.real) (x : UeMember P.real)
      → IsSound m
      → x.id ≡ length m.members
      → Linked (length m.nodes) x
      → IsSound (record m { members = m.members ++ x ∷ [] })
  append_member-IsSound m x h e l = (
    h.0,
    h.1,
    Numbered-append member_id 0 m.members x h.2 (omega (arith, e)),
    All-append (Linked (length m.nodes)) m.members (x ∷ []) h.3 (l, tt),
    h.4,
  )

module _ {P : Platform} where
  -- The model is sound (its nodes apart too), the counter is the number of members, the map's keys are below
  -- it, the rank is at most that of the queued patch, and with a world it is at most the cap.
  abbrev pub IsConsistent : Registry P → Type 0
  IsConsistent s =
      (IsSound P s.current_model
        × (s.next_member_idx ≡ length s.current_model.members)
        × All (λ (e : ℕ × ℕ). e.0 < s.next_member_idx) s.index_to_component)
      × (s.pending_rank ≤ patch_rank s.pending_patch)
      × (s.has_world ≡ true → s.pending_rank ≤ max_rank_before_rebaseline)
