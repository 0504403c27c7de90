-- ===== src/Registry/Retirement.antt =====
-- DeactivateMember and EndPlay keep the invariant.
use architect_simulator.Base.{
  ℕ, Bool, true, false, ◌&&◌, Option, none, some, if◌then◌else◌, length, get_elem?,
}
use architect_simulator.Base.Int.{ℤ, pos, negsuc}
use architect_simulator.Interactive.Host.{Platform, UeMember}
use architect_simulator.Registry.{Registry, Component}
use architect_simulator.Registry.Model.{valid_index, write_inactive}
use architect_simulator.Registry.Solving.{find_key}
use architect_simulator.Registry.Members.{
  deactivate_member, end_play, component_at, forget_named, deactivate_found, deactivate_at,
  deactivation,
}
use architect_simulator.Registry.Consistency.{IsConsistent}
use architect_simulator.Registry.Requests.{request_solve-IsConsistent}
use architect_simulator.Registry.Edits.{write_inactive-Placed}

module _ {P : Platform} where
  forget_named-IsConsistent :
      (s : Registry P) (o : Option ℕ) → IsConsistent s → IsConsistent (forget_named s o)
  unfolding forget_named
  forget_named-IsConsistent s none h = h
  forget_named-IsConsistent s (some ref) h = h

  deactivate_found-IsConsistent :
      (s : Registry P) (i : ℕ) (o : Option (UeMember P.real))
      → IsConsistent s
      → IsConsistent (deactivate_found s i o)
  unfolding deactivate_found
  deactivate_found-IsConsistent s i none h = h
  deactivate_found-IsConsistent s i (some m) h =
      let s₁ = record s { current_model = write_inactive P s.current_model i } in
      let named = find_key s.index_to_component i in
      request_solve-IsConsistent (forget_named s₁ named) (deactivation m.id)
        (forget_named-IsConsistent s₁ named (write_inactive-Placed s i h.0, h.1, h.2))

  deactivate_at-IsConsistent :
      (s : Registry P) (o : Option ℕ) → IsConsistent s → IsConsistent (deactivate_at s o)
  unfolding deactivate_at
  deactivate_at-IsConsistent s none h = h
  deactivate_at-IsConsistent s (some i) h =
      deactivate_found-IsConsistent s i (get_elem? s.current_model.members i) h

  pub deactivate_member-IsConsistent :
      (s : Registry P) (idx : ℤ) → IsConsistent s → IsConsistent (deactivate_member s idx)
  unfolding deactivate_member
  deactivate_member-IsConsistent s idx h =
      deactivate_at-IsConsistent s (valid_index idx (length s.current_model.members)) h

  pub end_play-IsConsistent :
      (s : Registry P) (ref : ℕ) → IsConsistent s → IsConsistent (end_play s ref)
  unfolding end_play
  end_play-IsConsistent s ref h = go (component_at s.components ref)
    where
      asked :
          (i : ℤ) (b : Bool)
          → IsConsistent
              (elim i [ negsuc k ↦ s | pos k ↦ if b then deactivate_member s (pos k) else s ])
      asked (negsuc k) b = h
      asked (pos k) true = deactivate_member-IsConsistent s (pos k) h
      asked (pos k) false = h

      go :
          (o : Option (Component P))
          → IsConsistent (elim o [
            | none ↦ s
            | some c ↦ elim c.member_idx [
              | negsuc k ↦ s
              | pos k ↦ if c.registered && s.has_world then deactivate_member s (pos k) else s
            ]
          ])
      go none = h
      go (some c) = asked c.member_idx (c.registered && s.has_world)
