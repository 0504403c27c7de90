-- ===== src/Registry/Registration.antt =====
-- RegisterMember keeps the invariant, and RegisterMember's check() holds.
use architect_simulator.Base.{
  ◌≡◌, refl, ap, sym, ◌∙◌, ℕ, suc, ◌<◌, Bool, true, false, ◌||◌, [], ◌∷◌, ◌++◌, Option, none, some,
  if◌then◌else◌, length, length-append, All-map, arith, ◌==◌,
}
use architect_simulator.Base.Int.{ℤ, pos, negsuc}
use architect_simulator.Frame.Types.{Vec3}
use architect_simulator.Interactive.Host.{Platform, ModelDef, UeMember}
use architect_simulator.Registry.{Registry, Component}
use architect_simulator.Registry.Model.{
  update, tolerance, ensure_default_libraries, find_or_add_node, pick_ref_vec_for_axis,
}
use architect_simulator.Registry.Solving.{alive, add_key, drop_pending, end_started}
use architect_simulator.Registry.Members.{
  register_found, register_at, checked, added, pushed_idx, mark_registered, register_member,
  add_member, place_member, component_at, end_of, new_member,
}
use architect_simulator.Registry.Settled.{end_started-Keeps}
use architect_simulator.Registry.Consistency.{
  IsConsistent, IsSound, find_or_add_node-IsSound, append_member-IsSound,
}
use architect_simulator.Registry.Requests.{add_key-All, Placed, Placed-Keeps}
use architect_simulator.Registry.Edits.{ensure_default-IsConsistent}

module _ {P : Platform} where
  -- RegisterMember returns, in a consistent state.
  abbrev pub Returns : Option (Registry P × ℤ) → Type 0
  Returns o = (r : Registry P × ℤ) × (o ≡ some r) × IsConsistent r.0

  add_member-Returns :
      (s : Registry P) (ref : ℕ) (c : Component P) (pi pj axis : Vec3 P.real)
      → IsConsistent s
      → Returns (add_member s ref c pi pj axis)
  unfolding add_member added pushed_idx drop_pending
  add_member-Returns s ref c pi pj axis h =
      let fi = find_or_add_node-IsSound P s.current_model pi h.0.0 in
      let fj = find_or_add_node-IsSound P at_i.0 pj fi.0 in
      let counted : length at_j.0.members ≡ s.next_member_idx =
        sym (h.0.1 ∙ ap length (sym (fj.3 ∙ fi.3))) in
      let sound : IsSound P s₁.current_model =
        append_member-IsSound P at_j.0 member fj.0 (sym counted)
          (omega (arith, fi.1, fj.2), fj.1, refl) in
      let placed : Placed s₁ = (
        sound,
        omega (arith, counted, length-append at_j.0.members (member ∷ [])),
        add_key-All (λ (e : ℕ × ℕ). e.0 < suc idx) s.index_to_component idx ref (omega arith)
            (All-map s.index_to_component (λ e l. omega (arith, l)) h.0.2),
      ) in
      go placed (length at_j.0.members == idx) (ground (arith, counted))
    where
      at_i : ModelDef P.real × ℕ
      at_i = find_or_add_node P s.current_model pi

      at_j : ModelDef P.real × ℕ
      at_j = find_or_add_node P at_i.0 pj

      idx : ℕ
      idx = s.next_member_idx

      member : UeMember P.real
      member = new_member c idx at_i.1 at_j.1 (pick_ref_vec_for_axis P axis)

      s₁ : Registry P
      s₁ = record s {
        next_member_idx = suc idx;
        current_model = record at_j.0 { members = at_j.0.members ++ member ∷ [] };
        components = update s.components ref (alive (mark_registered idx));
        index_to_component = add_key s.index_to_component idx ref;
      }

      out : Registry P
      out = drop_pending (record (end_started s₁) { needs_rebaseline = false })

      go : Placed s₁ → (b : Bool) → b ≡ true → Returns (checked b (out, pos idx))
      go p true e = (
        (out, pos idx),
        refl,
        (Placed-Keeps s₁ (end_started s₁) (end_started-Keeps s₁) p, omega arith, λ w. omega arith),
      )
      go p false e = cc

  place_member-Returns :
      (s : Registry P) (ref : ℕ) (c : Component P) (t : P.Transform)
      → IsConsistent s
      → Returns (place_member s ref c t)
  unfolding place_member
  place_member-Returns s ref c t h =
      go (P.contains_nan pi || P.contains_nan pj) (P.real.lt (P.size axis) (tolerance P))
    where
      s₁ : Registry P
      s₁ = record s { current_model = ensure_default_libraries P s.current_model }

      pi : Vec3 P.real
      pi = end_of P t c.end_i_offset

      pj : Vec3 P.real
      pj = end_of P t c.end_j_offset

      axis : Vec3 P.real
      axis = P.minus pj pi

      h₁ : IsConsistent s₁
      h₁ = ensure_default-IsConsistent s h

      go :
          (a b : Bool)
          → Returns (
              if a
              then some (s₁, negsuc 0)
              else (if b
                  then some (s₁, negsuc 0)
                  else add_member s₁ ref c pi pj (P.over axis (P.size axis))))
      go true b = ((s₁, negsuc 0), refl, h₁)
      go false true = ((s₁, negsuc 0), refl, h₁)
      go false false = add_member-Returns s₁ ref c pi pj (P.over axis (P.size axis)) h₁

  register_found-Returns :
      (s : Registry P) (ref : ℕ) (c : Component P) (o : Option P.Transform) (b : Bool)
      → IsConsistent s
      → Returns (register_found s ref c o b)
  unfolding register_found
  register_found-Returns s ref c none b h = ((s, negsuc 0), refl, h)
  register_found-Returns s ref c (some t) true h = ((s, c.member_idx), refl, h)
  register_found-Returns s ref c (some t) false h = place_member-Returns s ref c t h

  register_at-Returns :
      (s : Registry P) (ref : ℕ) (o : Option (Component P))
      → IsConsistent s
      → Returns (register_at s ref o)
  unfolding register_at
  register_at-Returns s ref none h = ((s, negsuc 0), refl, h)
  register_at-Returns s ref (some c) h = register_found-Returns s ref c c.owner c.registered h

  -- In a consistent state RegisterMember returns, in a consistent state, whatever the component: its
  -- check(PushedIdx == NewMemberIdx) holds.
  pub register_member-Returns :
      (s : Registry P) (ref : ℕ) → IsConsistent s → Returns (register_member s ref)
  unfolding register_member
  register_member-Returns s ref h = register_at-Returns s ref (component_at s.components ref) h
