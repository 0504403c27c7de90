-- ===== src/Registry/Members.antt =====
-- The lifecycle of the registry and of its members: Initialize, Deinitialize, Reset, RegisterMember and
-- DeactivateMember of ArchSimModelRegistry.cpp, and BeginPlay and EndPlay of ArchSimMemberData.cpp.
use architect_simulator.Base.{
  ℕ, suc, Bool, true, false, ◌&&◌, ◌||◌, List, [], ◌∷◌, ◌++◌, Option, none, some, if◌then◌else◌,
  length, get_elem?, replicate, ◌==◌,
}
use architect_simulator.Base.Int.{ℤ, pos, negsuc}
use architect_simulator.Base.Real.{Real}
use architect_simulator.Frame.Types.{Vec3}
use architect_simulator.Interactive.Host.{Platform, Patch, UeMember}
use architect_simulator.Registry.{Component, Registry, empty_patch, empty_model, index_none}
use architect_simulator.Registry.Model.{
  update, valid_index, tolerance, ensure_default_libraries, find_or_add_node, pick_ref_vec_for_axis,
  write_inactive,
}
use architect_simulator.Registry.Solving.{
  alive, find_key, add_key, end_started, drop_pending, request_solve,
}

-- UE centimetres to millimetres.
abbrev pub end_of : (P : Platform) → P.Transform → Vec3 P.real → Vec3 P.real
end_of P t v = P.scaled (P.transform_position t v) (P.real.lit 10 0)

abbrev pub deactivation : {R : Real} → ℕ → Patch R
deactivation id = record empty_patch { deactivate_members = pos id ∷ [] }

-- check(): the program stops where the test fails.
abbrev pub checked : {A : Type 0} → Bool → A → Option A
checked true a = some a
checked false a = none

module _ {P : Platform} where
  unfoldable pub initialize : Registry P → Registry P
  initialize s = record s {
    current_model = empty_model;
    index_to_component = [];
    next_member_idx = 0;
    pending_patch = empty_patch;
    pending_rank = 0;
    session_started = false;
    needs_rebaseline = false;
  }

  unfoldable pub deinitialize : Registry P → Registry P
  unfolding end_started
  deinitialize s =
      let s₁ = end_started (if s.has_world then record s { timer_armed = false } else s) in
      record s₁ { index_to_component = []; current_model = empty_model }

  abbrev pub forget : Component P → Component P
  forget c = record c { member_idx = index_none; registered = false }

  -- The flags of the components that the map names are cleared.
  unfoldable pub forget_all :
      List (ℕ × ℕ) → List (Option (Component P)) → List (Option (Component P))
  unfolding update
  forget_all [] cs = cs
  forget_all (e ∷ es) cs = forget_all es (update cs e.1 (alive forget))

  unfoldable pub reset : Registry P → Registry P
  unfolding end_started forget_all
  reset s =
      let s₁ = end_started s in
      let s₂ = (if s₁.has_world then record s₁ { timer_armed = false } else s₁) in
      record s₂ {
        components = forget_all s₂.index_to_component s₂.components;
        current_model = empty_model;
        index_to_component = [];
        next_member_idx = 0;
        pending_patch = empty_patch;
        pending_rank = 0;
        needs_rebaseline = false;
      }

  abbrev pub new_member : Component P → ℕ → ℕ → ℕ → Vec3 P.real → UeMember P.real
  new_member c id i j ref_vec = record {
    id = id;
    i = i;
    j = j;
    mat_idx = c.material_id;
    sec_idx = c.section_id;
    ref_vec = ref_vec;
    release = replicate 12 false;
    active = true;
    tension_only = false;
  }

  abbrev pub mark_registered : ℕ → Component P → Component P
  mark_registered idx c = record c { member_idx = pos idx; registered = true }

  -- The state and the index that RegisterMember ends with where it adds the member.
  unfoldable pub added :
      Registry P → ℕ → Component P → Vec3 P.real → Vec3 P.real → Vec3 P.real → Registry P × ℤ
  unfolding find_or_add_node update add_key end_started drop_pending
  added s ref c pi pj axis =
      let at_i = find_or_add_node P s.current_model pi in
      let at_j = find_or_add_node P at_i.0 pj in
      let idx = s.next_member_idx in
      let member = new_member c idx at_i.1 at_j.1 (pick_ref_vec_for_axis P axis) in
      let s₁ = record s {
        next_member_idx = suc idx;
        current_model = record at_j.0 { members = at_j.0.members ++ member ∷ [] };
        components = update s.components ref (alive (mark_registered idx));
        index_to_component = add_key s.index_to_component idx ref;
      } in
      (drop_pending (record (end_started s₁) { needs_rebaseline = false }), pos idx)

  -- The place where the new member is pushed.
  unfoldable pub pushed_idx : Registry P → Vec3 P.real → Vec3 P.real → ℕ
  unfolding find_or_add_node
  pushed_idx s pi pj =
      length (find_or_add_node P (find_or_add_node P s.current_model pi).0 pj).0.members

  -- The part of RegisterMember from the first FindOrAddNode on, up to its check().
  unfoldable pub add_member :
      Registry P
      → ℕ
      → Component P
      → Vec3 P.real
      → Vec3 P.real
      → Vec3 P.real
      → Option (Registry P × ℤ)
  unfolding added pushed_idx
  add_member s ref c pi pj axis =
      checked (pushed_idx s pi pj == s.next_member_idx) (added s ref c pi pj axis)

  -- The part of RegisterMember after the guards on the component.
  unfoldable pub place_member : Registry P → ℕ → Component P → P.Transform → Option (Registry P × ℤ)
  unfolding ensure_default_libraries add_member
  place_member s ref c t =
      let s₁ = record s { current_model = ensure_default_libraries P s.current_model } in
      let pi = end_of P t c.end_i_offset in
      let pj = end_of P t c.end_j_offset in
      let axis = P.minus pj pi in
      if P.contains_nan pi || P.contains_nan pj
      then some (s₁, index_none)
      else if P.real.lt (P.size axis) (tolerance P)
      then some (s₁, index_none)
      else add_member s₁ ref c pi pj (P.over axis (P.size axis))

  -- The component at a place, where it has not been destroyed.
  unfoldable pub component_at : List (Option (Component P)) → ℕ → Option (Component P)
  component_at cs i = elim (get_elem? cs i) [ none ↦ none | some c ↦ c ]

  unfoldable pub register_found :
      Registry P → ℕ → Component P → Option P.Transform → Bool → Option (Registry P × ℤ)
  unfolding place_member
  register_found s ref c none b = some (s, index_none)
  register_found s ref c (some t) true = some (s, c.member_idx)
  register_found s ref c (some t) false = place_member s ref c t

  unfoldable pub register_at : Registry P → ℕ → Option (Component P) → Option (Registry P × ℤ)
  unfolding register_found
  register_at s ref none = some (s, index_none)
  register_at s ref (some c) = register_found s ref c c.owner c.registered

  -- RegisterMember of the component at a place: null and ownerless components, and those registered
  -- already, are left.
  unfoldable pub register_member : Registry P → ℕ → Option (Registry P × ℤ)
  unfolding component_at register_at
  register_member s ref = register_at s ref (component_at s.components ref)

  -- The component that the map names for the member, if any, is told.
  unfoldable pub forget_named : Registry P → Option ℕ → Registry P
  unfolding update
  forget_named s none = s
  forget_named s (some ref) = record s { components = update s.components ref (alive forget) }

  unfoldable pub deactivate_found : Registry P → ℕ → Option (UeMember P.real) → Registry P
  unfolding write_inactive find_key forget_named request_solve
  deactivate_found s i none = s
  deactivate_found s i (some m) =
      let s₁ = record s { current_model = write_inactive P s.current_model i } in
      request_solve (forget_named s₁ (find_key s.index_to_component i)) (deactivation m.id)

  unfoldable pub deactivate_at : Registry P → Option ℕ → Registry P
  unfolding deactivate_found
  deactivate_at s none = s
  deactivate_at s (some i) = deactivate_found s i (get_elem? s.current_model.members i)

  unfoldable pub deactivate_member : Registry P → ℤ → Registry P
  unfolding deactivate_at
  deactivate_member s idx = deactivate_at s (valid_index idx (length s.current_model.members))

  -- The state that RegisterMember leaves.
  abbrev pub state_of : Option (Registry P × ℤ) → Option (Registry P)
  state_of none = none
  state_of (some r) = some r.0

  -- BeginPlay: with no world the component is not registered.
  unfoldable pub begin_play : Registry P → ℕ → Option (Registry P)
  unfolding register_member
  begin_play s ref = if s.has_world then state_of (register_member s ref) else some s

  -- EndPlay; the component's object is destroyed afterwards.
  unfoldable pub end_play : Registry P → ℕ → Registry P
  unfolding component_at deactivate_member
  end_play s ref = elim (component_at s.components ref) [
    | none ↦ s
    | some c ↦ elim c.member_idx [
      | negsuc k ↦ s
      | pos k ↦ if c.registered && s.has_world then deactivate_member s (pos k) else s
    ]
  ]
