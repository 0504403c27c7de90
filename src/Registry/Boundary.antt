-- ===== src/Registry/Boundary.antt =====
-- The operations of UArchSimModelRegistry on the model alone: RegisterFixedSupport, RestoreLibraries,
-- ApplyFixityAt, the Inject functions, FindOrAddNodePublic and SetMemberFlags of ArchSimModelRegistry.cpp.
use architect_simulator.Base.{
  ℕ, Bool, true, false, not, ◌&&◌, List, ◌++◌, none, some, if◌then◌else◌, length, ltb, ◌==◌,
}
use architect_simulator.Base.Int.{ℤ, pos}
use architect_simulator.Frame.Types.{Vec3}
use architect_simulator.Frame.Model.{Material, Section, ShellQuad, MemberUdl, ShellPressure}
use architect_simulator.Interactive.Host.{Platform, UeLoad}
use architect_simulator.Registry.{Registry, index_none}
use architect_simulator.Registry.Model.{
  valid_index, is_empty, ensure_default_libraries, find_node, find_or_add_node, fix_node,
  write_fixity, write_flags,
}
use architect_simulator.Registry.Solving.{end_started, drop_pending}

module _ {P : Platform} where
  unfoldable pub register_fixed_support : Registry P → Vec3 P.real → Registry P × ℤ
  unfolding ensure_default_libraries find_or_add_node fix_node end_started drop_pending
  register_fixed_support s p =
      let found = find_or_add_node P (ensure_default_libraries P s.current_model) p in
      let s₁ = record s { current_model = found.0 } in
      let s₂ = record s₁ { current_model = fix_node P found.0 found.1 } in
      if P.contains_nan p
      then (s, index_none)
      else if ltb found.1 (length found.0.nodes)
      then ((if s₂.session_started then drop_pending (end_started s₂) else s₂), pos found.1)
      else (s₁, index_none)

  unfoldable pub restore_libraries :
      Registry P → List (Material P.real) → List (Section P.real) → Registry P × Bool
  restore_libraries s ms ss =
      if is_empty s.current_model.materials && is_empty s.current_model.sections
      then (
        record s { current_model = record s.current_model { materials = ms; sections = ss } },
        true,
      )
      else (s, false)

  unfoldable pub apply_fixity_at :
      Registry P → Vec3 P.real → List Bool → List P.real.carrier → Registry P × Bool
  unfolding find_node write_fixity
  apply_fixity_at s p fixed prescribed =
      if P.contains_nan p
      then (s, false)
      else if (length fixed == 6) && (length prescribed == 6)
      then elim (find_node P s.current_model.nodes p) [
        | none ↦ (s, false)
        | some i ↦
            (record s { current_model = write_fixity P s.current_model i fixed prescribed }, true)
      ]
      else (s, false)

  unfoldable pub inject_nodal_loads : Registry P → List (UeLoad P.real) → Registry P
  inject_nodal_loads s ls = record s {
    current_model = record s.current_model { nodal_loads = s.current_model.nodal_loads ++ ls };
  }

  unfoldable pub inject_member_udls : Registry P → List (MemberUdl P.real) → Registry P
  inject_member_udls s us = record s {
    current_model = record s.current_model { member_udls = s.current_model.member_udls ++ us };
  }

  unfoldable pub inject_shells : Registry P → List (ShellQuad P.real) → Registry P
  inject_shells s qs = record s {
    current_model = record s.current_model { shells = s.current_model.shells ++ qs };
  }

  unfoldable pub inject_shell_pressures : Registry P → List (ShellPressure P.real) → Registry P
  inject_shell_pressures s ps = record s {
    current_model = record s.current_model {
      shell_pressures = s.current_model.shell_pressures ++ ps;
    };
  }

  unfoldable pub find_or_add_node_public : Registry P → Vec3 P.real → Registry P × ℕ
  unfolding find_or_add_node
  find_or_add_node_public s p =
      let found = find_or_add_node P s.current_model p in
      (record s { current_model = found.0 }, found.1)

  unfoldable pub set_member_flags : Registry P → ℤ → Bool → List Bool → Registry P × Bool
  unfolding write_flags
  set_member_flags s idx tension_only release =
      elim (valid_index idx (length s.current_model.members)) [
        | none ↦ (s, false)
        | some i ↦ if not (is_empty release) && not (length release == 12) then (s, false) else (
          record s { current_model = write_flags P s.current_model i tension_only release },
          true,
        )
      ]
