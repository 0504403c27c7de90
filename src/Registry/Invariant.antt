-- ===== src/Registry/Invariant.antt =====
-- The invariant over every sequence of calls.
use architect_simulator.Base.{
  ℕ, Bool, true, false, if◌then◌else◌, ◌≡◌, refl, List, [], ◌∷◌, Option, none, some, arith, sym,
  subst,
}
use architect_simulator.Base.Int.{ℤ}
use architect_simulator.Interactive.Host.{Platform}
use architect_simulator.Registry.{Registry}
use architect_simulator.Registry.Boundary.{
  find_or_add_node_public, inject_nodal_loads, inject_member_udls, inject_shells,
  inject_shell_pressures,
}
use architect_simulator.Registry.Members.{initialize, state_of, begin_play, register_member}
use architect_simulator.Registry.Solving.{mark_needs_rebaseline, patch_rank, timer_fires}
use architect_simulator.Registry.Calls.{
  Call, step, run, resets, supports, restores, fixes, injects_loads, injects_udls, injects_shells,
  injects_pressures, finds, flags, registers, begins_play, deactivates, ends_play, requests, marks,
  flushes, distributes, fires, spawns, destroys,
}
use architect_simulator.Registry.Consistency.{IsConsistent, find_or_add_node-IsSound}
use architect_simulator.Registry.Requests.{
  request_solve-IsConsistent, timer_fires-IsConsistent, flush_and_start_session-IsConsistent,
  distribute_solve_result-IsConsistent,
}
use architect_simulator.Registry.Edits.{
  reset-IsConsistent, register_fixed_support-IsConsistent, restore_libraries-IsConsistent,
  apply_fixity_at-IsConsistent, set_member_flags-IsConsistent,
}
use architect_simulator.Registry.Registration.{Returns, register_member-Returns}
use architect_simulator.Registry.Retirement.{deactivate_member-IsConsistent, end_play-IsConsistent}

module _ {P : Platform} where
  pub initialize-IsConsistent : (s : Registry P) → IsConsistent (initialize s)
  unfolding initialize patch_rank
  initialize-IsConsistent s = (((tt, tt, tt, tt, tt), refl, tt), omega arith, λ w. omega arith)

  -- The call succeeds, in a consistent state.
  abbrev pub Succeeds : Option (Registry P) → Type 0
  Succeeds o = (t : Registry P) × (o ≡ some t) × IsConsistent t

  find_or_add_node_public-IsConsistent :
      (s : Registry P) (p : _) → IsConsistent s → IsConsistent (find_or_add_node_public s p).0
  unfolding find_or_add_node_public
  find_or_add_node_public-IsConsistent s p h =
      let f = find_or_add_node-IsSound P s.current_model p h.0.0 in
      ((f.0, rw f.3 h.0.1, h.0.2), h.1, h.2)

  state_of-Succeeds : (o : Option (Registry P × ℤ)) → Returns o → Succeeds (state_of o)
  state_of-Succeeds o (r, e, c) = rw e (r.0, refl, c)

  begin_play-Succeeds : (s : Registry P) (ref : ℕ) → IsConsistent s → Succeeds (begin_play s ref)
  unfolding begin_play
  begin_play-Succeeds s ref h = go s.has_world
    where
      go : (w : Bool) → Succeeds (if w then state_of (register_member s ref) else some s)
      go true = state_of-Succeeds (register_member s ref) (register_member-Returns s ref h)
      go false = (s, refl, h)

  step-Succeeds : (s : Registry P) (c : Call P) → IsConsistent s → Succeeds (step s c)
  unfolding step inject_nodal_loads inject_member_udls inject_shells inject_shell_pressures
      mark_needs_rebaseline
  step-Succeeds s resets h = (_, refl, reset-IsConsistent s)
  step-Succeeds s (supports p) h = (_, refl, register_fixed_support-IsConsistent s p h)
  step-Succeeds s (restores ms ss) h = (_, refl, restore_libraries-IsConsistent s ms ss h)
  step-Succeeds s (fixes p fixed pre) h = (_, refl, apply_fixity_at-IsConsistent s p fixed pre h)
  step-Succeeds s (injects_loads ls) h = (_, refl, h)
  step-Succeeds s (injects_udls us) h = (_, refl, h)
  step-Succeeds s (injects_shells qs) h = (_, refl, h)
  step-Succeeds s (injects_pressures ps) h = (_, refl, h)
  step-Succeeds s (finds p) h = (_, refl, find_or_add_node_public-IsConsistent s p h)
  step-Succeeds s (flags i t r) h = (_, refl, set_member_flags-IsConsistent s i t r h)
  step-Succeeds s (registers ref) h =
      state_of-Succeeds (register_member s ref) (register_member-Returns s ref h)
  step-Succeeds s (begins_play ref) h = begin_play-Succeeds s ref h
  step-Succeeds s (deactivates i) h = (_, refl, deactivate_member-IsConsistent s i h)
  step-Succeeds s (ends_play ref) h = (_, refl, end_play-IsConsistent s ref h)
  step-Succeeds s (requests p) h = (_, refl, request_solve-IsConsistent s p h)
  step-Succeeds s flushes h = (_, refl, flush_and_start_session-IsConsistent s h)
  step-Succeeds s (distributes r) h = (_, refl, distribute_solve_result-IsConsistent s r h)
  step-Succeeds s marks h = (_, refl, h)
  step-Succeeds s fires h = (timer_fires s, refl, timer_fires-IsConsistent s h)
  step-Succeeds s (spawns c) h = (_, refl, h)
  step-Succeeds s (destroys ref) h = (_, refl, h)

  -- From a consistent state every sequence of calls runs to its end, with no failed check(), and
  -- leaves a consistent state: node and member ids are their indices, fixities have length 6 and
  -- releases 12, no node is within the merge tolerance of an earlier one, members stand between nodes that
  -- are there, the counter is the number of members and above the map's keys, and the rank is at most that of
  -- the queued patch, and at most 96 where there is a world.
  pub run-IsConsistent :
      (s : Registry P) (cs : List (Call P)) → IsConsistent s → Succeeds (run s cs)
  unfolding run
  run-IsConsistent s [] h = (s, refl, h)
  run-IsConsistent s (c ∷ cs) h =
      let (t, e, k) = step-Succeeds s c h in
      subst (λ (o : Option (Registry P)). Succeeds (elim o [ none ↦ none | some t ↦ run t cs ]))
        (sym e) (run-IsConsistent t cs k)
