-- ===== src/Registry/Solving.antt =====
-- The debounced solve: FlushAndStartSession, PatchRank, MergePatch, RequestSolve, ExecuteSolve and
-- DistributeSolveResult of ArchSimModelRegistry.cpp.
use architect_simulator.Base.{
  ℕ, ◌+◌, Bool, true, false, not, ◌||◌, List, [], ◌∷◌, ◌++◌, Option, none, some, if◌then◌else◌,
  length, ltb, ◌==◌,
}
use architect_simulator.Base.Int.{pos, negsuc}
use architect_simulator.Base.Real.{Real}
use architect_simulator.Interactive.{
  Subsystem, start_session, end_session, rebaseline, apply_patch_and_resolve,
}
use architect_simulator.Interactive.Host.{Platform, Patch, UeResult, Utilization}
use architect_simulator.Registry.{Component, Registry, empty_patch, max_rank_before_rebaseline}
use architect_simulator.Registry.Model.{update}

-- TMap::Find
unfoldable pub find_key : List (ℕ × ℕ) → ℕ → Option ℕ
find_key [] k = none
find_key (e ∷ es) k = let rest = find_key es k in if e.0 == k then some e.1 else rest

-- TMap::Add replaces the value of a key that is there.
unfoldable pub add_key : List (ℕ × ℕ) → ℕ → ℕ → List (ℕ × ℕ)
add_key [] k v = (k, v) ∷ []
add_key (e ∷ es) k v = let rest = add_key es k v in if e.0 == k then (k, v) ∷ es else e ∷ rest

module _ {R : Real} where
  unfoldable pub patch_rank : Patch R → ℕ
  patch_rank p =
      length p.deactivate_members
      + length p.reactivate_members
      + length p.deactivate_shells
      + length p.reactivate_shells

  unfoldable pub merge_patch : Patch R → Patch R → Patch R
  merge_patch dst src = record {
    deactivate_members = dst.deactivate_members ++ src.deactivate_members;
    reactivate_members = dst.reactivate_members ++ src.reactivate_members;
    deactivate_shells = dst.deactivate_shells ++ src.deactivate_shells;
    reactivate_shells = dst.reactivate_shells ++ src.reactivate_shells;
    reset_loads = dst.reset_loads || src.reset_loads;
    set_loads = dst.set_loads ++ src.set_loads;
    add_loads = dst.add_loads ++ src.add_loads;
  }

-- What a weak pointer to the component at a place is changed to.
abbrev pub alive :
    {P : Platform} → (Component P → Component P) → Option (Component P) → Option (Component P)
alive f none = none
alive f (some c) = some (f c)

module _ {P : Platform} where
  abbrev pub on_engine : (Subsystem P → Subsystem P) → Option (Subsystem P) → Option (Subsystem P)
  on_engine f none = none
  on_engine f (some e) = some (f e)

  -- The session is ended where one was started; the flag is cleared.
  unfoldable pub end_started : Registry P → Registry P
  end_started s =
      if s.session_started
      then record s { engine = on_engine end_session s.engine; session_started = false }
      else s

  -- The queue is dropped.
  unfoldable pub drop_pending : Registry P → Registry P
  drop_pending s = record s { pending_patch = empty_patch; pending_rank = 0 }

  unfoldable pub session_opened : Registry P → Subsystem P × Bool → Registry P × Bool
  session_opened s (e, true) = (
    record s {
      engine = some e;
      session_started = true;
      needs_rebaseline = false;
      pending_rank = 0;
    },
    true,
  )
  session_opened s (e, false) = (record s { engine = some e }, false)

  unfoldable pub flush_and_start_session : Registry P → Registry P × Bool
  unfolding end_started session_opened
  flush_and_start_session s =
      let ended = end_started s in
      elim ended.engine [
        | none ↦ (s, false)
        | some e ↦ session_opened ended (start_session e ended.current_model P.registry_options)
      ]

  -- One entry of the result, written to the component that the map names.
  unfoldable pub write_utilization :
      List (ℕ × ℕ) → List (Option (Component P)) → Utilization P.real → List (Option (Component P))
  unfolding find_key update
  write_utilization table cs u = elim u.member_idx [
    | negsuc k ↦ cs
    | pos k ↦ elim (find_key table k) [
      | none ↦ cs
      | some c ↦ update cs c (alive (λ comp. record comp { cached_utilization = u.risk }))
    ]
  ]

  unfoldable pub write_utilizations :
      List (ℕ × ℕ)
      → List (Option (Component P))
      → List (Utilization P.real)
      → List (Option (Component P))
  unfolding write_utilization
  write_utilizations table cs [] = cs
  write_utilizations table cs (u ∷ us) = write_utilizations table (write_utilization table cs u) us

  unfoldable pub distribute_solve_result : Registry P → UeResult P.real → Registry P
  unfolding write_utilizations
  distribute_solve_result s r = if r.singular then s else record s {
    components = write_utilizations s.index_to_component s.components r.utilization;
  }

  -- The end of ExecuteSolve: what ApplyPatchAndResolve gave is distributed and broadcast.
  unfoldable pub finish_solve : Registry P → Subsystem P × UeResult P.real × Bool → Registry P
  unfolding drop_pending distribute_solve_result
  finish_solve s (e, result, ok) =
      let s₁ = drop_pending (record s { engine = some e }) in
      if not ok || result.singular
      then s₁
      else (let s₂ = distribute_solve_result s₁ result in
          record s₂ { broadcasts = s₂.broadcasts ++ result ∷ [] })

  -- The rebaseline, where it is due.
  unfoldable pub rebaselined : Bool → Registry P → Subsystem P → Registry P × Subsystem P
  rebaselined true s e = (record s { needs_rebaseline = false; pending_rank = 0 }, rebaseline e)
  rebaselined false s e = (s, e)

  -- The part of ExecuteSolve after the session has been started.
  unfoldable pub solve_started : Registry P → Subsystem P → Registry P
  unfolding rebaselined finish_solve
  solve_started s e =
      let due = rebaselined s.needs_rebaseline s e in
      finish_solve due.0 (apply_patch_and_resolve due.1 due.0.pending_patch)

  unfoldable pub solve_flushed : Registry P × Bool → Registry P
  unfolding drop_pending solve_started
  solve_flushed (s, true) = elim s.engine [ none ↦ drop_pending s | some e ↦ solve_started s e ]
  solve_flushed (s, false) = drop_pending s

  unfoldable pub execute_solve : Registry P → Registry P
  unfolding drop_pending flush_and_start_session solve_flushed
  execute_solve s = elim s.engine [
    | none ↦ drop_pending s
    | some e ↦
        if s.session_started then solve_started s e else solve_flushed (flush_and_start_session s)
  ]

  -- Above the cap the timer is cleared and the solve made at once; else the timer is set.
  unfoldable pub request_solve : Registry P → Patch P.real → Registry P
  unfolding merge_patch patch_rank execute_solve
  request_solve s p =
      let s₁ = record s {
        pending_patch = merge_patch s.pending_patch p;
        pending_rank = s.pending_rank + patch_rank p;
      } in
      if s₁.has_world
      then (if ltb max_rank_before_rebaseline s₁.pending_rank
          then execute_solve (record s₁ { timer_armed = false; needs_rebaseline = true })
          else record s₁ { timer_armed = true })
      else s₁

  unfoldable pub mark_needs_rebaseline : Registry P → Registry P
  mark_needs_rebaseline s = record s { needs_rebaseline = true }

  -- The callback of the debounce timer, which is not armed again.
  unfoldable pub timer_fires : Registry P → Registry P
  unfolding execute_solve
  timer_fires s = if s.timer_armed then execute_solve (record s { timer_armed = false }) else s
