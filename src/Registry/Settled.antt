-- ===== src/Registry/Settled.antt =====
-- What a solve leaves behind: the model and the map as they were, and an empty queue.
use Prim.Native.String.{String}
use architect_simulator.Base.{
  ◌≡◌, refl, ◌∙◌, ◌+◌, Bool, true, false, List, Option, none, some, if◌then◌else◌, arith, ◌≤◌, ◌⊎◌,
  ltb, Bool-cases, inl, inr,
}
use architect_simulator.Base.Real.{Real}
use architect_simulator.Interactive.{Subsystem, start_session, apply_patch_and_resolve}
use architect_simulator.Interactive.Host.{Platform, Patch, UeResult, Utilization}
use architect_simulator.Registry.{Registry, empty_patch, max_rank_before_rebaseline}
use architect_simulator.Registry.Solving.{
  end_started, drop_pending, session_opened, flush_and_start_session, finish_solve, solve_started,
  rebaselined, solve_flushed, execute_solve, request_solve, merge_patch, patch_rank,
}

abbrev result_of : {R : Real} → Bool → String → List (Utilization R) → UeResult R
result_of b d u = record { singular = b; diagnostic = d; utilization = u }

module _ {P : Platform} where
  -- The fields that a solve does not touch.
  abbrev pub Keeps : Registry P → Registry P → Type 0
  Keeps s t =
      (t.current_model ≡ s.current_model)
      × (t.next_member_idx ≡ s.next_member_idx)
      × (t.index_to_component ≡ s.index_to_component)
      × (t.has_world ≡ s.has_world)

  abbrev pub IsDrained : Registry P → Type 0
  IsDrained t = (t.pending_patch ≡ empty_patch) × (t.pending_rank ≡ 0)

  abbrev pub Settles : Registry P → Registry P → Type 0
  Settles s t = Keeps s t × IsDrained t

  drop_pending-Settles : (s : Registry P) → Settles s (drop_pending s)
  unfolding drop_pending
  drop_pending-Settles s = ((refl, refl, refl, refl), (refl, refl))

  finish_solve-parts :
      (s : Registry P) (e : Subsystem P) (ok b : Bool) (d : String) (u : List (Utilization P.real))
      → Settles s (finish_solve s (e, result_of b d u, ok))
  unfolding finish_solve
  finish_solve-parts s e false b d u = ((refl, refl, refl, refl), (refl, refl))
  finish_solve-parts s e true true d u = ((refl, refl, refl, refl), (refl, refl))
  finish_solve-parts s e true false d u = ((refl, refl, refl, refl), (refl, refl))

  finish_solve-Settles :
      (s : Registry P) (r : Subsystem P × UeResult P.real × Bool) → Settles s (finish_solve s r)
  finish_solve-Settles s (e, r, ok) =
      finish_solve-parts s e ok r.singular r.diagnostic r.utilization

  rebaselined-Settles :
      (b : Bool) (s : Registry P) (e : Subsystem P) (r : Subsystem P × UeResult P.real × Bool)
      → Settles s (finish_solve (rebaselined b s e).0 r)
  unfolding rebaselined
  rebaselined-Settles true s e r =
      finish_solve-Settles (record s { needs_rebaseline = false; pending_rank = 0 }) r
  rebaselined-Settles false s e r = finish_solve-Settles s r

  solve_started-Settles : (s : Registry P) (e : Subsystem P) → Settles s (solve_started s e)
  unfolding solve_started
  solve_started-Settles s e =
      let due = rebaselined s.needs_rebaseline s e in
      rebaselined-Settles s.needs_rebaseline s e (apply_patch_and_resolve due.1 due.0.pending_patch)

  solve_flushed-Settles : (r : Registry P × Bool) → Settles r.0 (solve_flushed r)
  unfolding solve_flushed
  solve_flushed-Settles (s, false) = drop_pending-Settles s
  solve_flushed-Settles (s, true) = go s.engine
    where
      go :
          (o : Option (Subsystem P))
          → Settles s (elim o [ none ↦ drop_pending s | some e ↦ solve_started s e ])
      go none = drop_pending-Settles s
      go (some e) = solve_started-Settles s e

  -- The queue's patch stays, and its rank stays or is cleared.
  abbrev pub Ranked : Registry P → Registry P → Type 0
  Ranked s t =
      (t.pending_patch ≡ s.pending_patch)
      × ((t.pending_rank ≡ s.pending_rank) ⊎ (t.pending_rank ≡ 0))

  session_opened-Ranked :
      (s : Registry P) (r : Subsystem P × Bool) → Ranked s (session_opened s r).0
  unfolding session_opened
  session_opened-Ranked s (e, true) = (refl, inr refl)
  session_opened-Ranked s (e, false) = (refl, inl refl)

  end_started-Ranked :
      (s : Registry P)
      → ((end_started s).pending_patch ≡ s.pending_patch)
        × ((end_started s).pending_rank ≡ s.pending_rank)
  unfolding end_started
  end_started-Ranked s = elim (Bool-cases s.session_started) [
    | inl e ↦ rw e (refl, refl)
    | inr e ↦ rw e (refl, refl)
  ]

  session_opened-Keeps : (s : Registry P) (r : Subsystem P × Bool) → Keeps s (session_opened s r).0
  unfolding session_opened
  session_opened-Keeps s (e, true) = (refl, refl, refl, refl)
  session_opened-Keeps s (e, false) = (refl, refl, refl, refl)

  pub end_started-Keeps : (s : Registry P) → Keeps s (end_started s)
  unfolding end_started
  end_started-Keeps s = elim (Bool-cases s.session_started) [
    | inl e ↦ rw e (refl, refl, refl, refl)
    | inr e ↦ rw e (refl, refl, refl, refl)
  ]

  then_Settles : (s t u : Registry P) → Keeps s t → Settles t u → Settles s u
  then_Settles s t u k h = ((h.0.0 ∙ k.0, h.0.1 ∙ k.1, h.0.2 ∙ k.2, h.0.3 ∙ k.3), h.1)

  pub flush-Keeps : (s : Registry P) → Keeps s (flush_and_start_session s).0
  unfolding flush_and_start_session
  flush-Keeps s = go (end_started s).engine
    where
      k : Keeps s (end_started s)
      k = end_started-Keeps s

      go :
          (o : Option (Subsystem P))
          → Keeps s
              (elim o as (λ o. Registry P × Bool) [
                | none ↦ (s, false)
                | some e ↦
                    session_opened
                      (end_started s)
                      (start_session e (end_started s).current_model P.registry_options)
              ]).0
      go none = (refl, refl, refl, refl)
      go (some e) =
          let h =
            session_opened-Keeps (end_started s)
              (start_session e (end_started s).current_model P.registry_options) in
          (h.0 ∙ k.0, h.1 ∙ k.1, h.2 ∙ k.2, h.3 ∙ k.3)

  pub flush-Ranked : (s : Registry P) → Ranked s (flush_and_start_session s).0
  unfolding flush_and_start_session
  flush-Ranked s = go (end_started s).engine
    where
      go :
          (o : Option (Subsystem P))
          → Ranked s
              (elim o as (λ o. Registry P × Bool) [
                | none ↦ (s, false)
                | some e ↦
                    session_opened
                      (end_started s)
                      (start_session e (end_started s).current_model P.registry_options)
              ]).0
      go none = (refl, inl refl)
      go (some e) =
          let h =
            session_opened-Ranked (end_started s)
              (start_session e (end_started s).current_model P.registry_options) in
          (
            h.0 ∙ (end_started-Ranked s).0,
            elim h.1 [ inl a ↦ inl (a ∙ (end_started-Ranked s).1) | inr a ↦ inr a ],
          )

  -- A solve keeps the model, the map and the counter, and empties the queue, whatever comes of it.
  pub execute_solve-Settles : (s : Registry P) → Settles s (execute_solve s)
  unfolding execute_solve
  execute_solve-Settles s = go s.engine s.session_started
    where
      go :
          (o : Option (Subsystem P)) (b : Bool)
          → Settles s (elim o [
            | none ↦ drop_pending s
            | some e ↦ if b then solve_started s e else solve_flushed (flush_and_start_session s)
          ])
      go none b = drop_pending-Settles s
      go (some e) true = solve_started-Settles s e
      go (some e) false =
          let f = flush_and_start_session s in
          then_Settles s f.0 (solve_flushed f) (flush-Keeps s)
            (solve_flushed-Settles (flush_and_start_session s))

  -- What a request leaves queued.
  abbrev pub Queues : Registry P → Patch P.real → Registry P → Type 0
  Queues s p t =
      Keeps s t
      × (IsDrained t
          ⊎ ((t.pending_patch ≡ merge_patch s.pending_patch p)
              × (t.pending_rank ≡ s.pending_rank + patch_rank p)
              × (s.has_world ≡ true → t.pending_rank ≤ max_rank_before_rebaseline)))

  pub request_solve-Queues : (s : Registry P) (p : Patch P.real) → Queues s p (request_solve s p)
  unfolding request_solve
  request_solve-Queues s p =
      go s.has_world refl (ltb max_rank_before_rebaseline (s.pending_rank + patch_rank p)) refl
    where
      s₁ : Registry P
      s₁ = record s {
        pending_patch = merge_patch s.pending_patch p;
        pending_rank = s.pending_rank + patch_rank p;
      }

      forced : Registry P
      forced = record s₁ { timer_armed = false; needs_rebaseline = true }

      go :
          (w : Bool)
          → s.has_world ≡ w
          → (b : Bool) → ltb max_rank_before_rebaseline (s.pending_rank + patch_rank p) ≡ b
          → Queues s p (
              if w
              then (if b then execute_solve forced else record s₁ { timer_armed = true })
              else s₁)
      go false e b h = ((refl, refl, refl, refl), inr (refl, refl, λ w. cc))
      go true e true h = let settled = execute_solve-Settles forced in (settled.0, inl settled.1)
      go true e false h = ((refl, refl, refl, refl), inr (refl, refl, λ w. ground (arith, h)))
