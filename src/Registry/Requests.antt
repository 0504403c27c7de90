-- ===== src/Registry/Requests.antt =====
-- Requests and timer callbacks keep the invariant of the registry.
use architect_simulator.Base.{
  ◌≡◌, sym, ◌∙◌, ℕ, ◌+◌, ◌<◌, Bool, true, false, List, [], ◌∷◌, if◌then◌else◌, length,
  length-append, All, arith, Bool-cases, inl, inr, ◌==◌,
}
use architect_simulator.Base.Real.{Real}
use architect_simulator.Interactive.Host.{Platform, Patch, UeResult}
use architect_simulator.Registry.{Registry}
use architect_simulator.Registry.Solving.{
  patch_rank, merge_patch, add_key, execute_solve, request_solve, timer_fires,
  flush_and_start_session, distribute_solve_result, write_utilizations,
}
use architect_simulator.Registry.Settled.{
  Keeps, Settles, Queues, Ranked, flush-Keeps, flush-Ranked, execute_solve-Settles,
  request_solve-Queues,
}
use architect_simulator.Registry.Consistency.{IsConsistent, IsSound}

pub patch_rank-merge :
    {R : Real} (p q : Patch R) → patch_rank (merge_patch p q) ≡ patch_rank p + patch_rank q
unfolding patch_rank merge_patch
patch_rank-merge p q = omega (
  arith,
  length-append p.deactivate_members q.deactivate_members,
  length-append p.reactivate_members q.reactivate_members,
  length-append p.deactivate_shells q.deactivate_shells,
  length-append p.reactivate_shells q.reactivate_shells,
)

pub add_key-All :
    (Q : ℕ × ℕ → Type 0) (es : List (ℕ × ℕ)) (k v : ℕ)
    → Q (k, v)
    → All Q es
    → All Q (add_key es k v)
unfolding add_key
add_key-All Q [] k v q h = (q, tt)
add_key-All Q (e ∷ es) k v q h = elim (Bool-cases (e.0 == k)) [
  | inl c ↦ rw c (q, h.1)
  | inr c ↦ rw c (h.0, add_key-All Q es k v q h.1)
]

module _ {P : Platform} where
  abbrev pub Placed : Registry P → Type 0
  Placed s =
      IsSound P s.current_model
      × (s.next_member_idx ≡ length s.current_model.members)
      × All (λ (e : ℕ × ℕ). e.0 < s.next_member_idx) s.index_to_component

  pub Placed-Keeps : (s t : Registry P) → Keeps s t → Placed s → Placed t
  Placed-Keeps s t k h = rw (k.0, k.1, k.2) h

  Settles-IsConsistent : (s t : Registry P) → Settles s t → Placed s → IsConsistent t
  Settles-IsConsistent s t h c =
      (Placed-Keeps s t h.0 c, rw h.1.1 (omega arith), λ w. rw h.1.1 (omega arith))

  pub request_solve-IsConsistent :
      (s : Registry P) (p : Patch P.real) → IsConsistent s → IsConsistent (request_solve s p)
  request_solve-IsConsistent s p h = go (request_solve s p) (request_solve-Queues s p)
    where
      go : (t : Registry P) → Queues s p t → IsConsistent t
      go t (k, inl d) = Settles-IsConsistent s t (k, d) h.0
      go t (k, inr q) = (
        Placed-Keeps s t k h.0,
        rw (q.0, q.1) (omega (arith, h.1, patch_rank-merge s.pending_patch p)),
        λ w. q.2 (sym k.3 ∙ w),
      )

  pub timer_fires-IsConsistent : (s : Registry P) → IsConsistent s → IsConsistent (timer_fires s)
  unfolding timer_fires
  timer_fires-IsConsistent s h = go s.timer_armed
    where
      off : Registry P
      off = record s { timer_armed = false }

      go : (b : Bool) → IsConsistent (if b then execute_solve off else s)
      go true = Settles-IsConsistent off (execute_solve off) (execute_solve-Settles off) h.0
      go false = h

  -- FlushAndStartSession clears the rank and keeps the queued patch.
  pub flush_and_start_session-IsConsistent :
      (s : Registry P) → IsConsistent s → IsConsistent (flush_and_start_session s).0
  flush_and_start_session-IsConsistent s h =
      go (flush_and_start_session s).0 (flush-Keeps s) (flush-Ranked s)
    where
      go : (t : Registry P) → Keeps s t → Ranked s t → IsConsistent t
      go t k (p, inl r) = (Placed-Keeps s t k h.0, rw (p, r) h.1, λ w. rw r (h.2 (sym k.3 ∙ w)))
      go t k (p, inr r) = (Placed-Keeps s t k h.0, rw r (omega arith), λ w. rw r (omega arith))

  pub distribute_solve_result-IsConsistent :
      (s : Registry P) (r : UeResult P.real)
      → IsConsistent s
      → IsConsistent (distribute_solve_result s r)
  unfolding distribute_solve_result
  distribute_solve_result-IsConsistent s r h = go r.singular
    where
      go :
          (b : Bool)
          → IsConsistent (
              if b then s else record s {
                components = write_utilizations s.index_to_component s.components r.utilization;
              })
      go true = h
      go false = h
