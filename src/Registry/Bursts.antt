-- ===== src/Registry/Bursts.antt =====
-- RequestSolve and MergePatch: requests that queue are as one request.
use architect_simulator.Base.{
  ◌≡◌, refl, ap, ◌∙◌, ℕ, ◌+◌, ◌≤◌, true, false, List, [], ◌∷◌, append_assoc, if◌then◌else◌, arith,
  ltb, Bool-cases, inl, inr,
}
use mathlib.Core.Bool.{or_assoc}
use architect_simulator.Base.Real.{Real}
use architect_simulator.Interactive.Host.{Platform, Patch}
use architect_simulator.Registry.{Registry, max_rank_before_rebaseline}
use architect_simulator.Registry.Solving.{merge_patch, patch_rank, request_solve, execute_solve}
use architect_simulator.Registry.Requests.{patch_rank-merge}

pub merge_patch_assoc :
    {R : Real} (p q r : Patch R) → merge_patch (merge_patch p q) r ≡ merge_patch p (merge_patch q r)
unfolding merge_patch
merge_patch_assoc p q r = simp (append_assoc, or_assoc)

module _ {R : Real} where
  unfoldable pub merged : Patch R → List (Patch R) → Patch R
  merged p [] = p
  merged p (q ∷ qs) = merged (merge_patch p q) qs

  merged-rank : (p : Patch R) (ps : List (Patch R)) → patch_rank p ≤ patch_rank (merged p ps)
  unfolding merged
  merged-rank p [] = omega arith
  merged-rank p (q ∷ qs) = omega (arith, merged-rank (merge_patch p q) qs, patch_rank-merge p q)

module _ {P : Platform} where
  -- What RequestSolve does once the queue and its rank are known.
  unfoldable pub queued : Registry P → Patch P.real → ℕ → Registry P
  queued s p r =
      let s₁ = record s { pending_patch = p; pending_rank = r } in
      if s.has_world
      then (if ltb max_rank_before_rebaseline r
          then execute_solve (record s₁ { timer_armed = false; needs_rebaseline = true })
          else record s₁ { timer_armed = true })
      else s₁

  unfoldable pub waiting : Registry P → Patch P.real → ℕ → Registry P
  waiting s p r = record s {
    pending_patch = p;
    pending_rank = r;
    timer_armed = if s.has_world then true else s.timer_armed;
  }

  pub request_solve-queued :
      (s : Registry P) (p : Patch P.real)
      → request_solve s p ≡ queued s (merge_patch s.pending_patch p) (s.pending_rank + patch_rank p)
  unfolding request_solve queued
  request_solve-queued s p = refl

  pub queued-low :
      (s : Registry P) (p : Patch P.real) (r : ℕ)
      → r ≤ max_rank_before_rebaseline
      → queued s p r ≡ waiting s p r
  unfolding queued waiting
  queued-low s p r h =
      let low : ltb max_rank_before_rebaseline r ≡ false = ground (arith, h) in
      elim (Bool-cases s.has_world) [ inl w ↦ rw (w, low) refl | inr w ↦ rw w refl ]

  queued-waiting :
      (s : Registry P) (p q : Patch P.real) (r k : ℕ) → queued (waiting s p r) q k ≡ queued s q k
  unfolding queued waiting
  queued-waiting s p q r k = elim (Bool-cases s.has_world) [ inl w ↦ rw w refl | inr w ↦ rw w refl ]

  -- A request that the cap lets queue, followed by another, is one request of the merged patch.
  pub request_solve-merge :
      (s : Registry P) (p q : Patch P.real)
      → s.pending_rank + patch_rank p ≤ max_rank_before_rebaseline
      → request_solve (request_solve s p) q ≡ request_solve s (merge_patch p q)
  request_solve-merge s p q h =
      let m = merge_patch s.pending_patch p in
      let r = s.pending_rank + patch_rank p in
      let first : request_solve s p ≡ waiting s m r =
        request_solve-queued s p ∙ queued-low s m r h in
      let second : request_solve (waiting s m r) q ≡ queued s (merge_patch m q) (r + patch_rank q) =
        unfold waiting in
        (request_solve-queued (waiting s m r) q
          ∙ queued-waiting s m (merge_patch m q) r (r + patch_rank q)) in
      let rank : r + patch_rank q ≡ s.pending_rank + patch_rank (merge_patch p q) =
        omega (arith, patch_rank-merge p q) in
      cc (
        first,
        second,
        merge_patch_assoc s.pending_patch p q,
        rank,
        request_solve-queued s (merge_patch p q),
      )

  -- Requests one after the other, and the merge of their patches.
  unfoldable pub requests_all : Registry P → List (Patch P.real) → Registry P
  requests_all s [] = s
  requests_all s (p ∷ ps) = requests_all (request_solve s p) ps

  -- A burst of requests whose ranks, with what is queued, add up to at most the cap is as one request
  -- of the merged patches, in order.
  pub requests_all-merged :
      (s : Registry P) (p : Patch P.real) (ps : List (Patch P.real))
      → s.pending_rank + patch_rank (merged p ps) ≤ max_rank_before_rebaseline
      → requests_all s (p ∷ ps) ≡ request_solve s (merged p ps)
  unfolding requests_all merged
  requests_all-merged s p [] h = refl
  requests_all-merged s p (q ∷ qs) h =
      let low : s.pending_rank + patch_rank p ≤ max_rank_before_rebaseline =
        omega (arith, h, merged-rank (merge_patch p q) qs, patch_rank-merge p q) in
      ap (λ t. requests_all t qs) (request_solve-merge s p q low)
      ∙ requests_all-merged s (merge_patch p q) qs h
