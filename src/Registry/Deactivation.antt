-- ===== src/Registry/Deactivation.antt =====
-- What DeactivateMember leaves behind where the request is queued.
use architect_simulator.Base.{
  ◌≡◌, refl, ap, ◌∙◌, ℕ, zero, suc, ◌+◌, ◌<◌, ◌≤◌, true, false, List, [], ◌∷◌, some, length,
  get_elem?, arith, ltb,
}
use architect_simulator.Base.Int.{pos}
use architect_simulator.Interactive.Host.{Platform, UeMember}
use architect_simulator.Registry.{Registry, Component, max_rank_before_rebaseline}
use architect_simulator.Registry.Model.{update, valid_index, write_inactive}
use architect_simulator.Registry.Solving.{alive, find_key, merge_patch, patch_rank, request_solve}
use architect_simulator.Registry.Members.{
  component_at, forget, forget_named, deactivate_found, deactivate_at, deactivation,
  deactivate_member,
}
use architect_simulator.Registry.Numbering.{Numbered}
use architect_simulator.Registry.Consistency.{IsConsistent, member_id}
use architect_simulator.Registry.Again.{component_at-update}
use architect_simulator.Registry.Bursts.{waiting, queued, queued-low, request_solve-queued}

module _ {A : Type 0} where
  get_elem?-update :
      (xs : List A) (i : ℕ) (g : A → A) (x : A)
      → get_elem? xs i ≡ some x
      → get_elem? (update xs i g) i ≡ some (g x)
  unfolding update
  get_elem?-update [] i g x e = cc
  get_elem?-update (y ∷ ys) zero g x e = ground (arith, e)
  get_elem?-update (y ∷ ys) (suc i) g x e = get_elem?-update ys i g x e

  Numbered-get :
      (f : A → ℕ) (k : ℕ) (xs : List A) (i : ℕ) (x : A)
      → Numbered f k xs
      → get_elem? xs i ≡ some x
      → f x ≡ k + i
  Numbered-get f k [] i x h e = cc
  Numbered-get f k (y ∷ ys) zero x h e =
      let q : y ≡ x = ground (arith, e) in omega (arith, ap f q, h.0)
  Numbered-get f k (y ∷ ys) (suc i) x h e = omega (arith, Numbered-get f (suc k) ys i x h.1 e)

  get_elem?-lt : (xs : List A) (i : ℕ) (x : A) → get_elem? xs i ≡ some x → i < length xs
  get_elem?-lt [] i x e = cc
  get_elem?-lt (y ∷ ys) zero x e = omega arith
  get_elem?-lt (y ∷ ys) (suc i) x e = omega (arith, get_elem?-lt ys i x e)

module _ {P : Platform} where
  -- The state in which DeactivateMember makes its request.
  forgotten : Registry P → ℕ → ℕ → Registry P
  forgotten s i ref = record s {
    current_model = record s.current_model {
      members = update s.current_model.members i (λ x. record x { active = false });
    };
    components = update s.components ref (alive forget);
  }

  deactivate_member-request :
      (s : Registry P) (i ref : ℕ) (m : UeMember P.real)
      → get_elem? s.current_model.members i ≡ some m
      → find_key s.index_to_component i ≡ some ref
      → deactivate_member s (pos i) ≡ request_solve (forgotten s i ref) (deactivation m.id)
  unfolding deactivate_member forgotten
  deactivate_member-request s i ref m e k =
      let low : ltb i (length s.current_model.members) ≡ true =
        ground (arith, get_elem?-lt s.current_model.members i m e) in
      let valid : valid_index (pos i) (length s.current_model.members) ≡ some i = rw low refl in
      ap (deactivate_at s) valid
      ∙ (unfold deactivate_at in ap (deactivate_found s i) e)
      ∙ (unfold deactivate_found forget_named write_inactive in
          ap
            (λ o.
              request_solve
                (forget_named (record s { current_model = write_inactive P s.current_model i }) o)
                (deactivation m.id))
            k)

  -- DeactivateMember of a member in range whose component lives, where the queue stays within the cap:
  -- the member is inactive in the model, the patch that waits has the member's index as the last of
  -- its deactivations, and the component is free to register again.
  pub deactivate_member_lem :
      (s : Registry P) (i ref : ℕ) (m : UeMember P.real) (c : Component P)
      → IsConsistent s
      → get_elem? s.current_model.members i ≡ some m
      → find_key s.index_to_component i ≡ some ref
      → component_at s.components ref ≡ some c
      → s.pending_rank < max_rank_before_rebaseline
      → (get_elem? (deactivate_member s (pos i)).current_model.members i
          ≡ some (record m { active = false }))
        × ((deactivate_member s (pos i)).pending_patch
            ≡ merge_patch s.pending_patch (deactivation i))
        × (component_at (deactivate_member s (pos i)).components ref ≡ some (forget c))
  deactivate_member_lem s i ref m c h e k at_ref low =
      let off = forgotten s i ref in
      let p = deactivation m.id in
      let t = waiting off (merge_patch s.pending_patch p) (s.pending_rank + patch_rank p) in
      let rank : s.pending_rank + patch_rank p ≤ max_rank_before_rebaseline =
        unfold patch_rank in omega (arith, low) in
      let id : m.id ≡ i =
        omega (arith, Numbered-get member_id 0 s.current_model.members i m h.0.0.2 e) in
      let asked : request_solve off p
          ≡ queued off (merge_patch s.pending_patch p) (s.pending_rank + patch_rank p) =
        unfold forgotten in request_solve-queued off p in
      let short : queued off (merge_patch s.pending_patch p) (s.pending_rank + patch_rank p) ≡ t =
        queued-low off (merge_patch s.pending_patch p) (s.pending_rank + patch_rank p) rank in
      let whole : deactivate_member s (pos i) ≡ t =
        deactivate_member-request s i ref m e k ∙ asked ∙ short in
      let queue : t.pending_patch ≡ merge_patch s.pending_patch (deactivation i) =
        unfold waiting in ap (λ x. merge_patch s.pending_patch (deactivation x)) id in
      let inactive : get_elem? t.current_model.members i ≡ some (record m { active = false }) =
        unfold waiting forgotten in
        get_elem?-update s.current_model.members i (λ x. record x { active = false }) m e in
      let free : component_at t.components ref ≡ some (forget c) =
        unfold waiting forgotten in component_at-update s.components ref forget c at_ref in
      rw whole (inactive, queue, free)
