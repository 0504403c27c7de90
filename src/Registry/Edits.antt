-- ===== src/Registry/Edits.antt =====
-- The edits of the model by supports, fixities, flags and deactivation keep the invariant.
use architect_simulator.Base.{
  ◌≡◌, refl, sym, ◌∙◌, ℕ, Bool, true, false, not, ◌&&◌, List, Option, none, some, if◌then◌else◌,
  length, replicate, arith, ltb, Bool-cases, inl, inr, ◌==◌, ◌⊎◌,
}
use architect_simulator.Base.Int.{ℤ, pos, negsuc}
use architect_simulator.Frame.Types.{Vec3}
use architect_simulator.Frame.Model.{Material, Section}
use architect_simulator.Interactive.Host.{Platform, ModelDef, UeMember}
use architect_simulator.Registry.{Registry}
use architect_simulator.Registry.Model.{
  is_empty, valid_index, ensure_default_libraries, find_node, find_or_add_node, fix_node,
  write_fixity, write_flags, write_inactive,
}
use architect_simulator.Registry.Solving.{drop_pending, end_started}
use architect_simulator.Registry.Boundary.{
  register_fixed_support, restore_libraries, apply_fixity_at, set_member_flags,
}
use architect_simulator.Registry.Members.{reset}
use architect_simulator.Registry.Settled.{end_started-Keeps}
use architect_simulator.Registry.Consistency.{
  IsConsistent, IsSound, find_or_add_node-IsSound, ensure_default_libraries-IsSound,
  update_node-IsSound, update_member-IsSound,
}
use architect_simulator.Registry.Numbering.{length-update}
use architect_simulator.Registry.Requests.{Placed, Placed-Keeps}

module _ (P : Platform) where
  fix_node-IsSound : (m : ModelDef P.real) (i : ℕ) → IsSound P m → IsSound P (fix_node P m i)
  unfolding fix_node
  fix_node-IsSound m i h =
      update_node-IsSound P m i (λ n. record n { fixed = replicate 6 true }) (λ n. refl) (λ n. refl)
        (λ n l. (refl, l.1)) h

module _ {P : Platform} where
  end_if_started-IsConsistent :
      (s : Registry P)
      → IsConsistent s
      → IsConsistent (if s.session_started then drop_pending (end_started s) else s)
  unfolding drop_pending
  end_if_started-IsConsistent s h = go s.session_started
    where
      go : (b : Bool) → IsConsistent (if b then drop_pending (end_started s) else s)
      go true =
          (Placed-Keeps s (end_started s) (end_started-Keeps s) h.0, omega arith, λ w. omega arith)
      go false = h

  pub reset-IsConsistent : (s : Registry P) → IsConsistent (reset s)
  unfolding reset
  reset-IsConsistent s = (((tt, tt, tt, tt, tt), refl, tt), omega arith, λ w. omega arith)

  pub ensure_default-IsConsistent :
      (s : Registry P)
      → IsConsistent s
      → IsConsistent (record s { current_model = ensure_default_libraries P s.current_model })
  unfolding ensure_default_libraries
  ensure_default-IsConsistent s h = h

  pub register_fixed_support-IsConsistent :
      (s : Registry P) (p : Vec3 P.real)
      → IsConsistent s
      → IsConsistent (register_fixed_support s p).0
  unfolding register_fixed_support
  register_fixed_support-IsConsistent s p h =
      let f = find_or_add_node-IsSound P (ensure_default_libraries P s.current_model) p sound in
      let counted : s.next_member_idx ≡ length found.0.members =
        unfold ensure_default_libraries in rw f.3 h.0.1 in
      go f.0 counted (P.contains_nan p) (ltb found.1 (length found.0.nodes))
    where
      found : ModelDef P.real × ℕ
      found = find_or_add_node P (ensure_default_libraries P s.current_model) p

      s₁ : Registry P
      s₁ = record s { current_model = found.0 }

      s₂ : Registry P
      s₂ = record s₁ { current_model = fix_node P found.0 found.1 }

      sound : IsSound P (ensure_default_libraries P s.current_model)
      sound = ensure_default_libraries-IsSound P s.current_model h.0.0

      go :
          IsSound P found.0
          → s.next_member_idx ≡ length found.0.members
          → (a b : Bool)
          → IsConsistent
              (if◌then◌else◌ {A = Registry P × ℤ} a
                (s, negsuc 0)
                (if b
                  then (
                    (if s₂.session_started then drop_pending (end_started s₂) else s₂),
                    pos found.1,
                  )
                  else (s₁, negsuc 0))).0
      go f c true b = h
      go f c false true =
          end_if_started-IsConsistent s₂
            ((fix_node-IsSound P found.0 found.1 f, c, h.0.2), h.1, h.2)
      go f c false false = ((f, c, h.0.2), h.1, h.2)

  pub restore_libraries-IsConsistent :
      (s : Registry P) (ms : List (Material P.real)) (ss : List (Section P.real))
      → IsConsistent s
      → IsConsistent (restore_libraries s ms ss).0
  unfolding restore_libraries
  restore_libraries-IsConsistent s ms ss h =
      go (is_empty s.current_model.materials && is_empty s.current_model.sections)
    where
      go :
          (b : Bool)
          → IsConsistent
              (if◌then◌else◌ {A = Registry P × Bool} b
                (
                  record s {
                    current_model = record s.current_model { materials = ms; sections = ss };
                  },
                  true,
                )
                (s, false)).0
      go true = h
      go false = h

  pub apply_fixity_at-IsConsistent :
      (s : Registry P) (p : Vec3 P.real) (fixed : List Bool) (prescribed : List P.real.carrier)
      → IsConsistent s
      → IsConsistent (apply_fixity_at s p fixed prescribed).0
  unfolding apply_fixity_at
  apply_fixity_at-IsConsistent s p fixed prescribed h =
      go (P.contains_nan p) (length fixed == 6) refl (length prescribed == 6) refl
        (find_node P s.current_model.nodes p)
    where
      go :
          (a b : Bool)
          → (length fixed == 6) ≡ b
          → (c : Bool) → (length prescribed == 6) ≡ c
          → (o : Option ℕ)
          → IsConsistent
              (if◌then◌else◌ {A = Registry P × Bool} a
                (s, false)
                (if b && c
                  then elim o [
                    | none ↦ (s, false)
                    | some i ↦ (
                      record s {
                        current_model = write_fixity P s.current_model i fixed prescribed;
                      },
                      true,
                    )
                  ]
                  else (s, false))).0
      go true b eb c ec o = h
      go false false eb c ec o = h
      go false true eb false ec o = h
      go false true eb true ec none = h
      go false true eb true ec (some i) = (
        (
          update_node-IsSound P s.current_model i
              (λ n. record n { fixed = fixed; prescribed = prescribed }) (λ n. refl) (λ n. refl)
              (λ n l. (ground (arith, eb), ground (arith, ec))) h.0.0,
          h.0.1,
          h.0.2,
        ),
        h.1,
        h.2,
      )

  write_flags-Placed :
      (s : Registry P) (i : ℕ) (t : Bool) (r : List Bool)
      → (is_empty r ≡ true) ⊎ (length r ≡ 12)
      → Placed s
      → Placed (record s { current_model = write_flags P s.current_model i t r })
  unfolding write_flags
  write_flags-Placed s i t r full h = (
    update_member-IsSound P s.current_model i g (λ x. refl) (λ x l. (l.0, l.1, twelve x full l.2))
        h.0,
    h.1 ∙ sym (length-update s.current_model.members i g),
    h.2,
  )
    where
      g : UeMember P.real → UeMember P.real
      g x = record x { tension_only = t; release = if is_empty r then x.release else r }

      twelve :
          (x : UeMember P.real)
          → (is_empty r ≡ true) ⊎ (length r ≡ 12)
          → length x.release ≡ 12
          → length (if is_empty r then x.release else r) ≡ 12
      twelve x (inl e) l = rw e l
      twelve x (inr e) l = elim (Bool-cases (is_empty r)) [ inl b ↦ rw b l | inr b ↦ rw b e ]

  pub set_member_flags-IsConsistent :
      (s : Registry P) (idx : ℤ) (t : Bool) (r : List Bool)
      → IsConsistent s
      → IsConsistent (set_member_flags s idx t r).0
  unfolding set_member_flags
  set_member_flags-IsConsistent s idx t r h =
      go (valid_index idx (length s.current_model.members)) (is_empty r) refl (length r == 12) refl
    where
      go :
          (o : Option ℕ) (b : Bool)
          → is_empty r ≡ b
          → (c : Bool) → (length r == 12) ≡ c
          → IsConsistent
              (elim o as (λ o. Registry P × Bool) [
                | none ↦ (s, false)
                | some i ↦
                    if not b && not c
                    then (s, false)
                    else (record s { current_model = write_flags P s.current_model i t r }, true)
              ]).0
      go none b eb c ec = h
      go (some i) false eb false ec = h
      go (some i) true eb c ec = (write_flags-Placed s i t r (inl eb) h.0, h.1, h.2)
      go (some i) false eb true ec =
          (write_flags-Placed s i t r (inr (ground (arith, ec))) h.0, h.1, h.2)

  pub write_inactive-Placed :
      (s : Registry P) (i : ℕ)
      → Placed s
      → Placed (record s { current_model = write_inactive P s.current_model i })
  unfolding write_inactive
  write_inactive-Placed s i h =
      let g : UeMember P.real → UeMember P.real = λ x. record x { active = false } in
      (
        update_member-IsSound P s.current_model i g (λ x. refl) (λ x l. l) h.0,
        h.1 ∙ sym (length-update s.current_model.members i g),
        h.2,
      )
