-- ===== src/Registry/Again.antt =====
-- RegisterMember called again on the same component.
use architect_simulator.Base.{
  ◌≡◌, refl, ap, sym, ◌∙◌, subst, ℕ, zero, suc, Bool, true, false, ◌||◌, List, [], ◌∷◌, Option,
  none, some, if◌then◌else◌, Bool-cases, inl, inr, ◌⊎◌, ◌==◌,
}
use architect_simulator.Base.Int.{ℤ}
use architect_simulator.Frame.Types.{Vec3}
use architect_simulator.Interactive.Host.{Platform, ModelDef}
use architect_simulator.Registry.{Registry, Component, index_none}
use architect_simulator.Registry.Model.{update, or_default, ensure_default_libraries, tolerance}
use architect_simulator.Registry.Solving.{alive, drop_pending, end_started}
use architect_simulator.Registry.Members.{
  register_member, place_member, add_member, register_found, register_at, added, pushed_idx,
  checked, mark_registered, component_at, end_of,
}

module _ (P : Platform) where
  ensure_default_libraries-again :
      (m : ModelDef P.real)
      → ensure_default_libraries P (ensure_default_libraries P m) ≡ ensure_default_libraries P m
  unfolding ensure_default_libraries
  ensure_default_libraries-again m =
      let materials = or_again m.materials P.s275 in
      let sections = or_again m.sections P.rectangle_200 in rw (materials, sections) refl
    where
      or_again :
          {A : Type 0} (xs : List A) (a : A) → or_default (or_default xs a) a ≡ or_default xs a
      or_again [] a = refl
      or_again (x ∷ xs) a = refl

checked-some : {A : Type 0} (b : Bool) (a r : A) → checked b a ≡ some r → a ≡ r
checked-some true a r h = cc
checked-some false a r h = cc

module _ {P : Platform} where
  pub component_at-update :
      (cs : List (Option (Component P))) (i : ℕ) (f : Component P → Component P) (c : Component P)
      → component_at cs i ≡ some c
      → component_at (update cs i (alive f)) i ≡ some (f c)
  unfolding component_at update
  component_at-update [] i f c e = cc
  component_at-update (x ∷ cs) zero f c e = rw e refl
  component_at-update (x ∷ cs) (suc i) f c e = component_at-update cs i f c e

  end_started-components : (s : Registry P) → (end_started s).components ≡ s.components
  unfolding end_started
  end_started-components s = elim (Bool-cases s.session_started) [
    | inl e ↦ rw e refl
    | inr e ↦ rw e refl
  ]

  -- What another call gives after the first gave `r`.
  abbrev Repeats : ℕ → Registry P × ℤ → Type 0
  Repeats ref r = register_member r.0 ref ≡ some r

  register_member-at :
      (t : Registry P) (ref : ℕ) (c : Component P)
      → component_at t.components ref ≡ some c
      → register_member t ref ≡ register_found t ref c c.owner c.registered
  unfolding register_member register_at
  register_member-at t ref c e = ap (register_at t ref) e

  end_queue-components :
      (s : Registry P)
      → (drop_pending (record (end_started s) { needs_rebaseline = false })).components
        ≡ s.components
  unfolding drop_pending
  end_queue-components s = end_started-components s

  added-components :
      (s : Registry P) (ref : ℕ) (c : Component P) (pi pj axis : Vec3 P.real)
      → (added s ref c pi pj axis).0.components
        ≡ update s.components ref (alive (mark_registered s.next_member_idx))
  unfolding added
  added-components s ref c pi pj axis = end_queue-components _

  added-Repeats :
      (s : Registry P) (ref : ℕ) (c : Component P) (o : P.Transform) (pi pj axis : Vec3 P.real)
      → component_at s.components ref ≡ some c
      → c.owner ≡ some o
      → Repeats ref (added s ref c pi pj axis)
  added-Repeats s ref c o pi pj axis e eo =
      let t = (added s ref c pi pj axis).0 in
      let idx = s.next_member_idx in
      let there : component_at t.components ref ≡ some (mark_registered idx c) =
        ap (λ cs. component_at cs ref) (added-components s ref c pi pj axis)
        ∙ component_at-update s.components ref (mark_registered idx) c e in
      register_member-at t ref (mark_registered idx c) there
      ∙ ap (λ w. register_found t ref (mark_registered idx c) w true) eo
      ∙ (unfold added register_found in refl)

  -- A call that adds the member has another return the member's index.
  add_member-Repeats :
      (s : Registry P) (ref : ℕ) (c : Component P) (o : P.Transform) (pi pj axis : Vec3 P.real)
      (r : Registry P × ℤ)
      → component_at s.components ref ≡ some c
      → c.owner ≡ some o
      → add_member s ref c pi pj axis ≡ some r
      → Repeats ref r
  unfolding add_member
  add_member-Repeats s ref c o pi pj axis r e eo h =
      subst (Repeats ref)
        (checked-some (pushed_idx s pi pj == s.next_member_idx) (added s ref c pi pj axis) r h)
        (added-Repeats s ref c o pi pj axis e eo)

  -- The tests that RegisterMember makes of the two ends.
  abbrev not_finite : Component P → P.Transform → Bool
  not_finite c t =
      P.contains_nan (end_of P t c.end_i_offset) || P.contains_nan (end_of P t c.end_j_offset)

  abbrev too_short : Component P → P.Transform → Bool
  too_short c t =
      P.real.lt (P.size (P.minus (end_of P t c.end_j_offset) (end_of P t c.end_i_offset)))
        (tolerance P)

  abbrev with_defaults : Registry P → Registry P
  with_defaults s = record s { current_model = ensure_default_libraries P s.current_model }

  place_member-rejects :
      (s : Registry P) (ref : ℕ) (c : Component P) (t : P.Transform)
      → (not_finite c t ≡ true) ⊎ (too_short c t ≡ true)
      → place_member s ref c t ≡ some (with_defaults s, index_none)
  unfolding place_member
  place_member-rejects s ref c t h =
      go (not_finite c t) (too_short c t) h
        (add_member (with_defaults s) ref c pi pj (P.over axis (P.size axis)))
    where
      pi : Vec3 P.real
      pi = end_of P t c.end_i_offset

      pj : Vec3 P.real
      pj = end_of P t c.end_j_offset

      axis : Vec3 P.real
      axis = P.minus pj pi

      out : Option (Registry P × ℤ)
      out = some (with_defaults s, index_none)

      go :
          (a b : Bool)
          → (a ≡ true) ⊎ (b ≡ true)
          → (o : Option (Registry P × ℤ)) → (if a then out else (if b then out else o)) ≡ out
      go true b h o = refl
      go false true h o = refl
      go false false (inl h) o = cc
      go false false (inr h) o = cc

  place_member-adds :
      (s : Registry P) (ref : ℕ) (c : Component P) (t : P.Transform)
      → not_finite c t ≡ false
      → too_short c t ≡ false
      → let pi = end_of P t c.end_i_offset in
        let pj = end_of P t c.end_j_offset in
        let axis = P.minus pj pi in
        place_member s ref c t
        ≡ add_member (with_defaults s) ref c pi pj (P.over axis (P.size axis))
  unfolding place_member
  place_member-adds s ref c t n l = rw (n, l) refl

  place_member-Repeats :
      (s : Registry P) (ref : ℕ) (c : Component P) (t : P.Transform) (r : Registry P × ℤ)
      → component_at s.components ref ≡ some c
      → c.owner ≡ some t
      → c.registered ≡ false
      → place_member s ref c t ≡ some r
      → Repeats ref r
  place_member-Repeats s ref c t r e eo er h = go (not_finite c t) refl (too_short c t) refl
    where
      rejected : (not_finite c t ≡ true) ⊎ (too_short c t ≡ true) → Repeats ref r
      rejected why =
          let once = place_member-rejects s ref c t why in
          let twice = place_member-rejects (with_defaults s) ref c t why in
          let same : with_defaults (with_defaults s) ≡ with_defaults s =
            ap (λ m. record s { current_model = m })
              (ensure_default_libraries-again P s.current_model) in
          let again = register_member-at (with_defaults s) ref c e in
          let found : register_found (with_defaults s) ref c c.owner c.registered
              ≡ place_member (with_defaults s) ref c t =
            unfold register_found in rw (eo, er) refl in
          let value : (with_defaults s, index_none) ≡ r =
            checked-some true (with_defaults s, index_none) r (sym once ∙ h) in
          subst (Repeats ref) value (again ∙ found ∙ twice ∙ ap (λ u. some (u, index_none)) same)

      go : (a : Bool) → not_finite c t ≡ a → (b : Bool) → too_short c t ≡ b → Repeats ref r
      go true n b l = rejected (inl n)
      go false n true l = rejected (inr l)
      go false n false l =
          let pi = end_of P t c.end_i_offset in
          let pj = end_of P t c.end_j_offset in
          let axis = P.minus pj pi in
          add_member-Repeats (with_defaults s) ref c t pi pj (P.over axis (P.size axis)) r e eo
            (sym (place_member-adds s ref c t n l) ∙ h)

  unchanged-Repeats :
      (s : Registry P) (ref : ℕ) (i : ℤ) (r : Registry P × ℤ)
      → register_member s ref ≡ some r
      → Option.some (s, i) ≡ some r
      → Repeats ref r
  unchanged-Repeats s ref i r m e = subst (Repeats ref) (checked-some true (s, i) r e) (m ∙ sym e)

  register_found-Repeats :
      (s : Registry P) (ref : ℕ) (c : Component P) (o : Option P.Transform) (b : Bool)
      (r : Registry P × ℤ)
      → register_member s ref ≡ some r
      → component_at s.components ref ≡ some c
      → c.owner ≡ o
      → c.registered ≡ b
      → register_found s ref c o b ≡ some r
      → Repeats ref r
  unfolding register_found
  register_found-Repeats s ref c none b r m e eo er h = unchanged-Repeats s ref index_none r m h
  register_found-Repeats s ref c (some t) true r m e eo er h =
      unchanged-Repeats s ref c.member_idx r m h
  register_found-Repeats s ref c (some t) false r m e eo er h =
      place_member-Repeats s ref c t r e eo er h

  register_at-Repeats :
      (s : Registry P) (ref : ℕ) (o : Option (Component P)) (r : Registry P × ℤ)
      → register_member s ref ≡ some r
      → component_at s.components ref ≡ o
      → register_at s ref o ≡ some r
      → Repeats ref r
  unfolding register_at
  register_at-Repeats s ref none r m e h = unchanged-Repeats s ref index_none r m h
  register_at-Repeats s ref (some c) r m e h =
      register_found-Repeats s ref c c.owner c.registered r m e refl refl h

  -- RegisterMember called again on the same component returns what it returned and changes nothing,
  -- whether the first call added the member, refused it or found it registered.
  pub register_member-again :
      (s : Registry P) (ref : ℕ) (r : Registry P × ℤ)
      → register_member s ref ≡ some r
      → register_member r.0 ref ≡ some r
  register_member-again s ref r h =
      register_at-Repeats s ref (component_at s.components ref) r h refl
        (unfold register_member in h)
