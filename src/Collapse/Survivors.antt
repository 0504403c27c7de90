-- ===== src/Collapse/Survivors.antt =====
-- Which elements of a list are still active after those of some ids are deactivated, as runProgressiveCollapse
-- does with fragments (FrameCore/Private/Collapse.cpp).
use architect_simulator.Base.{
  true_ne_false, ◌≡◌, ◌≢◌, refl, sym, ap, ◌∙◌, subst, Bool, true, false, List, [], ◌∷◌, In, All,
  All-In, inl, inr, Bool-cases, Option-cases,
}
use mathlib.Core.List.{foldl}
use architect_simulator.Base.Int.{ℤ, eqb_ℤ, eqb_ℤ_iff}
use architect_simulator.Frame.Model.{index_of}
use architect_simulator.Frame.Model.Indices.{Distinct}
use architect_simulator.Collapse.Cleanup.{change_at, change_found}

module _ {A : Type 0} (key : A → ℤ) (active : A → Bool) (f : A → A)
    (f_key : (x : A) → key (f x) ≡ key x) (f_active : (x : A) → active (f x) ≡ false) where
  -- The element with the id is deactivated.
  abbrev pub off : List A → ℤ → List A
  off xs id = change_found f (index_of key xs id) xs

  off_nil : (id : ℤ) → off [] id ≡ []
  unfolding index_of
  off_nil id = refl

  off_cons :
      (x : A) (xs : List A) (id : ℤ) → eqb_ℤ (key x) id ≡ false → off (x ∷ xs) id ≡ x ∷ off xs id
  unfolding index_of change_at
  off_cons x xs id e = elim (Option-cases (index_of key xs id)) [
    | inl h ↦ rw (e, h) refl
    | inr (k, h) ↦ rw (e, h, change_at) refl
  ]

  off_here : (x : A) (xs : List A) (id : ℤ) → eqb_ℤ (key x) id ≡ true → off (x ∷ xs) id ≡ f x ∷ xs
  unfolding index_of change_at
  off_here x xs id e = rw (e, change_at) refl

  off-All : (z id : ℤ) (xs : List A) → All (λ y. z ≢ key y) xs → All (λ y. z ≢ key y) (off xs id)
  off-All z id [] h = rw (off_nil id) h
  off-All z id (x ∷ xs) h = elim (Bool-cases (eqb_ℤ (key x) id)) [
    | inl e ↦ rw (off_here x xs id e) ((λ q. h.0 (q ∙ f_key x)), h.1)
    | inr e ↦ rw (off_cons x xs id e) (h.0, off-All z id xs h.1)
  ]

  off-Distinct : (id : ℤ) (xs : List A) → Distinct key xs → Distinct key (off xs id)
  off-Distinct id [] h = rw (off_nil id) h
  off-Distinct id (x ∷ xs) h = elim (Bool-cases (eqb_ℤ (key x) id)) [
    | inl e ↦
        rw (off_here x xs id e) (subst (λ z. All (λ y. z ≢ key y) xs) (sym (f_key x)) h.0, h.1)
    | inr e ↦ rw (off_cons x xs id e) (off-All (key x) id xs h.0, off-Distinct id xs h.1)
  ]

  -- What is active afterwards was there before, under another id.
  off-In :
      (id : ℤ) (xs : List A) (y : A)
      → Distinct key xs
      → In y (off xs id)
      → active y ≡ true
      → In y xs × (key y ≢ id)
  off-In id [] y d i a = elim (rw (off_nil id) at i) [ ]
  off-In id (x ∷ xs) y d i a = elim (Bool-cases (eqb_ℤ (key x) id)) [
    | inl e ↦ elim (rw (off_here x xs id e) at i) [
      | inl q ↦ elim (true_ne_false (sym a ∙ ap active q ∙ f_active x)) [ ]
      | inr j ↦ (inr j, λ q. All-In _ xs y d.0 j ((eqb_ℤ_iff (key x) id).0 e ∙ sym q))
    ]
    | inr e ↦ elim (rw (off_cons x xs id e) at i) [
      | inl q ↦ (
        inl q,
        λ p. elim (true_ne_false (sym ((eqb_ℤ_iff (key x) id).1 (ap key (sym q) ∙ p)) ∙ e)) [ ],
      )
      | inr j ↦ let (k, n) = off-In id xs y d.1 j a in (inr k, n)
    ]
  ]

  -- The same for the ids of a list, in turn.
  pub offs-In :
      (ids : List ℤ) (xs : List A) (y : A)
      → Distinct key xs
      → In y (foldl off xs ids)
      → active y ≡ true
      → In y xs × ((id : ℤ) → In id ids → key y ≢ id)
  offs-In [] xs y d i a = (i, λ id j. absurd j)
  offs-In (id ∷ ids) xs y d i a =
      let (j, n) = offs-In ids (off xs id) y (off-Distinct id xs d) i a in
      let (k, m) = off-In id xs y d j a in
      (k, λ id' h. elim h [ inl q ↦ (λ p. m (p ∙ q)) | inr h' ↦ n id' h' ])

  offs-Distinct : (ids : List ℤ) (xs : List A) → Distinct key xs → Distinct key (foldl off xs ids)
  offs-Distinct [] xs d = d
  offs-Distinct (id ∷ ids) xs d = offs-Distinct ids (off xs id) (off-Distinct id xs d)

  -- And for the ids of each of some groups.
  pub groups-In :
      {C : Type 0} (ids_of : C → List ℤ) (cs : List C) (xs : List A) (y : A)
      → Distinct key xs
      → In y (foldl (λ zs c. foldl off zs (ids_of c)) xs cs)
      → active y ≡ true
      → In y xs × ((c : C) → In c cs → (id : ℤ) → In id (ids_of c) → key y ≢ id)
  groups-In ids_of [] xs y d i a = (i, λ c j. absurd j)
  groups-In ids_of (c ∷ cs) xs y d i a =
      let (j, n) =
        groups-In ids_of cs (foldl off xs (ids_of c)) y (offs-Distinct (ids_of c) xs d) i a in
      let (k, m) = offs-In (ids_of c) xs y d j a in
      (
        k,
        λ c' h id h'. elim h [
          | inl q ↦ m id (subst (λ z. In id (ids_of z)) q h')
          | inr h'' ↦ n c' h'' id h'
        ],
      )
