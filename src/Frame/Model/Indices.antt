-- ===== src/Frame/Model/Indices.antt =====
-- nodeIndex, memberIndex and shellIndex (Plugins/FrameSolver/Source/FrameCore/Private/FrameModel.cpp)
-- as the inverse of reading an id.
use architect_simulator.Base.{
  ℕ, zero, suc, ◌<◌, ◌≡◌, ◌≢◌, refl, true, false, List, [], ◌∷◌, Option, none, some, length, any,
  get_elem?, All, arith, Bool-cases, inl, inr, subst,
}
use architect_simulator.Base.Int.{ℤ, eqb_ℤ, eqb_ℤ_iff}
use architect_simulator.Frame.Model.{index_of, next_index}

-- No two elements have one key.
abbrev pub Distinct : {A : Type 0} → (A → ℤ) → List A → Type 0
Distinct key [] = Unit {0}
Distinct key (x ∷ xs) = All (λ y. key x ≢ key y) xs × Distinct key xs

pub All-get_elem? {ℓ} :
    {A : Type 0} (P : A → Type ℓ) (xs : List A) (k : ℕ) (x : A)
    → All P xs
    → get_elem? xs k ≡ some x
    → P x
All-get_elem? P [] k x p h = cc
All-get_elem? P (y ∷ xs) zero x p h = subst P (ground arith) p.0
All-get_elem? P (y ∷ xs) (suc k) x p h = All-get_elem? P xs k x p.1 h

next_index-some :
    (o : Option ℕ) (k : ℕ) → next_index o ≡ some k → (j : ℕ) × (o ≡ some j) × (k ≡ suc j)
next_index-some none k h = cc
next_index-some (some j) k h = (j, refl, ground arith)

-- An index below the length reads an element.
pub get_elem?_lt :
    {A : Type 0} (xs : List A) (k : ℕ) → k < length xs → (x : A) × (get_elem? xs k ≡ some x)
get_elem?_lt [] k h = elim h [ ]
get_elem?_lt (x ∷ xs) zero h = (x, refl)
get_elem?_lt (x ∷ xs) (suc k) h = get_elem?_lt xs k (omega arith)

module _ {A : Type 0} (key : A → ℤ) where
  -- What the lookup returns is the position of an element with that id.
  pub index_of-some :
      (xs : List A) (id : ℤ) (k : ℕ)
      → index_of key xs id ≡ some k
      → (x : A) × (get_elem? xs k ≡ some x) × (key x ≡ id) × (k < length xs)
  unfolding index_of
  index_of-some [] id k h = cc
  index_of-some (x ∷ xs) id k h = elim (Bool-cases (eqb_ℤ (key x) id)) [
    | inl hit ↦
        let zeroth : k ≡ 0 = ground arith in rw zeroth (x, refl, (eqb_ℤ_iff _ _).0 hit, omega arith)
    | inr miss ↦
        let (j, found, e) = next_index-some (index_of key xs id) k (rw miss at h) in
        let (y, at, same, lt) = index_of-some xs id j found in rw e (y, at, same, omega (arith, lt))
  ]

  -- An id that some element has is found.
  pub index_of-any :
      (xs : List A) (id : ℤ)
      → any (λ x. eqb_ℤ (key x) id) xs ≡ true
      → (k : ℕ) × (index_of key xs id ≡ some k)
  unfolding index_of
  index_of-any [] id h = cc
  index_of-any (x ∷ xs) id h = elim (Bool-cases (eqb_ℤ (key x) id)) [
    | inl hit ↦ (0, rw hit)
    | inr miss ↦ let (k, e) = index_of-any xs id (rw miss at h) in (suc k, rw (miss, e))
  ]

  -- In a list with no id twice, the id of an element leads back to its position.
  pub index_of-get_elem? :
      (xs : List A) (k : ℕ) (x : A)
      → Distinct key xs
      → get_elem? xs k ≡ some x
      → index_of key xs (key x) ≡ some k
  unfolding index_of
  index_of-get_elem? [] k x d h = cc
  index_of-get_elem? (y ∷ xs) zero x d h =
      let e : y ≡ x = ground arith in rw (e, (eqb_ℤ_iff (key x) (key x)).1 refl)
  index_of-get_elem? (y ∷ xs) (suc k) x d h =
      let apart = All-get_elem? (λ z. key y ≢ key z) xs k x d.0 h in
      let miss : eqb_ℤ (key y) (key x) ≡ false = elim (Bool-cases (eqb_ℤ (key y) (key x))) [
        | inl e ↦ absurd (apart ((eqb_ℤ_iff _ _).0 e))
        | inr e ↦ e
      ] in
      rw (miss, index_of-get_elem? xs k x d.1 h)
