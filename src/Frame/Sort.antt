-- ===== src/Frame/Sort.antt =====
-- std::sort as the sources use it: by an order that is total on the keys, so that the result is one
-- list whatever the algorithm; insertion serves.
use architect_simulator.Base.{
  ◌≡◌, Bool, List, [], ◌∷◌, if◌then◌else◌, Bool-cases, inl, inr, ◌⊎◌, In,
}

module _ {A : Type 0} (le : A → A → Bool) where
  unfoldable pub insert : A → List A → List A
  insert a [] = a ∷ []
  insert a (x ∷ xs) = if le a x then a ∷ x ∷ xs else x ∷ insert a xs

  unfoldable pub sort : List A → List A
  unfolding insert
  sort [] = []
  sort (x ∷ xs) = insert x (sort xs)

  insert-In : (a b : A) (xs : List A) → (b ≡ a) ⊎ In b xs → In b (insert a xs)
  unfolding insert
  insert-In a b [] h = h
  insert-In a b (x ∷ xs) h = elim (Bool-cases (le a x)) [
    | inl e ↦ rw e h
    | inr e ↦ rw e (elim h [
      | inl k ↦ inr (insert-In a b xs (inl k))
      | inr (inl k) ↦ inl k
      | inr (inr k) ↦ inr (insert-In a b xs (inr k))
    ])
  ]

  In-insert : (a b : A) (xs : List A) → In b (insert a xs) → (b ≡ a) ⊎ In b xs
  unfolding insert
  In-insert a b [] h = h
  In-insert a b (x ∷ xs) h = elim (Bool-cases (le a x)) [
    | inl e ↦ rw e at h
    | inr e ↦ elim (rw e at h) [
      | inl k ↦ inr (inl k)
      | inr k ↦ elim (In-insert a b xs k) [ inl m ↦ inl m | inr m ↦ inr (inr m) ]
    ]
  ]

  -- Sorting keeps the elements.
  pub sort-In : (b : A) (xs : List A) → In b xs → In b (sort xs)
  unfolding sort
  sort-In b [] h = h
  sort-In b (x ∷ xs) (inl e) = insert-In x b (sort xs) (inl e)
  sort-In b (x ∷ xs) (inr h) = insert-In x b (sort xs) (inr (sort-In b xs h))

  pub In-sort : (b : A) (xs : List A) → In b (sort xs) → In b xs
  unfolding sort
  In-sort b [] h = h
  In-sort b (x ∷ xs) h = elim (In-insert x b (sort xs) h) [
    | inl e ↦ inl e
    | inr k ↦ inr (In-sort b xs k)
  ]
