-- ===== src/Combination/Folds.antt =====
-- The loops of Combination.cpp over the cases, for one quantity: what a fold of zip_into keeps.
use architect_simulator.Base.{
  suc, ◌≡◌, refl, sym, ap, ◌∙◌, List, [], ◌∷◌, length, In, inl, inr, arith, All, All-map, subst,
}
use mathlib.Core.List.{foldl}
use architect_simulator.Combination.{zip_into}

pub length-zip_into :
    {A B : Type 0} (op : A → B → A) (xs : List A) (vs : List B)
    → length (zip_into op xs vs) ≡ length xs
unfolding zip_into
length-zip_into op [] vs = refl
length-zip_into op (x ∷ xs) [] = refl
length-zip_into op (x ∷ xs) (v ∷ vs) = ap suc (length-zip_into op xs vs)

-- What an operation and a relation need for the fold to bound what it folds.
pub record IsBounding {A : Type 0} (op : A → A → A) (Within : A → A → Type 0) : Type 0 where
  pub itself : (a : A) → Within a a
  pub kept : (v a b : A) → Within v a → Within v (op a b)
  pub reached : (a b : A) → Within b (op a b)

module _ {A : Type 0} (Within : A → A → Type 0) where
  -- Lists of one length, each element within the other list's element at its place.
  abbrev pub Pointwise : List A → List A → Type 0
  Pointwise [] [] = Unit
  Pointwise (v ∷ vs) (h ∷ hs) = Within v h × Pointwise vs hs
  Pointwise _ _ = ⊥

module _ {A : Type 0} {op : A → A → A} {Within : A → A → Type 0} (laws : IsBounding op Within) where
  all_itself : (xs : List A) → Pointwise Within xs xs
  all_itself [] = tt
  all_itself (x ∷ xs) = (laws.itself x, all_itself xs)

  all_kept : (vs xs ys : List A) → Pointwise Within vs xs → Pointwise Within vs (zip_into op xs ys)
  unfolding zip_into
  all_kept [] [] ys h = tt
  all_kept [] (a ∷ xs) ys h = elim h [ ]
  all_kept (v ∷ vs) [] ys h = elim h [ ]
  all_kept (v ∷ vs) (a ∷ xs) [] h = h
  all_kept (v ∷ vs) (a ∷ xs) (b ∷ ys) h = (laws.kept v a b h.0, all_kept vs xs ys h.1)

  all_reached : (xs ys : List A) → length ys ≡ length xs → Pointwise Within ys (zip_into op xs ys)
  unfolding zip_into
  all_reached [] [] e = tt
  all_reached [] (b ∷ ys) e = absurd (omega (arith, e))
  all_reached (a ∷ xs) [] e = absurd (omega (arith, e))
  all_reached (a ∷ xs) (b ∷ ys) e = (laws.reached a b, all_reached xs ys (omega (arith, e)))

  fold_kept :
      (v start : List A) (vs : List (List A))
      → Pointwise Within v start
      → Pointwise Within v (foldl (zip_into op) start vs)
  fold_kept v start [] h = h
  fold_kept v start (w ∷ ws) h = fold_kept v (zip_into op start w) ws (all_kept v start w h)

  -- The fold bounds where it starts and all that it folds.
  fold_reached :
      (v start : List A) (vs : List (List A))
      → All (λ w. length w ≡ length start) vs
      → In v vs
      → Pointwise Within v (foldl (zip_into op) start vs)
  fold_reached v start [] e k = elim k [ ]
  fold_reached v start (w ∷ ws) e (inl same) =
      subst (λ x. Pointwise Within x (foldl (zip_into op) (zip_into op start w) ws)) (sym same)
        (fold_kept w (zip_into op start w) ws (all_reached start w e.0))
  fold_reached v start (w ∷ ws) e (inr k) =
      fold_reached v (zip_into op start w) ws
        (All-map ws (λ x l. l ∙ sym (length-zip_into op start w)) e.1) k

  pub fold-Bounds :
      (v start : List A) (vs : List (List A))
      → All (λ w. length w ≡ length start) vs
      → In v (start ∷ vs)
      → Pointwise Within v (foldl (zip_into op) start vs)
  fold-Bounds v start vs e (inl same) =
      fold_kept v start vs (subst (λ x. Pointwise Within x start) (sym same) (all_itself start))
  fold-Bounds v start vs e (inr k) = fold_reached v start vs e k
