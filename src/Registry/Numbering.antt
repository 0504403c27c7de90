-- ===== src/Registry/Numbering.antt =====
-- Lists whose elements carry their own index, and the searches and writes of Registry/Model.antt.
use architect_simulator.Base.{
  ◌≡◌, refl, ap, ◌∙◌, ℕ, zero, suc, ◌+◌, ◌<◌, List, [], ◌∷◌, ◌++◌, some, length, All, arith,
  Option-cases, inl, inr,
}
use architect_simulator.Frame.Types.{Vec3}
use architect_simulator.Interactive.Host.{Platform, UeNode}
use architect_simulator.Registry.Model.{update, find_node}

module _ {A : Type 0} where
  abbrev pub Numbered : (A → ℕ) → ℕ → List A → Type 0
  Numbered f k [] = Unit
  Numbered f k (x ∷ xs) = (f x ≡ k) × Numbered f (suc k) xs

  pub Numbered-append :
      (f : A → ℕ) (k : ℕ) (xs : List A) (x : A)
      → Numbered f k xs
      → f x ≡ k + length xs
      → Numbered f k (xs ++ x ∷ [])
  Numbered-append f k [] x h e = (omega (arith, e), tt)
  Numbered-append f k (y ∷ ys) x h e = (h.0, Numbered-append f (suc k) ys x h.1 (omega (arith, e)))

  pub Numbered-update :
      (f : A → ℕ) (g : A → A) (k : ℕ) (xs : List A) (i : ℕ)
      → ((x : A) → f (g x) ≡ f x)
      → Numbered f k xs
      → Numbered f k (update xs i g)
  unfolding update
  Numbered-update f g k [] i e h = tt
  Numbered-update f g k (x ∷ xs) zero e h = (e x ∙ h.0, h.1)
  Numbered-update f g k (x ∷ xs) (suc i) e h = (h.0, Numbered-update f g (suc k) xs i e h.1)

  pub length-update : (xs : List A) (i : ℕ) (g : A → A) → length (update xs i g) ≡ length xs
  unfolding update
  length-update [] i g = refl
  length-update (x ∷ xs) zero g = refl
  length-update (x ∷ xs) (suc i) g = ap suc (length-update xs i g)

  pub All-update :
      (Q : A → Type 0) (g : A → A) (xs : List A) (i : ℕ)
      → ((x : A) → Q x → Q (g x))
      → All Q xs
      → All Q (update xs i g)
  unfolding update
  All-update Q g [] i e h = tt
  All-update Q g (x ∷ xs) zero e h = (e x h.0, h.1)
  All-update Q g (x ∷ xs) (suc i) e h = (h.0, All-update Q g xs i e h.1)

module _ (P : Platform) where
  pub find_node_lt :
      (ns : List (UeNode P.real)) (p : Vec3 P.real) (i : ℕ)
      → find_node P ns p ≡ some i
      → i < length ns
  unfolding find_node
  find_node_lt [] p i e = grind arith
  find_node_lt (n ∷ ns) p i e = elim (Option-cases (find_node P ns p)) [
    | inl none_ ↦ ground (arith, none_)
    | inr (j, some_) ↦ ground (arith, some_, find_node_lt ns p j some_)
  ]
