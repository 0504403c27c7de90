-- ===== src/Combination/Totals.antt =====
-- The loop of combine (FrameCore/Private/Combination.cpp) at one place of one quantity.
use architect_simulator.Base.{
  ℕ, zero, suc, ◌≡◌, refl, sym, ap, ◌∙◌, Bool, ◌||◌, List, [], ◌∷◌, length, map, replicate,
  get_elem?, get_or, All, All-map, Option, none, some, arith,
}
use mathlib.Core.Option.{map as option_map}
use architect_simulator.Base.Real.{Real}
use architect_simulator.Combination.{zip_into, CaseResult}
use architect_simulator.Combination.Cases.{zeros_like, add_case, add_cases}
use architect_simulator.Combination.Folds.{length-zip_into}

-- The k-th value, and the k-th value of every case that has a factor, added in the cases' order.
abbrev pub total :
    {C A F : Type 0} → (F → A → A → A) → (C → List A) → A → ℕ → A → List C → List F → A
total op quantity d k x [] fs = x
total op quantity d k x (c ∷ cs) [] = x
total op quantity d k x (c ∷ cs) (f ∷ fs) =
    total op quantity d k (op f x (get_or (quantity c) k d)) cs fs

-- Is one of the cases that have a factor singular, or b.
abbrev pub any_singular : {R : Real} → Bool → List (CaseResult R) → List R.carrier → Bool
any_singular b [] fs = b
any_singular b (c ∷ cs) [] = b
any_singular b (c ∷ cs) (f ∷ fs) = any_singular (b || c.singular) cs fs

get_elem?-zip_into :
    {A : Type 0} (op : A → A → A) (d : A) (xs vs : List A) (k : ℕ)
    → length vs ≡ length xs
    → get_elem? (zip_into op xs vs) k ≡ option_map (λ x. op x (get_or vs k d)) (get_elem? xs k)
unfolding zip_into
get_elem?-zip_into op d [] vs k e = refl
get_elem?-zip_into op d (x ∷ xs) [] k e = absurd (omega (arith, e))
get_elem?-zip_into op d (x ∷ xs) (v ∷ vs) zero e = refl
get_elem?-zip_into op d (x ∷ xs) (v ∷ vs) (suc k) e =
    get_elem?-zip_into op d xs vs k (omega (arith, e))

option_map_map :
    {A B C : Type 0} (g : B → C) (f : A → B) (o : Option A)
    → option_map g (option_map f o) ≡ option_map (λ x. g (f x)) o
option_map_map g f none = refl
option_map_map g f (some x) = refl

pub option_map_cong :
    {A B : Type 0} {f g : A → B} (o : Option A)
    → ((x : A) → f x ≡ g x)
    → option_map f o ≡ option_map g o
option_map_cong none h = refl
option_map_cong (some x) h = ap some (h x)

pub get_elem?-map :
    {A B : Type 0} (f : A → B) (xs : List A) (k : ℕ)
    → get_elem? (map f xs) k ≡ option_map f (get_elem? xs k)
get_elem?-map f [] k = refl
get_elem?-map f (x ∷ xs) zero = refl
get_elem?-map f (x ∷ xs) (suc k) = get_elem?-map f xs k

pub get_elem?-replicate :
    {A B : Type 0} (d : A) (xs : List B) (k : ℕ)
    → get_elem? (replicate (length xs) d) k ≡ option_map (λ _. d) (get_elem? xs k)
get_elem?-replicate d [] k = refl
get_elem?-replicate d (x ∷ xs) zero = refl
get_elem?-replicate d (x ∷ xs) (suc k) = get_elem?-replicate d xs k

mapped_itself : {A : Type 0} (o : Option A) → o ≡ option_map (λ x. x) o
mapped_itself none = refl
mapped_itself (some x) = refl

module _ {R : Real} {A : Type 0} (op : R.carrier → A → A → A) (quantity : CaseResult R → List A)
    (d : A)
    (step : (out c : CaseResult R) (f : R.carrier)
      → quantity (add_case out c f) ≡ zip_into (op f) (quantity out) (quantity c)) where
  add_cases-total :
      (out : CaseResult R) (cs : List (CaseResult R)) (fs : List R.carrier) (k : ℕ)
      → All (λ c. length (quantity c) ≡ length (quantity out)) cs
      → get_elem? (quantity (add_cases out cs fs)) k
        ≡ option_map (λ x. total op quantity d k x cs fs) (get_elem? (quantity out) k)
  unfolding add_cases
  add_cases-total out [] fs k e = mapped_itself (get_elem? (quantity out) k)
  add_cases-total out (c ∷ cs) [] k e = mapped_itself (get_elem? (quantity out) k)
  add_cases-total out (c ∷ cs) (f ∷ fs) k e =
      let size = ap length (step out c f) ∙ length-zip_into (op f) (quantity out) (quantity c) in
      let rest : A → A = λ x. total op quantity d k x cs fs in
      add_cases-total (add_case out c f) cs fs k (All-map cs (λ a l. l ∙ sym size) e.1)
      ∙ ap (λ xs. option_map rest (get_elem? xs k)) (step out c f)
      ∙ ap (option_map rest) (get_elem?-zip_into (op f) d (quantity out) (quantity c) k e.0)
      ∙ option_map_map rest (λ x. op f x (get_or (quantity c) k d)) (get_elem? (quantity out) k)

  -- The sum starts with the zeros, one for each value of the base.
  pub zeros-total :
      (base : CaseResult R) (cs : List (CaseResult R)) (fs : List R.carrier) (k : ℕ) (z : A → A)
      → length (quantity (zeros_like base)) ≡ length (quantity base)
      → get_elem? (quantity (zeros_like base)) k ≡ option_map z (get_elem? (quantity base) k)
      → All (λ c. length (quantity c) ≡ length (quantity base)) cs
      → get_elem? (quantity (add_cases (zeros_like base) (base ∷ cs) fs)) k
        ≡ option_map (λ x. total op quantity d k (z x) (base ∷ cs) fs) (get_elem? (quantity base) k)
  zeros-total base cs fs k z size start sizes =
      let rest : A → A = λ x. total op quantity d k x (base ∷ cs) fs in
      add_cases-total (zeros_like base) (base ∷ cs) fs k
        (sym size, All-map cs (λ c l. l ∙ sym size) sizes)
      ∙ ap (option_map rest) start
      ∙ option_map_map rest z (get_elem? (quantity base) k)

pub add_cases-singular :
    {R : Real} (out : CaseResult R) (cs : List (CaseResult R)) (fs : List R.carrier)
    → (add_cases out cs fs).singular ≡ any_singular out.singular cs fs
unfolding add_cases add_case
add_cases-singular out [] fs = refl
add_cases-singular out (c ∷ cs) [] = refl
add_cases-singular out (c ∷ cs) (f ∷ fs) = add_cases-singular (add_case out c f) cs fs
