-- ===== src/Combination/Bounds.antt =====
-- What envelope (FrameCore/Private/Combination.cpp) bounds.
use architect_simulator.Base.{
  ℕ, suc, ◌≡◌, refl, sym, ap, ◌∙◌, subst, Bool, true, false, List, [], ◌∷◌, length, map, In, In-map,
  arith, All, Option, none, some, true_ne_false, if◌then◌else◌,
}
use mathlib.Core.List.{foldl}
use mathlib.Core.Option.{some-ne-none}
use architect_simulator.Base.Real.{Real}
use architect_simulator.Collapse.Comparison.{IsOrdered}
use architect_simulator.Collapse.{MemberEndForces}
use architect_simulator.Combination.{zip_into, MemberForcePair, CaseResult, ResultEnvelope}
use architect_simulator.Combination.Cases.{
  ends_i, ends_j, same_sizes, first_mismatch, envelope_of, widen, envelope_checked, envelope,
}
use architect_simulator.Combination.Folds.{IsBounding, Pointwise, fold-Bounds}
use architect_simulator.Combination.Components.{
  NotAbove, NotBelow, EndWithin, ShellWithin, zip_end-IsBounding, zip_shell-IsBounding,
  max_of-IsBounding, min_of-IsBounding,
}

-- The sizes of a case are the base's.
abbrev pub SameSizes : {R : Real} → CaseResult R → CaseResult R → Type 0
SameSizes b c =
    (length c.u ≡ length b.u)
    × (length c.reactions ≡ length b.reactions)
    × (length c.member_forces ≡ length b.member_forces)
    × (length c.shell_forces ≡ length b.shell_forces)

same_sizes-SameSizes : {R : Real} (b c : CaseResult R) → same_sizes b c ≡ true → SameSizes b c
unfolding same_sizes
same_sizes-SameSizes b c e =
    (ground (arith, e), ground (arith, e), ground (arith, e), ground (arith, e))

pub first_mismatch-none :
    {R : Real} (b : CaseResult R) (i : ℕ) (cs : List (CaseResult R))
    → first_mismatch b i cs ≡ none
    → All (SameSizes b) cs
unfolding first_mismatch
first_mismatch-none b i [] e = tt
first_mismatch-none b i (c ∷ cs) e = go (same_sizes b c) refl e (first_mismatch-none b (suc i) cs)
  where
    go :
        (t : Bool)
        → same_sizes b c ≡ t
        → (if t then first_mismatch b (suc i) cs else some i) ≡ none
        → (first_mismatch b (suc i) cs ≡ none → All (SameSizes b) cs)
        → All (SameSizes b) (c ∷ cs)
    go true q k rec = (same_sizes-SameSizes b c q, rec k)
    go false q k rec = absurd (some-ne-none i k)

pub length-map : {A B : Type 0} (f : A → B) (xs : List A) → length (map f xs) ≡ length xs
length-map f [] = refl
length-map f (x ∷ xs) = ap suc (length-map f xs)

module _ {R : Real} {A : Type 0} {op : A → A → A} {Within : A → A → Type 0}
    (laws : IsBounding op Within) (bound : ResultEnvelope R → List A)
    (quantity : CaseResult R → List A)
    (step : (e : ResultEnvelope R) (c : CaseResult R)
      → bound (widen e c) ≡ zip_into op (bound e) (quantity c)) where
  -- One field of the envelope is the fold of the quantity it bounds.
  bound_fold :
      (e : ResultEnvelope R) (cs : List (CaseResult R))
      → bound (foldl widen e cs) ≡ foldl (zip_into op) (bound e) (map quantity cs)
  bound_fold e [] = refl
  bound_fold e (c ∷ cs) =
      bound_fold (widen e c) cs ∙ ap (λ s. foldl (zip_into op) s (map quantity cs)) (step e c)

  bounded :
      (e : ResultEnvelope R) (b : CaseResult R) (cs : List (CaseResult R))
      → bound e ≡ quantity b
      → All (λ w. length w ≡ length (quantity b)) (map quantity cs)
      → (c : CaseResult R) → In c (b ∷ cs)
      → Pointwise Within (quantity c) (bound (foldl widen e cs))
  bounded e b cs start sizes c k =
      subst (Pointwise Within (quantity c))
        (sym (bound_fold e cs ∙ ap (λ s. foldl (zip_into op) s (map quantity cs)) start))
        (fold-Bounds laws (quantity c) (quantity b) (map quantity cs) sizes
          (In-map quantity c (b ∷ cs) k))

lengths :
    {R : Real} {A : Type 0} (quantity : CaseResult R → List A) (b : CaseResult R)
    (cs : List (CaseResult R))
    → ((c : CaseResult R) → SameSizes b c → length (quantity c) ≡ length (quantity b))
    → All (SameSizes b) cs
    → All (λ w. length w ≡ length (quantity b)) (map quantity cs)
lengths quantity b [] g h = tt
lengths quantity b (c ∷ cs) g h = (g c h.0, lengths quantity b cs g h.1)

module _ {R : Real} where
  -- Every component of every quantity of the case lies between the two bounds, in lists of one length.
  abbrev pub Encloses : ResultEnvelope R → CaseResult R → Type 0
  Encloses e c =
      Pointwise (NotAbove R) c.u e.u_max
      × Pointwise (NotBelow R) c.u e.u_min
      × Pointwise (NotAbove R) c.reactions e.react_max
      × Pointwise (NotBelow R) c.reactions e.react_min
      × Pointwise (EndWithin R (NotAbove R)) (ends_i c) e.end_i_max
      × Pointwise (EndWithin R (NotBelow R)) (ends_i c) e.end_i_min
      × Pointwise (EndWithin R (NotAbove R)) (ends_j c) e.end_j_max
      × Pointwise (EndWithin R (NotBelow R)) (ends_j c) e.end_j_min
      × Pointwise (ShellWithin R (NotAbove R)) c.shell_forces e.shell_max
      × Pointwise (ShellWithin R (NotBelow R)) c.shell_forces e.shell_min

module _ {R : Real} (ordered : IsOrdered R) where
  fold-Encloses :
      (b : CaseResult R) (cs : List (CaseResult R))
      → All (SameSizes b) cs
      → (c : CaseResult R) → In c (b ∷ cs)
      → Encloses (foldl widen (envelope_of b) cs) c
  unfolding envelope_of widen
  fold-Encloses b cs sizes c k =
      let hi = max_of-IsBounding ordered in
      let lo = min_of-IsBounding ordered in
      let us = lengths (λ c. c.u) b cs (λ c s. s.0) sizes in
      let rs = lengths (λ c. c.reactions) b cs (λ c s. s.1) sizes in
      let is = lengths ends_i b cs (λ c s. ends (λ p. p.end_i) c s.2) sizes in
      let js = lengths ends_j b cs (λ c s. ends (λ p. p.end_j) c s.2) sizes in
      let ss = lengths (λ c. c.shell_forces) b cs (λ c s. s.3) sizes in
      (
        bounded hi (λ e. e.u_max) (λ c. c.u) (λ e c. refl) (envelope_of b) b cs refl us c k,
        bounded lo (λ e. e.u_min) (λ c. c.u) (λ e c. refl) (envelope_of b) b cs refl us c k,
        bounded hi (λ e. e.react_max) (λ c. c.reactions) (λ e c. refl) (envelope_of b) b cs refl rs
            c k,
        bounded lo (λ e. e.react_min) (λ c. c.reactions) (λ e c. refl) (envelope_of b) b cs refl rs
            c k,
        bounded (zip_end-IsBounding R hi) (λ e. e.end_i_max) ends_i (λ e c. refl) (envelope_of b) b
            cs refl is c k,
        bounded (zip_end-IsBounding R lo) (λ e. e.end_i_min) ends_i (λ e c. refl) (envelope_of b) b
            cs refl is c k,
        bounded (zip_end-IsBounding R hi) (λ e. e.end_j_max) ends_j (λ e c. refl) (envelope_of b) b
            cs refl js c k,
        bounded (zip_end-IsBounding R lo) (λ e. e.end_j_min) ends_j (λ e c. refl) (envelope_of b) b
            cs refl js c k,
        bounded (zip_shell-IsBounding R hi) (λ e. e.shell_max) (λ c. c.shell_forces) (λ e c. refl)
            (envelope_of b) b cs refl ss c k,
        bounded (zip_shell-IsBounding R lo) (λ e. e.shell_min) (λ c. c.shell_forces) (λ e c. refl)
            (envelope_of b) b cs refl ss c k,
      )
    where
      ends :
          (end : MemberForcePair R → MemberEndForces R) (c : CaseResult R)
          → length c.member_forces ≡ length b.member_forces
          → length (map end c.member_forces) ≡ length (map end b.member_forces)
      ends end c s = length-map end c.member_forces ∙ s ∙ sym (length-map end b.member_forces)

  checked_Encloses :
      (b : CaseResult R) (cs : List (CaseResult R)) (o : Option ℕ)
      → first_mismatch b 1 cs ≡ o
      → (envelope_checked b cs o).singular ≡ false
      → (c : CaseResult R) → In c (b ∷ cs)
      → Encloses (envelope_checked b cs o) c
  unfolding envelope_checked
  checked_Encloses b cs (some i) q e = elim (true_ne_false e) [ ]
  checked_Encloses b cs none q e = fold-Encloses b cs (first_mismatch-none b 1 cs q)

  -- An envelope that is not flagged encloses every case: no component of the case is above its maximum or
  -- below its minimum, and the envelope has the case's sizes. A component that is NaN is neither above nor
  -- below.
  pub envelope-Encloses :
      (cases : List (CaseResult R))
      → (envelope cases).singular ≡ false
      → (c : CaseResult R) → In c cases
      → Encloses (envelope cases) c
  unfolding envelope
  envelope-Encloses [] e = λ c k. absurd k
  envelope-Encloses (b ∷ cs) e = checked_Encloses b cs (first_mismatch b 1 cs) refl e
