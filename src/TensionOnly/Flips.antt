-- ===== src/TensionOnly/Flips.antt =====
-- The loop over the tension-only members in iterateTO (FrameCore/Private/TensionOnly.cpp).
use architect_simulator.Base.{
  true_ne_false, ℕ, suc, ◌+◌, ◌≡◌, refl, sym, ap, ◌∙◌, Bool, true, false, not, ◌&&◌, List, [], ◌∷◌,
  map, All, if◌then◌else◌, arith, get_or, get_elem?, length, some, Option, In, zero, subst, All-map,
  inl, inr,
}
use mathlib.Core.Option.{none-ne-some}
use architect_simulator.Base.Int.{ℤ}
use architect_simulator.Base.Real.{Real}
use architect_simulator.Frame.Types.{zero_of}
use architect_simulator.Frame.Model.{Member, FrameModel}
use architect_simulator.TensionOnly.{
  Solved, Session, TensionOnlyOptions, Flag, bytes, member_elongation, flips, flip, flip_all,
  flags_from,
}

-- How many flags are up.
unfoldable pub n_true : List Bool → ℕ
n_true [] = 0
n_true (b ∷ bs) = let rest = n_true bs in if b then suc rest else rest

-- The member that a flag is for: its index and its id.
abbrev pub member_of : Flag → ℕ × ℤ
member_of f = (f.index, f.id)

module _ {R : Real} (session : Session R) (model : FrameModel R) (opts : TensionOnlyOptions R) where
  -- No member of the list flips.
  abbrev pub Steady : Bool → Solved R → List Flag → Type 0
  Steady allow_react r = All (λ f. flips session model opts allow_react r f ≡ false)

  -- Without a flip nothing changes, and no member would flip.
  pub flip_all-Steady :
      (allow_react : Bool) (r : Solved R) (s : session.State) (fs : List Flag)
      → (flip_all session model opts allow_react r s fs).2 ≡ 0
      → ((flip_all session model opts allow_react r s fs).1 ≡ fs) × Steady allow_react r fs
  unfolding flip_all
  flip_all-Steady allow_react r s [] e = (refl, tt)
  flip_all-Steady allow_react r s (f ∷ fs) e =
      let b = flips session model opts allow_react r f in
      let s₁ = if b then session.set_member_active s f.id (not f.active) else s in
      go b (flip_all session model opts allow_react r s₁ fs) refl e
        (flip_all-Steady allow_react r s₁ fs)
    where
      go :
          (b : Bool) (more : session.State × List Flag × ℕ)
          → flips session model opts allow_react r f ≡ b
          → (if b then suc more.2 else more.2) ≡ 0
          → (more.2 ≡ 0 → (more.1 ≡ fs) × Steady allow_react r fs)
          → (((if b then flip session model opts f else f) ∷ more.1) ≡ f ∷ fs)
            × ((flips session model opts allow_react r f ≡ false) × Steady allow_react r fs)
      go true more p q rec = elim (none_left q) [ ]
        where
          none_left : {n : ℕ} → suc n ≡ 0 → ⊥
          none_left q = omega (arith, q)
      go false more p q rec = let (e, h) = rec q in (ap (λ xs. f ∷ xs) e, (p, h))

  -- Without reactivation every flip takes a flag down.
  n_true-flip :
      (r : Solved R) (f : Flag) (b : Bool) (n n' k : ℕ)
      → flips session model opts false r f ≡ b
      → n' + k ≡ n
      → (if (if b then flip session model opts f else f).active then suc n' else n')
          + (if b then suc k else k)
        ≡ (if f.active then suc n else n)
  unfolding flips
  n_true-flip r f true n n' k p e = go f.active p
    where
      go :
          (a : Bool)
          → (if a
              then R.lt opts.axial_tol (get_or r.axial f.index (zero_of R))
              else (false && R.lt (zero_of R) (member_elongation session model opts r f.index)))
            ≡ true
          → (if not a then suc n' else n') + suc k ≡ (if a then suc n else n)
      go true p = omega (arith, e)
      go false p = elim (true_ne_false (sym p)) [ ]
  n_true-flip r f false n n' k p e = go f.active
    where
      go : (a : Bool) → (if a then suc n' else n') + k ≡ (if a then suc n else n)
      go true = omega (arith, e)
      go false = omega (arith, e)

  pub n_true-flip_all :
      (r : Solved R) (s : session.State) (fs : List Flag)
      → n_true (bytes (flip_all session model opts false r s fs).1)
          + (flip_all session model opts false r s fs).2
        ≡ n_true (bytes fs)
  unfolding flip_all n_true
  n_true-flip_all r s [] = omega arith
  n_true-flip_all r s (f ∷ fs) =
      let b = flips session model opts false r f in
      let s₁ = if b then session.set_member_active s f.id (not f.active) else s in
      let more = flip_all session model opts false r s₁ fs in
      n_true-flip r f b (n_true (bytes fs)) (n_true (bytes more.1)) more.2 refl
        (n_true-flip_all r s₁ fs)

  pub length-flip_all :
      (allow_react : Bool) (r : Solved R) (s : session.State) (fs : List Flag)
      → length (flip_all session model opts allow_react r s fs).1 ≡ length fs
  unfolding flip_all
  length-flip_all allow_react r s [] = refl
  length-flip_all allow_react r s (f ∷ fs) = ap suc (
      length-flip_all allow_react r
        (if flips session model opts allow_react r f
          then session.set_member_active s f.id (not f.active)
          else s)
        fs)

  -- Flips keep the members.
  pub members-flip_all :
      (allow_react : Bool) (r : Solved R) (s : session.State) (fs : List Flag)
      → map member_of (flip_all session model opts allow_react r s fs).1 ≡ map member_of fs
  unfolding flip_all
  members-flip_all allow_react r s [] = refl
  members-flip_all allow_react r s (f ∷ fs) =
      let b = flips session model opts allow_react r f in
      let s₁ = if b then session.set_member_active s f.id (not f.active) else s in
      ap (λ i. i ∷ map member_of (flip_all session model opts allow_react r s₁ fs).1)
        (member-flip b f)
      ∙ ap (λ xs. member_of f ∷ xs) (members-flip_all allow_react r s₁ fs)
    where
      member-flip :
          (b : Bool) (f : Flag)
          → member_of (if b then flip session model opts f else f) ≡ member_of f
      member-flip true f = refl
      member-flip false f = refl

-- Each flag of flags_from is for a tension-only member of the list, at its place and with its id.
abbrev pub NamesFrom : {R : Real} → ℕ → List (Member R) → ℕ × ℤ → Type 0
NamesFrom {R} e ms (index, id) =
    (d : ℕ) × (m : Member R) × (index ≡ e + d)
    × (get_elem? ms d ≡ some m)
    × (id ≡ m.id)
    × (m.tension_only ≡ true)

pub flags_from-NamesFrom :
    {R : Real} (e : ℕ) (ms : List (Member R))
    → All (NamesFrom e ms) (map member_of (flags_from e ms))
unfolding flags_from
flags_from-NamesFrom e [] = tt
flags_from-NamesFrom e (m ∷ ms) =
    go m.tension_only refl
      (All-map (map member_of (flags_from (suc e) ms)) shifted (flags_from-NamesFrom (suc e) ms))
  where
    rest : List Flag
    rest = flags_from (suc e) ms

    shifted : (k : ℕ × ℤ) → NamesFrom (suc e) ms k → NamesFrom e (m ∷ ms) k
    shifted (i, id) (d, x, p, q, n, t) = (suc d, x, omega (arith, p), q, n, t)

    go :
        (b : Bool)
        → m.tension_only ≡ b
        → All (NamesFrom e (m ∷ ms)) (map member_of rest)
        → All (NamesFrom e (m ∷ ms)) (
            map member_of
              (if b then (record { index = e; id = m.id; active = m.active }) ∷ rest else rest))
    go true t later = ((0, m, omega arith, refl, refl, t), later)
    go false t later = later

-- Each tension-only member of the list has a flag.
pub flags_from-Covers :
    {R : Real} (e : ℕ) (ms : List (Member R)) (d : ℕ) (m : Member R)
    → get_elem? ms d ≡ some m
    → m.tension_only ≡ true
    → In (e + d, m.id) (map member_of (flags_from e ms))
unfolding flags_from
flags_from-Covers e [] d m q t = absurd (none-ne-some m q)
flags_from-Covers {R} e (x ∷ xs) d m q t =
    go x.tension_only refl d q (λ k r. flags_from-Covers (suc e) xs k m r t)
  where
    rest : List Flag
    rest = flags_from (suc e) xs

    some_is : (a b : Member R) → Option.some a ≡ some b → a ≡ b
    some_is a b q = cc

    Found : ℕ → List Flag → Type 0
    Found d fs = In (e + d, m.id) (map member_of fs)

    go :
        (b : Bool)
        → x.tension_only ≡ b
        → (d : ℕ) → get_elem? (x ∷ xs) d ≡ some m
        → ((k : ℕ) → get_elem? xs k ≡ some m → In (suc e + k, m.id) (map member_of rest))
        → Found d (if b then (record { index = e; id = x.id; active = x.active }) ∷ rest else rest)
    go true c zero q rec =
        let place : e + 0 ≡ e = omega arith in inl (cc (place, ap (λ y. y.id) (some_is x m q)))
    go false c zero q rec =
        elim (true_ne_false (sym t ∙ ap (λ y. y.tension_only) (sym (some_is x m q)) ∙ c)) [ ]
    go true c (suc d) q rec =
        let place : e + suc d ≡ suc e + d = omega arith in
        inr (subst (λ n. In (n, m.id) (map member_of rest)) (sym place) (rec d q))
    go false c (suc d) q rec =
        let place : e + suc d ≡ suc e + d = omega arith in
        subst (λ n. In (n, m.id) (map member_of rest)) (sym place) (rec d q)
