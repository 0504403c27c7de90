-- ===== src/Frame/Connectivity/Adds.antt =====
-- What one member or shell adds to the union-find and the marks of analyzeConnectivity.
use architect_simulator.Base.{
  ℕ, zero, suc, ◌<◌, ◌≡◌, refl, sym, ap, ◌∙◌, Bool, true, false, List, [], ◌∷◌, ◌++◌, Option, none,
  some, get_or, set, length, length-set, All, arith, ◌==◌, ◌||◌, any,
}
use architect_simulator.Frame.Model.{Corners}
use architect_simulator.Frame.UnionFind.{Parents, unite, unite_all}
use architect_simulator.Frame.UnionFind.Components.{Edges, InRange}
use architect_simulator.Frame.Connectivity.Loops.{Links, link_pair, link_quad}

-- The pair that an active member unites.
abbrev pub pair_edges : Option (ℕ × ℕ) → Edges
pair_edges none = []
pair_edges (some ab) = ab ∷ []

-- The four sides of an active shell.
abbrev pub quad_edges : Option (Corners ℕ) → Edges
quad_edges none = []
quad_edges (some c) = (c.n0, c.n1) ∷ (c.n1, c.n2) ∷ (c.n2, c.n3) ∷ (c.n3, c.n0) ∷ []

-- Some pair has the index for an end.
abbrev pub touches : Edges → ℕ → Bool
touches es k = any (λ (e : ℕ × ℕ). (e.0 == k) || (e.1 == k)) es

-- What a loop adds to `l` when it unites the pairs `es`.
pub record Adds (l : Links) (es : Edges) (l' : Links) : Type 0 where
  pub uf_is : l'.uf ≡ unite_all l.uf es
  pub size : length l'.attached ≡ length l.attached
  pub marks : (k : ℕ) → get_or l'.attached k false ≡ (get_or l.attached k false || touches es k)

unite_all-append :
    (p : Parents) (es fs : Edges) → unite_all p (es ++ fs) ≡ unite_all (unite_all p es) fs
unfolding unite_all
unite_all-append p [] fs = refl
unite_all-append p ((a, b) ∷ es) fs = unite_all-append (unite p a b) es fs

pub any-append :
    {A : Type 0} (p : A → Bool) (xs ys : List A) → any p (xs ++ ys) ≡ (any p xs || any p ys)
any-append p [] ys = refl
any-append p (x ∷ xs) ys = ground (arith, any-append p xs ys)

get_or-set-true :
    (xs : List Bool) (a k : ℕ)
    → a < length xs
    → get_or (set xs a true) k false ≡ (get_or xs k false || (a == k))
get_or-set-true [] a k h = elim h [ ]
get_or-set-true (x ∷ xs) zero zero h = ground arith
get_or-set-true (x ∷ xs) zero (suc k) h = ground arith
get_or-set-true (x ∷ xs) (suc a) zero h = ground arith
get_or-set-true (x ∷ xs) (suc a) (suc k) h = ground (arith, get_or-set-true xs a k (omega arith))

pub Adds-nil : (l : Links) → Adds l [] l
unfolding unite_all
Adds-nil l = record { uf_is = refl; size = refl; marks = λ k. ground arith }

pub Adds-append : {l m n : Links} {es fs : Edges} → Adds l es m → Adds m fs n → Adds l (es ++ fs) n
Adds-append {l} {m} {n} {es} {fs} a b = record {
  uf_is = b.uf_is ∙ (ap (λ p. unite_all p fs) a.uf_is ∙ sym (unite_all-append l.uf es fs));
  size = b.size ∙ a.size;
  marks = λ k.
      ground
        (arith, a.marks k, b.marks k, any-append (λ (e : ℕ × ℕ). (e.0 == k) || (e.1 == k)) es fs);
}

pub link_pair-Adds :
    (l : Links) (o : Option (ℕ × ℕ))
    → All (InRange (length l.attached)) (pair_edges o)
    → Adds l (pair_edges o) (link_pair l o)
unfolding unite_all
link_pair-Adds l none h = Adds-nil l
link_pair-Adds l (some (a, b)) h = record {
  uf_is = refl;
  size = length-set (set l.attached b true) a true ∙ length-set l.attached b true;
  marks = λ k. ground (
    arith,
    get_or-set-true (set l.attached b true) a k,
    get_or-set-true l.attached b k,
    length-set l.attached b true,
  );
}

pub link_quad-Adds :
    (l : Links) (o : Option (Corners ℕ))
    → All (InRange (length l.attached)) (quad_edges o)
    → Adds l (quad_edges o) (link_quad l o)
unfolding unite_all
link_quad-Adds l none h = Adds-nil l
link_quad-Adds l (some c) h = record { uf_is = refl; size = s₄; marks = λ k. marks k }
  where
    a₁ : List Bool
    a₁ = set l.attached c.n0 true

    a₂ : List Bool
    a₂ = set a₁ c.n1 true

    a₃ : List Bool
    a₃ = set a₂ c.n2 true

    s₁ : length a₁ ≡ length l.attached
    s₁ = length-set l.attached c.n0 true

    s₂ : length a₂ ≡ length l.attached
    s₂ = length-set a₁ c.n1 true ∙ s₁

    s₃ : length a₃ ≡ length l.attached
    s₃ = length-set a₂ c.n2 true ∙ s₂

    s₄ : length (set a₃ c.n3 true) ≡ length l.attached
    s₄ = length-set a₃ c.n3 true ∙ s₃

    marks :
        (k : ℕ)
        → get_or (set a₃ c.n3 true) k false
          ≡ (get_or l.attached k false || touches (quad_edges (some c)) k)
    marks k = ground (
      arith,
      get_or-set-true a₃ c.n3 k,
      get_or-set-true a₂ c.n2 k,
      get_or-set-true a₁ c.n1 k,
      get_or-set-true l.attached c.n0 k,
      s₁,
      s₂,
      s₃,
    )
