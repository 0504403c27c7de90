-- ===== src/Frame/UnionFind/Components.antt =====
-- The specification of a union-find: the equivalence that the united pairs generate.
use architect_simulator.Base.{
  ℕ, zero, suc, ◌+◌, ◌≤◌, ◌<◌, ◌≡◌, ◌↔◌, refl, sym, ap, ◌∙◌, List, [], ◌∷◌, ◌++◌, length, get_or,
  ◌==◌, if◌then◌else◌, arith, Bool-cases, inl, inr, ◌⊎◌, All, append-nil, append_assoc, ltb, ltb→lt,
}
use architect_simulator.Frame.UnionFind.{
  Parents, parent, find, unite, unite_all, singletons, indices_from,
}
use architect_simulator.Frame.UnionFind.Forest.{
  Root, here, Root-of_Root, Root-unique, roots_below-le, IsForest,
}
use architect_simulator.Frame.UnionFind.Halving.{find-Finds}
use architect_simulator.Frame.UnionFind.Linking.{Unites, unite-Unites}

abbrev pub Edges : Type 0
Edges = List (ℕ × ℕ)

-- The pair is in the list.
abbrev pub Occurs : ℕ → ℕ → Edges → Type 0
Occurs a b [] = ⊥
Occurs a b (e ∷ es) = ((a ≡ e.0) × (b ≡ e.1)) ⊎ Occurs a b es

Occurs-append : (a b : ℕ) (es fs : Edges) → Occurs a b es ⊎ Occurs a b fs → Occurs a b (es ++ fs)
Occurs-append a b [] fs (inl h) = elim h [ ]
Occurs-append a b [] fs (inr h) = h
Occurs-append a b (e ∷ es) fs (inl (inl h)) = inl h
Occurs-append a b (e ∷ es) fs (inl (inr h)) = inr (Occurs-append a b es fs (inl h))
Occurs-append a b (e ∷ es) fs (inr h) = inr (Occurs-append a b es fs (inr h))

Occurs-split : (a b : ℕ) (es fs : Edges) → Occurs a b (es ++ fs) → Occurs a b es ⊎ Occurs a b fs
Occurs-split a b [] fs h = inr h
Occurs-split a b (e ∷ es) fs (inl h) = inl (inl h)
Occurs-split a b (e ∷ es) fs (inr h) = elim (Occurs-split a b es fs h) [
  | inl k ↦ inl (inr k)
  | inr k ↦ inr k
]

-- The least equivalence that holds of the pairs `es`.
pub data Linked (es : Edges) : ℕ → ℕ → Type 0 where
  edge : {a b : ℕ} → Occurs a b es → Linked es a b
  equal : {a b : ℕ} → a ≡ b → Linked es a b
  symm : {a b : ℕ} → Linked es a b → Linked es b a
  trans : {a b c : ℕ} → Linked es a b → Linked es b c → Linked es a c

-- Two indices have one root.
abbrev pub Same : Parents → ℕ → ℕ → Type 0
Same p x y = (r : ℕ) × Root p x r × Root p y r

get_or_out : (p : Parents) (x d : ℕ) → length p ≤ x → get_or p x d ≡ d
get_or_out [] x d h = refl
get_or_out (y ∷ p) zero d h = elim h [ ]
get_or_out (y ∷ p) (suc x) d h = get_or_out p x d (omega arith)

-- Every index has a root.
climb : (p : Parents) (f : IsForest p) (x : ℕ) → (r : ℕ) × Root p x r
climb p f x = elim (Bool-cases (ltb x (length p))) [
  | inl lt ↦ ((find p x).1, (find-Finds p x f (ltb→lt _ _ lt)).root)
  | inr out ↦ (x, here (get_or_out p x x (ground arith)) refl)
]

pub Same-refl : (p : Parents) → IsForest p → (x y : ℕ) → x ≡ y → Same p x y
Same-refl p f x y e = let (r, h) = climb p f x in (r, h, rw (← e) h)

pub Same-symm : (p : Parents) (x y : ℕ) → Same p x y → Same p y x
Same-symm p x y (r, h, k) = (r, k, h)

pub Same-trans : (p : Parents) (x y z : ℕ) → Same p x y → Same p y z → Same p x z
Same-trans p x y z (r, h, k) (s, l, m) = (r, h, rw (Root-unique k l) m)

-- The roots of `p` agree with the equivalence that `es` generates.
pub record Represents (p : Parents) (es : Edges) : Type 0 where
  pub forest : IsForest p
  pub sound : (x r : ℕ) → Root p x r → Linked es x r
  pub complete : (a b : ℕ) → Occurs a b es → Same p a b

Linked-mono :
    {es fs : Edges}
    → ((a b : ℕ) → Occurs a b es → Occurs a b fs)
    → {x y : ℕ} → Linked es x y
    → Linked fs x y
Linked-mono k (edge {a} {b} o) = edge (k a b o)
Linked-mono k (equal e) = equal e
Linked-mono k (symm h) = symm (Linked-mono k h)
Linked-mono k (trans g h) = trans (Linked-mono k g) (Linked-mono k h)

pub Same-Linked :
    {p : Parents} {es : Edges} → Represents p es → {x y : ℕ} → Linked es x y → Same p x y
Same-Linked v (edge {a} {b} o) = v.complete a b o
Same-Linked {p} v (equal {a} {b} e) = Same-refl p v.forest a b e
Same-Linked {p} v (symm {a} {b} h) = Same-symm p a b (Same-Linked v h)
Same-Linked {p} v (trans {a} {b} {c} g h) = Same-trans p a b c (Same-Linked v g) (Same-Linked v h)

Same-unite : {p q : Parents} {a b : ℕ} → Unites p a b q → {x y : ℕ} → Same p x y → Same q x y
Same-unite u (r, h, k) = (_, u.forth h, u.forth k)

Same-united : {p q : Parents} {a b : ℕ} → Unites p a b q → Same q a b
Same-united {p} {q} {a} {b} u = (u.ra, keep, move)
  where
    keep : Root q a u.ra
    keep =
        let e : (if u.ra == u.rb then u.ra else u.ra) ≡ u.ra = ground arith in
        rw e at (u.forth u.root_a)

    move : Root q b u.ra
    move =
        let e : (if u.rb == u.rb then u.ra else u.rb) ≡ u.ra = ground arith in
        rw e at (u.forth u.root_b)

unite-Represents :
    (p : Parents) (es : Edges) (a b : ℕ)
    → Represents p es
    → a < length p
    → b < length p
    → Represents (unite p a b) (es ++ (a, b) ∷ [])
unite-Represents p es a b v la lb = record {
  forest = u.forest;
  sound = λ x r h. elim (u.back h) [
    | inl k ↦ Linked-mono old (v.sound x r k)
    | inr (k, e) ↦
        trans
          (trans (Linked-mono old (v.sound x u.rb k))
            (symm (Linked-mono old (v.sound b u.rb u.root_b))))
          (trans (symm new) (trans (Linked-mono old (v.sound a u.ra u.root_a)) (equal (sym e))))
  ];
  complete = λ x y o. elim (Occurs-split x y es ((a, b) ∷ []) o) [
    | inl k ↦ Same-unite u (v.complete x y k)
    | inr (inl (e, w)) ↦ rw (e, w) (Same-united u)
    | inr (inr k) ↦ absurd k
  ];
}
  where
    u : Unites p a b (unite p a b)
    u = unite-Unites p a b v.forest la lb

    old : (c d : ℕ) → Occurs c d es → Occurs c d (es ++ (a, b) ∷ [])
    old c d o = Occurs-append c d es ((a, b) ∷ []) (inl o)

    new : Linked (es ++ (a, b) ∷ []) a b
    new = edge (Occurs-append a b es ((a, b) ∷ []) (inr (inl (refl, refl))))

abbrev pub InRange : ℕ → ℕ × ℕ → Type 0
InRange n e = (e.0 < n) × (e.1 < n)

unite_all-Represents :
    (p : Parents) (es fs : Edges)
    → Represents p es
    → All (InRange (length p)) fs
    → Represents (unite_all p fs) (es ++ fs)
unfolding unite_all
unite_all-Represents p es [] v h = rw append-nil v
unite_all-Represents p es ((a, b) ∷ fs) v h = rw (← append_assoc es ((a, b) ∷ []) fs) (
    unite_all-Represents (unite p a b) (es ++ (a, b) ∷ []) fs
      (unite-Represents p es a b v h.0.0 h.0.1)
      (let e : length (unite p a b) ≡ length p = (unite-Unites p a b v.forest h.0.0 h.0.1).size in
        rw e h.1))

length-indices_from : (i n : ℕ) → length (indices_from i n) ≡ n
unfolding indices_from
length-indices_from i zero = refl
length-indices_from i (suc n) = ap suc (length-indices_from (suc i) n)

get_or-indices_from : (i n x : ℕ) → get_or (indices_from i n) x (i + x) ≡ i + x
unfolding indices_from
get_or-indices_from i zero x = refl
get_or-indices_from i (suc n) zero = omega arith
get_or-indices_from i (suc n) (suc x) =
    let e : i + suc x ≡ suc i + x = omega arith in rw e (get_or-indices_from (suc i) n x)

pub length-singletons : (n : ℕ) → length (singletons n) ≡ n
unfolding singletons
length-singletons n = length-indices_from 0 n

parent-singletons : (n x : ℕ) → parent (singletons n) x ≡ x
unfolding singletons
parent-singletons n x = let e : 0 + x ≡ x = omega arith in rw e at (get_or-indices_from 0 n x)

pub singletons-Represents : (n : ℕ) → Represents (singletons n) []
singletons-Represents n = record {
  forest = record {
    height = λ _. 0;
    closed = λ x h. rw (parent-singletons n x) h;
    rises = λ x h. absurd (h (parent-singletons n x));
    low = λ x h. omega (arith, roots_below-le (length (singletons n)) (singletons n));
  };
  sound = λ x r h. equal (Root-of_Root h (parent-singletons n x));
  complete = λ a b o. absurd o;
}

pub unite_all-singletons-Represents :
    (n : ℕ) (es : Edges) → All (InRange n) es → Represents (unite_all (singletons n) es) es
unite_all-singletons-Represents n es h =
    unite_all-Represents (singletons n) [] es (singletons-Represents n) (rw (length-singletons n) h)

pub length-unite_all :
    (p : Parents) (es : Edges)
    → IsForest p
    → All (InRange (length p)) es
    → length (unite_all p es) ≡ length p
unfolding unite_all
length-unite_all p [] f h = refl
length-unite_all p ((a, b) ∷ es) f h =
    let u = unite-Unites p a b f h.0.0 h.0.1 in
    let k = u.size in length-unite_all (unite p a b) es u.forest (rw k h.1) ∙ k

-- After the pairs have been united, two indices have the same `find` exactly when the equivalence
-- that the pairs generate relates them.
pub find-unite_all_iff :
    (n : ℕ) (es : Edges) (x y : ℕ)
    → All (InRange n) es
    → x < n
    → y < n
    → ((find (unite_all (singletons n) es) x).1 ≡ (find (unite_all (singletons n) es) y).1)
      ↔ Linked es x y
find-unite_all_iff n es x y h lx ly = (forth, back)
  where
    q : Parents
    q = unite_all (singletons n) es

    v : Represents q es
    v = unite_all-singletons-Represents n es h

    size : length q ≡ n
    size =
        length-unite_all (singletons n) es (singletons-Represents n).forest
          (rw (length-singletons n) h)
        ∙ length-singletons n

    root_x : Root q x (find q x).1
    root_x = (find-Finds q x v.forest (rw size lx)).root

    root_y : Root q y (find q y).1
    root_y = (find-Finds q y v.forest (rw size ly)).root

    forth : (find q x).1 ≡ (find q y).1 → Linked es x y
    forth e = trans (v.sound x _ root_x) (symm (v.sound y _ (rw e root_y)))

    back : Linked es x y → (find q x).1 ≡ (find q y).1
    back l = let (r, hx, hy) = Same-Linked v l in Root-unique root_x hx ∙ Root-unique hy root_y
