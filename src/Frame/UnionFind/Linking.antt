-- ===== src/Frame/UnionFind/Linking.antt =====
-- `unite`: the root of the second index goes below the root of the first.
use architect_simulator.Base.{
  ℕ, ◌+◌, ◌<◌, ◌≡◌, ◌≢◌, refl, sym, ◌∙◌, true, length, set, ◌==◌, if◌then◌else◌, arith, Bool-cases,
  inl, inr, ◌⊎◌, length-set, max,
}
use architect_simulator.Frame.UnionFind.{Parents, parent, find, unite}
use architect_simulator.Frame.UnionFind.Forest.{
  Root, here, up, Root-of_Root, Root-IsRoot, get_or-set, roots_below-root, IsForest,
}
use architect_simulator.Frame.UnionFind.Halving.{find-Finds, SameRoots, SameRoots-trans}

module _ (p : Parents) (f : IsForest p) (ra rb : ℕ) (ltb : rb < length p) (lta : ra < length p)
    (root_a : parent p ra ≡ ra) (root_b : parent p rb ≡ rb) (distinct : ra ≢ rb) where
  abbrev linked : Parents
  linked = set p rb ra

  parent-linked : (x : ℕ) → parent linked x ≡ (if rb == x then ra else parent p x)
  parent-linked x = get_or-set p rb ra x x ltb

  abbrev height' : ℕ → ℕ
  height' x = if ra == x then max (f.height ra) (f.height rb + 1) else f.height x

  linked-IsForest : IsForest linked
  linked-IsForest = record {
    height = height';
    closed = λ x h. ground (arith, parent-linked x, length-set p rb ra, f.closed x);
    rises = λ x h. ground (arith, parent-linked x, f.rises x);
    low = λ x h. ground (
      arith,
      length-set p rb ra,
      f.low x,
      f.low ra,
      f.low rb,
      roots_below-root (length p) p rb ra,
    );
  }

  linked-forth : {x r : ℕ} → Root p x r → Root linked x (if r == rb then ra else r)
  linked-forth {x} {r} (here e q) = elim (Bool-cases (r == rb)) [
    | inl hit ↦ rw hit (
        up {y = ra} (ground (arith, parent-linked x))
          (here (ground (arith, parent-linked ra)) refl))
    | inr miss ↦ rw miss (here (ground (arith, parent-linked x)) q)
  ]
  linked-forth {x} {r} (up {y} e s) = elim (Bool-cases (rb == x)) [
    | inl hit ↦
        let whole : x ≡ r = Root-of_Root (up e s) (ground arith) in
        let one : (r == rb) ≡ true = ground arith in
        rw one (
          up {y = ra} (ground (arith, parent-linked x))
            (here (ground (arith, parent-linked ra)) refl))
    | inr miss ↦ up (ground (arith, parent-linked x)) (linked-forth s)
  ]

  linked-back : {x r : ℕ} → Root linked x r → Root p x r ⊎ (Root p x rb × (r ≡ ra))
  linked-back {x} (here e q) = inl (here (ground (arith, parent-linked x)) q)
  linked-back {x} {r} (up {y} e s) = elim (Bool-cases (rb == x)) [
    | inl hit ↦ inr (
      here (ground arith) (ground arith),
      sym (Root-of_Root s (ground (arith, parent-linked x, parent-linked ra)))
          ∙ ground (arith, parent-linked x),
    )
    | inr miss ↦ elim (linked-back s) [
      | inl h ↦ inl (up (ground (arith, parent-linked x)) h)
      | inr (h, q) ↦ inr (up (ground (arith, parent-linked x)) h, q)
    ]
  ]

-- What `unite p a b` gives: a forest of the same indices, in which the root of `b` has become the
-- root of `a`, and every other root is what it was.
pub record Unites (p : Parents) (a b : ℕ) (q : Parents) : Type 0 where
  pub forest : IsForest q
  pub size : length q ≡ length p
  pub ra : ℕ
  pub rb : ℕ
  pub root_a : Root p a ra
  pub root_b : Root p b rb
  pub forth : {x r : ℕ} → Root p x r → Root q x (if r == rb then ra else r)
  pub back : {x r : ℕ} → Root q x r → Root p x r ⊎ (Root p x rb × (r ≡ ra))

same-Unites :
    {p q : Parents} {a b ra rb : ℕ}
    → IsForest q
    → SameRoots p q
    → Root p a ra
    → Root p b rb
    → ra ≡ rb
    → Unites p a b q
same-Unites {p} {q} {a} {b} {ra} {rb} f s ha hb e = record {
  forest = f;
  size = s.size;
  ra = ra;
  rb = rb;
  root_a = ha;
  root_b = hb;
  forth = λ {x} {r} h. let k : (if r == rb then ra else r) ≡ r = ground arith in rw k (s.forth h);
  back = λ h. inl (s.back h);
}

linked-Unites :
    {p q : Parents} {a b ra rb : ℕ}
    → IsForest q
    → SameRoots p q
    → Root p a ra
    → Root p b rb
    → ra < length q
    → rb < length q
    → ra ≢ rb
    → Unites p a b (set q rb ra)
linked-Unites {p} {q} {a} {b} {ra} {rb} f s ha hb la lb e = record {
  forest = linked-IsForest q f ra rb lb la ia ib e;
  size = length-set q rb ra ∙ s.size;
  ra = ra;
  rb = rb;
  root_a = ha;
  root_b = hb;
  forth = λ h. linked-forth q f ra rb lb la ia ib e (s.forth h);
  back = λ h. elim (linked-back q f ra rb lb la ia ib e h) [
    | inl k ↦ inl (s.back k)
    | inr (k, w) ↦ inr (s.back k, w)
  ];
}
  where
    ia : parent q ra ≡ ra
    ia = Root-IsRoot (s.forth ha)

    ib : parent q rb ≡ rb
    ib = Root-IsRoot (s.forth hb)

-- `unite` of two indices in range keeps the forest, and changes exactly the root of `b`'s tree.
pub unite-Unites :
    (p : Parents) (a b : ℕ) → IsForest p → a < length p → b < length p → Unites p a b (unite p a b)
unfolding unite
unite-Unites p a b f la lb =
    let one = find-Finds p a f la in
    let two = find-Finds (find p a).0 b one.forest (rw one.same.size lb) in
    let same = SameRoots-trans one.same two.same in
    let ha = one.root in
    let hb = one.same.back two.root in
    let ra = (find p a).1 in
    let rb = (find (find p a).0 b).1 in
    elim (Bool-cases (ra == rb)) [
      | inl e ↦ rw e (same-Unites two.forest same ha hb (ground arith))
      | inr e ↦ rw e (
          linked-Unites two.forest same ha hb (omega (arith, one.in_range, same.size))
            (omega (arith, two.in_range, one.same.size, same.size)) (ground arith))
    ]
