-- ===== src/Frame/UnionFind/Halving.antt =====
-- Path halving, the loop of `find`: it ends at the root, and changes no root.
use architect_simulator.Base.{
  ℕ, zero, suc, ◌+◌, ◌≤◌, ◌<◌, ◌≡◌, ◌≢◌, refl, ap, ◌∙◌, length, set, ◌==◌, if◌then◌else◌, arith,
  Bool-cases, inl, inr, length-set,
}
use architect_simulator.Frame.UnionFind.{Parents, parent, find_loop, find}
use architect_simulator.Frame.UnionFind.Forest.{
  Root, here, up, get_or-set, roots_below-inner, IsForest,
}

-- The same indices, and the same root from every index.
pub record SameRoots (p q : Parents) : Type 0 where
  pub size : length q ≡ length p
  pub forth : {x r : ℕ} → Root p x r → Root q x r
  pub back : {x r : ℕ} → Root q x r → Root p x r

pub SameRoots-refl : (p : Parents) → SameRoots p p
SameRoots-refl p = record { size = refl; forth = λ h. h; back = λ h. h }

pub SameRoots-trans : {p q r : Parents} → SameRoots p q → SameRoots q r → SameRoots p r
SameRoots-trans s t = record {
  size = t.size ∙ s.size;
  forth = λ h. t.forth (s.forth h);
  back = λ h. s.back (t.back h);
}

module _ (p : Parents) (f : IsForest p) (a : ℕ) (lt : a < length p) (inner : parent p a ≢ a) where
  abbrev grand : ℕ
  grand = parent p (parent p a)

  abbrev halved : Parents
  halved = set p a grand

  parent-halved : (x : ℕ) → parent halved x ≡ (if a == x then grand else parent p x)
  parent-halved x = get_or-set p a grand x x lt

  grand_higher : (f.height a < f.height (parent p a)) × (f.height (parent p a) ≤ f.height grand)
  grand_higher = grind (arith, f.rises a, f.rises (parent p a))

  grand-ne : grand ≢ a
  grand-ne e = let h = ap f.height e in absurd (omega (arith, grand_higher))

  halved-IsForest : IsForest halved
  halved-IsForest = record {
    height = f.height;
    closed = λ x h. ground (
      arith,
      parent-halved x,
      length-set p a grand,
      f.closed x,
      f.closed a,
      f.closed (parent p a),
    );
    rises = λ x h. ground (arith, parent-halved x, grand_higher, f.rises x);
    low = λ x h. ground (
      arith,
      length-set p a grand,
      f.low x,
      roots_below-inner (length p) p a grand lt inner grand-ne,
    );
  }

  halved-forth : {x r : ℕ} → Root p x r → Root halved x r
  halved-forth {x} (here e q) = here (ground (arith, parent-halved x)) q
  halved-forth {x} {r} (up {y} e (here e' q)) =
      up {y = y} (ground (arith, parent-halved x)) (here (ground (arith, parent-halved y, inner)) q)
  halved-forth {x} {r} (up {y} e (up {y = z} e' s)) = elim (Bool-cases (a == x)) [
    | inl hit ↦ up {y = z} (ground (arith, parent-halved x)) (halved-forth s)
    | inr miss ↦ up (ground (arith, parent-halved x)) (halved-forth (up e' s))
  ]

  halved-back : {x r : ℕ} → Root halved x r → Root p x r
  halved-back {x} (here e q) = here (ground (arith, parent-halved x, grand-ne)) q
  halved-back {x} {r} (up {y} e s) = elim (Bool-cases (a == x)) [
    | inl hit ↦
        up {y = parent p a} (ground arith)
          (up {y = y} (ground (arith, parent-halved x)) (halved-back s))
    | inr miss ↦ up (ground (arith, parent-halved x)) (halved-back s)
  ]

  halved-SameRoots : SameRoots p halved
  halved-SameRoots = record {
    size = length-set p a grand;
    forth = halved-forth;
    back = halved-back;
  }

-- What a run of the loop from `a` gives: a forest with the same roots, and the root of `a`.
pub record Finds (p : Parents) (a : ℕ) (result : Parents × ℕ) : Type 0 where
  pub forest : IsForest result.0
  pub same : SameRoots p result.0
  pub root : Root p a result.1
  pub in_range : result.1 < length p

root_of_full :
    (p : Parents) (f : IsForest p) (a : ℕ) → a < length p → length p ≤ f.height a → parent p a ≡ a
root_of_full p f a lt m = grind (arith, f.rises a, f.low (parent p a) (f.closed a lt))

find_loop-Finds :
    (fuel : ℕ) (p : Parents) (f : IsForest p) (a : ℕ)
    → a < length p
    → length p ≤ fuel + f.height a
    → Finds p a (find_loop fuel p a)
unfolding find_loop halved-IsForest
find_loop-Finds zero p f a lt m = record {
  forest = f;
  same = SameRoots-refl p;
  root = here (root_of_full p f a lt (omega arith)) refl;
  in_range = lt;
}
find_loop-Finds (suc fuel) p f a lt m = elim (Bool-cases (parent p a == a)) [
  | inl stop ↦
      rw (stop, find_loop)
        (record {
          forest = f;
          same = SameRoots-refl p;
          root = here (ground arith) refl;
          in_range = lt;
        })
  | inr go ↦
      let inner : parent p a ≢ a = ground arith in
      let same = halved-SameRoots p f a lt inner in
      let next : parent (halved p f a lt inner) a ≡ grand p f a lt inner =
        ground (arith, parent-halved p f a lt inner a) in
      let found =
        find_loop-Finds fuel (halved p f a lt inner) (halved-IsForest p f a lt inner)
          (parent (halved p f a lt inner) a)
          (ground (arith, next, same.size, f.closed a lt, f.closed (parent p a)))
          (ground (arith, next, same.size, grand_higher p f a lt inner)) in
      rw (go, find_loop)
        (record {
          forest = found.forest;
          same = SameRoots-trans same found.same;
          root = same.back (up refl found.root);
          in_range = ground (arith, found.in_range, same.size);
        })
]

-- With one round for each index the loop of `find` ends at the root, whatever the forest, and the
-- shortened paths lead to the roots that they led to before.
pub find-Finds : (p : Parents) (a : ℕ) → IsForest p → a < length p → Finds p a (find p a)
unfolding find
find-Finds p a f lt = find_loop-Finds (length p) p f a lt (omega arith)
