-- ===== src/Frame/UnionFind/Forest.antt =====
-- What the parents of a union-find are: a forest, in which every index has one root.
use architect_simulator.Base.{
  ℕ, zero, suc, ◌+◌, ◌≤◌, ◌<◌, ◌≡◌, ◌≢◌, refl, [], ◌∷◌, length, get_or, set, ◌==◌, if◌then◌else◌,
  arith,
}
use architect_simulator.Frame.UnionFind.{Parents, parent}

-- `r` is the root that the parents lead to from `x`.
pub data Root (p : Parents) : ℕ → ℕ → Type 0 where
  here : {x r : ℕ} → parent p x ≡ x → x ≡ r → Root p x r
  up : {x y r : ℕ} → parent p x ≡ y → Root p y r → Root p x r

pub Root-of_Root : {p : Parents} {x r : ℕ} → Root p x r → parent p x ≡ x → x ≡ r
Root-of_Root (here e q) h = q
Root-of_Root (up e s) h = cc (Root-of_Root s (cc))

pub Root-IsRoot : {p : Parents} {x r : ℕ} → Root p x r → parent p r ≡ r
Root-IsRoot {p} (here e q) = cc
Root-IsRoot (up e s) = Root-IsRoot s

-- The root is unique.
pub Root-unique : {p : Parents} {x r s : ℕ} → Root p x r → Root p x s → r ≡ s
Root-unique (here e q) t = cc (Root-of_Root t e)
Root-unique (up e s) (here e' q) = cc (Root-of_Root s (cc))
Root-unique {p} {r} {s = z} (up {x} {y} e s) (up {y = y'} e' t) = Root-unique s (step (cc) t)
  where
    step : {a b : ℕ} → a ≡ b → Root p a z → Root p b z
    step h u = rw (← h) u

pub get_or-set :
    (p : Parents) (a v x d : ℕ)
    → a < length p
    → get_or (set p a v) x d ≡ (if a == x then v else get_or p x d)
get_or-set [] a v x d h = elim h [ ]
get_or-set (y ∷ p) zero v zero d h = ground arith
get_or-set (y ∷ p) zero v (suc x) d h = ground arith
get_or-set (y ∷ p) (suc a) v zero d h = ground arith
get_or-set (y ∷ p) (suc a) v (suc x) d h = ground (arith, get_or-set p a v x d)

-- Of the indices below `k`, how many are roots.
pub roots_below : ℕ → Parents → ℕ
roots_below zero p = 0
roots_below (suc k) p = (if parent p k == k then 1 else 0) + roots_below k p

-- An inner index that gets another parent, but not itself, leaves the number of roots.
pub roots_below-inner :
    (k : ℕ) (p : Parents) (a v : ℕ)
    → a < length p
    → parent p a ≢ a
    → v ≢ a
    → roots_below k (set p a v) ≡ roots_below k p
unfolding roots_below
roots_below-inner zero p a v h i n = refl
roots_below-inner (suc k) p a v h i n =
    ground (arith, get_or-set p a v k k, roots_below-inner k p a v h i n)

roots_below-above :
    (k : ℕ) (p : Parents) (a v : ℕ)
    → a < length p
    → k ≤ a
    → roots_below k (set p a v) ≡ roots_below k p
unfolding roots_below
roots_below-above zero p a v h i = refl
roots_below-above (suc k) p a v h i =
    ground (arith, get_or-set p a v k k, roots_below-above k p a v h (omega arith))

-- A root that gets another parent is one root fewer.
pub roots_below-root :
    (k : ℕ) (p : Parents) (a v : ℕ)
    → a < length p
    → a < k
    → parent p a ≡ a
    → v ≢ a
    → roots_below k p ≡ suc (roots_below k (set p a v))
unfolding roots_below
roots_below-root zero p a v h i e n = elim i [ ]
roots_below-root (suc k) p a v h i e n =
    ground (arith, get_or-set p a v k k, roots_below-root k p a v h, roots_below-above k p a v h)

pub roots_below-le : (k : ℕ) (p : Parents) → roots_below k p ≤ k
unfolding roots_below
roots_below-le zero p = omega arith
roots_below-le (suc k) p = ground (arith, roots_below-le k p)

-- The forest invariant: heights rise towards the root, and are bounded by the number of merges.
pub record IsForest (p : Parents) : Type 0 where
  pub height : ℕ → ℕ
  pub closed : (x : ℕ) → x < length p → parent p x < length p
  pub rises : (x : ℕ) → parent p x ≢ x → height x < height (parent p x)
  pub low : (x : ℕ) → x < length p → height x + roots_below (length p) p ≤ length p
