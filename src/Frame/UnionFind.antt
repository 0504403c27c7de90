-- ===== src/Frame/UnionFind.antt =====
-- The union-find of Plugins/FrameSolver/Source/FrameCore/Private/Connectivity.cpp: one parent for
-- each node index. The `while` of `find` has the number of nodes for fuel.
pub mod Forest
pub mod Halving
pub mod Linking
pub mod Components
pub mod Tests
use architect_simulator.Base.{
  ℕ, zero, suc, ◌+◌, ◌≡◌, Bool, true, false, List, [], ◌∷◌, length, get_or, set, ◌==◌,
  if◌then◌else◌,
}

-- `p` of the struct.
abbrev pub Parents : Type 0
Parents = List ℕ

-- A read out of bounds, which the program does not make, gives the index itself.
abbrev pub parent : Parents → ℕ → ℕ
parent p a = get_or p a a

indices_from : ℕ → ℕ → Parents
indices_from i zero = []
indices_from i (suc n) = i ∷ indices_from (suc i) n

-- UnionFind(n): every index is its own parent.
unfoldable pub singletons : ℕ → Parents
unfolding indices_from
singletons n = indices_from 0 n

-- while (p[a] != a) { p[a] = p[p[a]]; a = p[a]; } return a;
pub find_loop : ℕ → Parents → ℕ → Parents × ℕ
find_loop zero p a = (p, a)
find_loop (suc fuel) p a = elim (parent p a == a) [
  | true ↦ (p, a)
  | false ↦
      let grand = parent p (parent p a) in let q = set p a grand in find_loop fuel q (parent q a)
]

unfoldable pub find : Parents → ℕ → Parents × ℕ
unfolding find_loop
find p a = find_loop (length p) p a

-- The root of `a` becomes the parent of the root of `b`.
unfoldable pub unite : Parents → ℕ → ℕ → Parents
unite p a b =
    let (p₁, ra) = find p a in let (p₂, rb) = find p₁ b in if ra == rb then p₂ else set p₂ rb ra

-- The calls of `unite` in order.
unfoldable pub unite_all : Parents → List (ℕ × ℕ) → Parents
unite_all p [] = p
unite_all p ((a, b) ∷ es) = unite_all (unite p a b) es
