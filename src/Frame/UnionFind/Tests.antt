-- ===== src/Frame/UnionFind/Tests.antt =====
-- Runs of the union-find, and its theorems at concrete inputs.
use architect_simulator.Base.{◌≡◌, ◌↔◌, refl, [], ◌∷◌, arith}
use architect_simulator.Frame.UnionFind.{find, find_loop, unite, unite_all, singletons}
use architect_simulator.Frame.UnionFind.Components.{
  Edges, Linked, find-unite_all_iff, singletons-Represents,
}
use architect_simulator.Frame.UnionFind.Halving.{Finds, find-Finds}
use architect_simulator.Frame.UnionFind.Linking.{Unites, unite-Unites}

abbrev three_pairs : Edges
three_pairs = (0, 1) ∷ (2, 3) ∷ (1, 3) ∷ []

-- `find` leaves 3 at its root 0.
united : unite_all (singletons 5) three_pairs ≡ 0 ∷ 0 ∷ 0 ∷ 2 ∷ 4 ∷ []
unfolding unite_all unite find find_loop singletons
united = refl

halves : find (0 ∷ 0 ∷ 1 ∷ 2 ∷ []) 3 ≡ (0 ∷ 0 ∷ 1 ∷ 1 ∷ [], 0)
unfolding find find_loop
halves = refl

find-unite_all_iff_example :
    ((find (unite_all (singletons 5) three_pairs) 0).1
      ≡ (find (unite_all (singletons 5) three_pairs) 3).1)
    ↔ Linked three_pairs 0 3
find-unite_all_iff_example =
    find-unite_all_iff 5 three_pairs 0 3 (omega arith) (omega arith) (omega arith)

find-Finds_example : Finds (singletons 5) 3 (find (singletons 5) 3)
unfolding singletons
find-Finds_example = find-Finds (singletons 5) 3 (singletons-Represents 5).forest (omega arith)

unite-Unites_example : Unites (singletons 5) 3 4 (unite (singletons 5) 3 4)
unfolding singletons
unite-Unites_example =
    unite-Unites (singletons 5) 3 4 (singletons-Represents 5).forest (omega arith) (omega arith)
