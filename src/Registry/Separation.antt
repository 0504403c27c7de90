-- ===== src/Registry/Separation.antt =====
-- Nodes that the scan of FindOrAddNode keeps apart.
use architect_simulator.Base.{
  ◌≡◌, ℕ, zero, suc, false, List, [], ◌∷◌, ◌++◌, none, All, All-append, All-map, arith,
}
use architect_simulator.Frame.Types.{Vec3}
use architect_simulator.Interactive.Host.{Platform, UeNode}
use architect_simulator.Registry.Model.{update, find_node, tolerance}
use architect_simulator.Registry.Numbering.{All-update}

module _ (P : Platform) where
  -- The scan for the position of `m` passes `n`.
  abbrev pub Apart : UeNode P.real → UeNode P.real → Type 0
  Apart n m = P.real.lt (P.dist n.position m.position) (tolerance P) ≡ false

  -- Every node is apart from those before it.
  abbrev pub Spread : List (UeNode P.real) → Type 0
  Spread [] = Unit
  Spread (n ∷ ns) = All (Apart n) ns × Spread ns

  find_node-none :
      (n : UeNode P.real) (ns : List (UeNode P.real)) (p : Vec3 P.real)
      → find_node P (n ∷ ns) p ≡ none
      → (P.real.lt (P.dist n.position p) (tolerance P) ≡ false) × (find_node P ns p ≡ none)
  unfolding find_node
  find_node-none n ns p e = ground (arith, e)

  pub Spread-append :
      (ns : List (UeNode P.real)) (x : UeNode P.real)
      → find_node P ns x.position ≡ none
      → Spread ns
      → Spread (ns ++ x ∷ [])
  Spread-append [] x e h = (tt, tt)
  Spread-append (n ∷ ns) x e h =
      let far = find_node-none n ns x.position e in
      (All-append (Apart n) ns (x ∷ []) h.0 (far.0, tt), Spread-append ns x far.1 h.1)

  pub Spread-update :
      (g : UeNode P.real → UeNode P.real) (ns : List (UeNode P.real)) (i : ℕ)
      → ((n : UeNode P.real) → (g n).position ≡ n.position)
      → Spread ns
      → Spread (update ns i g)
  unfolding update
  Spread-update g [] i same h = tt
  Spread-update g (n ∷ ns) zero same h = (All-map ns (λ m a. rw (same n) a) h.0, h.1)
  Spread-update g (n ∷ ns) (suc i) same h =
      (All-update (Apart n) g ns i (λ m a. rw (same m) a) h.0, Spread-update g ns i same h.1)
