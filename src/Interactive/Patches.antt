-- ===== src/Interactive/Patches.antt =====
-- What a patch does: to the loads of one node, to the engine session, and to the subsystem.
use architect_simulator.Base.{
  ◌≡◌, ◌≢◌, refl, List, [], ◌∷◌, ◌++◌, Option, none, some, if◌then◌else◌, arith, Bool-cases, inl,
  inr,
}
use architect_simulator.Base.Int.{ℤ, eqb_ℤ, eqb_ℤ_iff}
use architect_simulator.Base.Real.{Real}
use architect_simulator.Frame.Types.{Dof6}
use architect_simulator.Frame.Model.{NodalLoad}
use architect_simulator.Interactive.Host.{UeLoad}
use architect_simulator.Interactive.Loads.{
  erase_node, set_load, accumulate, add_load, to_dof6, plus,
}

module _ {R : Real} where
  -- The first load at the node, which `accumulate` adds to.
  unfoldable pub load_at : ℤ → List (NodalLoad R) → Option (Dof6 R.carrier)
  load_at n [] = none
  load_at n (l ∷ ls) = if eqb_ℤ l.node n then some l.comp else load_at n ls

  load_at-erase_self : (n : ℤ) (ls : List (NodalLoad R)) → load_at n (erase_node n ls) ≡ none
  unfolding load_at erase_node
  load_at-erase_self n [] = refl
  load_at-erase_self n (l ∷ ls) = ground (arith, load_at-erase_self n ls)

  load_at-erase_ne :
      (n k : ℤ) (ls : List (NodalLoad R)) → n ≢ k → load_at k (erase_node n ls) ≡ load_at k ls
  unfolding load_at erase_node
  load_at-erase_ne n k [] ne = refl
  load_at-erase_ne n k (l ∷ ls) ne =
      ground (arith, eqb_ℤ_iff l.node n, eqb_ℤ_iff l.node k, load_at-erase_ne n k ls ne)

  load_at-append :
      (k : ℤ) (ls ms : List (NodalLoad R))
      → load_at k (ls ++ ms) ≡ elim (load_at k ls) [ none ↦ load_at k ms | some c ↦ some c ]
  unfolding load_at
  load_at-append k [] ms = refl
  load_at-append k (l ∷ ls) ms = ground (arith, load_at-append k ls ms)

  load_at-accumulate :
      (n k : ℤ) (c : Dof6 R.carrier) (ls : List (NodalLoad R))
      → load_at k (accumulate n c ls) ≡ (
          if eqb_ℤ n k
          then some (elim (load_at k ls) [ none ↦ c | some d ↦ plus R d c ])
          else load_at k ls)
  unfolding load_at accumulate
  load_at-accumulate n k c [] = ground arith
  load_at-accumulate n k c (l ∷ ls) =
      ground
        (arith, eqb_ℤ_iff l.node n, eqb_ℤ_iff n k, eqb_ℤ_iff l.node k, load_at-accumulate n k c ls)

  load_at-set :
      (n k : ℤ) (c : Dof6 R.carrier) (ls : List (NodalLoad R))
      → load_at k (erase_node n ls ++ record { node = n; comp = c } ∷ [])
        ≡ (if eqb_ℤ n k then some c else load_at k ls)
  unfolding load_at
  load_at-set n k c ls = elim (Bool-cases (eqb_ℤ n k)) [
    | inl e ↦
        let same : n ≡ k = (eqb_ℤ_iff n k).0 e in
        rw (← same) (
          ground (
            arith,
            load_at-append n (erase_node n ls) (record { node = n; comp = c } ∷ []),
            load_at-erase_self n ls,
            eqb_ℤ_iff n n,
          ))
    | inr e ↦
        let apart : n ≢ k = λ q. cc ((eqb_ℤ_iff n k).1 q, e) in
        ground (
          arith,
          load_at-append k (erase_node n ls) (record { node = n; comp = c } ∷ []),
          load_at-erase_ne n k ls apart,
        )
  ]

  -- A load of six components, set at a node, replaces what the node carries; added, it is summed
  -- onto the load there, or becomes it. Other nodes keep their loads.
  pub set_load-add_load :
      (l : UeLoad R) (c : Dof6 R.carrier) (k : ℤ) (ls : List (NodalLoad R))
      → to_dof6 l.comp ≡ some c
      → (load_at k (set_load l ls) ≡ (if eqb_ℤ l.node k then some c else load_at k ls))
        × (load_at k (add_load l ls) ≡ (
            if eqb_ℤ l.node k
            then some (elim (load_at k ls) [ none ↦ c | some d ↦ plus R d c ])
            else load_at k ls))
  unfolding set_load add_load
  set_load-add_load l c k ls e = (
    rw (e, set_load) (load_at-set l.node k c ls),
    rw (e, add_load) (load_at-accumulate l.node k c ls),
  )
