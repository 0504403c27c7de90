-- ===== src/Interactive/Loads.antt =====
-- The nodal-load patch of UFrameInteractiveSubsystem::ApplyPatchAndResolve
-- (Plugins/FrameSolver/Source/FrameCoreUE/Private/FrameInteractiveSubsystem.cpp): set, then add.
use architect_simulator.Base.{List, [], ◌∷◌, ◌++◌, Option, none, some, if◌then◌else◌}
use architect_simulator.Base.Int.{ℤ, eqb_ℤ}
use architect_simulator.Base.Real.{Real}
use architect_simulator.Frame.Types.{Dof6}
use architect_simulator.Frame.Model.{NodalLoad}
use architect_simulator.Interactive.Host.{UeLoad}

-- The six components, where there are six.
abbrev pub to_dof6 : {A : Type 0} → List A → Option (Dof6 A)
to_dof6 (a ∷ b ∷ c ∷ d ∷ e ∷ f ∷ []) =
    some (record { ux = a; uy = b; uz = c; rx = d; ry = e; rz = f })
to_dof6 _ = none

abbrev pub plus : (R : Real) → Dof6 R.carrier → Dof6 R.carrier → Dof6 R.carrier
plus R a b = record {
  ux = R.add a.ux b.ux;
  uy = R.add a.uy b.uy;
  uz = R.add a.uz b.uz;
  rx = R.add a.rx b.rx;
  ry = R.add a.ry b.ry;
  rz = R.add a.rz b.rz;
}

module _ {R : Real} where
  -- The entries at the node are erased.
  unfoldable pub erase_node : ℤ → List (NodalLoad R) → List (NodalLoad R)
  erase_node n [] = []
  erase_node n (l ∷ ls) = let rest = erase_node n ls in if eqb_ℤ l.node n then rest else l ∷ rest

  -- Replace what the node carries; a load with other than six components is skipped.
  unfoldable pub set_load : UeLoad R → List (NodalLoad R) → List (NodalLoad R)
  unfolding erase_node
  set_load l ls = elim (to_dof6 l.comp) [
    | none ↦ ls
    | some c ↦ erase_node l.node ls ++ record { node = l.node; comp = c } ∷ []
  ]

  -- Accumulate into the first entry at the node, or append one.
  unfoldable pub accumulate : ℤ → Dof6 R.carrier → List (NodalLoad R) → List (NodalLoad R)
  accumulate n c [] = record { node = n; comp = c } ∷ []
  accumulate n c (l ∷ ls) =
      let rest = accumulate n c ls in
      if eqb_ℤ l.node n then record l { comp = plus R l.comp c } ∷ ls else l ∷ rest

  unfoldable pub add_load : UeLoad R → List (NodalLoad R) → List (NodalLoad R)
  unfolding accumulate
  add_load l ls = elim (to_dof6 l.comp) [ none ↦ ls | some c ↦ accumulate l.node c ls ]

  unfoldable pub set_loads : List (UeLoad R) → List (NodalLoad R) → List (NodalLoad R)
  unfolding set_load
  set_loads [] ls = ls
  set_loads (x ∷ xs) ls = set_loads xs (set_load x ls)

  unfoldable pub add_loads : List (UeLoad R) → List (NodalLoad R) → List (NodalLoad R)
  unfolding add_load
  add_loads [] ls = ls
  add_loads (x ∷ xs) ls = add_loads xs (add_load x ls)
