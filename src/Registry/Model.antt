-- ===== src/Registry/Model.antt =====
-- The helpers of the registry on the model itself: EnsureDefaultLibraries, FindOrAddNode,
-- PickRefVecForAxis, and the writes of ApplyFixityAt and SetMemberFlags.
use architect_simulator.Base.{
  ℕ, zero, suc, Bool, true, false, List, [], ◌∷◌, ◌++◌, Option, none, some, if◌then◌else◌, length,
  replicate, ltb,
}
use architect_simulator.Base.Int.{ℤ, pos, negsuc}
use architect_simulator.Frame.Types.{Vec3}
use architect_simulator.Interactive.Host.{Platform, ModelDef, UeNode}

-- IsValidIndex, with the index where it holds.
abbrev pub valid_index : ℤ → ℕ → Option ℕ
valid_index (pos k) n = if ltb k n then some k else none
valid_index (negsuc k) n = none

-- The element at an index is changed in place.
unfoldable pub update : {A : Type 0} → List A → ℕ → (A → A) → List A
update [] i f = []
update (x ∷ xs) zero f = f x ∷ xs
update (x ∷ xs) (suc i) f = x ∷ update xs i f

abbrev pub is_empty : {A : Type 0} → List A → Bool
is_empty [] = true
is_empty (x ∷ xs) = false

-- Where a list is empty it gets its default.
abbrev pub or_default : {A : Type 0} → List A → A → List A
or_default [] a = a ∷ []
or_default (x ∷ xs) a = x ∷ xs

module _ (P : Platform) where
  abbrev pub tolerance : P.real.carrier
  tolerance = P.real.lit 1 0

  unfoldable pub ensure_default_libraries : ModelDef P.real → ModelDef P.real
  ensure_default_libraries m = record m {
    materials = or_default m.materials P.s275;
    sections = or_default m.sections P.rectangle_200;
  }

  -- The linear scan for a node within the tolerance.
  unfoldable pub find_node : List (UeNode P.real) → Vec3 P.real → Option ℕ
  find_node [] p = none
  find_node (n ∷ ns) p =
      let rest = find_node ns p in
      if P.real.lt (P.dist n.position p) tolerance
      then some 0
      else elim rest [ none ↦ none | some i ↦ some (suc i) ]

  abbrev pub free_node : ℕ → Vec3 P.real → UeNode P.real
  free_node id p = record {
    id = id;
    position = p;
    fixed = replicate 6 false;
    prescribed = replicate 6 (P.real.lit 0 0);
  }

  unfoldable pub find_or_add_node : ModelDef P.real → Vec3 P.real → ModelDef P.real × ℕ
  unfolding find_node
  find_or_add_node m p = elim (find_node m.nodes p) [
    | some i ↦ (m, i)
    | none ↦ (record m { nodes = m.nodes ++ free_node (length m.nodes) p ∷ [] }, length m.nodes)
  ]

  unfoldable pub pick_ref_vec_for_axis : Vec3 P.real → Vec3 P.real
  pick_ref_vec_for_axis v =
      let zero_ = P.real.lit 0 0 in
      let one = P.real.lit 1 0 in
      if P.real.lt (P.real.lit 999 3) (P.magnitude v.z)
      then record { x = one; y = zero_; z = zero_ }
      else record { x = zero_; y = zero_; z = one }

  -- Fixed.Init(true, 6) on one node.
  unfoldable pub fix_node : ModelDef P.real → ℕ → ModelDef P.real
  unfolding update
  fix_node m i = record m { nodes = update m.nodes i (λ n. record n { fixed = replicate 6 true }) }

  unfoldable pub write_fixity :
      ModelDef P.real → ℕ → List Bool → List P.real.carrier → ModelDef P.real
  unfolding update
  write_fixity m i fixed prescribed = record m {
    nodes = update m.nodes i (λ n. record n { fixed = fixed; prescribed = prescribed });
  }

  unfoldable pub write_flags : ModelDef P.real → ℕ → Bool → List Bool → ModelDef P.real
  unfolding update
  write_flags m i tension_only release = record m {
    members = update m.members i (λ x. record x {
      tension_only = tension_only;
      release = if is_empty release then x.release else release;
    });
  }

  unfoldable pub write_inactive : ModelDef P.real → ℕ → ModelDef P.real
  unfolding update
  write_inactive m i = record m { members = update m.members i (λ x. record x { active = false }) }
