-- ===== src/Frame/Model/Validate.antt =====
-- FrameModel::validate of Plugins/FrameSolver/Source/FrameCore/Private/FrameModel.cpp: the loops of
-- guards in their order, and what a model is that passes them.
use Prim.Native.String.{String}
use architect_simulator.Base.{
  ℕ, ◌≡◌, ◌≢◌, sym, ap, Bool, true, false, not, ◌&&◌, List, [], ◌∷◌, some, any, All, All-map, arith,
}
use architect_simulator.Base.Int.{ℤ, eqb_ℤ, eqb_ℤ_iff}
use architect_simulator.Base.Real.{Real}
use architect_simulator.Frame.Model.Verdict.{
  Verdict, ok, ◌>>◌, reject, each, distinct, >>-ok, reject-ok, need-ok, each-ok, reject-eqb_ℤ,
  reject-not,
}
use architect_simulator.Frame.Model.Checks.{
  check_node, check_member, check_load, check_udl, check_pressure, check_hinge,
}
use architect_simulator.Frame.Model.Quad.{check_shell, corner_pairs}
use architect_simulator.Frame.Model.Indices.{Distinct, index_of-any}
use architect_simulator.Frame.Model.{
  Node, Material, Section, Member, ShellQuad, NodalLoad, MemberUdl, ShellPressure, PlasticHinge,
  FrameModel, node_index, member_index, shell_index, element_at,
}

abbrev is_empty : {A : Type 0} → List A → Bool
is_empty [] = true
is_empty (x ∷ xs) = false

unfoldable pub validate : {R : Real} → FrameModel R → R.carrier → Verdict
validate {R} model warp_tol = do
  reject (is_empty model.nodes) "no nodes"
  reject (is_empty model.members && is_empty model.shells) "no members or shells"
  each (check_node R) model.nodes
  distinct (λ (n : Node R). n.id) model.nodes [] "duplicate node id"
  distinct (λ (m : Member R). m.id) model.members [] "duplicate member id"
  distinct (λ (s : ShellQuad R). s.id) model.shells [] "duplicate shell id"
  each (check_member R model) model.members
  each (check_load R model) model.nodal_loads
  each (check_udl R model) model.member_udls
  each (check_shell R model warp_tol) model.shells
  each (check_pressure R model) model.shell_pressures
  each (check_hinge R model) model.hinges

NotSeen : ℤ → List ℤ → Type 0
NotSeen id seen = any (eqb_ℤ id) seen ≡ false

distinct-Distinct :
    {A : Type 0} (key : A → ℤ) (xs : List A) (seen : List ℤ) (why : String)
    → distinct key xs seen why ≡ ok
    → All (λ x. NotSeen (key x) seen) xs × Distinct key xs
unfolding distinct NotSeen
distinct-Distinct key [] seen why h = (tt, tt)
distinct-Distinct key (x ∷ xs) seen why h =
    let (new, later) = >>-ok (reject (any (eqb_ℤ (key x)) seen) why) _ h in
    let (fresh, rest) = distinct-Distinct key xs (key x ∷ seen) why later in
    (
      (reject-ok _ why new, All-map xs (λ y k. ground arith) fresh),
      (All-map xs (λ y k. λ e. cc ((eqb_ℤ_iff (key y) (key x)).1 (sym e), k)) fresh, rest),
    )

module _ {R : Real} (model : FrameModel R) where
  abbrev Resolves : ℤ → Type 0
  Resolves id = (k : ℕ) × (node_index model id ≡ some k)

  -- The ends are two nodes, and the material and the section are there.
  abbrev pub MemberRefers : Member R → Type 0
  MemberRefers m =
      Resolves m.i
      × Resolves m.j
      × (m.i ≢ m.j)
      × ((mat : Material R) × (element_at model.materials m.mat_idx ≡ some mat))
      × ((sec : Section R) × (element_at model.sections m.sec_idx ≡ some sec))

  -- The corners are four different nodes, and the material is there.
  abbrev pub ShellRefers : ShellQuad R → Type 0
  ShellRefers s =
      Resolves s.n.n0
      × Resolves s.n.n1
      × Resolves s.n.n2
      × Resolves s.n.n3
      × All (λ (ab : ℤ × ℤ). ab.0 ≢ ab.1) (corner_pairs s.n)
      × ((mat : Material R) × (element_at model.materials s.mat_idx ≡ some mat))

  -- Ids name one thing each, and every reference is to something that is there.
  pub record IsWellFormed : Type 0 where
    pub node_ids : Distinct (λ (n : Node R). n.id) model.nodes
    pub member_ids : Distinct (λ (m : Member R). m.id) model.members
    pub shell_ids : Distinct (λ (s : ShellQuad R). s.id) model.shells
    pub some_node : model.nodes ≢ []
    pub member_refs : All MemberRefers model.members
    pub shell_refs : All ShellRefers model.shells
    pub load_refs : All (λ (l : NodalLoad R). Resolves l.node) model.nodal_loads
    pub udl_refs :
        All
          (λ (u : MemberUdl R). (k : ℕ) × (member_index model u.member ≡ some k))
          model.member_udls
    pub pressure_refs :
        All
          (λ (p : ShellPressure R). (k : ℕ) × (shell_index model p.shell ≡ some k))
          model.shell_pressures
    pub hinge_refs :
        All (λ (h : PlasticHinge R). (k : ℕ) × (member_index model h.member ≡ some k)) model.hinges

  member-refers : (m : Member R) → check_member R model m ≡ ok → MemberRefers m
  unfolding check_member
  member-refers m h =
      let (i, ei, h₁) = need-ok (node_index model m.i) _ _ h in
      let (j, ej, h₂) = need-ok (node_index model m.j) _ _ h₁ in
      let (ne, h₃) = >>-ok (reject (eqb_ℤ m.i m.j) _) _ h₂ in
      let (mat, em, h₄) = need-ok (element_at model.materials m.mat_idx) _ _ h₃ in
      let (sec, es, h₅) = need-ok (element_at model.sections m.sec_idx) _ _ h₄ in
      ((i, ei), (j, ej), reject-eqb_ℤ m.i m.j _ ne, (mat, em), (sec, es))

  shell-refers :
      (tol : R.carrier) (s : ShellQuad R) → check_shell R model tol s ≡ ok → ShellRefers s
  unfolding check_shell
  shell-refers tol s h =
      let (a, ea, h₁) = need-ok (node_index model s.n.n0) _ _ h in
      let (b, eb, h₂) = need-ok (node_index model s.n.n1) _ _ h₁ in
      let (c, ec, h₃) = need-ok (node_index model s.n.n2) _ _ h₂ in
      let (d, ed, h₄) = need-ok (node_index model s.n.n3) _ _ h₃ in
      let (apart, h₅) = >>-ok (each _ (corner_pairs s.n)) _ h₄ in
      let (mat, em, _) = need-ok (element_at model.materials s.mat_idx) _ _ h₅ in
      (
        (a, ea),
        (b, eb),
        (c, ec),
        (d, ed),
        All-map
            {P = λ (ab : ℤ × ℤ). reject (eqb_ℤ ab.0 ab.1) "shell has duplicate corner nodes" ≡ ok}
            (corner_pairs s.n) (λ ab k. reject-eqb_ℤ ab.0 ab.1 _ k)
            (each-ok _ (corner_pairs s.n) apart),
        (mat, em),
      )

  load-refers : (l : NodalLoad R) → check_load R model l ≡ ok → Resolves l.node
  unfolding check_load
  load-refers l h = let (k, e, _) = need-ok (node_index model l.node) _ _ h in (k, e)

  udl-refers :
      (u : MemberUdl R)
      → check_udl R model u ≡ ok
      → (k : ℕ) × (member_index model u.member ≡ some k)
  unfolding check_udl
  udl-refers u h =
      let (found, _) =
        >>-ok (reject (not (any (λ (m : Member R). eqb_ℤ m.id u.member) model.members)) _) _ h in
      index_of-any _ model.members u.member (reject-not _ _ found)

  pressure-refers :
      (p : ShellPressure R)
      → check_pressure R model p ≡ ok
      → (k : ℕ) × (shell_index model p.shell ≡ some k)
  unfolding check_pressure
  pressure-refers p h =
      let (found, _) =
        >>-ok (reject (not (any (λ (s : ShellQuad R). eqb_ℤ s.id p.shell) model.shells)) _) _ h in
      index_of-any _ model.shells p.shell (reject-not _ _ found)

  hinge-refers :
      (g : PlasticHinge R)
      → check_hinge R model g ≡ ok
      → (k : ℕ) × (member_index model g.member ≡ some k)
  unfolding check_hinge
  hinge-refers g h =
      let (found, _) =
        >>-ok (reject (not (any (λ (m : Member R). eqb_ℤ m.id g.member) model.members)) _) _ h in
      index_of-any _ model.members g.member (reject-not _ _ found)

-- A model that `validate` passes is well formed.
pub validate-IsWellFormed :
    {R : Real} (model : FrameModel R) (warp_tol : R.carrier)
    → validate model warp_tol ≡ ok
    → IsWellFormed model
unfolding validate
validate-IsWellFormed {R} model tol h =
    let (nodes, h₁) = >>-ok (reject (is_empty model.nodes) _) _ h in
    let (_, h₂) = >>-ok (reject (is_empty model.members && is_empty model.shells) _) _ h₁ in
    let (_, h₃) = >>-ok (each (check_node R) model.nodes) _ h₂ in
    let (ns, h₄) = >>-ok (distinct (λ (n : Node R). n.id) model.nodes [] _) _ h₃ in
    let (ms, h₅) = >>-ok (distinct (λ (m : Member R). m.id) model.members [] _) _ h₄ in
    let (ss, h₆) = >>-ok (distinct (λ (s : ShellQuad R). s.id) model.shells [] _) _ h₅ in
    let (members, h₇) = >>-ok (each (check_member R model) model.members) _ h₆ in
    let (loads, h₈) = >>-ok (each (check_load R model) model.nodal_loads) _ h₇ in
    let (udls, h₉) = >>-ok (each (check_udl R model) model.member_udls) _ h₈ in
    let (shells, h₁₀) = >>-ok (each (check_shell R model tol) model.shells) _ h₉ in
    let (pressures, hinges) = >>-ok (each (check_pressure R model) model.shell_pressures) _ h₁₀ in
    record {
      node_ids = (distinct-Distinct _ model.nodes [] _ ns).1;
      member_ids = (distinct-Distinct _ model.members [] _ ms).1;
      shell_ids = (distinct-Distinct _ model.shells [] _ ss).1;
      some_node = λ e. cc (reject-ok _ _ nodes, ap is_empty e);
      member_refs = All-map model.members (member-refers model) (each-ok _ model.members members);
      shell_refs = All-map model.shells (shell-refers model tol) (each-ok _ model.shells shells);
      load_refs = All-map model.nodal_loads (load-refers model) (each-ok _ model.nodal_loads loads);
      udl_refs = All-map model.member_udls (udl-refers model) (each-ok _ model.member_udls udls);
      pressure_refs =
          All-map model.shell_pressures (pressure-refers model)
            (each-ok _ model.shell_pressures pressures);
      hinge_refs = All-map model.hinges (hinge-refers model) (each-ok _ model.hinges hinges);
    }
