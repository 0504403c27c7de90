-- ===== src/Collapse/Debris.antt =====
-- After the fragment cleanup of runProgressiveCollapse (FrameCore/Private/Collapse.cpp) no debris is active.
use architect_simulator.Base.{
  true_ne_false, ℕ, ◌≡◌, refl, sym, ap, ◌∙◌, subst, true, false, List, [], ◌∷◌, some, In, inl, inr,
  Option-cases,
}
use mathlib.Core.List.{foldl}
use architect_simulator.Base.Int.{ℤ}
use architect_simulator.Base.Real.{Real}
use architect_simulator.Frame.Model.{Member, ShellQuad, FrameModel, node_index}
use architect_simulator.Frame.Model.Verdict.{Verdict, ok, bad}
use architect_simulator.Frame.Model.Validate.{validate, validate-IsWellFormed}
use architect_simulator.Frame.Connectivity.Cluster.{
  FragmentCluster, ConnectivityResult, report, analyze_connectivity,
}
use architect_simulator.Frame.Connectivity.Detached.{Supported}
use architect_simulator.Frame.Connectivity.Fragments.{member_fragment, shell_fragment}
use architect_simulator.Collapse.Cleanup.{
  pin_node, deactivate_member_of, deactivate_shell_of, clear_fragment, clean_up,
}
use architect_simulator.Collapse.Survivors.{off, groups-In}

module _ {R : Real} where
  -- The elements of two models are the same.
  abbrev Elements : FrameModel R → List (Member R) → List (ShellQuad R) → Type 0
  Elements w ms ss = (w.members ≡ ms) × (w.shells ≡ ss)

  abbrev members_off : List (Member R) → ℤ → List (Member R)
  members_off =
      off (λ (m : Member R). m.id) (λ m. m.active) (λ m. record m { active = false }) (λ m. refl)
        (λ m. refl)

  abbrev shells_off : List (ShellQuad R) → ℤ → List (ShellQuad R)
  shells_off =
      off (λ (s : ShellQuad R). s.id) (λ s. s.active) (λ s. record s { active = false }) (λ s. refl)
        (λ s. refl)

  pin_node-Elements : (w : FrameModel R) (id : ℤ) → Elements (pin_node w id) w.members w.shells
  unfolding pin_node
  pin_node-Elements w id = elim (Option-cases (node_index w id)) [
    | inl e ↦ rw (e, pin_node) (refl, refl)
    | inr (k, e) ↦ rw (e, pin_node) (refl, refl)
  ]

  pins-Elements :
      (ids : List ℤ) (w : FrameModel R) → Elements (foldl pin_node w ids) w.members w.shells
  pins-Elements [] w = (refl, refl)
  pins-Elements (id ∷ ids) w =
      let rest = pins-Elements ids (pin_node w id) in
      let one = pin_node-Elements w id in (rest.0 ∙ one.0, rest.1 ∙ one.1)

  members-Elements :
      (ids : List ℤ) (w : FrameModel R)
      → Elements (foldl deactivate_member_of w ids) (foldl members_off w.members ids) w.shells
  unfolding deactivate_member_of
  members-Elements [] w = (refl, refl)
  members-Elements (id ∷ ids) w = members-Elements ids (deactivate_member_of w id)

  shells-Elements :
      (ids : List ℤ) (w : FrameModel R)
      → Elements (foldl deactivate_shell_of w ids) w.members (foldl shells_off w.shells ids)
  unfolding deactivate_shell_of
  shells-Elements [] w = (refl, refl)
  shells-Elements (id ∷ ids) w = shells-Elements ids (deactivate_shell_of w id)

  clear_fragment-Elements :
      (w : FrameModel R) (fc : FragmentCluster R)
      → Elements
          (clear_fragment w fc)
          (foldl members_off w.members fc.members)
          (foldl shells_off w.shells fc.shells)
  unfolding clear_fragment
  clear_fragment-Elements w fc =
      let w₁ = foldl deactivate_member_of w fc.members in
      let w₂ = foldl deactivate_shell_of w₁ fc.shells in
      let a = members-Elements fc.members w in
      let b = shells-Elements fc.shells w₁ in
      let c = pins-Elements fc.nodes w₂ in
      (c.0 ∙ b.0 ∙ a.0, c.1 ∙ b.1 ∙ ap (λ ss. foldl shells_off ss fc.shells) a.1)

  abbrev cleared_members : List (Member R) → List (FragmentCluster R) → List (Member R)
  cleared_members = foldl (λ ms (fc : FragmentCluster R). foldl members_off ms fc.members)

  abbrev cleared_shells : List (ShellQuad R) → List (FragmentCluster R) → List (ShellQuad R)
  cleared_shells = foldl (λ ss (fc : FragmentCluster R). foldl shells_off ss fc.shells)

  fragments-Elements :
      (fcs : List (FragmentCluster R)) (w : FrameModel R)
      → Elements
          (foldl clear_fragment w fcs)
          (cleared_members w.members fcs)
          (cleared_shells w.shells fcs)
  fragments-Elements [] w = (refl, refl)
  fragments-Elements (fc ∷ fcs) w =
      let rest = fragments-Elements fcs (clear_fragment w fc) in
      let one = clear_fragment-Elements w fc in
      (
        rest.0 ∙ ap (λ ms. cleared_members ms fcs) one.0,
        rest.1 ∙ ap (λ ss. cleared_shells ss fcs) one.1,
      )

  clean_up-Elements :
      (w : FrameModel R) (conn : ConnectivityResult R)
      → Elements
          (clean_up w conn)
          (cleared_members w.members conn.detached)
          (cleared_shells w.shells conn.detached)
  unfolding clean_up
  clean_up-Elements w conn =
      let a = fragments-Elements conn.detached w in
      let b = pins-Elements conn.loose_nodes (foldl clear_fragment w conn.detached) in
      (b.0 ∙ a.0, b.1 ∙ a.1)

  -- The node with the id is there, and active elements tie it to a node with a held degree of freedom.
  abbrev pub Anchored : FrameModel R → ℤ → Type 0
  Anchored w id = (k : ℕ) × (node_index w id ≡ some k) × Supported w k

  report-ok : (w : FrameModel R) (v : Verdict) → (report w v).valid ≡ true → v ≡ ok
  unfolding report
  report-ok w ok h = refl
  report-ok w (bad why) h = elim (true_ne_false (sym h)) [ ]

  analyze_ok :
      (w : FrameModel R) → (analyze_connectivity w).valid ≡ true → validate w (R.lit 1 6) ≡ ok
  unfolding analyze_connectivity
  analyze_ok w h = report-ok w (validate w (R.lit 1 6)) h

  -- Where the connectivity of the working model is valid, what is active after the fragment cleanup was
  -- active before it, and active elements of that model tie it to a support.
  pub clean_up-Anchored :
      (w : FrameModel R)
      → (analyze_connectivity w).valid ≡ true
      → ((m : Member R)
          → In m (clean_up w (analyze_connectivity w)).members
          → m.active ≡ true
          → In m w.members × Anchored w m.i)
        × ((s : ShellQuad R)
            → In s (clean_up w (analyze_connectivity w)).shells
            → s.active ≡ true
            → In s w.shells × Anchored w s.n.n0)
  clean_up-Anchored w found_valid = (members, shells)
    where
      valid : validate w (R.lit 1 6) ≡ ok
      valid = analyze_ok w found_valid

      conn : ConnectivityResult R
      conn = analyze_connectivity w

      members :
          (m : Member R)
          → In m (clean_up w (analyze_connectivity w)).members
          → m.active ≡ true
          → In m w.members × Anchored w m.i
      members m i a =
          let (j, n) =
            groups-In (λ (x : Member R). x.id) (λ x. x.active) (λ x. record x { active = false })
              (λ x. refl) (λ x. refl) (λ (fc : FragmentCluster R). fc.members) conn.detached
              w.members m (validate-IsWellFormed w (R.lit 1 6) valid).member_ids
              (subst (In m) (clean_up-Elements w conn).0 i) a in
          (
            j,
            elim (member_fragment w valid m j a) [
              | inl h ↦ h
              | inr (fc, found, h) ↦ elim (n fc found m.id h refl) [ ]
            ],
          )

      shells :
          (s : ShellQuad R)
          → In s (clean_up w (analyze_connectivity w)).shells
          → s.active ≡ true
          → In s w.shells × Anchored w s.n.n0
      shells s i a =
          let (j, n) =
            groups-In (λ (x : ShellQuad R). x.id) (λ x. x.active) (λ x. record x { active = false })
              (λ x. refl) (λ x. refl) (λ (fc : FragmentCluster R). fc.shells) conn.detached w.shells
              s (validate-IsWellFormed w (R.lit 1 6) valid).shell_ids
              (subst (In s) (clean_up-Elements w conn).1 i) a in
          (
            j,
            elim (shell_fragment w valid s j a) [
              | inl h ↦ h
              | inr (fc, found, h) ↦ elim (n fc found s.id h refl) [ ]
            ],
          )
