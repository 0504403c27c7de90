-- ===== src/Collapse/Worst.antt =====
-- The event that the screen of runProgressiveCollapse (FrameCore/Private/Collapse.cpp) is left with.
use architect_simulator.Base.{
  ◌≡◌, refl, sym, ap, ◌∙◌, subst, Bool, true, false, not, List, [], ◌∷◌, ◌++◌, Option, none, some,
  In, if◌then◌else◌, ◌⊎◌,
}
use mathlib.Core.List.{foldl}
use architect_simulator.Base.Int.{ℤ, pos}
use architect_simulator.Base.Real.{Real}
use architect_simulator.Frame.Types.{zero_of}
use architect_simulator.Frame.Model.{Member, ShellQuad, Section, Material, FrameModel, element_at}
use architect_simulator.Collapse.{
  MemberForcePair, DemandResult, SolveResult, Engine, CollapseOptions,
}
use architect_simulator.Collapse.Screen.{
  Event, no_event, member_removal, consider, reduced_plastic_moment, Screen, removal,
  consider_hinge, brittle_remainder, consider_ductile, hinge_capable, screen_sized, screen_found,
  screen_member, screen_members, screen_facet, screen_shell, screen_shells, screen,
}
use architect_simulator.Collapse.Comparison.{IsOrdered}
use architect_simulator.Collapse.Order.{Beats, consider_all-Beats}
use architect_simulator.Collapse.Candidates.{
  hinge_candidates, ductile_candidates, sized_candidates, found_candidates, member_candidates,
  facet_candidates, shell_candidates, candidates,
}

foldl-append :
    {R : Real} (best : Event R) (xs ys : List (Event R))
    → foldl consider best (xs ++ ys) ≡ foldl consider (foldl consider best xs) ys
foldl-append best [] ys = refl
foldl-append best (x ∷ xs) ys = foldl-append (consider best x) xs ys

-- One list of candidates after another.
joined :
    {R : Real} (best x y : Event R) (xs ys : List (Event R))
    → x ≡ foldl consider best xs
    → y ≡ foldl consider x ys
    → y ≡ foldl consider best (xs ++ ys)
joined best x y xs ys p q = q ∙ ap (λ e. foldl consider e ys) p ∙ sym (foldl-append best xs ys)

module _ {R : Real} (engine : Engine R) (opts : CollapseOptions R) where
  consider_hinge-candidates :
      (mem : Member R) (ny : R.carrier) (best : Event R) (dof : ℤ) (moment mp0 n : R.carrier)
      → consider_hinge engine opts mem ny best dof moment mp0 n
        ≡ foldl consider best (hinge_candidates engine opts mem ny dof moment mp0 n)
  unfolding consider_hinge
  consider_hinge-candidates mem ny best dof moment mp0 n =
      go (R.lt (zero_of R) (reduced_plastic_moment R mp0 n ny)) _
    where
      go :
          (b : Bool) (e : Event R)
          → (if not b then best else consider best e)
            ≡ foldl consider best (if b then e ∷ [] else [])
      go true e = refl
      go false e = refl

  ductile-candidates :
      (mem : Member R) (sec : Section R) (mat : Material R) (mf : MemberForcePair R)
      (di dj : DemandResult R) (best : Event R)
      → consider_ductile engine opts mem sec mat mf di dj best
        ≡ foldl consider best (ductile_candidates engine opts mem sec mat mf di dj)
  unfolding consider_ductile
  ductile-candidates mem sec mat mf di dj best =
      let ny = R.mul mat.fy sec.area in
      let ni = if opts.nm_interaction then mf.end_i.axial else zero_of R in
      let nj = if opts.nm_interaction then mf.end_j.axial else zero_of R in
      let mpy = R.mul mat.fy sec.zy in
      let mpz = R.mul mat.fy sec.zz in
      let h1 = hinge_candidates engine opts mem ny (pos 4) mf.end_i.my mpy ni in
      let h2 = hinge_candidates engine opts mem ny (pos 5) mf.end_i.mz mpz ni in
      let h3 = hinge_candidates engine opts mem ny (pos 10) mf.end_j.my mpy nj in
      let h4 = hinge_candidates engine opts mem ny (pos 11) mf.end_j.mz mpz nj in
      let b1 = consider_hinge engine opts mem ny best (pos 4) mf.end_i.my mpy ni in
      let b2 = consider_hinge engine opts mem ny b1 (pos 5) mf.end_i.mz mpz ni in
      let b3 = consider_hinge engine opts mem ny b2 (pos 10) mf.end_j.my mpy nj in
      let b4 = consider_hinge engine opts mem ny b3 (pos 11) mf.end_j.mz mpz nj in
      let brittle = brittle_remainder engine opts sec mat mf di dj in
      let last = removal engine opts brittle.0 member_removal mem.id brittle.1 in
      let p1 = consider_hinge-candidates mem ny best (pos 4) mf.end_i.my mpy ni in
      let p2 = consider_hinge-candidates mem ny b1 (pos 5) mf.end_i.mz mpz ni in
      let p3 = consider_hinge-candidates mem ny b2 (pos 10) mf.end_j.my mpy nj in
      let p4 = consider_hinge-candidates mem ny b3 (pos 11) mf.end_j.mz mpz nj in
      joined best b4 (consider b4 last) (h1 ++ h2 ++ h3 ++ h4) (last ∷ [])
        (joined best b3 b4 (h1 ++ h2 ++ h3) h4
          (joined best b2 b3 (h1 ++ h2) h3 (joined best b1 b2 h1 h2 p1 p2) p3) p4)
        refl

  sized-candidates :
      (mem : Member R) (sec : Section R) (mat : Material R) (mf : MemberForcePair R) (s : Screen R)
      → (screen_sized engine opts mem sec mat mf s).best
        ≡ foldl consider s.best (sized_candidates engine opts mem sec mat mf)
  unfolding screen_sized
  sized-candidates mem sec mat mf s =
      let di = engine.check_section mf.end_i sec mat.cap in
      let dj = engine.check_section mf.end_j sec mat.cap in
      let d = if R.le dj.risk di.risk then di else dj in
      go (hinge_capable engine opts sec mat)
        (consider_ductile engine opts mem sec mat mf di dj s.best)
        (removal engine opts d.risk member_removal mem.id d.mode)
        (ductile_candidates engine opts mem sec mat mf di dj)
        (ductile-candidates mem sec mat mf di dj s.best)
    where
      go :
          (b : Bool) (x y : Event R) (xs : List (Event R))
          → x ≡ foldl consider s.best xs
          → (if b then x else consider s.best y) ≡ foldl consider s.best (if b then xs else y ∷ [])
      go true x y xs h = h
      go false x y xs h = refl

  found-candidates :
      (mem : Member R) (o : Option (Section R)) (p : Option (Material R)) (mf : MemberForcePair R)
      (s : Screen R)
      → (screen_found engine opts mem o p mf s).best
        ≡ foldl consider s.best (found_candidates engine opts mem o p mf)
  found-candidates mem (some sec) (some mat) mf s = sized-candidates mem sec mat mf s
  found-candidates mem none p mf s = refl
  found-candidates mem (some sec) none mf s = refl

  member-candidates :
      (work : FrameModel R) (ms : List (Member R)) (fs : List (MemberForcePair R)) (s : Screen R)
      → (screen_members engine opts work ms fs s).best
        ≡ foldl consider s.best (member_candidates engine opts work ms fs)
  unfolding screen_members screen_member
  member-candidates work [] fs s = refl
  member-candidates work (m ∷ ms) [] s = refl
  member-candidates work (m ∷ ms) (f ∷ fs) s =
      go m.active
        (screen_found engine opts m (element_at work.sections m.sec_idx)
          (element_at work.materials m.mat_idx) f s)
        (found_candidates engine opts m (element_at work.sections m.sec_idx)
          (element_at work.materials m.mat_idx) f)
        (found-candidates m (element_at work.sections m.sec_idx)
          (element_at work.materials m.mat_idx) f s)
        (member-candidates work ms fs)
    where
      go :
          (b : Bool) (t : Screen R) (xs : List (Event R))
          → t.best ≡ foldl consider s.best xs
          → ((u : Screen R)
              → (screen_members engine opts work ms fs u).best
                ≡ foldl consider u.best (member_candidates engine opts work ms fs))
          → (screen_members engine opts work ms fs (if not b then s else t)).best
            ≡ foldl consider s.best
                ((if b then xs else []) ++ member_candidates engine opts work ms fs)
      go true t xs h rec =
          joined s.best t.best _ xs (member_candidates engine opts work ms fs) h (rec t)
      go false t xs h rec = rec s

  facet-candidates :
      (sh : ShellQuad R) (o : Option (Material R)) (f : engine.ShellForces) (s : Screen R)
      → (screen_facet engine opts sh o f s).best
        ≡ foldl consider s.best (facet_candidates engine opts sh o f)
  facet-candidates sh none f s = refl
  facet-candidates sh (some mat) f s = refl

  shell-candidates :
      (work : FrameModel R) (hs : List (ShellQuad R)) (fs : List engine.ShellForces) (s : Screen R)
      → (screen_shells engine opts work hs fs s).best
        ≡ foldl consider s.best (shell_candidates engine opts work hs fs)
  unfolding screen_shells screen_shell
  shell-candidates work [] fs s = refl
  shell-candidates work (h ∷ hs) [] s = refl
  shell-candidates work (h ∷ hs) (f ∷ fs) s =
      go h.active (screen_facet engine opts h (element_at work.materials h.mat_idx) f s)
        (facet_candidates engine opts h (element_at work.materials h.mat_idx) f)
        (facet-candidates h (element_at work.materials h.mat_idx) f s) (shell-candidates work hs fs)
    where
      go :
          (b : Bool) (t : Screen R) (xs : List (Event R))
          → t.best ≡ foldl consider s.best xs
          → ((u : Screen R)
              → (screen_shells engine opts work hs fs u).best
                ≡ foldl consider u.best (shell_candidates engine opts work hs fs))
          → (screen_shells engine opts work hs fs (if not b then s else t)).best
            ≡ foldl consider s.best
                ((if b then xs else []) ++ shell_candidates engine opts work hs fs)
      go true t xs e rec =
          joined s.best t.best _ xs (shell_candidates engine opts work hs fs) e (rec t)
      go false t xs e rec = rec s

  screen-candidates :
      (work : FrameModel R) (r : SolveResult R engine.ShellForces)
      → (screen engine opts work r).best ≡ foldl consider no_event (candidates engine opts work r)
  unfolding screen
  screen-candidates work r =
      joined no_event _ _ (member_candidates engine opts work work.members r.member_forces)
        (shell_candidates engine opts work work.shells r.shell_forces)
        (member-candidates work work.members r.member_forces _)
        (shell-candidates work work.shells r.shell_forces _)

  -- The event that the screen of a step is left with is one of the candidates of the active elements or none,
  -- and no eligible candidate goes before it: none has a greater ratio, nor, at the same ratio, a kind that
  -- comes first (member, shell, hinge), nor then a smaller id, nor then a smaller degree of freedom; where <
  -- and == keep the laws of floating-point numbers.
  pub screen-Beats :
      (laws : IsOrdered R) (work : FrameModel R) (r : SolveResult R engine.ShellForces)
      (c : Event R)
      → In c (candidates engine opts work r)
      → (((screen engine opts work r).best ≡ no_event)
          ⊎ In (screen engine opts work r).best (candidates engine opts work r))
        × Beats (screen engine opts work r).best c
  screen-Beats laws work r c i =
      subst (λ e. ((e ≡ no_event) ⊎ In e (candidates engine opts work r)) × Beats e c)
        (sym (screen-candidates work r))
        (consider_all-Beats laws (candidates engine opts work r) c i)
