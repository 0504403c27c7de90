-- ===== src/Combination/Sums.antt =====
-- What combine (FrameCore/Private/Combination.cpp) adds up.
use architect_simulator.Base.{
  ℕ, ◌≡◌, refl, ◌∙◌, false, List, [], ◌∷◌, length, length-replicate, get_elem?, get_or, All,
  All-map, Option, none, some,
}
use mathlib.Core.Option.{map as option_map, some-ne-none}
use architect_simulator.Base.Int.{pos}
use architect_simulator.Base.Real.{Real}
use architect_simulator.Frame.Model.{Corners}
use architect_simulator.Collapse.{MemberEndForces}
use architect_simulator.Combination.{
  add_scaled, MemberForcePair, ShellElementForces, CaseResult, no_end, no_shell,
}
use architect_simulator.Combination.Cases.{
  add_scaled_pair, add_scaled_shell, zeros_like, add_case, add_cases, first_mismatch,
  combine_checked, combine,
}
use architect_simulator.Combination.Bounds.{SameSizes, length-map, first_mismatch-none}
use architect_simulator.Combination.Totals.{
  total, any_singular, option_map_cong, get_elem?-map, get_elem?-replicate, zeros-total,
  add_cases-singular,
}

module _ {R : Real} where
  -- The pair and the facet that a sum starts with.
  abbrev pub zero_pair : MemberForcePair R → MemberForcePair R
  zero_pair p = record { member = p.member; end_i = no_end; end_j = no_end }

  abbrev pub zero_shell : ShellElementForces R → ShellElementForces R
  zero_shell s = no_shell s.shell

  abbrev pub no_pair : MemberForcePair R
  no_pair = record { member = pos 0; end_i = no_end; end_j = no_end }

  -- The sum, from x and in the cases' order, of factor times component over the cases that have a factor.
  abbrev pub weighted :
      (CaseResult R → R.carrier) → R.carrier → List (CaseResult R) → List R.carrier → R.carrier
  weighted component x [] fs = x
  weighted component x (c ∷ cs) [] = x
  weighted component x (c ∷ cs) (f ∷ fs) =
      weighted component (R.add x (R.mul f (component c))) cs fs

  -- The k-th member's forces and the k-th facet's of a case.
  abbrev pub pair_at : ℕ → CaseResult R → MemberForcePair R
  pair_at k c = get_or c.member_forces k no_pair

  abbrev pub facet_at : ℕ → CaseResult R → ShellElementForces R
  facet_at k c = get_or c.shell_forces k (no_shell (pos 0))

  module _ (cs : List (CaseResult R)) (fs : List R.carrier) where
    -- Each component is the sum of that component of the end that is picked.
    abbrev pub weighted_end :
        (CaseResult R → MemberEndForces R) → MemberEndForces R → MemberEndForces R
    weighted_end end x = record {
      axial = weighted (λ c. (end c).axial) x.axial cs fs;
      vy = weighted (λ c. (end c).vy) x.vy cs fs;
      vz = weighted (λ c. (end c).vz) x.vz cs fs;
      twist = weighted (λ c. (end c).twist) x.twist cs fs;
      my = weighted (λ c. (end c).my) x.my cs fs;
      mz = weighted (λ c. (end c).mz) x.mz cs fs;
    }

    abbrev pub weighted_pair : ℕ → MemberForcePair R → MemberForcePair R
    weighted_pair k x = record {
      member = x.member;
      end_i = weighted_end (λ c. (pair_at k c).end_i) x.end_i;
      end_j = weighted_end (λ c. (pair_at k c).end_j) x.end_j;
    }

    abbrev pub weighted_corners :
        (CaseResult R → Corners R.carrier) → Corners R.carrier → Corners R.carrier
    weighted_corners corners x = record {
      n0 = weighted (λ c. (corners c).n0) x.n0 cs fs;
      n1 = weighted (λ c. (corners c).n1) x.n1 cs fs;
      n2 = weighted (λ c. (corners c).n2) x.n2 cs fs;
      n3 = weighted (λ c. (corners c).n3) x.n3 cs fs;
    }

    abbrev pub weighted_shell : ℕ → ShellElementForces R → ShellElementForces R
    weighted_shell k x = record {
      shell = x.shell;
      mxx = weighted (λ c. (facet_at k c).mxx) x.mxx cs fs;
      myy = weighted (λ c. (facet_at k c).myy) x.myy cs fs;
      mxy = weighted (λ c. (facet_at k c).mxy) x.mxy cs fs;
      qx = weighted (λ c. (facet_at k c).qx) x.qx cs fs;
      qy = weighted (λ c. (facet_at k c).qy) x.qy cs fs;
      nxx = weighted (λ c. (facet_at k c).nxx) x.nxx cs fs;
      nyy = weighted (λ c. (facet_at k c).nyy) x.nyy cs fs;
      nxy = weighted (λ c. (facet_at k c).nxy) x.nxy cs fs;
      mxx_c = weighted_corners (λ c. (facet_at k c).mxx_c) x.mxx_c;
      myy_c = weighted_corners (λ c. (facet_at k c).myy_c) x.myy_c;
      mxy_c = weighted_corners (λ c. (facet_at k c).mxy_c) x.mxy_c;
    }

  total-weighted :
      (quantity : CaseResult R → List R.carrier) (k : ℕ) (x : R.carrier) (cs : List (CaseResult R))
      (fs : List R.carrier)
      → total (add_scaled R) quantity (R.lit 0 0) k x cs fs
        ≡ weighted (λ c. get_or (quantity c) k (R.lit 0 0)) x cs fs
  unfolding add_scaled
  total-weighted quantity k x [] fs = refl
  total-weighted quantity k x (c ∷ cs) [] = refl
  total-weighted quantity k x (c ∷ cs) (f ∷ fs) =
      total-weighted quantity k (add_scaled R f x (get_or (quantity c) k (R.lit 0 0))) cs fs

  total-weighted_pair :
      (k : ℕ) (x : MemberForcePair R) (cs : List (CaseResult R)) (fs : List R.carrier)
      → total add_scaled_pair (λ (c : CaseResult R). c.member_forces) no_pair k x cs fs
        ≡ weighted_pair cs fs k x
  unfolding add_scaled_pair add_scaled
  total-weighted_pair k x [] fs = refl
  total-weighted_pair k x (c ∷ cs) [] = refl
  total-weighted_pair k x (c ∷ cs) (f ∷ fs) =
      total-weighted_pair k (add_scaled_pair f x (pair_at k c)) cs fs

  total-weighted_shell :
      (k : ℕ) (x : ShellElementForces R) (cs : List (CaseResult R)) (fs : List R.carrier)
      → total add_scaled_shell (λ (c : CaseResult R). c.shell_forces) (no_shell (pos 0)) k x cs fs
        ≡ weighted_shell cs fs k x
  unfolding add_scaled_shell add_scaled
  total-weighted_shell k x [] fs = refl
  total-weighted_shell k x (c ∷ cs) [] = refl
  total-weighted_shell k x (c ∷ cs) (f ∷ fs) =
      total-weighted_shell k (add_scaled_shell f x (facet_at k c)) cs fs

  -- The result has, at place k of each list where the base has a value, the weighted sum of every component
  -- from zero, with the base's ids, and nothing beyond; it is singular where one of the cases with a factor is.
  abbrev pub Superposes :
      CaseResult R → List (CaseResult R) → List R.carrier → ℕ → CaseResult R → Type 0
  Superposes base cs fs k r =
      let zero_real = R.lit 0 0 in
      let cases = base ∷ cs in
      (r.singular ≡ any_singular false cases fs)
      × (get_elem? r.u k
          ≡ option_map (λ _. weighted (λ c. get_or c.u k zero_real) zero_real cases fs)
              (get_elem? base.u k))
      × (get_elem? r.reactions k
          ≡ option_map (λ _. weighted (λ c. get_or c.reactions k zero_real) zero_real cases fs)
              (get_elem? base.reactions k))
      × (get_elem? r.member_forces k
          ≡ option_map (λ p. weighted_pair cases fs k (zero_pair p))
              (get_elem? base.member_forces k))
      × (get_elem? r.shell_forces k
          ≡ option_map (λ s. weighted_shell cases fs k (zero_shell s))
              (get_elem? base.shell_forces k))

  zeros_Superposes :
      (base : CaseResult R) (cs : List (CaseResult R)) (fs : List R.carrier) (k : ℕ)
      → All (SameSizes base) cs
      → Superposes base cs fs k (add_cases (zeros_like base) (base ∷ cs) fs)
  unfolding zeros_like add_case
  zeros_Superposes base cs fs k sizes = (
    add_cases-singular (zeros_like base) (base ∷ cs) fs,
    zeros-total (add_scaled R) (λ c. c.u) (R.lit 0 0) (λ o c f. refl) base cs fs k (λ _. R.lit 0 0)
          (length-replicate (length base.u) (R.lit 0 0)) (get_elem?-replicate (R.lit 0 0) base.u k)
          (All-map cs (λ c s. s.0) sizes)
        ∙ option_map_cong (get_elem? base.u k)
            (λ _. total-weighted (λ c. c.u) k (R.lit 0 0) (base ∷ cs) fs),
    zeros-total (add_scaled R) (λ c. c.reactions) (R.lit 0 0) (λ o c f. refl) base cs fs k
          (λ _. R.lit 0 0) (length-replicate (length base.reactions) (R.lit 0 0))
          (get_elem?-replicate (R.lit 0 0) base.reactions k) (All-map cs (λ c s. s.1) sizes)
        ∙ option_map_cong (get_elem? base.reactions k)
            (λ _. total-weighted (λ c. c.reactions) k (R.lit 0 0) (base ∷ cs) fs),
    zeros-total add_scaled_pair (λ c. c.member_forces) no_pair (λ o c f. refl) base cs fs k
          zero_pair (length-map zero_pair base.member_forces)
          (get_elem?-map zero_pair base.member_forces k) (All-map cs (λ c s. s.2) sizes)
        ∙ option_map_cong (get_elem? base.member_forces k)
            (λ p. total-weighted_pair k (zero_pair p) (base ∷ cs) fs),
    zeros-total add_scaled_shell (λ c. c.shell_forces) (no_shell (pos 0)) (λ o c f. refl) base cs fs
          k zero_shell (length-map zero_shell base.shell_forces)
          (get_elem?-map zero_shell base.shell_forces k) (All-map cs (λ c s. s.3) sizes)
        ∙ option_map_cong (get_elem? base.shell_forces k)
            (λ s. total-weighted_shell k (zero_shell s) (base ∷ cs) fs),
  )

  checked_Superposes :
      (base : CaseResult R) (cs : List (CaseResult R)) (fs : List R.carrier) (k : ℕ) (o : Option ℕ)
      → first_mismatch base 1 cs ≡ o
      → o ≡ none
      → Superposes base cs fs k (combine_checked base cs fs o)
  unfolding combine_checked
  checked_Superposes base cs fs k (some i) q e = absurd (some-ne-none i e)
  checked_Superposes base cs fs k none q e =
      zeros_Superposes base cs fs k (first_mismatch-none base 1 cs q)

  -- Where no case has other sizes than the first, the result of combine has the first case's sizes and at
  -- each place of each quantity the sum, from zero and in the cases' order, of factor times value over the
  -- cases that have a factor; members and facets keep the first case's ids; the result is singular exactly
  -- where one of these cases is.
  pub combine-Superposes :
      (base : CaseResult R) (cs : List (CaseResult R)) (fs : List R.carrier) (k : ℕ)
      → first_mismatch base 1 cs ≡ none
      → Superposes base cs fs k (combine (base ∷ cs) fs)
  unfolding combine
  combine-Superposes base cs fs k e =
      checked_Superposes base cs fs k (first_mismatch base 1 cs) refl e
