-- ===== src/Combination/Cases.antt =====
-- combine and envelope of FrameCore/Private/Combination.cpp.
use Prim.Native.String.{String, ◌++◌}
use architect_simulator.Base.{
  ℕ, suc, Bool, true, false, ◌&&◌, ◌||◌, List, [], ◌∷◌, Option, none, some, map, length, replicate,
  ◌==◌, if◌then◌else◌,
}
use mathlib.Core.List.{foldl}
use architect_simulator.Base.Real.{Real}
use architect_simulator.Collapse.{MemberEndForces}
use architect_simulator.Combination.{
  to_string, zip_into, MemberForcePair, ShellElementForces, CaseResult, ResultEnvelope, add_scaled,
  max_of, min_of, zip_end, zip_shell, no_end, no_shell, no_result,
}

module _ {R : Real} where
  unfoldable pub add_scaled_end :
      R.carrier → MemberEndForces R → MemberEndForces R → MemberEndForces R
  unfolding add_scaled
  add_scaled_end f = zip_end R (add_scaled R f)

  unfoldable pub add_scaled_pair :
      R.carrier → MemberForcePair R → MemberForcePair R → MemberForcePair R
  unfolding add_scaled_end
  add_scaled_pair f a b = record {
    member = a.member;
    end_i = add_scaled_end f a.end_i b.end_i;
    end_j = add_scaled_end f a.end_j b.end_j;
  }

  unfoldable pub add_scaled_shell :
      R.carrier → ShellElementForces R → ShellElementForces R → ShellElementForces R
  unfolding add_scaled
  add_scaled_shell f = zip_shell R (add_scaled R f)

  unfoldable pub same_sizes : CaseResult R → CaseResult R → Bool
  same_sizes base c =
      (length c.u == length base.u)
      && (length c.reactions == length base.reactions)
      && (length c.member_forces == length base.member_forces)
      && (length c.shell_forces == length base.shell_forces)

  -- The first case, from number i on, of other sizes than the base.
  unfoldable pub first_mismatch : CaseResult R → ℕ → List (CaseResult R) → Option ℕ
  unfolding same_sizes
  first_mismatch base i [] = none
  first_mismatch base i (c ∷ cs) =
      let rest = first_mismatch base (suc i) cs in if same_sizes base c then rest else some i

  -- Zeros of the base's sizes, with its members and shells.
  unfoldable pub zeros_like : CaseResult R → CaseResult R
  zeros_like base = record no_result {
    u = replicate (length base.u) (R.lit 0 0);
    reactions = replicate (length base.reactions) (R.lit 0 0);
    member_forces =
        map
          (λ (p : MemberForcePair R). record { member = p.member; end_i = no_end; end_j = no_end })
          base.member_forces;
    shell_forces = map (λ (s : ShellElementForces R). no_shell s.shell) base.shell_forces;
  }

  -- One case into the sum.
  unfoldable pub add_case : CaseResult R → CaseResult R → R.carrier → CaseResult R
  unfolding zip_into add_scaled add_scaled_pair add_scaled_shell
  add_case out c f = record out {
    singular = out.singular || c.singular;
    u = zip_into (add_scaled R f) out.u c.u;
    reactions = zip_into (add_scaled R f) out.reactions c.reactions;
    member_forces = zip_into (add_scaled_pair f) out.member_forces c.member_forces;
    shell_forces = zip_into (add_scaled_shell f) out.shell_forces c.shell_forces;
  }

  unfoldable pub add_cases : CaseResult R → List (CaseResult R) → List R.carrier → CaseResult R
  unfolding add_case
  add_cases out [] fs = out
  add_cases out (c ∷ cs) [] = out
  add_cases out (c ∷ cs) (f ∷ fs) = add_cases (add_case out c f) cs fs

  unfoldable pub combine_checked :
      CaseResult R → List (CaseResult R) → List R.carrier → Option ℕ → CaseResult R
  unfolding zeros_like add_cases to_string
  combine_checked base cs fs (some c) = record no_result {
    singular = true;
    diagnostic =
        "combine: result size mismatch at case "
        ++ to_string c
        ++ " (cases from different models?)";
  }
  combine_checked base cs fs none = add_cases (zeros_like base) (base ∷ cs) fs

  unfoldable pub combine : List (CaseResult R) → List R.carrier → CaseResult R
  unfolding first_mismatch combine_checked
  combine [] fs = no_result
  combine (base ∷ cs) fs = combine_checked base cs fs (first_mismatch base 1 cs)

  -- The ends i and the ends j of a case's members.
  abbrev pub ends_i : CaseResult R → List (MemberEndForces R)
  ends_i c = map (λ (p : MemberForcePair R). p.end_i) c.member_forces

  abbrev pub ends_j : CaseResult R → List (MemberEndForces R)
  ends_j c = map (λ (p : MemberForcePair R). p.end_j) c.member_forces

  -- The base case as its own envelope.
  unfoldable pub envelope_of : CaseResult R → ResultEnvelope R
  envelope_of b = record {
    u_max = b.u;
    u_min = b.u;
    react_max = b.reactions;
    react_min = b.reactions;
    end_i_max = ends_i b;
    end_i_min = ends_i b;
    end_j_max = ends_j b;
    end_j_min = ends_j b;
    shell_max = b.shell_forces;
    shell_min = b.shell_forces;
    singular = false;
    diagnostic = "";
  }

  -- envEnd and envShell are zip_end and zip_shell with max_of for hi and with min_of for lo.
  unfoldable pub widen : ResultEnvelope R → CaseResult R → ResultEnvelope R
  unfolding zip_into max_of min_of
  widen e c = record e {
    u_max = zip_into (max_of R) e.u_max c.u;
    u_min = zip_into (min_of R) e.u_min c.u;
    react_max = zip_into (max_of R) e.react_max c.reactions;
    react_min = zip_into (min_of R) e.react_min c.reactions;
    end_i_max = zip_into (zip_end R (max_of R)) e.end_i_max (ends_i c);
    end_i_min = zip_into (zip_end R (min_of R)) e.end_i_min (ends_i c);
    end_j_max = zip_into (zip_end R (max_of R)) e.end_j_max (ends_j c);
    end_j_min = zip_into (zip_end R (min_of R)) e.end_j_min (ends_j c);
    shell_max = zip_into (zip_shell R (max_of R)) e.shell_max c.shell_forces;
    shell_min = zip_into (zip_shell R (min_of R)) e.shell_min c.shell_forces;
  }

  abbrev pub no_envelope : Bool → String → ResultEnvelope R
  no_envelope singular diagnostic = record {
    u_max = [];
    u_min = [];
    react_max = [];
    react_min = [];
    end_i_max = [];
    end_i_min = [];
    end_j_max = [];
    end_j_min = [];
    shell_max = [];
    shell_min = [];
    singular = singular;
    diagnostic = diagnostic;
  }

  unfoldable pub envelope_checked : CaseResult R → List (CaseResult R) → Option ℕ → ResultEnvelope R
  unfolding envelope_of widen to_string
  envelope_checked base cs (some c) = no_envelope true (
      "envelope: result size mismatch at case " ++ to_string c ++ " (cases from different models?)")
  envelope_checked base cs none = foldl widen (envelope_of base) cs

  unfoldable pub envelope : List (CaseResult R) → ResultEnvelope R
  unfolding first_mismatch envelope_checked
  envelope [] = no_envelope false ""
  envelope (base ∷ cs) = envelope_checked base cs (first_mismatch base 1 cs)
