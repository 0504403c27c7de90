-- ===== src/Combination/Tests.antt =====
-- combine and envelope of Combination.cpp on two cases of one member and one facet.
use architect_simulator.Base.{ℕ, ◌≡◌, refl, Bool, true, false, List, [], ◌∷◌, inl, inr, arith, none}
use architect_simulator.Base.Int.{ℤ, pos}
use architect_simulator.Base.Real.{integers}
use architect_simulator.Collapse.Comparison.{IsOrdered}
use architect_simulator.Frame.Model.{Corners}
use architect_simulator.Collapse.{MemberEndForces}
use architect_simulator.Combination.{CaseResult}
use architect_simulator.Combination.Cases.{first_mismatch, combine, envelope}
use architect_simulator.Combination.Bounds.{Encloses, envelope-Encloses}
use architect_simulator.Combination.Sums.{Superposes, combine-Superposes}

abbrev ends : ℕ → ℕ → MemberEndForces integers
ends n my = record { axial = pos n; vy = pos 1; vz = pos 0; twist = pos 0; my = pos my; mz = pos 2 }

abbrev corners : ℕ → Corners ℤ
corners m = record { n0 = pos m; n1 = pos 0; n2 = pos 1; n3 = pos m }

abbrev load_case : ℕ → ℕ → CaseResult integers
load_case a b = record {
  singular = false;
  diagnostic = "";
  u = pos a ∷ pos b ∷ [];
  reactions = pos b ∷ pos a ∷ [];
  member_forces = record { member = pos 7; end_i = ends a b; end_j = ends b a } ∷ [];
  shell_forces =
      record {
        shell = pos 9;
        mxx = pos a;
        myy = pos b;
        mxy = pos 0;
        qx = pos 1;
        qy = pos a;
        nxx = pos b;
        nyy = pos 0;
        nxy = pos 3;
        mxx_c = corners a;
        myy_c = corners b;
        mxy_c = corners 1;
      }
      ∷ [];
  pivot_margin = pos 1;
}

abbrev dead : CaseResult integers
dead = load_case 5 1

abbrev live : CaseResult integers
live = load_case 2 8

combine_example : (combine (dead ∷ live ∷ []) (pos 2 ∷ pos 3 ∷ pos 4 ∷ [])).u ≡ pos 16 ∷ pos 26 ∷ []
unfolding combine architect_simulator.Base.Int.◌+ℤ◌ architect_simulator.Base.Int.◌*ℤ◌
combine_example = refl

envelope_max : (envelope (dead ∷ live ∷ [])).u_max ≡ pos 5 ∷ pos 8 ∷ []
unfolding envelope
envelope_max = refl

envelope_mismatch :
    (envelope (dead ∷ live ∷ record dead { u = [] } ∷ [])).diagnostic
    ≡ "envelope: result size mismatch at case 2 (cases from different models?)"
unfolding envelope
envelope_mismatch = refl

not_flagged : (envelope (dead ∷ live ∷ [])).singular ≡ false
unfolding envelope
not_flagged = refl

integers-IsOrdered : IsOrdered integers
integers-IsOrdered = record {
  irreflexive = λ a. ground arith;
  lt_lt = λ a b c p q. ground (arith, p, q);
  lt_same = λ a b c p q. ground (arith, p, q);
  same_lt = λ a b c p q. ground (arith, p, q);
  same_same = λ a b c p q. ground (arith, p, q);
  same_sym = λ a b p. ground (arith, p);
}

envelope-Encloses_example : Encloses (envelope (dead ∷ live ∷ [])) live
envelope-Encloses_example =
    envelope-Encloses integers-IsOrdered (dead ∷ live ∷ []) not_flagged live (inr (inl refl))

one_model : first_mismatch dead 1 (live ∷ []) ≡ none
unfolding first_mismatch
one_model = refl

combine-Superposes_example :
    Superposes dead
      (live ∷ [])
      (pos 2 ∷ pos 3 ∷ [])
      1
      (combine (dead ∷ live ∷ []) (pos 2 ∷ pos 3 ∷ []))
combine-Superposes_example = combine-Superposes dead (live ∷ []) (pos 2 ∷ pos 3 ∷ []) 1 one_model
