-- ===== src/Combination.antt =====
-- Superposition and envelope of load cases: combine and envelope of FrameCore/Private/Combination.cpp, with
-- the results they read and write (Combination.h and SolveResult.h), under Plugins/FrameSolver/Source.
pub mod Folds
pub mod Components
pub mod Bounds
pub mod Totals
pub mod Sums
pub mod Tests
pub mod Cases
use Prim.Native.String.{String, ◌++◌}
use architect_simulator.Base.{
  ℕ, zero, suc, ◌/◌, ◌%◌, Bool, false, List, [], ◌∷◌, get_or, ltb, if◌then◌else◌,
}
use architect_simulator.Base.Int.{ℤ}
use architect_simulator.Base.Real.{Real}
use architect_simulator.Frame.Model.{Corners}
use architect_simulator.Collapse.{MemberEndForces}

-- std::to_string of a number; k digits at most.
unfoldable pub decimal : ℕ → ℕ → String
decimal zero n = ""
decimal (suc k) n =
    let digits = "0" ∷ "1" ∷ "2" ∷ "3" ∷ "4" ∷ "5" ∷ "6" ∷ "7" ∷ "8" ∷ "9" ∷ [] in
    let rest = decimal k (n / 10) in
    let last = get_or digits (n % 10) "" in if ltb n 10 then last else rest ++ last

unfoldable pub to_string : ℕ → String
unfolding decimal
to_string n = decimal (suc n) n

-- out[k] op= v[k] for every k below both sizes.
unfoldable pub zip_into : {A B : Type 0} → (A → B → A) → List A → List B → List A
zip_into op [] vs = []
zip_into op (x ∷ xs) [] = x ∷ xs
zip_into op (x ∷ xs) (v ∷ vs) = op x v ∷ zip_into op xs vs

module _ (R : Real) where
  pub record MemberForcePair : Type 0 where
    pub member : ℤ
    pub end_i : MemberEndForces R
    pub end_j : MemberEndForces R

  pub record ShellElementForces : Type 0 where
    pub shell : ℤ
    pub mxx : R.carrier
    pub myy : R.carrier
    pub mxy : R.carrier
    pub qx : R.carrier
    pub qy : R.carrier
    pub nxx : R.carrier
    pub nyy : R.carrier
    pub nxy : R.carrier
    pub mxx_c : Corners R.carrier
    pub myy_c : Corners R.carrier
    pub mxy_c : Corners R.carrier

  pub record CaseResult : Type 0 where
    pub singular : Bool
    pub diagnostic : String
    pub u : List R.carrier
    pub reactions : List R.carrier
    pub member_forces : List MemberForcePair
    pub shell_forces : List ShellElementForces
    pub pivot_margin : R.carrier

  pub record ResultEnvelope : Type 0 where
    pub u_max : List R.carrier
    pub u_min : List R.carrier
    pub react_max : List R.carrier
    pub react_min : List R.carrier
    pub end_i_max : List (MemberEndForces R)
    pub end_i_min : List (MemberEndForces R)
    pub end_j_max : List (MemberEndForces R)
    pub end_j_min : List (MemberEndForces R)
    pub shell_max : List ShellElementForces
    pub shell_min : List ShellElementForces
    pub singular : Bool
    pub diagnostic : String

module _ (R : Real) where
  -- a += f * b.
  unfoldable pub add_scaled : R.carrier → R.carrier → R.carrier → R.carrier
  add_scaled f a b = R.add a (R.mul f b)

  -- std::max and std::min.
  unfoldable pub max_of : R.carrier → R.carrier → R.carrier
  max_of a b = if R.lt a b then b else a

  unfoldable pub min_of : R.carrier → R.carrier → R.carrier
  min_of a b = if R.lt b a then b else a

  -- One operation on every component.
  abbrev pub zip_end :
      (R.carrier → R.carrier → R.carrier)
      → MemberEndForces R
      → MemberEndForces R
      → MemberEndForces R
  zip_end op a b = record {
    axial = op a.axial b.axial;
    vy = op a.vy b.vy;
    vz = op a.vz b.vz;
    twist = op a.twist b.twist;
    my = op a.my b.my;
    mz = op a.mz b.mz;
  }

  abbrev pub zip_corners :
      (R.carrier → R.carrier → R.carrier)
      → Corners R.carrier
      → Corners R.carrier
      → Corners R.carrier
  zip_corners op a b = record {
    n0 = op a.n0 b.n0;
    n1 = op a.n1 b.n1;
    n2 = op a.n2 b.n2;
    n3 = op a.n3 b.n3;
  }

  abbrev pub zip_shell :
      (R.carrier → R.carrier → R.carrier)
      → ShellElementForces R
      → ShellElementForces R
      → ShellElementForces R
  zip_shell op a b = record {
    shell = a.shell;
    mxx = op a.mxx b.mxx;
    myy = op a.myy b.myy;
    mxy = op a.mxy b.mxy;
    qx = op a.qx b.qx;
    qy = op a.qy b.qy;
    nxx = op a.nxx b.nxx;
    nyy = op a.nyy b.nyy;
    nxy = op a.nxy b.nxy;
    mxx_c = zip_corners op a.mxx_c b.mxx_c;
    myy_c = zip_corners op a.myy_c b.myy_c;
    mxy_c = zip_corners op a.mxy_c b.mxy_c;
  }

abbrev no_corners : (R : Real) → Corners R.carrier
no_corners R = record { n0 = R.lit 0 0; n1 = R.lit 0 0; n2 = R.lit 0 0; n3 = R.lit 0 0 }

module _ {R : Real} where
  abbrev pub no_end : MemberEndForces R
  no_end = record {
    axial = R.lit 0 0;
    vy = R.lit 0 0;
    vz = R.lit 0 0;
    twist = R.lit 0 0;
    my = R.lit 0 0;
    mz = R.lit 0 0;
  }

  abbrev pub no_shell : ℤ → ShellElementForces R
  no_shell shell = record {
    shell = shell;
    mxx = R.lit 0 0;
    myy = R.lit 0 0;
    mxy = R.lit 0 0;
    qx = R.lit 0 0;
    qy = R.lit 0 0;
    nxx = R.lit 0 0;
    nyy = R.lit 0 0;
    nxy = R.lit 0 0;
    mxx_c = no_corners R;
    myy_c = no_corners R;
    mxy_c = no_corners R;
  }

  abbrev pub no_result : CaseResult R
  no_result = record {
    singular = false;
    diagnostic = "";
    u = [];
    reactions = [];
    member_forces = [];
    shell_forces = [];
    pivot_margin = R.lit 0 0;
  }
