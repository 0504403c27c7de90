-- ===== src/Combination/Components.antt =====
-- The components of the results in Combination.cpp: std::max and std::min bound each of them.
use architect_simulator.Base.{
  ◌≡◌, refl, sym, ◌∙◌, Bool, true, false, inl, inr, Bool-cases, true_ne_false, if◌then◌else◌,
}
use architect_simulator.Base.Real.{Real}
use architect_simulator.Collapse.Comparison.{IsOrdered}
use architect_simulator.Frame.Model.{Corners}
use architect_simulator.Collapse.{MemberEndForces}
use architect_simulator.Combination.{
  max_of, min_of, ShellElementForces, zip_end, zip_corners, zip_shell,
}
use architect_simulator.Combination.Folds.{IsBounding}

-- A number that does not lie above, and one that does not lie below, the other.
abbrev pub NotAbove : (R : Real) → R.carrier → R.carrier → Type 0
NotAbove R v h = R.lt h v ≡ false

abbrev pub NotBelow : (R : Real) → R.carrier → R.carrier → Type 0
NotBelow R v h = R.lt v h ≡ false

module _ (R : Real) (Within : R.carrier → R.carrier → Type 0) where
  -- The relation of every component.
  abbrev pub EndWithin : MemberEndForces R → MemberEndForces R → Type 0
  EndWithin a b =
      Within a.axial b.axial
      × Within a.vy b.vy
      × Within a.vz b.vz
      × Within a.twist b.twist
      × Within a.my b.my
      × Within a.mz b.mz

  abbrev pub CornersWithin : Corners R.carrier → Corners R.carrier → Type 0
  CornersWithin a b = Within a.n0 b.n0 × Within a.n1 b.n1 × Within a.n2 b.n2 × Within a.n3 b.n3

  abbrev pub ShellWithin : ShellElementForces R → ShellElementForces R → Type 0
  ShellWithin a b =
      Within a.mxx b.mxx
      × Within a.myy b.myy
      × Within a.mxy b.mxy
      × Within a.qx b.qx
      × Within a.qy b.qy
      × Within a.nxx b.nxx
      × Within a.nyy b.nyy
      × Within a.nxy b.nxy
      × CornersWithin a.mxx_c b.mxx_c
      × CornersWithin a.myy_c b.myy_c
      × CornersWithin a.mxy_c b.mxy_c

module _ (R : Real) {op : R.carrier → R.carrier → R.carrier}
    {Within : R.carrier → R.carrier → Type 0} (laws : IsBounding op Within) where
  pub zip_end-IsBounding : IsBounding (zip_end R op) (EndWithin R Within)
  zip_end-IsBounding = record {
    itself = λ a. (
      laws.itself a.axial,
      laws.itself a.vy,
      laws.itself a.vz,
      laws.itself a.twist,
      laws.itself a.my,
      laws.itself a.mz,
    );
    kept = λ v a b h. (
      laws.kept v.axial a.axial b.axial h.0,
      laws.kept v.vy a.vy b.vy h.1,
      laws.kept v.vz a.vz b.vz h.2,
      laws.kept v.twist a.twist b.twist h.3,
      laws.kept v.my a.my b.my h.4,
      laws.kept v.mz a.mz b.mz h.5,
    );
    reached = λ a b. (
      laws.reached a.axial b.axial,
      laws.reached a.vy b.vy,
      laws.reached a.vz b.vz,
      laws.reached a.twist b.twist,
      laws.reached a.my b.my,
      laws.reached a.mz b.mz,
    );
  }

  zip_corners-IsBounding : IsBounding (zip_corners R op) (CornersWithin R Within)
  zip_corners-IsBounding = record {
    itself = λ a. (laws.itself a.n0, laws.itself a.n1, laws.itself a.n2, laws.itself a.n3);
    kept = λ v a b h. (
      laws.kept v.n0 a.n0 b.n0 h.0,
      laws.kept v.n1 a.n1 b.n1 h.1,
      laws.kept v.n2 a.n2 b.n2 h.2,
      laws.kept v.n3 a.n3 b.n3 h.3,
    );
    reached = λ a b. (
      laws.reached a.n0 b.n0,
      laws.reached a.n1 b.n1,
      laws.reached a.n2 b.n2,
      laws.reached a.n3 b.n3,
    );
  }

  pub zip_shell-IsBounding : IsBounding (zip_shell R op) (ShellWithin R Within)
  zip_shell-IsBounding =
      let corners = zip_corners-IsBounding in
      record {
        itself = λ a. (
          laws.itself a.mxx,
          laws.itself a.myy,
          laws.itself a.mxy,
          laws.itself a.qx,
          laws.itself a.qy,
          laws.itself a.nxx,
          laws.itself a.nyy,
          laws.itself a.nxy,
          corners.itself a.mxx_c,
          corners.itself a.myy_c,
          corners.itself a.mxy_c,
        );
        kept = λ v a b h. (
          laws.kept v.mxx a.mxx b.mxx h.0,
          laws.kept v.myy a.myy b.myy h.1,
          laws.kept v.mxy a.mxy b.mxy h.2,
          laws.kept v.qx a.qx b.qx h.3,
          laws.kept v.qy a.qy b.qy h.4,
          laws.kept v.nxx a.nxx b.nxx h.5,
          laws.kept v.nyy a.nyy b.nyy h.6,
          laws.kept v.nxy a.nxy b.nxy h.7,
          corners.kept v.mxx_c a.mxx_c b.mxx_c h.8,
          corners.kept v.myy_c a.myy_c b.myy_c h.9,
          corners.kept v.mxy_c a.mxy_c b.mxy_c h.10,
        );
        reached = λ a b. (
          laws.reached a.mxx b.mxx,
          laws.reached a.myy b.myy,
          laws.reached a.mxy b.mxy,
          laws.reached a.qx b.qx,
          laws.reached a.qy b.qy,
          laws.reached a.nxx b.nxx,
          laws.reached a.nyy b.nyy,
          laws.reached a.nxy b.nxy,
          corners.reached a.mxx_c b.mxx_c,
          corners.reached a.myy_c b.myy_c,
          corners.reached a.mxy_c b.mxy_c,
        );
      }

module _ {R : Real} (ordered : IsOrdered R) where
  pub max_of-IsBounding : IsBounding (max_of R) (NotAbove R)
  unfolding max_of
  max_of-IsBounding = record {
    itself = ordered.irreflexive;
    kept = λ v a b h. kept v a b h (R.lt a b) refl;
    reached = λ a b. reached a b (R.lt a b) refl;
  }
    where
      kept :
          (v a b : R.carrier)
          → R.lt a v ≡ false
          → (t : Bool) → R.lt a b ≡ t
          → R.lt (if t then b else a) v ≡ false
      kept v a b h false e = h
      kept v a b h true e = elim (Bool-cases (R.lt b v)) [
        | inr k ↦ k
        | inl k ↦ elim (true_ne_false (sym (ordered.lt_lt a b v e k) ∙ h)) [ ]
      ]

      reached : (a b : R.carrier) → (t : Bool) → R.lt a b ≡ t → R.lt (if t then b else a) b ≡ false
      reached a b false e = e
      reached a b true e = ordered.irreflexive b

  pub min_of-IsBounding : IsBounding (min_of R) (NotBelow R)
  unfolding min_of
  min_of-IsBounding = record {
    itself = ordered.irreflexive;
    kept = λ v a b h. kept v a b h (R.lt b a) refl;
    reached = λ a b. reached a b (R.lt b a) refl;
  }
    where
      kept :
          (v a b : R.carrier)
          → R.lt v a ≡ false
          → (t : Bool) → R.lt b a ≡ t
          → R.lt v (if t then b else a) ≡ false
      kept v a b h false e = h
      kept v a b h true e = elim (Bool-cases (R.lt v b)) [
        | inr k ↦ k
        | inl k ↦ elim (true_ne_false (sym (ordered.lt_lt v b a k e) ∙ h)) [ ]
      ]

      reached : (a b : R.carrier) → (t : Bool) → R.lt b a ≡ t → R.lt b (if t then b else a) ≡ false
      reached a b false e = e
      reached a b true e = ordered.irreflexive b
