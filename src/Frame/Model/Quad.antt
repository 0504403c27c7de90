-- ===== src/Frame/Model/Quad.antt =====
-- The guards of FrameModel::validate on a shell facet: references, material, thickness, and the
-- shape of the quad (planar, convex, positive Jacobian at the four Gauss points).
use architect_simulator.Base.{ℕ, not, ◌||◌, List, [], ◌∷◌}
use mathlib.Core.List.{foldl}
use Prim.Native.String.{String}
use architect_simulator.Base.Int.{ℤ, eqb_ℤ}
use architect_simulator.Base.Real.{Real}
use architect_simulator.Frame.Types.{Vec3, vec_sub, vec_scale, dot, norm, cross, fmax, zero_of}
use architect_simulator.Frame.Model.Verdict.{Verdict, ◌>>◌, reject, need, each}
use architect_simulator.Frame.Model.Checks.{finite_material, non_positive, position_of}
use architect_simulator.Frame.Model.{Corners, ShellQuad, FrameModel, node_index, element_at}

-- The pairs (a, b) with a < b of four corners.
abbrev pub corner_pairs : {A : Type 0} → Corners A → List (A × A)
corner_pairs c =
    (c.n0, c.n1) ∷ (c.n0, c.n2) ∷ (c.n0, c.n3) ∷ (c.n1, c.n2) ∷ (c.n1, c.n3) ∷ (c.n2, c.n3) ∷ []

abbrev pub corner_list : {A : Type 0} → Corners A → List A
corner_list c = c.n0 ∷ c.n1 ∷ c.n2 ∷ c.n3 ∷ []

abbrev pub map_corners : {A B : Type 0} → (A → B) → Corners A → Corners B
map_corners f c = record { n0 = f c.n0; n1 = f c.n1; n2 = f c.n2; n3 = f c.n3 }

module _ (R : Real) where
  open R use {carrier, lit, add, sub, mul, div, neg, lt, le}

  -- The largest distance between two corners.
  max_edge : Corners (Vec3 R) → carrier
  max_edge c =
      foldl (λ (m : carrier) (ab : Vec3 R × Vec3 R). fmax R m (norm (vec_sub ab.1 ab.0)))
        (zero_of R) (corner_pairs c)

  -- The largest distance of a corner from the plane through the first with normal `nhat`.
  max_warp : Corners (Vec3 R) → Vec3 R → carrier
  max_warp c nhat =
      foldl (λ (m : carrier) (p : Vec3 R). fmax R m (R.abs (dot (vec_sub p c.n0) nhat))) (zero_of R)
        (corner_list c)

  -- The turn at corner b on the way from a over b to c, in the plane of the facet.
  turn : carrier × carrier → carrier × carrier → carrier × carrier → carrier
  turn a b c =
      let ex1 = sub b.0 a.0 in
      let ey1 = sub b.1 a.1 in
      let ex2 = sub c.0 b.0 in let ey2 = sub c.1 b.1 in sub (mul ex1 ey2) (mul ey1 ex2)

  check_turns : Corners (carrier × carrier) → carrier → Verdict
  check_turns c tol =
      each
        (λ (abc : (carrier × carrier) × (carrier × carrier) × (carrier × carrier)).
          reject (le (turn abc.0 abc.1 abc.2) tol)
            "invalid shell quad (concave, inverted, or inconsistent corner order)")
        ((c.n0, c.n1, c.n2) ∷ (c.n1, c.n2, c.n3) ∷ (c.n2, c.n3, c.n0) ∷ (c.n3, c.n0, c.n1) ∷ [])

  -- sum_k w[k] * v[k], from 0.
  weighted : Corners carrier → Corners carrier → carrier
  weighted w v =
      add (add (add (add (zero_of R) (mul w.n0 v.n0)) (mul w.n1 v.n1)) (mul w.n2 v.n2))
        (mul w.n3 v.n3)

  -- The derivatives of the bilinear shape functions, and the determinant that they give.
  det_j : Corners (carrier × carrier) → carrier × carrier → carrier
  det_j c (xi, eta) =
      let quarter = lit 25 2 in
      let one = lit 1 0 in
      let dn_xi : Corners carrier = record {
        n0 = mul (neg quarter) (sub one eta);
        n1 = mul quarter (sub one eta);
        n2 = mul quarter (add one eta);
        n3 = mul (neg quarter) (add one eta);
      } in
      let dn_eta : Corners carrier = record {
        n0 = mul (neg quarter) (sub one xi);
        n1 = mul (neg quarter) (add one xi);
        n2 = mul quarter (add one xi);
        n3 = mul quarter (sub one xi);
      } in
      let xs = map_corners (λ (p : carrier × carrier). p.0) c in
      let ys = map_corners (λ (p : carrier × carrier). p.1) c in
      sub (mul (weighted dn_xi xs) (weighted dn_eta ys))
        (mul (weighted dn_xi ys) (weighted dn_eta xs))

  -- The products of {-gp, gp} with itself.
  abbrev gauss_points : List (carrier × carrier)
  gauss_points =
      let gp = lit 5773502691896258 16 in
      (neg gp, neg gp) ∷ (neg gp, gp) ∷ (gp, neg gp) ∷ (gp, gp) ∷ []

  check_jacobian : Corners (carrier × carrier) → carrier → Verdict
  check_jacobian c tol =
      each
        (λ (g : carrier × carrier).
          reject (le (det_j c g) tol)
            "invalid shell quad (non-positive Jacobian / concave or inverted)")
        gauss_points

  -- The shape guards, from the four corner positions.
  check_shape : Corners (Vec3 R) → carrier → Verdict
  check_shape c warp_tol =
      let one = lit 1 0 in
      let nrm = cross (vec_sub c.n2 c.n0) (vec_sub c.n3 c.n1) in
      let area2 = norm nrm in
      let nhat = vec_scale nrm (div one area2) in
      let edge = max_edge c in
      let e1_raw = vec_sub c.n1 c.n0 in
      let e1_flat = vec_sub e1_raw (vec_scale nhat (dot e1_raw nhat)) in
      let e1_len = norm e1_flat in
      let e1 = vec_scale e1_flat (div one e1_len) in
      let e2 = cross nhat e1 in
      let plane = map_corners (λ (p : Vec3 R). let r = vec_sub p c.n0 in (dot r e1, dot r e2)) c in
      let shape_tol = mul (lit 1 12) (fmax R one (mul edge edge)) in
      do
        reject (non_positive R area2) "degenerate (zero-area / collinear) shell quad"
        reject (lt (mul warp_tol (fmax R one edge)) (max_warp c nhat))
            "non-coplanar shell quad (warp exceeds warpTolerance; raise SolveOptions::warpTolerance for warped meshes, ideally with useWarpingCorrection)"
        reject (non_positive R e1_len) "degenerate shell quad (edge parallel to normal)"
        check_turns plane shape_tol
        check_jacobian plane shape_tol

  -- The four corner lookups, in order.
  need_corners : FrameModel R → Corners ℤ → (Corners ℕ → Verdict) → Verdict
  need_corners model n k =
      let why : String = "shell references missing node" in
      need (node_index model n.n0) why λ a. need (node_index model n.n1) why λ b.
        need (node_index model n.n2) why
          λ c. need (node_index model n.n3) why λ d. k (record { n0 = a; n1 = b; n2 = c; n3 = d })

  unfoldable pub check_shell : FrameModel R → carrier → ShellQuad R → Verdict
  unfolding need_corners check_shape max_edge max_warp check_turns check_jacobian turn det_j
      weighted
  check_shell model warp_tol s = need_corners model s.n λ idx.
      each (λ (ab : ℤ × ℤ). reject (eqb_ℤ ab.0 ab.1) "shell has duplicate corner nodes")
        (corner_pairs s.n)
      >> need (element_at model.materials s.mat_idx) "shell material index out of range" λ mat. do
        reject (not (finite_material R mat)) "shell material has non-finite property"
        reject (non_positive R mat.young || non_positive R mat.shear_modulus)
            "shell non-positive E or G"
        reject (lt mat.rho (zero_of R)) "shell negative density"
        reject (lt mat.nu (zero_of R) || le (lit 5 1) mat.nu) "shell Poisson ratio out of [0,0.5)"
        reject (not (R.is_finite s.t)) "shell non-finite thickness"
        reject (non_positive R s.t) "shell non-positive thickness"
        check_shape (map_corners (position_of R model) idx) warp_tol
