-- ===== src/Frame/Connectivity/Mass.antt =====
-- Sym3, MassAgg and triangleArea of Plugins/FrameSolver/Source/FrameCore/Private/Connectivity.cpp:
-- the running mass, first and second moment of a cluster.
use architect_simulator.Base.{if◌then◌else◌}
use architect_simulator.Base.Real.{Real}
use architect_simulator.Frame.Types.{Vec3, vec_sub, vec_add, vec_scale, norm, cross, zero_of}

pub record Sym3 (R : Real) : Type 0 where
  pub xx : R.carrier
  pub yy : R.carrier
  pub zz : R.carrier
  pub xy : R.carrier
  pub xz : R.carrier
  pub yz : R.carrier

pub record MassAgg (R : Real) : Type 0 where
  pub mass : R.carrier
  pub first : Vec3 R
  pub second : Sym3 R

module _ {R : Real} where
  open R use {carrier, lit, add, sub, mul, div, lt, le}

  -- S += w * v v^T
  unfoldable pub add_scaled_outer : Sym3 R → Vec3 R → carrier → Sym3 R
  add_scaled_outer s v w = record {
    xx = add s.xx (mul (mul w v.x) v.x);
    yy = add s.yy (mul (mul w v.y) v.y);
    zz = add s.zz (mul (mul w v.z) v.z);
    xy = add s.xy (mul (mul w v.x) v.y);
    xz = add s.xz (mul (mul w v.x) v.z);
    yz = add s.yz (mul (mul w v.y) v.z);
  }

  -- A uniform slender rod of mass m.
  unfoldable pub add_rod : MassAgg R → Vec3 R → Vec3 R → carrier → MassAgg R
  add_rod agg a b m =
      if le m (zero_of R)
      then agg
      else (let d = vec_sub b a in
          let len = norm d in
          let c = vec_scale (vec_add a b) (lit 5 1) in
          let along : Vec3 R = record { x = div d.x len; y = div d.y len; z = div d.z len } in
          let turned =
            if lt (zero_of R) len
            then add_scaled_outer agg.second along (div (mul (mul m len) len) (lit 12 0))
            else agg.second in
          record {
            mass = add agg.mass m;
            first = vec_add agg.first (vec_scale c m);
            second = add_scaled_outer turned c m;
          })

  -- A uniform thin triangle of mass m.
  unfoldable pub add_triangle : MassAgg R → Vec3 R → Vec3 R → Vec3 R → carrier → MassAgg R
  add_triangle agg p1 p2 p3 m =
      if le m (zero_of R)
      then agg
      else (let third = lit 3 0 in
          let twelve = lit 12 0 in
          let c : Vec3 R = record {
            x = div (add (add p1.x p2.x) p3.x) third;
            y = div (add (add p1.y p2.y) p3.y) third;
            z = div (add (add p1.z p2.z) p3.z) third;
          } in
          let s₁ = add_scaled_outer agg.second p1 (div m twelve) in
          let s₂ = add_scaled_outer s₁ p2 (div m twelve) in
          let s₃ = add_scaled_outer s₂ p3 (div m twelve) in
          record {
            mass = add agg.mass m;
            first = vec_add agg.first (vec_scale c m);
            second = add_scaled_outer s₃ c (div (mul (lit 9 0) m) twelve);
          })

  unfoldable pub triangle_area : Vec3 R → Vec3 R → Vec3 R → carrier
  triangle_area a b c = mul (lit 5 1) (norm (cross (vec_sub b a) (vec_sub c a)))

unfoldable pub empty_mass : (R : Real) → MassAgg R
empty_mass R =
    let o = zero_of R in
    record {
      mass = o;
      first = record { x = o; y = o; z = o };
      second = record { xx = o; yy = o; zz = o; xy = o; xz = o; yz = o };
    }
