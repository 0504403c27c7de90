-- ===== src/Frame/Types.antt =====
-- Vec3 and its arithmetic, of Plugins/FrameSolver/Source/FrameCore/Public/FrameCore/FrameTypes.h,
-- over the numbers `R` that stand for `real`.
use architect_simulator.Base.{if◌then◌else◌}
use architect_simulator.Base.Real.{Real}

pub record Vec3 (R : Real) : Type 0 where
  pub x : R.carrier
  pub y : R.carrier
  pub z : R.carrier

-- std::array<A, 6>, a value for each degree of freedom of a node.
pub record Dof6 (A : Type 0) : Type 0 where
  pub ux : A
  pub uy : A
  pub uz : A
  pub rx : A
  pub ry : A
  pub rz : A

abbrev pub dof6 : {A : Type 0} → A → Dof6 A
dof6 a = record { ux = a; uy = a; uz = a; rx = a; ry = a; rz = a }

module _ {R : Real} where
  unfoldable pub vec_sub : Vec3 R → Vec3 R → Vec3 R
  vec_sub a b = record { x = R.sub a.x b.x; y = R.sub a.y b.y; z = R.sub a.z b.z }

  unfoldable pub vec_add : Vec3 R → Vec3 R → Vec3 R
  vec_add a b = record { x = R.add a.x b.x; y = R.add a.y b.y; z = R.add a.z b.z }

  unfoldable pub vec_scale : Vec3 R → R.carrier → Vec3 R
  vec_scale a s = record { x = R.mul a.x s; y = R.mul a.y s; z = R.mul a.z s }

  unfoldable pub dot : Vec3 R → Vec3 R → R.carrier
  dot a b = R.add (R.add (R.mul a.x b.x) (R.mul a.y b.y)) (R.mul a.z b.z)

  unfoldable pub norm : Vec3 R → R.carrier
  unfolding dot
  norm a = R.sqrt (dot a a)

  unfoldable pub cross : Vec3 R → Vec3 R → Vec3 R
  cross a b = record {
    x = R.sub (R.mul a.y b.z) (R.mul a.z b.y);
    y = R.sub (R.mul a.z b.x) (R.mul a.x b.z);
    z = R.sub (R.mul a.x b.y) (R.mul a.y b.x);
  }

-- std::max: the first argument unless it is less than the second.
abbrev pub fmax : (R : Real) → R.carrier → R.carrier → R.carrier
fmax R a b = if R.lt a b then b else a

abbrev pub zero_of : (R : Real) → R.carrier
zero_of R = R.lit 0 0
