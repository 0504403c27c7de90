-- ===== src/Frame/Model/Samples.antt =====
-- Frames over the integers for tests.
use architect_simulator.Base.{ℕ, Bool, true, false, [], ◌∷◌}
use architect_simulator.Base.Int.{pos}
use architect_simulator.Base.Real.{integers}
use architect_simulator.Frame.Types.{Vec3, dof6}
use architect_simulator.Frame.Model.{Node, Member, Material, Section, FrameModel}

abbrev pub point : ℕ → ℕ → ℕ → Vec3 integers
point x y z = record { x = pos x; y = pos y; z = pos z }

abbrev pub node : ℕ → Vec3 integers → Bool → Node integers
node id p held = record { id = pos id; position = p; fixed = dof6 held; prescribed = dof6 (pos 0) }

abbrev pub member : ℕ → ℕ → ℕ → Member integers
member id i j = record {
  id = pos id;
  i = pos i;
  j = pos j;
  mat_idx = pos 0;
  sec_idx = pos 0;
  ref_vec = point 0 0 1;
  release = (dof6 false, dof6 false);
  active = true;
  tension_only = false;
}

abbrev pub steel : Material integers
steel = record {
  young = pos 2;
  shear_modulus = pos 1;
  nu = pos 0;
  rho = pos 1;
  fy = pos 1;
  cap = record {
    comp = pos 1;
    tens = pos 1;
    shear = pos 1;
    bend = pos 1;
    tors = pos 1;
    vm = pos 1;
  };
}

abbrev pub square : Section integers
square = record {
  area = pos 1;
  iy = pos 1;
  iz = pos 1;
  torsion = pos 1;
  cy = pos 1;
  cz = pos 1;
  asy = pos 0;
  asz = pos 0;
  zy = pos 1;
  zz = pos 1;
}

-- Member 1 holds node 11 to the support 10; member 2 floats between 12 and 13; node 14 is bare.
abbrev pub two_pieces : FrameModel integers
two_pieces = record {
  nodes =
      node 10 (point 0 0 0) true
      ∷ node 11 (point 3 0 0) false
      ∷ node 12 (point 0 5 0) false
      ∷ node 13 (point 4 5 0) false
      ∷ node 14 (point 9 9 9) false
      ∷ [];
  members = member 1 10 11 ∷ member 2 13 12 ∷ [];
  shells = [];
  materials = steel ∷ [];
  sections = square ∷ [];
  nodal_loads = [];
  member_udls = [];
  shell_pressures = [];
  hinges = [];
}
