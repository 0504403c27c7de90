-- ===== src/Interactive/Samples.antt =====
-- A small engine for tests: its session is the list of the toggles made, newest first, and its
-- solve is singular after three toggles.
use architect_simulator.Base.{Bool, true, false, List, [], ◌∷◌, ltb, length}
use architect_simulator.Base.Int.{ℤ, pos}
use architect_simulator.Base.Real.{integers}
use architect_simulator.Frame.Types.{Vec3, vec_add, vec_sub, norm}
use architect_simulator.Frame.Model.Samples.{two_pieces, steel, square}
use architect_simulator.Interactive.Host.{Platform, ModelDef, Patch, session, model}

abbrev pub engine : Platform
engine = record {
  real = integers;
  Transform = Vec3 integers;
  transform_position = vec_add;
  dist = λ a b. norm (vec_sub a b);
  size = norm;
  scaled = λ v k. v;
  minus = vec_sub;
  over = λ v k. v;
  magnitude = λ a. a;
  contains_nan = λ v. false;
  s275 = steel;
  rectangle_200 = square;
  Session = List (ℤ × Bool);
  Options = Bool;
  SolveResult = Bool;
  default_options = false;
  registry_options = true;
  new_session = λ m o. session [];
  set_member_active = λ s i b. (i, b) ∷ s;
  set_shell_active = λ s i b. (i, b) ∷ s;
  rebaseline = λ s. s;
  solve = λ s. (s, ltb 2 (length s));
  is_singular = λ r. r;
  from_blueprint = λ d. model two_pieces;
  to_blueprint = λ m r. record { singular = r; diagnostic = ""; utilization = [] };
}

abbrev pub no_patch : Patch integers
no_patch = record {
  deactivate_members = [];
  reactivate_members = [];
  deactivate_shells = [];
  reactivate_shells = [];
  reset_loads = false;
  set_loads = [];
  add_loads = [];
}

-- Remove member 1, or members 1 and 2, and clear the loads.
abbrev pub unload_1 : Patch integers
unload_1 = record no_patch { deactivate_members = pos 1 ∷ []; reset_loads = true }

abbrev pub unload_12 : Patch integers
unload_12 = record no_patch { deactivate_members = pos 1 ∷ pos 2 ∷ []; reset_loads = true }

abbrev pub empty_def : ModelDef integers
empty_def = record {
  nodes = [];
  members = [];
  shells = [];
  materials = [];
  sections = [];
  nodal_loads = [];
  member_udls = [];
  shell_pressures = [];
}
