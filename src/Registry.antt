-- ===== src/Registry.antt =====
-- UArchSimModelRegistry (Source/ArchSim/Private/Subsystems/ArchSimModelRegistry.cpp and its header):
-- the model that the placed members make up, with what the registry reaches: the components, the
-- interactive subsystem, the world's timer and the results that it has broadcast.
pub mod Model
pub mod Solving
pub mod Boundary
pub mod Members
pub mod Numbering
pub mod Settled
pub mod Separation
pub mod Consistency
pub mod Calls
pub mod Requests
pub mod Edits
pub mod Registration
pub mod Retirement
pub mod Invariant
pub mod Bursts
pub mod Again
pub mod Deactivation
pub mod Stuck
pub mod Loss
pub mod Tests
use architect_simulator.Base.{ℕ, Bool, true, false, List, [], ◌∷◌, Option, none, some}
use architect_simulator.Base.Int.{ℤ, pos, negsuc}
use architect_simulator.Base.Real.{Real}
use architect_simulator.Frame.Types.{Vec3}
use architect_simulator.Interactive.{Subsystem}
use architect_simulator.Interactive.Host.{Platform, ModelDef, Patch, UeResult}

-- UArchSimMemberData; `owner` is the transform of the owning actor.
pub record Component (P : Platform) : Type 0 where
  pub member_idx : ℤ
  pub registered : Bool
  pub cached_utilization : P.real.carrier
  pub material_id : ℤ
  pub section_id : ℤ
  pub end_i_offset : Vec3 P.real
  pub end_j_offset : Vec3 P.real
  pub owner : Option P.Transform

-- A component is named by its place in `components`; a place holds none once the component is
-- destroyed, which is when a weak pointer to it is stale.
pub record Registry (P : Platform) : Type 0 where
  pub current_model : ModelDef P.real
  pub index_to_component : List (ℕ × ℕ)
  pub next_member_idx : ℕ
  pub pending_patch : Patch P.real
  pub timer_armed : Bool
  pub pending_rank : ℕ
  pub session_started : Bool
  pub needs_rebaseline : Bool
  pub components : List (Option (Component P))
  pub engine : Option (Subsystem P)
  pub has_world : Bool
  pub broadcasts : List (UeResult P.real)

abbrev pub max_rank_before_rebaseline : ℕ
max_rank_before_rebaseline = 96

-- INDEX_NONE
abbrev pub index_none : ℤ
index_none = negsuc 0

module _ {R : Real} where
  abbrev pub empty_model : ModelDef R
  empty_model = record {
    nodes = [];
    members = [];
    shells = [];
    materials = [];
    sections = [];
    nodal_loads = [];
    member_udls = [];
    shell_pressures = [];
  }

  abbrev pub empty_patch : Patch R
  empty_patch = record {
    deactivate_members = [];
    reactivate_members = [];
    deactivate_shells = [];
    reactivate_shells = [];
    reset_loads = false;
    set_loads = [];
    add_loads = [];
  }
