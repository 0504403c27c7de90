-- ===== src/TensionOnly.antt =====
-- The tension-only analysis: runTensionOnly and iterateTO of FrameCore/Private/TensionOnly.cpp, with
-- fnv1aHashBytes of MemberQuery.h, under Plugins/FrameSolver/Source. The ReSolveSession and the x axis of
-- memberLocalAxes are operations of a parameter.
pub mod Flips
pub mod Rounds
pub mod Settles
pub mod Tests
use Prim.Native.String.{String}
use architect_simulator.Base.{
  ℕ, zero, suc, ◌+◌, ◌-◌, ◌*◌, ◌%◌, ◌^◌, Bool, true, false, not, ◌&&◌, List, [], ◌∷◌, Option, none,
  some, any, map, if◌then◌else◌, get_or, get_elem?, ◌==◌, length,
}
use architect_simulator.Base.Int.{ℤ, pos, pos_part}
use architect_simulator.Base.Real.{Real}
use architect_simulator.Frame.Types.{Vec3, vec_sub, dot, zero_of}
use architect_simulator.Frame.Model.{Member, FrameModel, node_index}
use architect_simulator.Frame.Model.Checks.{position_of}

-- The fields of SolveResult that the iteration reads; axial is memberForces[e].endI.N.
pub record Solved (R : Real) : Type 0 where
  pub singular : Bool
  pub diagnostic : String
  pub u : List R.carrier
  pub axial : List R.carrier

-- A ReSolveSession with the solve options, and the x axis of memberLocalAxes.
pub record Session (R : Real) : Type 1 where
  pub State : Type 0
  pub start : FrameModel R → State
  pub is_valid : State → Bool
  pub diagnostic : State → String
  pub solve : State → State × Solved R
  pub set_member_active : State → ℤ → Bool → State
  pub local_axis : Vec3 R → Vec3 R → Vec3 R → Vec3 R

pub record TensionOnlyOptions (R : Real) : Type 0 where
  pub max_iter : ℤ
  pub allow_reactivation : Bool
  pub axial_tol : R.carrier

pub record TensionOnlyResult (R : Real) : Type 0 where
  pub converged : Bool
  pub cycled : Bool
  pub iterations : ℕ
  pub final_state : Solved R
  pub slack : List ℤ

-- A tension-only member's index in the model with its id and whether it is active.
pub record Flag : Type 0 where
  pub index : ℕ
  pub id : ℤ
  pub active : Bool

-- One byte of the hash: h ^= b for b = 0 or 1, then the product modulo 2^64.
unfoldable pub hash_byte : ℕ → Bool → ℕ
hash_byte h b = (if b then (if h % 2 == 0 then h + 1 else h - 1) else h) * 1099511628211 % 2 ^ 64

unfoldable pub hash_from : ℕ → List Bool → ℕ
unfolding hash_byte
hash_from h [] = h
hash_from h (b ∷ bs) = hash_from (hash_byte h b) bs

-- The active flags as the bytes that are hashed.
abbrev pub bytes : List Flag → List Bool
bytes = map (λ (f : Flag). f.active)

unfoldable pub slack_of : List Flag → List ℤ
slack_of [] = []
slack_of (f ∷ fs) = let rest = slack_of fs in if f.active then rest else f.id ∷ rest

-- The tension-only members from an index on.
unfoldable pub flags_from : {R : Real} → ℕ → List (Member R) → List Flag
flags_from e [] = []
flags_from e (m ∷ ms) =
    let rest = flags_from (suc e) ms in
    if m.tension_only then (record { index = e; id = m.id; active = m.active }) ∷ rest else rest

abbrev pub blank : {R : Real} → String → Bool → Solved R
blank why singular = record { singular = singular; diagnostic = why; u = []; axial = [] }

module _ {R : Real} (session : Session R) (model : FrameModel R) (opts : TensionOnlyOptions R) where
  abbrev pub displacement : List R.carrier → ℕ → Vec3 R
  displacement u k = record {
    x = get_or u (6 * k) (zero_of R);
    y = get_or u (6 * k + 1) (zero_of R);
    z = get_or u (6 * k + 2) (zero_of R);
  }

  abbrev pub elongation_of : Solved R → Member R → Option ℕ → Option ℕ → R.carrier
  elongation_of r mem none nj = zero_of R
  elongation_of r mem (some ni) none = zero_of R
  elongation_of r mem (some ni) (some nj) =
      let axis = session.local_axis (position_of R model ni) (position_of R model nj) mem.ref_vec in
      dot (vec_sub (displacement r.u nj) (displacement r.u ni)) axis

  abbrev elongation_found : Solved R → Option (Member R) → R.carrier
  elongation_found r none = zero_of R
  elongation_found r (some mem) =
      elongation_of r mem (node_index model mem.i) (node_index model mem.j)

  unfoldable pub member_elongation : Solved R → ℕ → R.carrier
  member_elongation r e = elongation_found r (get_elem? model.members e)

  -- Whether a member flips.
  unfoldable pub flips : Bool → Solved R → Flag → Bool
  unfolding member_elongation
  flips allow_react r f =
      if f.active
      then R.lt opts.axial_tol (get_or r.axial f.index (zero_of R))
      else allow_react && R.lt (zero_of R) (member_elongation r f.index)

  abbrev pub flip : Flag → Flag
  flip f = record f { active = not f.active }

  -- The loop over the members: the session, the flags and the number of flips.
  unfoldable pub flip_all :
      Bool → Solved R → session.State → List Flag → session.State × List Flag × ℕ
  unfolding flips
  flip_all allow_react r s [] = (s, [], 0)
  flip_all allow_react r s (f ∷ fs) =
      let flipped = flips allow_react r f in
      let s₁ = if flipped then session.set_member_active s f.id (not f.active) else s in
      let (s₂, rest, n) = flip_all allow_react r s₁ fs in
      (s₂, (if flipped then flip f else f) ∷ rest, if flipped then suc n else n)

  abbrev pub seen_before : ℕ → List ℕ → Bool
  seen_before h seen = any (λ x. x == h) seen

  -- The rounds that are left, the number of the next one, the session, the flags, the hashes seen and the
  -- last solved state.
  unfoldable pub iterate :
      Bool → ℕ → ℕ → session.State → List Flag → List ℕ → Solved R → TensionOnlyResult R
  unfolding flip_all slack_of hash_from
  iterate allow_react zero it s flags seen sr = record {
    converged = false;
    cycled = false;
    iterations = it;
    final_state = sr;
    slack = slack_of flags;
  }
  iterate allow_react (suc left) it s flags seen sr =
      let solved = session.solve s in
      let flipped = flip_all allow_react solved.1 solved.0 flags in
      let h = hash_from 1469598103934665603 (bytes flipped.1) in
      let more = iterate allow_react left (suc it) flipped.0 flipped.1 (h ∷ seen) solved.1 in
      if solved.1.singular
      then record {
        converged = false;
        cycled = false;
        iterations = suc it;
        final_state = solved.1;
        slack = [];
      }
      else if flipped.2 == 0
      then record {
        converged = true;
        cycled = false;
        iterations = suc it;
        final_state = solved.1;
        slack = slack_of flipped.1;
      }
      else if seen_before h seen
      then record {
        converged = false;
        cycled = true;
        iterations = suc it;
        final_state = solved.1;
        slack = [];
      }
      else more

  unfoldable pub iterate_to : List Flag → Bool → TensionOnlyResult R
  unfolding iterate hash_from
  iterate_to flags allow_react =
      let s = session.start model in
      if not (session.is_valid s)
      then record {
        converged = false;
        cycled = false;
        iterations = 0;
        final_state = blank (session.diagnostic s) true;
        slack = [];
      }
      else iterate allow_react (pos_part opts.max_iter) 0 s flags
          (hash_from 1469598103934665603 (bytes flags) ∷ []) (blank "" false)

  unfoldable pub run_tension_only : TensionOnlyResult R
  unfolding iterate_to flags_from
  run_tension_only =
      let flags = flags_from 0 model.members in
      let r = iterate_to flags opts.allow_reactivation in
      if r.cycled && opts.allow_reactivation
      then record (iterate_to flags false) { cycled = true }
      else r
