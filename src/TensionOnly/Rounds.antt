-- ===== src/TensionOnly/Rounds.antt =====
-- The rounds of iterateTO (FrameCore/Private/TensionOnly.cpp): what they end with.
use architect_simulator.Base.{
  true_ne_false, ℕ, zero, suc, ◌+◌, ◌<◌, ◌≤◌, ◌≡◌, refl, sym, ap, ◌∙◌, Bool, true, false, not, ◌&&◌,
  List, [], ◌∷◌, map, All, any, if◌then◌else◌, arith, ◌==◌, Bool-cases, inl, inr,
}
use architect_simulator.Base.Int.{pos_part}
use architect_simulator.Base.Real.{Real}
use architect_simulator.Frame.Model.{FrameModel}
use architect_simulator.TensionOnly.{
  Solved, Session, TensionOnlyOptions, TensionOnlyResult, Flag, hash_from, bytes, slack_of, blank,
  flip_all, seen_before, iterate,
}
use architect_simulator.TensionOnly.Flips.{
  n_true, member_of, Steady, flip_all-Steady, n_true-flip_all, members-flip_all,
}

abbrev pub hash : List Bool → ℕ
hash = hash_from 1469598103934665603

abbrev pub flags_hash : List Flag → ℕ
flags_hash fs = hash (bytes fs)

-- A hash that was seen is that of a state that was visited.
seen-visited :
    (P : List Flag → Type 0) (h : ℕ) (visited : List (List Flag))
    → All P visited
    → any (λ x. x == h) (map flags_hash visited) ≡ true
    → (v : List Flag) × P v × (flags_hash v ≡ h)
seen-visited P h [] a e = elim (true_ne_false (sym e)) [ ]
seen-visited P h (v ∷ vs) a e = elim (Bool-cases (flags_hash v == h)) [
  | inl q ↦ (v, a.0, ground (arith, q))
  | inr q ↦ seen-visited P h vs a.1 (rw q at e)
]

pub policy_kept : (c a : Bool) → c && a ≡ false → not c && a ≡ a
policy_kept true a e = sym e
policy_kept false a e = refl

All-implies :
    {A : Type 0} {P Q : A → Type 0} (xs : List A) → ((x : A) → P x → Q x) → All P xs → All Q xs
All-implies [] f h = tt
All-implies (x ∷ xs) f h = (f x h.0, All-implies xs f h.1)

module _ {R : Real} (session : Session R) (model : FrameModel R) (opts : TensionOnlyOptions R) where
  -- What a round ends with: a mechanism, no flip, a state that was seen, or the rounds after it.
  abbrev round :
      Bool → Bool → Bool → ℕ → Solved R → List Flag → TensionOnlyResult R → TensionOnlyResult R
  round a b c it solved flags more =
      if a
      then record {
        converged = false;
        cycled = false;
        iterations = suc it;
        final_state = solved;
        slack = [];
      }
      else if b
      then record {
        converged = true;
        cycled = false;
        iterations = suc it;
        final_state = solved;
        slack = slack_of flags;
      }
      else if c
      then record {
        converged = false;
        cycled = true;
        iterations = suc it;
        final_state = solved;
        slack = [];
      }
      else more

  -- The start of the iteration: the session is not valid, or the rounds.
  abbrev pub begun : Bool → Bool → List Flag → TensionOnlyResult R
  begun b allow_react flags =
      if b
      then record {
        converged = false;
        cycled = false;
        iterations = 0;
        final_state = blank (session.diagnostic (session.start model)) true;
        slack = [];
      }
      else iterate session model opts allow_react (pos_part opts.max_iter) 0 (session.start model)
          flags (hash (bytes flags) ∷ []) (blank "" false)

  -- The result leaves the slack members out of a state of the same members in which none flips.
  abbrev pub Settled : Bool → List Flag → TensionOnlyResult R → Type 0
  Settled allow_react flags r =
      (fs : List Flag) × (map member_of fs ≡ map member_of flags)
      × (r.slack ≡ slack_of fs)
      × Steady session model opts allow_react r.final_state fs

  abbrev pub Sound : Bool → List Flag → TensionOnlyResult R → Type 0
  Sound allow_react flags r = r.converged ≡ true → Settled allow_react flags r

  pub iterate-Sound :
      (allow_react : Bool) (left it : ℕ) (s : session.State) (flags : List Flag) (seen : List ℕ)
      (sr : Solved R)
      → Sound allow_react flags (iterate session model opts allow_react left it s flags seen sr)
  unfolding iterate
  iterate-Sound allow_react zero it s flags seen sr = λ c. elim (true_ne_false (sym c)) [ ]
  iterate-Sound allow_react (suc left) it s flags seen sr =
      go solved.1.singular (flipped.2 == 0) refl (seen_before session model opts h seen)
        (iterate-Sound allow_react left (suc it) flipped.0 flipped.1 (h ∷ seen) solved.1)
    where
      solved : session.State × Solved R
      solved = session.solve s

      flipped : session.State × List Flag × ℕ
      flipped = flip_all session model opts allow_react solved.1 solved.0 flags

      h : ℕ
      h = hash (bytes flipped.1)

      more : TensionOnlyResult R
      more =
          iterate session model opts allow_react left (suc it) flipped.0 flipped.1 (h ∷ seen)
            solved.1

      go :
          (a b : Bool)
          → (flipped.2 == 0) ≡ b
          → (c : Bool) → Sound allow_react flipped.1 more
          → Sound allow_react flags (round a b c it solved.1 flipped.1 more)
      go true b e c rec k = elim (true_ne_false (sym k)) [ ]
      go false true e c rec k =
          let none_flips : flipped.2 ≡ 0 = ground (arith, e) in
          let steady =
            flip_all-Steady session model opts allow_react solved.1 solved.0 flags none_flips in
          (flags, refl, ap slack_of steady.0, steady.1)
      go false false e true rec k = elim (true_ne_false (sym k)) [ ]
      go false false e false rec k =
          let (fs, same, slack, steady) = rec k in
          (
            fs,
            same ∙ members-flip_all session model opts allow_react solved.1 solved.0 flags,
            slack,
            steady,
          )

  -- The sessions and flags that the rounds of a monotone run come to, whether it stops there or not.
  pub data Reaches (s₀ : session.State) (flags₀ : List Flag)
      : session.State → List Flag → Type 0 where
    starts : Reaches s₀ flags₀ s₀ flags₀
    rounds :
        (s : session.State) (fs : List Flag)
        → Reaches s₀ flags₀ s fs
        → Reaches s₀ flags₀
            (flip_all session model opts false (session.solve s).1 (session.solve s).0 fs).0
            (flip_all session model opts false (session.solve s).1 (session.solve s).0 fs).1

  -- The outcomes of a monotone run that has rounds enough: it converges, it meets a mechanism, or it stops as
  -- cycled at two of its own states that differ in how many members are active and yet hash alike.
  pub data MonotoneEnd (s₀ : session.State) (flags₀ : List Flag) (r : TensionOnlyResult R)
      : Type 0 where
    converges : r.converged ≡ true → MonotoneEnd s₀ flags₀ r
    mechanism : r.final_state.singular ≡ true → MonotoneEnd s₀ flags₀ r
    collides :
        (s t : session.State) (fs gs : List Flag)
        → Reaches s₀ flags₀ s fs
        → Reaches s₀ flags₀ t gs
        → n_true (bytes gs) < n_true (bytes fs)
        → flags_hash fs ≡ flags_hash gs
        → r.cycled ≡ true
        → MonotoneEnd s₀ flags₀ r

  -- States of the run that were visited, with no fewer flags up.
  abbrev Visited : session.State → List Flag → List Flag → List Flag → Type 0
  Visited s₀ flags₀ flags v =
      (n_true (bytes flags) ≤ n_true (bytes v)) × ((s : session.State) × Reaches s₀ flags₀ s v)

  pub iterate-MonotoneEnd :
      (s₀ : session.State) (flags₀ : List Flag) (left it : ℕ) (s : session.State)
      (flags : List Flag) (visited : List (List Flag)) (sr : Solved R)
      → n_true (bytes flags) < left
      → Reaches s₀ flags₀ s flags
      → All (Visited s₀ flags₀ flags) visited
      → MonotoneEnd s₀ flags₀
          (iterate session model opts false left it s flags (map flags_hash visited) sr)
  unfolding iterate
  iterate-MonotoneEnd s₀ flags₀ zero it s flags visited sr l n v = elim l [ ]
  iterate-MonotoneEnd s₀ flags₀ (suc left) it s flags visited sr l n v =
      go solved.1.singular refl (flipped.2 == 0) refl
        (seen_before session model opts h (map flags_hash visited)) refl
        (λ l' v'.
          iterate-MonotoneEnd s₀ flags₀ left (suc it) flipped.0 flipped.1 (flipped.1 ∷ visited)
            solved.1 l' (rounds s flags n) v')
    where
      solved : session.State × Solved R
      solved = session.solve s

      flipped : session.State × List Flag × ℕ
      flipped = flip_all session model opts false solved.1 solved.0 flags

      h : ℕ
      h = flags_hash flipped.1

      more : TensionOnlyResult R
      more =
          iterate session model opts false left (suc it) flipped.0 flipped.1
            (h ∷ map flags_hash visited) solved.1

      count : n_true (bytes flipped.1) + flipped.2 ≡ n_true (bytes flags)
      count = n_true-flip_all session model opts solved.1 solved.0 flags

      go :
          (a : Bool)
          → solved.1.singular ≡ a
          → (b : Bool) → (flipped.2 == 0) ≡ b
          → (c : Bool) → seen_before session model opts h (map flags_hash visited) ≡ c
          → (n_true (bytes flipped.1) < left
              → All (Visited s₀ flags₀ flipped.1) (flipped.1 ∷ visited)
              → MonotoneEnd s₀ flags₀ more)
          → MonotoneEnd s₀ flags₀ (round a b c it solved.1 flipped.1 more)
      go true ea b eb c ec rec = mechanism ea
      go false ea true eb c ec rec = converges refl
      go false ea false eb true ec rec =
          let (x, known, same) = seen-visited (Visited s₀ flags₀ flags) h visited v ec in
          collides known.1.0 flipped.0 x flipped.1 known.1.1 (rounds s flags n)
            (ground (arith, known.0, count, eb)) same refl
      go false ea false eb false ec rec = rec (ground (arith, count, eb, l)) (
        (omega arith, (flipped.0, rounds s flags n)),
        All-implies visited (λ x k. (omega (arith, count, k.0), k.1)) v,
      )
