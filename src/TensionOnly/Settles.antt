-- ===== src/TensionOnly/Settles.antt =====
-- What runTensionOnly (FrameCore/Private/TensionOnly.cpp) ends with.
use architect_simulator.Base.{
  ℕ, ◌<◌, get_elem?, some, All, In, map, ◌≡◌, refl, sym, ◌∙◌, subst, Bool, true, false, not, ◌&&◌,
  List, [], ◌∷◌, if◌then◌else◌, arith,
}
use architect_simulator.Base.Int.{ℤ, pos_part}
use architect_simulator.Base.Real.{Real}
use architect_simulator.Frame.Model.{Member, FrameModel}
use architect_simulator.TensionOnly.{
  Session, TensionOnlyOptions, TensionOnlyResult, Flag, bytes, flags_from, blank, slack_of,
  iterate_to, run_tension_only,
}
use architect_simulator.TensionOnly.Flips.{n_true}
use architect_simulator.TensionOnly.Flips.{member_of, Steady}
use architect_simulator.TensionOnly.Rounds.{
  policy_kept, begun, MonotoneEnd, converges, mechanism, collides, starts, iterate-MonotoneEnd,
}

module _ {R : Real} (session : Session R) (model : FrameModel R) (opts : TensionOnlyOptions R) where
  iterate_to-MonotoneEnd :
      (flags : List Flag)
      → n_true (bytes flags) < pos_part opts.max_iter
      → MonotoneEnd session model opts
          (session.start model)
          flags
          (iterate_to session model opts flags false)
  unfolding iterate_to
  iterate_to-MonotoneEnd flags l = go (not (session.is_valid (session.start model)))
    where
      go :
          (b : Bool)
          → MonotoneEnd session model opts
              (session.start model)
              flags
              (begun session model opts b false flags)
      go true = mechanism refl
      go false =
          iterate-MonotoneEnd session model opts (session.start model) flags
            (pos_part opts.max_iter) 0 (session.start model) flags (flags ∷ []) (blank "" false) l
            starts ((omega arith, (session.start model, starts)), tt)

  -- The policy of the result: the fallback is monotone.
  abbrev pub policy : TensionOnlyResult R → Bool
  policy r = not r.cycled && opts.allow_reactivation

  abbrev pub start_flags : List Flag
  start_flags = flags_from 0 model.members

  -- A flag is for a member of the model that is tension-only, with its id.
  abbrev pub Names : ℕ × ℤ → Type 0
  Names (index, id) =
      (m : Member R) × (get_elem? model.members index ≡ some m)
      × (id ≡ m.id)
      × (m.tension_only ≡ true)

  -- Flags for exactly the tension-only members of the model, in a state in which none flips, of which the
  -- result leaves out the ids of those that are inactive.
  abbrev pub SettledAt : Bool → TensionOnlyResult R → Type 0
  SettledAt allow_react r =
      (fs : List Flag) × All Names (map member_of fs)
      × ((d : ℕ) (m : Member R)
          → get_elem? model.members d ≡ some m
          → m.tension_only ≡ true
          → In (d, m.id) (map member_of fs))
      × (r.slack ≡ slack_of fs)
      × Steady session model opts allow_react r.final_state fs

  abbrev RunEnd : TensionOnlyResult R → Type 0
  RunEnd = MonotoneEnd session model opts (session.start model) start_flags

  -- A run that is monotone, by the options or after a cycle, and whose active tension-only members are
  -- fewer than maxIter converges or meets a mechanism, or else stops as cycled at two states that it came to,
  -- with different numbers of active members, whose flags hash alike.
  pub run_tension_only-MonotoneEnd :
      policy (run_tension_only session model opts) ≡ false
      → n_true (bytes start_flags) < pos_part opts.max_iter
      → RunEnd (run_tension_only session model opts)
  unfolding run_tension_only
  run_tension_only-MonotoneEnd p l = go (first.cycled && opts.allow_reactivation) refl p
    where
      first : TensionOnlyResult R
      first = iterate_to session model opts start_flags opts.allow_reactivation

      fallback : TensionOnlyResult R
      fallback = iterate_to session model opts start_flags false

      marked : RunEnd fallback → RunEnd (record fallback { cycled = true })
      marked (converges e) = converges e
      marked (mechanism e) = mechanism e
      marked (collides s t a b x y n h c) = collides s t a b x y n h refl

      go :
          (b : Bool)
          → first.cycled && opts.allow_reactivation ≡ b
          → policy (if b then record fallback { cycled = true } else first) ≡ false
          → RunEnd (if b then record fallback { cycled = true } else first)
      go true e p = marked (iterate_to-MonotoneEnd start_flags l)
      go false e p =
          let off : opts.allow_reactivation ≡ false =
            sym (policy_kept first.cycled opts.allow_reactivation e) ∙ p in
          subst (λ a. RunEnd (iterate_to session model opts start_flags a)) (sym off)
            (iterate_to-MonotoneEnd start_flags l)
