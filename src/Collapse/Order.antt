-- ===== src/Collapse/Order.antt =====
-- The order of the events in runProgressiveCollapse (FrameCore/Private/Collapse.cpp): worst ratio, then
-- removal before hinge and member before shell, then the smallest id, then the smallest dof.
use architect_simulator.Base.{
  ◌≡◌, refl, sym, ap, ◌∙◌, subst, Bool, true, false, not, ◌&&◌, ◌||◌, List, [], ◌∷◌, In,
  if◌then◌else◌, arith, inl, inr, ◌⊎◌, true_ne_false,
}
use mathlib.Core.List.{foldl}
use architect_simulator.Base.Int.{ltb_ℤ, eqb_ℤ_iff}
use architect_simulator.Base.Real.{Real}
use architect_simulator.Collapse.Screen.{
  EventKind, none_yet, member_removal, shell_removal, hinge, Event, no_event, same, precedes,
  consider, rank_of,
}
use architect_simulator.Collapse.Comparison.{IsOrdered, Implies, precedes_trans, precedes_irrefl}

-- A member's removal comes before a shell's, and a removal before a hinge.
pub data KindBefore : EventKind → EventKind → Type 0 where
  none_member : KindBefore none_yet member_removal
  none_shell : KindBefore none_yet shell_removal
  none_hinge : KindBefore none_yet hinge
  member_shell : KindBefore member_removal shell_removal
  member_hinge : KindBefore member_removal hinge
  shell_hinge : KindBefore shell_removal hinge

-- One candidate goes before another: its ratio is the greater, or the ratios are the same and its kind comes
-- first, or the kinds too and its id is the smaller, or the ids too and its degree of freedom is.
pub data GoesBefore {R : Real} (c d : Event R) : Type 0 where
  by_ratio : R.lt d.ratio c.ratio ≡ true → GoesBefore c d
  by_kind : same R c.ratio d.ratio ≡ true → KindBefore c.kind d.kind → GoesBefore c d
  by_id : same R c.ratio d.ratio ≡ true → c.kind ≡ d.kind → ltb_ℤ c.id d.id ≡ true → GoesBefore c d
  by_dof :
      same R c.ratio d.ratio ≡ true
      → c.kind ≡ d.kind
      → c.id ≡ d.id
      → ltb_ℤ c.dof d.dof ≡ true
      → GoesBefore c d

KindBefore-rank : (a b : EventKind) → KindBefore a b → ltb_ℤ (rank_of a) (rank_of b) ≡ true
KindBefore-rank a b none_member = refl
KindBefore-rank a b none_shell = refl
KindBefore-rank a b none_hinge = refl
KindBefore-rank a b member_shell = refl
KindBefore-rank a b member_hinge = refl
KindBefore-rank a b shell_hinge = refl

or_first : (l r : Bool) → l ≡ true → l || r ≡ true
or_first l r e = rw e refl

or_later : (l e t : Bool) → e ≡ true → t ≡ true → l || (e && t) ≡ true
or_later true e t p q = refl
or_later false e t p q = rw (p, q) refl

GoesBefore-precedes : {R : Real} (c d : Event R) → GoesBefore c d → precedes c d ≡ true
unfolding precedes
GoesBefore-precedes c d (by_ratio l) = or_first _ _ l
GoesBefore-precedes c d (by_kind s k) =
    or_later _ _ _ s (or_first _ _ (KindBefore-rank c.kind d.kind k))
GoesBefore-precedes c d (by_id s k l) =
    let e = (eqb_ℤ_iff (rank_of c.kind) (rank_of d.kind)).1 (ap rank_of k) in
    or_later _ _ _ s (or_later _ _ _ e (or_first _ _ l))
GoesBefore-precedes c d (by_dof s k i l) =
    let e = (eqb_ℤ_iff (rank_of c.kind) (rank_of d.kind)).1 (ap rank_of k) in
    let j = (eqb_ℤ_iff c.id d.id).1 i in or_later _ _ _ s (or_later _ _ _ e (or_later _ _ _ j l))

-- The candidate, where it is eligible, does not go before the event, which is then eligible too.
abbrev pub Beats : {R : Real} → Event R → Event R → Type 0
Beats best c = c.eligible ≡ true → (best.eligible ≡ true) × ¬ GoesBefore c best

module _ {R : Real} (laws : IsOrdered R) where
  -- The same with the code's own comparison.
  abbrev Wins : Event R → Event R → Type 0
  Wins best c = c.eligible ≡ true → (best.eligible ≡ true) × (precedes c best ≡ false)

  Wins-Beats : (best c : Event R) → Wins best c → Beats best c
  Wins-Beats best c h e =
      let w = h e in (w.0, λ g. true_ne_false (sym (GoesBefore-precedes c best g) ∙ w.1))

  not_before :
      (c d best : Event R) → precedes d best ≡ true → precedes c best ≡ false → precedes c d ≡ false
  unfolding Implies
  not_before c d best p q = go (precedes c d) refl
    where
      go : (b : Bool) → precedes c d ≡ b → b ≡ false
      go true e = sym (precedes_trans laws c d best e p) ∙ q
      go false e = refl

  consider-Wins : (best d c : Event R) → Wins best c → Wins (consider best d) c
  unfolding consider
  consider-Wins best d c h = go d.eligible refl best.eligible refl (precedes d best) refl
    where
      go :
          (a : Bool)
          → d.eligible ≡ a
          → (b : Bool) → best.eligible ≡ b
          → (p : Bool) → precedes d best ≡ p
          → Wins (if not a then best else if not b || p then d else best) c
      go false ea b eb p ep = h
      go true ea false eb p ep = λ e. let no : true ≡ false = sym (h e).0 ∙ eb in ground (arith, no)
      go true ea true eb true ep = λ e. (ea, not_before c d best ep (h e).1)
      go true ea true eb false ep = h

  consider_self : (best d : Event R) → Wins (consider best d) d
  unfolding consider
  consider_self best d = go d.eligible refl best.eligible refl (precedes d best) refl
    where
      go :
          (a : Bool)
          → d.eligible ≡ a
          → (b : Bool) → best.eligible ≡ b
          → (p : Bool) → precedes d best ≡ p
          → Wins (if not a then best else if not b || p then d else best) d
      go false ea b eb p ep = λ e. let no : true ≡ false = sym e ∙ ea in ground (arith, no)
      go true ea false eb p ep = λ e. (ea, precedes_irrefl laws d)
      go true ea true eb true ep = λ e. (ea, precedes_irrefl laws d)
      go true ea true eb false ep = λ e. (eb, ep)

  fold-Wins :
      (best : Event R) (cs : List (Event R)) (c : Event R)
      → Wins best c ⊎ In c cs
      → Wins (foldl consider best cs) c
  fold-Wins best [] c (inl h) = h
  fold-Wins best [] c (inr h) = absurd h
  fold-Wins best (d ∷ cs) c (inl h) =
      fold-Wins (consider best d) cs c (inl (consider-Wins best d c h))
  fold-Wins best (d ∷ cs) c (inr (inl e)) =
      fold-Wins (consider best d) cs c
        (inl (subst (Wins (consider best d)) (sym e) (consider_self best d)))
  fold-Wins best (d ∷ cs) c (inr (inr i)) = fold-Wins (consider best d) cs c (inr i)

  consider-from : (best d : Event R) → (consider best d ≡ best) ⊎ (consider best d ≡ d)
  unfolding consider
  consider-from best d = go (not d.eligible) (not best.eligible || precedes d best)
    where
      go :
          (a b : Bool)
          → ((if a then best else if b then d else best) ≡ best)
            ⊎ ((if a then best else if b then d else best) ≡ d)
      go true b = inl refl
      go false true = inr refl
      go false false = inl refl

  fold-from :
      (best : Event R) (cs : List (Event R))
      → (foldl consider best cs ≡ best) ⊎ In (foldl consider best cs) cs
  fold-from best [] = inl refl
  fold-from best (d ∷ cs) = elim (fold-from (consider best d) cs) [
    | inr i ↦ inr (inr i)
    | inl e ↦ elim (consider-from best d) [ inl f ↦ inl (e ∙ f) | inr f ↦ inr (inl (e ∙ f)) ]
  ]

  -- Whatever eligible candidates are considered, in whatever order, the event that is left is one of them or
  -- none, and no eligible candidate goes before it: none has a greater ratio, nor, at the same ratio, a kind
  -- that comes first, nor then a smaller id, nor then a smaller degree of freedom; where < and == keep the laws
  -- of floating-point numbers.
  pub consider_all-Beats :
      (cs : List (Event R)) (c : Event R)
      → In c cs
      → ((foldl consider no_event cs ≡ no_event) ⊎ In (foldl consider no_event cs) cs)
        × Beats (foldl consider no_event cs) c
  consider_all-Beats cs c i = (
    fold-from no_event cs,
    Wins-Beats (foldl consider no_event cs) c (fold-Wins no_event cs c (inr i)),
  )
