-- ===== src/Collapse/Comparison.antt =====
-- The comparison of the events in runProgressiveCollapse (FrameCore/Private/Collapse.cpp) is a strict order.
use architect_simulator.Base.{◌≡◌, refl, sym, ap, ◌∙◌, Bool, true, false, ◌&&◌, ◌||◌, arith}
use architect_simulator.Base.Int.{ℤ, ltb_ℤ, eqb_ℤ, eqb_ℤ_iff}
use architect_simulator.Base.Real.{Real}
use architect_simulator.Collapse.Screen.{Event, same, precedes, rank_of}

-- Laws of < and == of floating-point numbers; NaN, which is neither less than nor equal to any number,
-- keeps them.
pub record IsOrdered (R : Real) : Type 0 where
  pub irreflexive : (a : R.carrier) → R.lt a a ≡ false
  pub lt_lt : (a b c : R.carrier) → R.lt a b ≡ true → R.lt b c ≡ true → R.lt a c ≡ true
  pub lt_same : (a b c : R.carrier) → R.lt a b ≡ true → same R b c ≡ true → R.lt a c ≡ true
  pub same_lt : (a b c : R.carrier) → same R a b ≡ true → R.lt b c ≡ true → R.lt a c ≡ true
  pub same_same : (a b c : R.carrier) → same R a b ≡ true → same R b c ≡ true → same R a c ≡ true
  pub same_sym : (a b : R.carrier) → same R a b ≡ true → same R b a ≡ true

unfoldable pub Implies : Bool → Bool → Bool → Type 0
Implies a b c = a ≡ true → b ≡ true → c ≡ true

-- A lexicographic comparison is transitive where its parts are.
lex_trans :
    (l₁ e₁ t₁ l₂ e₂ t₂ l₃ e₃ t₃ : Bool)
    → Implies l₁ l₂ l₃
    → Implies l₁ e₂ l₃
    → Implies e₁ l₂ l₃
    → Implies e₁ e₂ e₃
    → Implies t₁ t₂ t₃
    → Implies (l₁ || (e₁ && t₁)) (l₂ || (e₂ && t₂)) (l₃ || (e₃ && t₃))
unfolding Implies
lex_trans true e₁ t₁ true e₂ t₂ l₃ e₃ t₃ a b c d f p q = rw (a refl refl) refl
lex_trans true e₁ t₁ false true t₂ l₃ e₃ t₃ a b c d f p q = rw (b refl refl) refl
lex_trans true e₁ t₁ false false t₂ l₃ e₃ t₃ a b c d f p q = ground (arith, q)
lex_trans false true t₁ true e₂ t₂ l₃ e₃ t₃ a b c d f p q = rw (c refl refl) refl
lex_trans false true t₁ false true t₂ l₃ e₃ t₃ a b c d f p q = rw (d refl refl, f p q) (go l₃)
  where
    go : (b : Bool) → b || true ≡ true
    go true = refl
    go false = refl
lex_trans false true t₁ false false t₂ l₃ e₃ t₃ a b c d f p q = ground (arith, q)
lex_trans false false t₁ l₂ e₂ t₂ l₃ e₃ t₃ a b c d f p q = ground (arith, p)

ltb_ℤ_trans : (a b c : ℤ) → Implies (ltb_ℤ a b) (ltb_ℤ b c) (ltb_ℤ a c)
unfolding Implies
ltb_ℤ_trans a b c p q = ground (arith, p, q)

eqb_ltb : (a b c : ℤ) → Implies (eqb_ℤ a b) (ltb_ℤ b c) (ltb_ℤ a c)
unfolding Implies
eqb_ltb a b c p q = let e = (eqb_ℤ_iff a b).0 p in ap (λ x. ltb_ℤ x c) e ∙ q

ltb_eqb : (a b c : ℤ) → Implies (ltb_ℤ a b) (eqb_ℤ b c) (ltb_ℤ a c)
unfolding Implies
ltb_eqb a b c p q = let e = (eqb_ℤ_iff b c).0 q in ap (λ x. ltb_ℤ a x) (sym e) ∙ p

eqb_ℤ_trans : (a b c : ℤ) → Implies (eqb_ℤ a b) (eqb_ℤ b c) (eqb_ℤ a c)
unfolding Implies
eqb_ℤ_trans a b c p q = let e = (eqb_ℤ_iff a b).0 p in ap (λ x. eqb_ℤ x c) e ∙ q

ltb_ℤ_irrefl : (a : ℤ) → ltb_ℤ a a ≡ false
ltb_ℤ_irrefl a = ground arith

module _ {R : Real} (laws : IsOrdered R) where
  pub precedes_trans : (a b c : Event R) → Implies (precedes a b) (precedes b c) (precedes a c)
  unfolding precedes Implies
  precedes_trans a b c =
      lex_trans _ _ _ _ _ _ _ _ _ (λ p q. laws.lt_lt c.ratio b.ratio a.ratio q p)
        (λ p q. laws.same_lt c.ratio b.ratio a.ratio (laws.same_sym b.ratio c.ratio q) p)
        (λ p q. laws.lt_same c.ratio b.ratio a.ratio q (laws.same_sym a.ratio b.ratio p))
        (λ p q. laws.same_same a.ratio b.ratio c.ratio p q)
        (lex_trans _ _ _ _ _ _ _ _ _
          (ltb_ℤ_trans (rank_of a.kind) (rank_of b.kind) (rank_of c.kind))
          (ltb_eqb (rank_of a.kind) (rank_of b.kind) (rank_of c.kind))
          (eqb_ltb (rank_of a.kind) (rank_of b.kind) (rank_of c.kind))
          (eqb_ℤ_trans (rank_of a.kind) (rank_of b.kind) (rank_of c.kind))
          (lex_trans _ _ _ _ _ _ _ _ _ (ltb_ℤ_trans a.id b.id c.id) (ltb_eqb a.id b.id c.id)
            (eqb_ltb a.id b.id c.id) (eqb_ℤ_trans a.id b.id c.id) (ltb_ℤ_trans a.dof b.dof c.dof)))

  pub precedes_irrefl : (a : Event R) → precedes a a ≡ false
  unfolding precedes
  precedes_irrefl a =
      rw
        (
          laws.irreflexive a.ratio,
          ltb_ℤ_irrefl (rank_of a.kind),
          ltb_ℤ_irrefl a.id,
          ltb_ℤ_irrefl a.dof,
        )
        (go (same R a.ratio a.ratio) (eqb_ℤ (rank_of a.kind) (rank_of a.kind)) (eqb_ℤ a.id a.id))
    where
      go : (a b c : Bool) → a && (b && (c && false)) ≡ false
      go true true true = refl
      go true true false = refl
      go true false c = refl
      go false b c = refl
