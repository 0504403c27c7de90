-- ===== src/Json/Outcomes.antt =====
-- Outcomes of the readers of Plugins/FrameSolver/Standalone/v2/MiniJson.h that are no lack of fuel.
use architect_simulator.Base.{
  ℕ, suc, ◌≤◌, Bool, true, false, List, [], ◌∷◌, length, none, if◌then◌else◌, arith, ◌==◌,
}
use architect_simulator.Json.{Parsed, parsed, failed}
use architect_simulator.Json.Number.{Scan, scanned, refused, Number}
use architect_simulator.Json.Strings.{ShortParsed}
use architect_simulator.Json.Lengths.{Short, IsRange}
use architect_simulator.Json.Value.{null, bool, Fields}
use architect_simulator.Json.Proper.{Distinct, IsProper, FieldsProper}
use architect_simulator.Json.Parse.{
  Outcome, read, stopped, unfinished, then_read, is_space, skip, strip, or_stop, string_outcome,
  number_outcome, parse_bool, parse_null,
}

-- An outcome that is no lack of fuel, and whose rest is no longer than so many bytes.
abbrev pub Good : {A : Type 0} → ℕ → (A → Type 0) → Outcome A → Type 0
Good n P (read v rest) = (length rest ≤ n) × P v
Good n P (stopped why) = Unit
Good n P unfinished = ⊥

pub Good-then :
    {A B : Type 0} (n m : ℕ) (P : A → Type 0) (Q : B → Type 0) (o : Outcome A)
    (f : A → List ℕ → Outcome B)
    → Good n P o
    → ((v : A) (rest : List ℕ) → length rest ≤ n → P v → Good m Q (f v rest))
    → Good m Q (then_read o f)
Good-then n m P Q (read v rest) f g k = k v rest g.0 g.1
Good-then n m P Q (stopped why) f g k = tt
Good-then n m P Q unfinished f g k = g

pub Good-le :
    {A : Type 0} (n m : ℕ) (P : A → Type 0) (o : Outcome A) → n ≤ m → Good n P o → Good m P o
Good-le n m P (read v rest) l g = (omega (arith, g.0, l), g.1)
Good-le n m P (stopped why) l g = tt
Good-le n m P unfinished l g = g

pub length-skip : (s : List ℕ) → length (skip s) ≤ length s
unfolding skip
length-skip [] = omega arith
length-skip (c ∷ cs) = go (is_space c) (length-skip cs)
  where
    go :
        (b : Bool)
        → length (skip cs) ≤ length cs
        → length (if b then skip cs else c ∷ cs) ≤ suc (length cs)
    go true l = omega (arith, l)
    go false l = omega arith

abbrev pub Any : {A : Type 0} → A → Type 0
Any a = Unit

length-strip :
    (ws s : List ℕ) (n : ℕ) {A : Type 0} (P : A → Type 0) (a : A) (o : Outcome A)
    → length s ≤ n
    → P a
    → Good n P o
    → Good n P (or_stop a (strip ws s) o)
unfolding strip
length-strip [] s n P a o l p g = (l, p)
length-strip (w ∷ ws) [] n P a o l p g = g
length-strip (w ∷ ws) (c ∷ cs) n P a o l p g =
    go (w == c) (length-strip ws cs n P a o (omega (arith, l)) p g)
  where
    go :
        (b : Bool)
        → Good n P (or_stop a (strip ws cs) o)
        → Good n P (or_stop a (if b then strip ws cs else none) o)
    go true h = h
    go false h = g

module _ {D : Type 0} (strtod : List ℕ → D) (is_finite : D → Bool) where
  abbrev pub ProperFields : ℕ → Fields D → Type 0
  ProperFields depth o = FieldsProper is_finite depth o × Distinct o

  pub string_outcome-Good :
      (n depth : ℕ) (p : Parsed)
      → ShortParsed n p
      → Good n (IsProper is_finite depth) (string_outcome strtod is_finite p)
  unfolding IsProper
  string_outcome-Good n depth (parsed s rest) h = (h, tt)
  string_outcome-Good n depth (failed why) h = tt

  pub number_outcome-Good :
      (n depth : ℕ) (p : Scan (Number D))
      → Short n (IsRange is_finite) p
      → Good n (IsProper is_finite depth) (number_outcome strtod is_finite p)
  unfolding IsProper
  number_outcome-Good n depth (scanned a rest) h = h
  number_outcome-Good n depth (refused why) h = tt

  pub parse_bool-Good :
      (depth : ℕ) (s : List ℕ)
      → Good (length s) (IsProper is_finite depth) (parse_bool strtod is_finite s)
  unfolding parse_bool IsProper
  parse_bool-Good depth s =
      length-strip (116 ∷ 114 ∷ 117 ∷ 101 ∷ []) s (length s) (IsProper is_finite depth) (bool true)
        _ (omega arith) tt
        (length-strip (102 ∷ 97 ∷ 108 ∷ 115 ∷ 101 ∷ []) s (length s) (IsProper is_finite depth)
          (bool false) (stopped "expected 'true' or 'false'") (omega arith) tt tt)

  pub parse_null-Good :
      (depth : ℕ) (s : List ℕ)
      → Good (length s) (IsProper is_finite depth) (parse_null strtod is_finite s)
  unfolding parse_null IsProper
  parse_null-Good depth s =
      length-strip (110 ∷ 117 ∷ 108 ∷ 108 ∷ []) s (length s) (IsProper is_finite depth) null
        (stopped "expected 'null'") (omega arith) tt tt
