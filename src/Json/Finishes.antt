-- ===== src/Json/Finishes.antt =====
-- What parse of Plugins/FrameSolver/Standalone/v2/MiniJson.h gives: its fuel is enough, it reads no
-- further than its input, and its values are proper.
use architect_simulator.Base.{
  ℕ, zero, suc, ◌*◌, ◌<◌, ◌≤◌, Bool, true, false, ◌||◌, List, [], ◌∷◌, length, if◌then◌else◌, arith,
  ◌==◌,
}
use architect_simulator.Json.{parse_string}
use architect_simulator.Json.Number.{is_digit, parse_number}
use architect_simulator.Json.Lengths.{parse_number-Short}
use architect_simulator.Json.Value.{Json, Items, Fields, end, emplace}
use architect_simulator.Json.Proper.{IsProper, AreProper, emplace-Distinct, emplace-FieldsProper}
use architect_simulator.Json.Parse.{
  Outcome, stopped, max_json_depth, skip, string_outcome, number_outcome, parse_bool, parse_null,
  open_array, open_object, start_value, parse_value, parse_items, parse_fields, eat_trailing, parse,
}
use architect_simulator.Json.Outcomes.{
  Good, Good-then, Good-le, length-skip, Any, ProperFields, string_outcome-Good,
  number_outcome-Good, parse_bool-Good, parse_null-Good,
}
use architect_simulator.Json.Steps.{
  next_item-Good, open_array-Good, parse_string-ShortParsed, parse_key-Good, next_field-Good,
  open_object-Good,
}

module _ {D : Type 0} (strtod : List ℕ → D) (is_finite : D → Bool) where
  start_value-Good :
      (n depth : ℕ) (items : ℕ → List ℕ → Outcome (Items D))
      (fields : ℕ → Fields D → List ℕ → Outcome (Fields D)) (s : List ℕ)
      → length s ≤ n
      → ((cs : List ℕ)
          → suc depth ≤ max_json_depth
          → length cs < n
          → Good (length cs) (AreProper is_finite (suc depth)) (items (suc depth) cs))
      → ((cs : List ℕ)
          → suc depth ≤ max_json_depth
          → length cs < n
          → Good
              (length cs)
              (ProperFields strtod is_finite (suc depth))
              (fields (suc depth) end cs))
      → Good n (IsProper is_finite depth) (start_value strtod is_finite depth items fields s)
  unfolding start_value
  start_value-Good n depth items fields [] l f g = tt
  start_value-Good n depth items fields (c ∷ cs) l f g =
      go (c == 34) (c == 123) (c == 91) ((c == 116) || (c == 102)) (c == 110)
        ((c == 45) || is_digit c)
    where
      P : Json D → Type 0
      P = IsProper is_finite depth

      m : length (skip cs) ≤ length cs
      m = length-skip cs

      go :
          (quote brace bracket word nil minus : Bool)
          → Good n P (
              if quote
              then string_outcome strtod is_finite (parse_string (c ∷ cs))
              else if brace
              then open_object strtod is_finite depth fields (skip cs)
              else if bracket
              then open_array strtod is_finite depth items (skip cs)
              else if word
              then parse_bool strtod is_finite (c ∷ cs)
              else if nil
              then parse_null strtod is_finite (c ∷ cs)
              else if minus
              then number_outcome strtod is_finite (parse_number strtod is_finite (c ∷ cs))
              else stopped "unexpected character")
      go true a b w z d = Good-le (length cs) n P _ (omega (arith, l)) (
          string_outcome-Good strtod is_finite (length cs) depth _
            (parse_string-ShortParsed strtod is_finite c cs))
      go false true b w z d = Good-le (length (skip cs)) n P _ (omega (arith, l, m)) (
          open_object-Good strtod is_finite (length (skip cs)) depth fields (skip cs) (omega arith)
            (λ e cs' l'.
              Good-le (length cs') _ (ProperFields strtod is_finite (suc depth))
                (fields (suc depth) end cs') l' (g cs' e (omega (arith, l, m, l')))))
      go false false true w z d = Good-le (length (skip cs)) n P _ (omega (arith, l, m)) (
          open_array-Good strtod is_finite (length (skip cs)) depth items (skip cs) (omega arith)
            (λ e cs' l'.
              Good-le (length cs') _ (AreProper is_finite (suc depth)) (items (suc depth) cs') l'
                (f cs' e (omega (arith, l, m, l')))))
      go false false false true z d =
          Good-le (length (c ∷ cs)) n P _ l (parse_bool-Good strtod is_finite depth (c ∷ cs))
      go false false false false true d =
          Good-le (length (c ∷ cs)) n P _ l (parse_null-Good strtod is_finite depth (c ∷ cs))
      go false false false false false true = Good-le (length (c ∷ cs)) n P _ l (
          number_outcome-Good strtod is_finite (length (c ∷ cs)) depth _
            (parse_number-Short strtod is_finite (c ∷ cs)))
      go false false false false false false = tt

  mutual
    unfolding parse_value IsProper

    parse_value-Good :
        (fuel depth : ℕ) (s : List ℕ)
        → 2 * length s < fuel
        → Good (length s) (IsProper is_finite depth) (parse_value strtod is_finite fuel depth s)
    parse_value-Good zero depth s l = omega (arith, l)
    parse_value-Good (suc fuel) depth s l =
        start_value-Good (length s) depth (λ d. parse_items strtod is_finite fuel d)
          (λ d o. parse_fields strtod is_finite fuel d o) (skip s) (length-skip s)
          (λ cs d m. parse_items-Good fuel (suc depth) cs (omega (arith, l, m)))
          (λ cs d m. parse_fields-Good fuel (suc depth) end cs (tt, tt) (omega (arith, l, m)))

    parse_items-Good :
        (fuel depth : ℕ) (s : List ℕ)
        → suc (2 * length s) < fuel
        → Good (length s) (AreProper is_finite depth) (parse_items strtod is_finite fuel depth s)
    parse_items-Good zero depth s l = omega (arith, l)
    parse_items-Good (suc fuel) depth s l =
        Good-then (length s) (length s) (IsProper is_finite depth) (AreProper is_finite depth) _ _
          (parse_value-Good fuel depth s (omega (arith, l)))
          λ v rest m p.
            next_item-Good strtod is_finite (length s) depth v
              (λ cs. parse_items strtod is_finite fuel depth cs) (skip rest)
              (omega (arith, m, length-skip rest)) p
              λ cs k.
                Good-le (length cs) (length s) (AreProper is_finite depth) _ (omega (arith, k))
                  (parse_items-Good fuel depth cs (omega (arith, l, k)))

    parse_fields-Good :
        (fuel depth : ℕ) (o : Fields D) (s : List ℕ)
        → ProperFields strtod is_finite depth o
        → suc (2 * length s) < fuel
        → Good
            (length s)
            (ProperFields strtod is_finite depth)
            (parse_fields strtod is_finite fuel depth o s)
    parse_fields-Good zero depth o s p l = omega (arith, l)
    parse_fields-Good (suc fuel) depth o s p l =
        Good-then (length (skip s)) (length s) Any (ProperFields strtod is_finite depth) _ _
          (parse_key-Good strtod is_finite (skip s))
          λ k cs m u.
            Good-then (length cs) (length s) (IsProper is_finite depth)
              (ProperFields strtod is_finite depth) _ _
              (parse_value-Good fuel depth cs (omega (arith, l, m, length-skip s)))
              λ v rest m' q.
                next_field-Good strtod is_finite (length s) depth (emplace k v o)
                  (λ cs'. parse_fields strtod is_finite fuel depth (emplace k v o) cs') (skip rest)
                  (omega (arith, m, m', length-skip rest, length-skip s))
                  (emplace-FieldsProper is_finite depth k v o p.0 q, emplace-Distinct k v o p.1)
                  λ cs' j.
                    Good-le (length cs') (length s) (ProperFields strtod is_finite depth) _
                      (omega (arith, j))
                      (parse_fields-Good fuel depth (emplace k v o) cs'
                        (
                          emplace-FieldsProper is_finite depth k v o p.0 q,
                          emplace-Distinct k v o p.1,
                        )
                        (omega (arith, l, j)))

  eat_trailing-Good :
      (n : ℕ) (P : Json D → Type 0) (v : Json D) (s : List ℕ)
      → P v
      → Good 0 P (eat_trailing strtod is_finite v s)
  eat_trailing-Good n P v [] p = (omega arith, p)
  eat_trailing-Good n P v (c ∷ cs) p = tt

  -- For every input, of any bytes and any length, parse ends: its fuel is enough, so that it gives a
  -- value or a diagnostic. A value is given only where all the input was read; its integers are in the
  -- range of int64_t, its doubles are finite, the keys of each object are distinct, and no array or
  -- object stands inside more than 63 others.
  pub parse-Good : (s : List ℕ) → Good 0 (IsProper is_finite 0) (parse strtod is_finite s)
  unfolding parse
  parse-Good s =
      Good-then (length s) 0 (IsProper is_finite 0) (IsProper is_finite 0) _ _
        (parse_value-Good (suc (2 * length s)) 0 s (omega arith))
        (λ v rest l p. eat_trailing-Good 0 (IsProper is_finite 0) v (skip rest) p)
