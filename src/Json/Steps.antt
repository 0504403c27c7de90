-- ===== src/Json/Steps.antt =====
-- The steps of parseArray and parseObject of Plugins/FrameSolver/Standalone/v2/MiniJson.h.
use architect_simulator.Base.{
  ◌≡◌, refl, ℕ, suc, ◌<◌, ◌≤◌, Bool, true, false, List, [], ◌∷◌, length, if◌then◌else◌, arith, ltb,
  ◌==◌,
}
use architect_simulator.Json.{Parsed, parsed, failed, plain, parse_string}
use architect_simulator.Json.Strings.{ShortParsed, read_string-ShortParsed}
use architect_simulator.Json.Value.{Json, array, object, Items, nil, cons, Fields, end}
use architect_simulator.Json.Proper.{IsProper, AreProper}
use architect_simulator.Json.Parse.{
  Outcome, read, stopped, then_read, max_json_depth, skip, next_item, open_array, after_key,
  key_outcome, parse_key, next_field, open_object,
}
use architect_simulator.Json.Outcomes.{Good, Good-then, Good-le, length-skip, Any, ProperFields}

module _ {D : Type 0} (strtod : List ℕ → D) (is_finite : D → Bool) where
  pub next_item-Good :
      (n depth : ℕ) (v : Json D) (items : List ℕ → Outcome (Items D)) (s : List ℕ)
      → length s ≤ n
      → IsProper is_finite depth v
      → ((cs : List ℕ) → length cs < n → Good n (AreProper is_finite depth) (items cs))
      → Good n (AreProper is_finite depth) (next_item strtod is_finite v items s)
  unfolding next_item IsProper
  next_item-Good n depth v items [] l p f = tt
  next_item-Good n depth v items (c ∷ cs) l p f = go (c == 44) (c == 93)
    where
      go :
          (a b : Bool)
          → Good n (AreProper is_finite depth) (
              if a
              then then_read (items cs) (λ vs rest. read (cons v vs) rest)
              else if b
              then read (cons v nil) cs
              else stopped "expected ',' or ']'")
      go true b =
          Good-then n n (AreProper is_finite depth) (AreProper is_finite depth) (items cs) _
            (f cs (omega (arith, l))) (λ vs rest m h. (m, (p, h)))
      go false true = (omega (arith, l), (p, tt))
      go false false = tt

  pub open_array-Good :
      (n depth : ℕ) (items : ℕ → List ℕ → Outcome (Items D)) (s : List ℕ)
      → length s ≤ n
      → (suc depth ≤ max_json_depth
          → (cs : List ℕ) → length cs ≤ n
          → Good n (AreProper is_finite (suc depth)) (items (suc depth) cs))
      → Good n (IsProper is_finite depth) (open_array strtod is_finite depth items s)
  unfolding open_array IsProper
  open_array-Good n depth items s l f = go s l (ltb max_json_depth (suc depth)) refl
    where
      whole :
          (cs : List ℕ)
          → length cs ≤ n
          → suc depth ≤ max_json_depth
          → Good n
              (IsProper is_finite depth)
              (then_read (items (suc depth) cs) (λ vs rest. read (array vs) rest))
      whole cs l d =
          Good-then n n (AreProper is_finite (suc depth)) (IsProper is_finite depth)
            (items (suc depth) cs) _ (f d cs l) (λ vs rest m h. (m, (omega (arith, d), h)))

      close :
          (c : ℕ) (cs : List ℕ) (b : Bool)
          → suc (length cs) ≤ n
          → suc depth ≤ max_json_depth
          → Good n (IsProper is_finite depth) (
              if b
              then read (array nil) cs
              else then_read (items (suc depth) (c ∷ cs)) (λ vs rest. read (array vs) rest))
      close c cs true l d = (omega (arith, l), (omega (arith, d), tt))
      close c cs false l d = whole (c ∷ cs) l d

      go :
          (s : List ℕ)
          → length s ≤ n
          → (b : Bool) → ltb max_json_depth (suc depth) ≡ b
          → Good n (IsProper is_finite depth) (open_array strtod is_finite depth items s)
      go [] l true e = rw e tt
      go [] l false e = rw e (whole [] l (ground (arith, e)))
      go (c ∷ cs) l true e = rw e tt
      go (c ∷ cs) l false e = rw e (close c cs (c == 93) l (ground (arith, e)))

  after_key-Good : (s : List ℕ) → Good (length s) Any (after_key strtod is_finite s)
  unfolding after_key
  after_key-Good [] = tt
  after_key-Good (c ∷ cs) = go (c == 58)
    where
      go :
          (b : Bool)
          → Good (suc (length cs)) Any (if b then read tt cs else stopped "expected ':' after key")
      go true = (omega arith, tt)
      go false = tt

  key_outcome-Good :
      (n : ℕ) (p : Parsed) → ShortParsed n p → Good n Any (key_outcome strtod is_finite p)
  key_outcome-Good n (failed why) h = tt
  key_outcome-Good n (parsed k rest) h =
      Good-then (length (skip rest)) n Any Any (after_key strtod is_finite (skip rest)) _
        (after_key-Good (skip rest)) (λ u cs l a. (omega (arith, l, h, length-skip rest), tt))

  pub parse_string-ShortParsed :
      (c : ℕ) (cs : List ℕ) → ShortParsed (length cs) (parse_string (c ∷ cs))
  unfolding parse_string
  parse_string-ShortParsed c cs = read_string-ShortParsed plain cs

  pub parse_key-Good : (s : List ℕ) → Good (length s) Any (parse_key strtod is_finite s)
  unfolding parse_key
  parse_key-Good [] = tt
  parse_key-Good (c ∷ cs) = go (c == 34)
    where
      go :
          (b : Bool)
          → Good (suc (length cs)) Any (
              if b
              then key_outcome strtod is_finite (parse_string (c ∷ cs))
              else stopped "expected string key")
      go true =
          Good-le (length cs) _ Any (key_outcome strtod is_finite (parse_string (c ∷ cs)))
            (omega arith) (key_outcome-Good (length cs) _ (parse_string-ShortParsed c cs))
      go false = tt

  pub next_field-Good :
      (n depth : ℕ) (o : Fields D) (fields : List ℕ → Outcome (Fields D)) (s : List ℕ)
      → length s ≤ n
      → ProperFields strtod is_finite depth o
      → ((cs : List ℕ) → length cs < n → Good n (ProperFields strtod is_finite depth) (fields cs))
      → Good n (ProperFields strtod is_finite depth) (next_field strtod is_finite o fields s)
  unfolding next_field
  next_field-Good n depth o fields [] l p f = tt
  next_field-Good n depth o fields (c ∷ cs) l p f = go (c == 44) (c == 125)
    where
      go :
          (a b : Bool)
          → Good n
              (ProperFields strtod is_finite depth)
              (if a then fields cs else if b then read o cs else stopped "expected ',' or '}'")
      go true b = f cs (omega (arith, l))
      go false true = (omega (arith, l), p)
      go false false = tt

  pub open_object-Good :
      (n depth : ℕ) (fields : ℕ → Fields D → List ℕ → Outcome (Fields D)) (s : List ℕ)
      → length s ≤ n
      → (suc depth ≤ max_json_depth
          → (cs : List ℕ) → length cs ≤ n
          → Good n (ProperFields strtod is_finite (suc depth)) (fields (suc depth) end cs))
      → Good n (IsProper is_finite depth) (open_object strtod is_finite depth fields s)
  unfolding open_object IsProper
  open_object-Good n depth fields s l f = go s l (ltb max_json_depth (suc depth)) refl
    where
      whole :
          (cs : List ℕ)
          → length cs ≤ n
          → suc depth ≤ max_json_depth
          → Good n
              (IsProper is_finite depth)
              (then_read (fields (suc depth) end cs) (λ o rest. read (object o) rest))
      whole cs l d =
          Good-then n n (ProperFields strtod is_finite (suc depth)) (IsProper is_finite depth)
            (fields (suc depth) end cs) _ (f d cs l)
            (λ o rest m h. (m, (omega (arith, d), h.0, h.1)))

      close :
          (c : ℕ) (cs : List ℕ) (b : Bool)
          → suc (length cs) ≤ n
          → suc depth ≤ max_json_depth
          → Good n (IsProper is_finite depth) (
              if b
              then read (object end) cs
              else then_read (fields (suc depth) end (c ∷ cs)) (λ o rest. read (object o) rest))
      close c cs true l d = (omega (arith, l), (omega (arith, d), tt, tt))
      close c cs false l d = whole (c ∷ cs) l d

      go :
          (s : List ℕ)
          → length s ≤ n
          → (b : Bool) → ltb max_json_depth (suc depth) ≡ b
          → Good n (IsProper is_finite depth) (open_object strtod is_finite depth fields s)
      go [] l true e = rw e tt
      go [] l false e = rw e (whole [] l (ground (arith, e)))
      go (c ∷ cs) l true e = rw e tt
      go (c ∷ cs) l false e = rw e (close c cs (c == 125) l (ground (arith, e)))
