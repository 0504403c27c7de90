-- ===== src/Json/Parse.antt =====
-- Json::parse of Plugins/FrameSolver/Standalone/v2/MiniJson.h: parseValue, parseObject and parseArray
-- with the depth that they count. The recursion takes fuel, and running out of it is an outcome of
-- its own; parse gives two units for each byte and one more. `strtod` and `isfinite` are parameters.
use Prim.Native.String.{String}
use architect_simulator.Base.{
  ℕ, zero, suc, ◌*◌, Bool, Option, none, some, true, false, ◌||◌, List, [], ◌∷◌, length,
  if◌then◌else◌, ltb, ◌==◌,
}
use architect_simulator.Json.{Parsed, parsed, failed, parse_string}
use architect_simulator.Json.Number.{Scan, scanned, refused, Number, is_digit, parse_number}
use architect_simulator.Json.Value.{
  Json, null, bool, number, string, array, object, Items, nil, cons, Fields, end, emplace,
}

pub data Outcome (A : Type 0) : Type 0 where
  read : A → List ℕ → Outcome A
  stopped : String → Outcome A
  unfinished : Outcome A

abbrev pub then_read : {A B : Type 0} → Outcome A → (A → List ℕ → Outcome B) → Outcome B
then_read (read a rest) f = f a rest
then_read (stopped why) f = stopped why
then_read unfinished f = unfinished

abbrev pub max_json_depth : ℕ
max_json_depth = 64

abbrev pub is_space : ℕ → Bool
is_space c = (c == 32) || (c == 9) || (c == 10) || (c == 13)

unfoldable pub skip : List ℕ → List ℕ
skip [] = []
skip (c ∷ cs) = let more = skip cs in if is_space c then more else c ∷ cs

-- memcmp of a word with the bytes that are left; what follows the word.
unfoldable pub strip : List ℕ → List ℕ → Option (List ℕ)
strip [] cs = some cs
strip (w ∷ ws) [] = none
strip (w ∷ ws) (c ∷ cs) = let more = strip ws cs in if w == c then more else none

abbrev pub or_stop : {A : Type 0} → A → Option (List ℕ) → Outcome A → Outcome A
or_stop a (some rest) otherwise = read a rest
or_stop a none otherwise = otherwise

module _ {D : Type 0} (strtod : List ℕ → D) (is_finite : D → Bool) where
  abbrev pub string_outcome : Parsed → Outcome (Json D)
  string_outcome (parsed s rest) = read (string s) rest
  string_outcome (failed why) = stopped why

  abbrev pub number_outcome : Scan (Number D) → Outcome (Json D)
  number_outcome (scanned n rest) = read (number n) rest
  number_outcome (refused why) = stopped why

  unfoldable pub parse_bool : List ℕ → Outcome (Json D)
  unfolding strip
  parse_bool cs = or_stop (bool true) (strip (116 ∷ 114 ∷ 117 ∷ 101 ∷ []) cs) (
      or_stop (bool false) (strip (102 ∷ 97 ∷ 108 ∷ 115 ∷ 101 ∷ []) cs)
        (stopped "expected 'true' or 'false'"))

  unfoldable pub parse_null : List ℕ → Outcome (Json D)
  unfolding strip
  parse_null cs = or_stop null (strip (110 ∷ 117 ∷ 108 ∷ 108 ∷ []) cs) (stopped "expected 'null'")

  -- What stands at the top of the loop of parseArray, or its end, after an item.
  unfoldable pub next_item : Json D → (List ℕ → Outcome (Items D)) → List ℕ → Outcome (Items D)
  next_item v items [] = stopped "unterminated array"
  next_item v items (c ∷ cs) =
      if c == 44
      then then_read (items cs) (λ vs rest. read (cons v vs) rest)
      else if c == 93
      then read (cons v nil) cs
      else stopped "expected ',' or ']'"

  unfoldable pub open_array : ℕ → (ℕ → List ℕ → Outcome (Items D)) → List ℕ → Outcome (Json D)
  open_array depth items [] =
      if ltb max_json_depth (suc depth)
      then stopped "JSON nesting too deep"
      else then_read (items (suc depth) []) (λ vs rest. read (array vs) rest)
  open_array depth items (c ∷ cs) =
      if ltb max_json_depth (suc depth)
      then stopped "JSON nesting too deep"
      else if c == 93
      then read (array nil) cs
      else then_read (items (suc depth) (c ∷ cs)) (λ vs rest. read (array vs) rest)

  -- The colon after a key.
  unfoldable pub after_key : List ℕ → Outcome Unit
  after_key [] = stopped "expected ':' after key"
  after_key (c ∷ cs) = if c == 58 then read tt cs else stopped "expected ':' after key"

  abbrev pub key_outcome : Parsed → Outcome (List ℕ)
  key_outcome (failed why) = stopped why
  key_outcome (parsed k rest) = then_read (after_key (skip rest)) (λ u cs. read k cs)

  unfoldable pub parse_key : List ℕ → Outcome (List ℕ)
  unfolding skip parse_string after_key
  parse_key [] = stopped "expected string key"
  parse_key (c ∷ cs) =
      if c == 34 then key_outcome (parse_string (c ∷ cs)) else stopped "expected string key"

  unfoldable pub next_field : Fields D → (List ℕ → Outcome (Fields D)) → List ℕ → Outcome (Fields D)
  next_field o fields [] = stopped "unterminated object"
  next_field o fields (c ∷ cs) =
      if c == 44 then fields cs else if c == 125 then read o cs else stopped "expected ',' or '}'"

  unfoldable pub open_object :
      ℕ → (ℕ → Fields D → List ℕ → Outcome (Fields D)) → List ℕ → Outcome (Json D)
  open_object depth fields [] =
      if ltb max_json_depth (suc depth)
      then stopped "JSON nesting too deep"
      else then_read (fields (suc depth) end []) (λ o rest. read (object o) rest)
  open_object depth fields (c ∷ cs) =
      if ltb max_json_depth (suc depth)
      then stopped "JSON nesting too deep"
      else if c == 125
      then read (object end) cs
      else then_read (fields (suc depth) end (c ∷ cs)) (λ o rest. read (object o) rest)

  -- parseValue at the first byte that is no space.
  unfoldable pub start_value :
      ℕ
      → (ℕ → List ℕ → Outcome (Items D))
      → (ℕ → Fields D → List ℕ → Outcome (Fields D))
      → List ℕ
      → Outcome (Json D)
  unfolding skip parse_string parse_bool parse_null parse_number open_array open_object
  start_value depth items fields [] = stopped "unexpected EOF"
  start_value depth items fields (c ∷ cs) =
      if c == 34
      then string_outcome (parse_string (c ∷ cs))
      else if c == 123
      then open_object depth fields (skip cs)
      else if c == 91
      then open_array depth items (skip cs)
      else if (c == 116) || (c == 102)
      then parse_bool (c ∷ cs)
      else if c == 110
      then parse_null (c ∷ cs)
      else if (c == 45) || is_digit c
      then number_outcome (parse_number strtod is_finite (c ∷ cs))
      else stopped "unexpected character"

  -- The loops of parseArray and parseObject are parse_items and parse_fields, whose depth is that of
  -- what they are in; a field's key is added to what is there when its value is read.
  unfoldable mutual
    unfolding start_value next_item parse_key next_field emplace skip

    pub parse_value : ℕ → ℕ → List ℕ → Outcome (Json D)
    parse_value zero depth s = unfinished
    parse_value (suc fuel) depth s =
        start_value depth (λ d. parse_items fuel d) (λ d o. parse_fields fuel d o) (skip s)

    pub parse_items : ℕ → ℕ → List ℕ → Outcome (Items D)
    parse_items zero depth s = unfinished
    parse_items (suc fuel) depth s =
        then_read (parse_value fuel depth s)
          λ v rest. next_item v (λ cs. parse_items fuel depth cs) (skip rest)

    pub parse_fields : ℕ → ℕ → Fields D → List ℕ → Outcome (Fields D)
    parse_fields zero depth o s = unfinished
    parse_fields (suc fuel) depth o s = then_read (parse_key (skip s)) λ k cs.
        then_read (parse_value fuel depth cs) λ v rest.
          next_field (emplace k v o) (λ cs'. parse_fields fuel depth (emplace k v o) cs')
            (skip rest)

  abbrev pub eat_trailing : Json D → List ℕ → Outcome (Json D)
  eat_trailing v [] = read v []
  eat_trailing v (c ∷ cs) = stopped "trailing data after JSON value"

  unfoldable pub parse : List ℕ → Outcome (Json D)
  unfolding parse_value skip
  parse s = then_read (parse_value (suc (2 * length s)) 0 s) (λ v rest. eat_trailing v (skip rest))
