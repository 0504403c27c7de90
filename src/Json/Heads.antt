-- ===== src/Json/Heads.antt =====
-- Which values of Plugins/FrameSolver/Standalone/v2/MiniJson.h read back, and how their texts start.
use Prim.Native.String.{String}
use architect_simulator.Base.{
  ◌≡◌, refl, ap, sym, ◌∙◌, ℕ, suc, ◌<◌, Bool, true, false, ◌||◌, List, [], ◌∷◌, ◌++◌, arith, ltb,
  ◌==◌,
}
use architect_simulator.Json.{dump_string}
use architect_simulator.Json.RoundTrip.{parse_string-dump_string}
use architect_simulator.Json.Number.{
  scanned, refused, Scan, Number, int, double, is_digit, parse_number, scan_signed, scan_whole,
}
use architect_simulator.Json.Integers.{Stops, IsInt64, parse_number-dump_int}
use architect_simulator.Json.Value.{
  Json, null, bool, number, string, array, object, Items, nil, cons, Fields, end, field, has_key,
  append, emplace, dump_number, dump,
}
use architect_simulator.Json.Proper.{Distinct}
use architect_simulator.Json.Parse.{
  Outcome, read, then_read, max_json_depth, is_space, skip, number_outcome, open_array, after_key,
  key_outcome, parse_key, start_value,
}

-- The first byte of a value's text: none of those that the parser skips, and not a closing bracket.
pub data Head : List ℕ → Type 0 where
  head : (c : ℕ) (cs : List ℕ) → is_space c ≡ false → (c == 93) ≡ false → Head (c ∷ cs)

pub skip-Head : (s : List ℕ) → Head s → skip s ≡ s
unfolding skip
skip-Head s (head c cs a b) = rw a refl

pub Head-append : (s rest : List ℕ) → Head s → Head (s ++ rest)
Head-append s rest (head c cs a b) = head c (cs ++ rest) a b

refused-scanned :
    {A : Type 0} {why : String} {a : A} {rest : List ℕ}
    → ◌≡◌ {A = Scan A} (refused why) (scanned a rest)
    → ⊥
refused-scanned e = ground (arith, e)

module _ {D : Type 0} (strtod : List ℕ → D) (is_finite : D → Bool) where
  parse_number-refused :
      (c : ℕ) (cs : List ℕ)
      → (c == 45) ≡ false
      → is_digit c ≡ false
      → parse_number strtod is_finite (c ∷ cs) ≡ refused "expected digit"
  unfolding parse_number scan_signed scan_whole
  parse_number-refused c cs a b = rw (a, b) refl

  starts_number :
      (c : ℕ) (cs rest : List ℕ) (n : Number D)
      → parse_number strtod is_finite (c ∷ cs) ≡ scanned n rest
      → (c == 45) || is_digit c ≡ true
  starts_number c cs rest n e = go (c == 45) (is_digit c) refl refl
    where
      go : (a b : Bool) → (c == 45) ≡ a → is_digit c ≡ b → a || b ≡ true
      go true b p q = refl
      go false true p q = refl
      go false false p q =
          let no : ◌≡◌ {A = Scan (Number D)} (refused "expected digit") (scanned n rest) =
            sym (parse_number-refused c cs p q) ∙ e in
          ground (arith, no)

  pub start_value-number :
      (depth c : ℕ) (cs : List ℕ) (items : ℕ → List ℕ → Outcome (Items D))
      (fields : ℕ → Fields D → List ℕ → Outcome (Fields D))
      → (c == 45) || is_digit c ≡ true
      → start_value strtod is_finite depth items fields (c ∷ cs)
        ≡ number_outcome strtod is_finite (parse_number strtod is_finite (c ∷ cs))
  unfolding start_value
  start_value-number depth c cs items fields h =
      let a : (c == 34) ≡ false = ground (arith, h) in
      let b : (c == 123) ≡ false = ground (arith, h) in
      let d : (c == 91) ≡ false = ground (arith, h) in
      let e : (c == 116) || (c == 102) ≡ false = ground (arith, h) in
      let f : (c == 110) ≡ false = ground (arith, h) in rw (a, b, d, e, f, h) refl

  pub open_array-Head :
      (depth : ℕ) (items : ℕ → List ℕ → Outcome (Items D)) (s : List ℕ)
      → Head s
      → depth < max_json_depth
      → open_array strtod is_finite depth items s
        ≡ then_read (items (suc depth) s) (λ vs rest. read (array vs) rest)
  unfolding open_array
  open_array-Head depth items s (head c cs a b) l =
      let deep : ltb max_json_depth (suc depth) ≡ false = ground (arith, l) in rw (deep, b) refl

  pub parse_key-dump_string :
      (k s : List ℕ) → parse_key strtod is_finite (dump_string k ++ 58 ∷ s) ≡ read k s
  unfolding parse_key dump_string skip after_key
  parse_key-dump_string k s =
      ap (key_outcome strtod is_finite) (parse_string-dump_string k (58 ∷ s))

  pub emplace-new :
      (k : List ℕ) (v : Json D) (fs : Fields D)
      → has_key k fs ≡ false
      → emplace k v fs ≡ append fs (field k v end)
  unfolding emplace
  emplace-new k v fs e = rw e refl

  module _ (format : D → List ℕ) where
    -- What a number is printed as is read as that number. An integral double is not such a number, since
    -- "%.17g" leaves the point out.
    abbrev pub ReadsBack : D → Type 0
    ReadsBack d =
        (rest : List ℕ)
        → Stops rest
        → parse_number strtod is_finite (format d ++ rest) ≡ scanned (double d) rest

    abbrev pub NumberReads : Number D → Type 0
    NumberReads (int z) = IsInt64 z
    NumberReads (double d) = ReadsBack d

    -- A value inside so many arrays and objects that keeps within the bounds of the parser.
    unfoldable mutual
      pub IsReadable : ℕ → Json D → Type 0
      IsReadable depth null = Unit
      IsReadable depth (bool b) = Unit
      IsReadable depth (number n) = NumberReads n
      IsReadable depth (string s) = Unit
      IsReadable depth (array xs) = (depth < max_json_depth) × AreReadable (suc depth) xs
      IsReadable depth (object fs) =
          (depth < max_json_depth) × FieldsReadable (suc depth) fs × Distinct fs

      pub AreReadable : ℕ → Items D → Type 0
      AreReadable depth nil = Unit
      AreReadable depth (cons x xs) = IsReadable depth x × AreReadable depth xs

      pub FieldsReadable : ℕ → Fields D → Type 0
      FieldsReadable depth end = Unit
      FieldsReadable depth (field k v fs) = IsReadable depth v × FieldsReadable depth fs

    pub parse_number-dump_number :
        (n : Number D) (rest : List ℕ)
        → NumberReads n
        → Stops rest
        → parse_number strtod is_finite (dump_number format n ++ rest) ≡ scanned n rest
    unfolding dump_number
    parse_number-dump_number (int z) rest h s = parse_number-dump_int strtod is_finite z rest h s
    parse_number-dump_number (double d) rest h s = h rest s

    -- The text of a number starts with a digit or a minus sign.
    pub data NumberHead : List ℕ → Type 0 where
      starts : (c : ℕ) (cs : List ℕ) → (c == 45) || is_digit c ≡ true → NumberHead (c ∷ cs)

    pub dump_number-NumberHead : (n : Number D) → NumberReads n → NumberHead (dump_number format n)
    unfolding parse_number
    dump_number-NumberHead n h = go (dump_number format n) (parse_number-dump_number n [] h tt)
      where
        go : (s : List ℕ) → parse_number strtod is_finite (s ++ []) ≡ scanned n [] → NumberHead s
        go [] e = elim (refused-scanned e) [ ]
        go (c ∷ cs) e = starts c cs (starts_number c (cs ++ []) [] n e)

    pub NumberHead-Head : (s : List ℕ) → NumberHead s → Head s
    NumberHead-Head s (starts c cs h) = head c cs (ground (arith, h)) (ground (arith, h))

    pub dump-Head : (v : Json D) (depth : ℕ) → IsReadable depth v → Head (dump format v)
    unfolding dump IsReadable dump_string
    dump-Head null depth h = head 110 _ refl refl
    dump-Head (bool true) depth h = head 116 _ refl refl
    dump-Head (bool false) depth h = head 102 _ refl refl
    dump-Head (number n) depth h = NumberHead-Head _ (dump_number-NumberHead n h)
    dump-Head (string s) depth h = head 34 _ refl refl
    dump-Head (array nil) depth h = head 91 _ refl refl
    dump-Head (array (cons x xs)) depth h = head 91 _ refl refl
    dump-Head (object end) depth h = head 123 _ refl refl
    dump-Head (object (field k v fs)) depth h = head 123 _ refl refl
