-- ===== src/Json/Texts.antt =====
-- The texts that Json::dump of Plugins/FrameSolver/Standalone/v2/MiniJson.h writes, and the steps of the
-- parser on them.
use architect_simulator.Base.{
  ◌≡◌, refl, ap, ◌∙◌, ℕ, suc, ◌<◌, Bool, true, false, List, [], ◌∷◌, ◌++◌, append_assoc, arith, ltb,
}
use architect_simulator.Json.{dump_string}
use architect_simulator.Json.RoundTrip.{parse_string-dump_string}
use architect_simulator.Json.Number.{scanned, Number, parse_number}
use architect_simulator.Json.Integers.{Stops}
use architect_simulator.Json.Value.{
  Json, null, bool, number, string, array, object, Items, nil, cons, Fields, end, field, emplace,
  dump_number, dump, dump_items, dump_fields,
}
use architect_simulator.Json.Parse.{
  Outcome, read, then_read, max_json_depth, skip, string_outcome, number_outcome, parse_bool,
  parse_null, next_item, open_array, next_field, open_object, start_value, parse_value, parse_items,
  parse_fields,
}
use architect_simulator.Json.Heads.{
  starts, Head, skip-Head, Head-append, start_value-number, open_array-Head, parse_key-dump_string,
  NumberReads, parse_number-dump_number, NumberHead, dump_number-NumberHead, NumberHead-Head,
}

module _ {D : Type 0} (strtod : List ℕ → D) (is_finite : D → Bool) where
  module _ (format : D → List ℕ) where
    pub number_read :
        (fuel depth : ℕ) (n : Number D) (rest : List ℕ)
        → NumberReads strtod is_finite format n
        → Stops rest
        → parse_value strtod is_finite (suc fuel) depth (dump format (number n) ++ rest)
          ≡ read (number n) rest
    unfolding parse_value dump
    number_read fuel depth n rest h s =
        rw
          (skip-Head _ (
            Head-append _ rest (
              NumberHead-Head strtod is_finite format _
                (dump_number-NumberHead strtod is_finite format n h))))
          (go (dump_number format n) (dump_number-NumberHead strtod is_finite format n h)
            (parse_number-dump_number strtod is_finite format n rest h s))
      where
        go :
            (t : List ℕ)
            → NumberHead strtod is_finite format t
            → parse_number strtod is_finite (t ++ rest) ≡ scanned n rest
            → start_value strtod is_finite depth
                (λ d. parse_items strtod is_finite fuel d)
                (λ d o. parse_fields strtod is_finite fuel d o)
                (t ++ rest)
              ≡ read (number n) rest
        go t (starts c cs h) e =
            start_value-number strtod is_finite depth c (cs ++ rest)
              (λ d. parse_items strtod is_finite fuel d)
              (λ d o. parse_fields strtod is_finite fuel d o) h
            ∙ ap (number_outcome strtod is_finite) e

    pub string-read :
        (fuel depth : ℕ) (t rest : List ℕ)
        → parse_value strtod is_finite (suc fuel) depth (dump format (string t) ++ rest)
          ≡ read (string t) rest
    unfolding parse_value dump dump_string skip start_value
    string-read fuel depth t rest =
        ap (string_outcome strtod is_finite) (parse_string-dump_string t rest)

    pub dump_array :
        (x : Json D) (xs : Items D) (rest : List ℕ)
        → dump format (array (cons x xs)) ++ rest
          ≡ 91 ∷ dump format x ++ (dump_items format xs ++ 93 ∷ rest)
    unfolding dump
    dump_array x xs rest =
        append_assoc (91 ∷ dump format x) (dump_items format xs ++ 93 ∷ []) rest
        ∙ ap (λ t. 91 ∷ dump format x ++ t) (append_assoc (dump_items format xs) (93 ∷ []) rest)

    pub dump_object :
        (k : List ℕ) (v : Json D) (fs : Fields D) (rest : List ℕ)
        → dump format (object (field k v fs)) ++ rest
          ≡ 123 ∷ dump_string k ++ (58 ∷ dump format v ++ (dump_fields format fs ++ 125 ∷ rest))
    unfolding dump
    dump_object k v fs rest =
        append_assoc (123 ∷ dump_string k)
          (58 ∷ dump format v ++ (dump_fields format fs ++ 125 ∷ [])) rest
        ∙ ap (λ t. 123 ∷ dump_string k ++ t)
            (append_assoc (58 ∷ dump format v) (dump_fields format fs ++ 125 ∷ []) rest
              ∙ ap (λ t. 58 ∷ dump format v ++ t)
                  (append_assoc (dump_fields format fs) (125 ∷ []) rest))

    pub dump_items_rest :
        (x : Json D) (xs : Items D) (rest : List ℕ)
        → dump_items format (cons x xs) ++ rest
          ≡ 44 ∷ dump format x ++ (dump_items format xs ++ rest)
    unfolding dump
    dump_items_rest x xs rest = append_assoc (44 ∷ dump format x) (dump_items format xs) rest

    pub dump_fields_rest :
        (k : List ℕ) (v : Json D) (fs : Fields D) (rest : List ℕ)
        → dump_fields format (field k v fs) ++ rest
          ≡ 44 ∷ dump_string k ++ (58 ∷ dump format v ++ (dump_fields format fs ++ rest))
    unfolding dump
    dump_fields_rest k v fs rest =
        append_assoc (44 ∷ dump_string k) (58 ∷ dump format v ++ dump_fields format fs) rest
        ∙ ap (λ t. 44 ∷ dump_string k ++ t)
            (append_assoc (58 ∷ dump format v) (dump_fields format fs) rest)

    pub dump_items_nil : (rest : List ℕ) → dump_items format nil ++ rest ≡ rest
    unfolding dump
    dump_items_nil rest = refl

    pub dump_fields_end : (rest : List ℕ) → dump_fields format end ++ rest ≡ rest
    unfolding dump
    dump_fields_end rest = refl

    -- An array whose items are read, and an object whose fields are.
    pub array-read :
        (fuel depth : ℕ) (s rest : List ℕ) (xs : Items D)
        → Head s
        → depth < max_json_depth
        → parse_items strtod is_finite fuel (suc depth) s ≡ read xs rest
        → parse_value strtod is_finite (suc fuel) depth (91 ∷ s) ≡ read (array xs) rest
    unfolding parse_value start_value skip
    array-read fuel depth s rest xs h l e =
        ap (open_array strtod is_finite depth (λ d. parse_items strtod is_finite fuel d))
          (skip-Head s h)
        ∙ open_array-Head strtod is_finite depth (λ d. parse_items strtod is_finite fuel d) s h l
        ∙ ap (λ o. then_read o (λ vs r. read (array vs) r)) e

    pub object-read :
        (fuel depth : ℕ) (s rest : List ℕ) (fs : Fields D)
        → depth < max_json_depth
        → parse_fields strtod is_finite fuel (suc depth) end (34 ∷ s) ≡ read fs rest
        → parse_value strtod is_finite (suc fuel) depth (123 ∷ 34 ∷ s) ≡ read (object fs) rest
    unfolding parse_value start_value skip open_object
    object-read fuel depth s rest fs l e =
        let deep : ltb max_json_depth (suc depth) ≡ false = ground (arith, l) in
        rw deep (ap (λ o. then_read o (λ vs r. read (object vs) r)) e)

    pub items-last :
        (fuel depth : ℕ) (s rest : List ℕ) (x : Json D)
        → parse_value strtod is_finite fuel depth s ≡ read x (93 ∷ rest)
        → parse_items strtod is_finite (suc fuel) depth s ≡ read (cons x nil) rest
    unfolding parse_value next_item skip
    items-last fuel depth s rest x e = rw e refl

    pub items-more :
        (fuel depth : ℕ) (s t rest : List ℕ) (x : Json D) (xs : Items D)
        → parse_value strtod is_finite fuel depth s ≡ read x (44 ∷ t)
        → parse_items strtod is_finite fuel depth t ≡ read xs rest
        → parse_items strtod is_finite (suc fuel) depth s ≡ read (cons x xs) rest
    unfolding parse_value next_item skip
    items-more fuel depth s t rest x xs e f = rw (e, f) refl

    key-skip : (k s : List ℕ) → skip (dump_string k ++ 58 ∷ s) ≡ dump_string k ++ 58 ∷ s
    unfolding dump_string skip
    key-skip k s = refl

    pub fields-last :
        (fuel depth : ℕ) (k s rest : List ℕ) (v : Json D) (acc : Fields D)
        → parse_value strtod is_finite fuel depth s ≡ read v (125 ∷ rest)
        → parse_fields strtod is_finite (suc fuel) depth acc (dump_string k ++ 58 ∷ s)
          ≡ read (emplace k v acc) rest
    unfolding parse_value next_field skip
    fields-last fuel depth k s rest v acc e =
        rw (key-skip k s, parse_key-dump_string strtod is_finite k s, e) refl

    pub fields-more :
        (fuel depth : ℕ) (k s t : List ℕ) (v : Json D) (acc : Fields D) (o : Outcome (Fields D))
        → parse_value strtod is_finite fuel depth s ≡ read v (44 ∷ t)
        → parse_fields strtod is_finite fuel depth (emplace k v acc) t ≡ o
        → parse_fields strtod is_finite (suc fuel) depth acc (dump_string k ++ 58 ∷ s) ≡ o
    unfolding parse_value next_field skip
    fields-more fuel depth k s t v acc o e f =
        rw (key-skip k s, parse_key-dump_string strtod is_finite k s, e) f

    -- The texts that hold no others.
    pub null-read :
        (fuel depth : ℕ) (rest : List ℕ)
        → parse_value strtod is_finite (suc fuel) depth (dump format null ++ rest) ≡ read null rest
    unfolding parse_value start_value skip parse_null dump
    null-read fuel depth rest = refl

    pub bool-read :
        (b : Bool) (fuel depth : ℕ) (rest : List ℕ)
        → parse_value strtod is_finite (suc fuel) depth (dump format (bool b) ++ rest)
          ≡ read (bool b) rest
    unfolding parse_value start_value skip parse_bool dump
    bool-read true fuel depth rest = refl
    bool-read false fuel depth rest = refl

    pub nil-read :
        (fuel depth : ℕ) (rest : List ℕ)
        → depth < max_json_depth
        → parse_value strtod is_finite (suc fuel) depth (dump format (array nil) ++ rest)
          ≡ read (array nil) rest
    unfolding parse_value start_value skip open_array dump
    nil-read fuel depth rest l =
        let deep : ltb max_json_depth (suc depth) ≡ false = ground (arith, l) in rw deep refl

    pub end-read :
        (fuel depth : ℕ) (rest : List ℕ)
        → depth < max_json_depth
        → parse_value strtod is_finite (suc fuel) depth (dump format (object end) ++ rest)
          ≡ read (object end) rest
    unfolding parse_value start_value skip open_object dump
    end-read fuel depth rest l =
        let deep : ltb max_json_depth (suc depth) ≡ false = ground (arith, l) in rw deep refl
