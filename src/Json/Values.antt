-- ===== src/Json/Values.antt =====
-- Whole values of Plugins/FrameSolver/Standalone/v2/MiniJson.h are read back as dump writes them.
use architect_simulator.Base.{
  ◌≡◌, refl, ap, sym, ◌∙◌, subst, ℕ, zero, suc, ◌*◌, ◌<◌, Bool, List, [], ◌∷◌, ◌++◌, length,
  length-append, append-nil, arith,
}
use architect_simulator.Json.{dump_string, dump_chars}
use architect_simulator.Json.Integers.{Stops}
use architect_simulator.Json.Value.{
  Json, null, bool, number, string, array, object, Items, nil, cons, Fields, end, field, append,
  dump, dump_items, dump_fields,
}
use architect_simulator.Json.Proper.{Distinct, Distinct-append, append_assoc}
use architect_simulator.Json.Parse.{
  read, max_json_depth, parse_value, parse_items, parse_fields, parse, skip,
}
use architect_simulator.Json.Heads.{
  IsReadable, AreReadable, FieldsReadable, dump-Head, emplace-new, Head-append,
}
use architect_simulator.Json.Texts.{
  number_read, string-read, dump_array, dump_object, dump_items_rest, dump_fields_rest,
  dump_items_nil, dump_fields_end, array-read, object-read, null-read, bool-read, nil-read,
  end-read, items-last, items-more, fields-last, fields-more,
}

no_fuel : {A : Type 0} {n : ℕ} → n < 0 → A
no_fuel l = elim (nothing l) [ ]
  where
    nothing : {n : ℕ} → n < 0 → ⊥
    nothing l = omega (arith, l)

module _ {D : Type 0} (strtod : List ℕ → D) (is_finite : D → Bool) (format : D → List ℕ) where
  abbrev Readable : ℕ → Json D → Type 0
  Readable = IsReadable strtod is_finite format

  -- Enough fuel for the text of a value.
  abbrev Enough : ℕ → List ℕ → Type 0
  Enough fuel s = 2 * length s < fuel

  abbrev IsCons : Items D → Type 0
  IsCons nil = ⊥
  IsCons (cons x xs) = Unit

  abbrev IsField : Fields D → Type 0
  IsField end = ⊥
  IsField (field k v fs) = Unit

  -- What the loops of parseArray and parseObject start at.
  unfoldable items_text : Items D → List ℕ → List ℕ
  items_text nil rest = 93 ∷ rest
  items_text (cons x xs) rest = dump format x ++ (dump_items format xs ++ 93 ∷ rest)

  unfoldable fields_text : Fields D → List ℕ → List ℕ
  fields_text end rest = 125 ∷ rest
  fields_text (field k v fs) rest =
      dump_string k ++ (58 ∷ dump format v ++ (dump_fields format fs ++ 125 ∷ rest))

  length-key : (k s : List ℕ) → suc (suc (length s)) < length (dump_string k ++ 58 ∷ s)
  unfolding dump_string
  length-key k s =
      omega
        (arith, length-append (dump_string k) (58 ∷ s), length-append (34 ∷ dump_chars k) (34 ∷ []))

  object_text-read :
      (k : List ℕ) (fuel depth : ℕ) (s rest : List ℕ) (fs : Fields D)
      → depth < max_json_depth
      → parse_fields strtod is_finite fuel (suc depth) end (dump_string k ++ s) ≡ read fs rest
      → parse_value strtod is_finite (suc fuel) depth (123 ∷ dump_string k ++ s)
        ≡ read (object fs) rest
  unfolding dump_string
  object_text-read k fuel depth s rest fs l e =
      object-read strtod is_finite format fuel depth _ rest fs l e

  mutual
    unfolding IsReadable items_text fields_text append

    value-read :
        (v : Json D) (fuel depth : ℕ) (rest : List ℕ)
        → Readable depth v
        → Stops rest
        → Enough fuel (dump format v ++ rest)
        → parse_value strtod is_finite fuel depth (dump format v ++ rest) ≡ read v rest
    value-read null zero depth rest h s l = no_fuel l
    value-read null (suc fuel) depth rest h s l = null-read strtod is_finite format fuel depth rest
    value-read (bool b) zero depth rest h s l = no_fuel l
    value-read (bool b) (suc fuel) depth rest h s l =
        bool-read strtod is_finite format b fuel depth rest
    value-read (number n) zero depth rest h s l = no_fuel l
    value-read (number n) (suc fuel) depth rest h s l =
        number_read strtod is_finite format fuel depth n rest h s
    value-read (string t) zero depth rest h s l = no_fuel l
    value-read (string t) (suc fuel) depth rest h s l =
        string-read strtod is_finite format fuel depth t rest
    value-read (array nil) zero depth rest h s l = no_fuel l
    value-read (array nil) (suc fuel) depth rest h s l =
        nil-read strtod is_finite format fuel depth rest h.0
    value-read (array (cons x xs)) zero depth rest h s l = no_fuel l
    value-read (array (cons x xs)) (suc fuel) depth rest h s l =
        let e = dump_array strtod is_finite format x xs rest in
        ap (parse_value strtod is_finite (suc fuel) depth) e
        ∙ array-read strtod is_finite format fuel depth (items_text (cons x xs) rest) rest
            (cons x xs)
            (Head-append (dump format x) _ (dump-Head strtod is_finite format x (suc depth) h.1.0))
            h.0
            (items-read (cons x xs) fuel (suc depth) rest tt h.1 (omega (arith, l, ap length e)))
    value-read (object end) zero depth rest h s l = no_fuel l
    value-read (object end) (suc fuel) depth rest h s l =
        end-read strtod is_finite format fuel depth rest h.0
    value-read (object (field k v fs)) zero depth rest h s l = no_fuel l
    value-read (object (field k v fs)) (suc fuel) depth rest h s l =
        let e = dump_object strtod is_finite format k v fs rest in
        ap (parse_value strtod is_finite (suc fuel) depth) e
        ∙ object_text-read k fuel depth _ rest (field k v fs) h.0 (
            fields-read (field k v fs) fuel (suc depth) end rest tt h.1 h.2
              (omega (arith, l, ap length e)))

    items-read :
        (xs : Items D) (fuel depth : ℕ) (rest : List ℕ)
        → IsCons xs
        → AreReadable strtod is_finite format depth xs
        → suc (2 * length (items_text xs rest)) < fuel
        → parse_items strtod is_finite fuel depth (items_text xs rest) ≡ read xs rest
    items-read nil fuel depth rest c h l = elim c [ ]
    items-read (cons x xs) zero depth rest c h l = no_fuel l
    items-read (cons x nil) (suc fuel) depth rest c h l =
        let e = dump_items_nil strtod is_finite format (93 ∷ rest) in
        ap (λ r. parse_items strtod is_finite (suc fuel) depth (dump format x ++ r)) e
        ∙ items-last strtod is_finite format fuel depth (dump format x ++ 93 ∷ rest) rest x (
            value-read x fuel depth (93 ∷ rest) h.0 (refl, refl, refl, refl)
              (omega (
                arith,
                l,
                ap length e,
                length-append (dump format x) (93 ∷ rest),
                length-append (dump format x) (dump_items format nil ++ 93 ∷ rest),
              )))
    items-read (cons x (cons y ys)) (suc fuel) depth rest c h l =
        let e = dump_items_rest strtod is_finite format y ys (93 ∷ rest) in
        let t = items_text (cons y ys) rest in
        ap (λ r. parse_items strtod is_finite (suc fuel) depth (dump format x ++ r)) e
        ∙ items-more strtod is_finite format fuel depth (dump format x ++ 44 ∷ t) t rest x
            (cons y ys)
            (value-read x fuel depth (44 ∷ t) h.0 (refl, refl, refl, refl)
              (omega (
                arith,
                l,
                ap length e,
                length-append (dump format x) (44 ∷ t),
                length-append (dump format x) (dump_items format (cons y ys) ++ 93 ∷ rest),
              )))
            (items-read (cons y ys) fuel depth rest tt h.1 (
              omega (
                arith,
                l,
                ap length e,
                length-append (dump format x) (dump_items format (cons y ys) ++ 93 ∷ rest),
              )))

    fields-read :
        (fs : Fields D) (fuel depth : ℕ) (acc : Fields D) (rest : List ℕ)
        → IsField fs
        → FieldsReadable strtod is_finite format depth fs
        → Distinct (append acc fs)
        → suc (2 * length (fields_text fs rest)) < fuel
        → parse_fields strtod is_finite fuel depth acc (fields_text fs rest)
          ≡ read (append acc fs) rest
    fields-read end fuel depth acc rest c h d l = elim c [ ]
    fields-read (field k v fs) zero depth acc rest c h d l = no_fuel l
    fields-read (field k v end) (suc fuel) depth acc rest c h d l =
        let e = dump_fields_end strtod is_finite format (125 ∷ rest) in
        let new = emplace-new strtod is_finite k v acc (Distinct-append acc k v end d) in
        ap
          (λ r.
            parse_fields strtod is_finite (suc fuel) depth acc
              (dump_string k ++ (58 ∷ dump format v ++ r)))
          e
        ∙ fields-last strtod is_finite format fuel depth k (dump format v ++ 125 ∷ rest) rest v acc
            (value-read v fuel depth (125 ∷ rest) h.0 (refl, refl, refl, refl)
              (omega (
                arith,
                l,
                ap length e,
                length-append (dump format v) (125 ∷ rest),
                length-append (dump format v) (dump_fields format end ++ 125 ∷ rest),
                length-key k (dump format v ++ (dump_fields format end ++ 125 ∷ rest)),
              )))
        ∙ ap (λ o. read o rest) new
    fields-read (field k v (field k' w fs)) (suc fuel) depth acc rest c h d l =
        let e = dump_fields_rest strtod is_finite format k' w fs (125 ∷ rest) in
        let t = fields_text (field k' w fs) rest in
        let tail = dump_fields format (field k' w fs) ++ 125 ∷ rest in
        let new =
          emplace-new strtod is_finite k v acc (Distinct-append acc k v (field k' w fs) d) in
        let same = append_assoc acc k v (field k' w fs) in
        ap
          (λ r.
            parse_fields strtod is_finite (suc fuel) depth acc
              (dump_string k ++ (58 ∷ dump format v ++ r)))
          e
        ∙ fields-more strtod is_finite format fuel depth k (dump format v ++ 44 ∷ t) t v acc _
            (value-read v fuel depth (44 ∷ t) h.0 (refl, refl, refl, refl)
              (omega (
                arith,
                l,
                ap length e,
                length-append (dump format v) (44 ∷ t),
                length-append (dump format v) tail,
                length-key k (dump format v ++ tail),
              )))
            (ap (λ o. parse_fields strtod is_finite fuel depth o t) new
              ∙ fields-read (field k' w fs) fuel depth (append acc (field k v end)) rest tt h.1
                  (subst Distinct (sym same) d)
                  (omega (
                    arith,
                    l,
                    ap length e,
                    length-append (dump format v) tail,
                    length-key k (dump format v ++ tail),
                  ))
              ∙ ap (λ o. read o rest) same)

  -- A value whose integers fit in an int64_t, whose doubles read back, whose objects have distinct keys
  -- and whose arrays and objects stand at most 64 deep in each other is what parse makes of its dump, in
  -- whatever order each object's map is iterated.
  pub parse-dump : (v : Json D) → Readable 0 v → parse strtod is_finite (dump format v) ≡ read v []
  unfolding parse
  parse-dump v h =
      let e = append-nil (dump format v) in
      let fuel = suc (2 * length (dump format v)) in
      let step : parse_value strtod is_finite fuel 0 (dump format v) ≡ read v [] =
        ap (parse_value strtod is_finite fuel 0) (sym e)
        ∙ value-read v fuel 0 [] h tt (omega (arith, ap length e)) in
      rw step (unfold skip in refl)
