-- ===== src/Json/Runs.antt =====
-- Runs of the parser of whole values, and their theorems at values.
use architect_simulator.Base.{◌≡◌, refl, ℕ, Bool, true, List, [], ◌∷◌, some, arith, if◌then◌else◌}
use architect_simulator.Base.Int.{pos}
use architect_simulator.Json.Number.{int, double, parse_number}
use architect_simulator.Json.Value.{
  Json, null, bool, number, array, object, nil, cons, end, field, dump, get, set, same_bytes,
  has_key,
}
use architect_simulator.Json.Proper.{IsProper}
use architect_simulator.Json.Parse.{read, stopped, parse}
use architect_simulator.Json.Access.{get-set}
use architect_simulator.Json.Outcomes.{Good}
use architect_simulator.Json.Finishes.{parse-Good}
use architect_simulator.Json.Heads.{IsReadable, ReadsBack}
use architect_simulator.Json.Values.{parse-dump}

-- Every double is a half here.
abbrev pub half : ℕ → List ℕ
half d = 48 ∷ 46 ∷ 53 ∷ []

abbrev pub strtod : List ℕ → ℕ
strtod s = 0

abbrev pub is_finite : ℕ → Bool
is_finite d = true

half-ReadsBack : ReadsBack strtod is_finite half 0
unfolding parse_number
half-ReadsBack [] h = refl
half-ReadsBack (c ∷ cs) h = rw (h.0, h.2, h.3) refl

-- {"a":[1,0.5],"b":{}}
abbrev pub sample : Json ℕ
sample = object (
    field (97 ∷ []) (array (cons (number (int (pos 1))) (cons (number (double 0)) nil)))
      (field (98 ∷ []) (object end) end))

pub sample-IsReadable : IsReadable strtod is_finite half 0 sample
unfolding IsReadable has_key
sample-IsReadable = (
  omega arith,
  ((omega arith, (omega arith, (half-ReadsBack, tt))), ((omega arith, tt, tt), tt)),
  (refl, (refl, tt)),
)

dumped :
    dump half sample
    ≡ 123 ∷ 34 ∷ 97 ∷ 34 ∷ 58 ∷ 91 ∷ 49 ∷ 44 ∷ 48 ∷ 46 ∷ 53 ∷ 93 ∷ 44 ∷ 34 ∷ 98 ∷ 34 ∷ 58 ∷ 123
      ∷ 125 ∷ 125 ∷ []
unfolding dump
dumped = refl

parse-dump_example : parse strtod is_finite (dump half sample) ≡ read sample []
parse-dump_example = parse-dump strtod is_finite half sample sample-IsReadable

-- [ 1 ,true ] with spaces.
spaced :
    parse strtod is_finite (91 ∷ 32 ∷ 49 ∷ 32 ∷ 44 ∷ 116 ∷ 114 ∷ 117 ∷ 101 ∷ 32 ∷ 93 ∷ 10 ∷ [])
    ≡ read (array (cons (number (int (pos 1))) (cons (bool true) nil))) []
unfolding parse
spaced = refl

-- {"a":1,"a":null} keeps the first.
twice :
    parse strtod is_finite
      (123 ∷ 34 ∷ 97 ∷ 34 ∷ 58 ∷ 49 ∷ 44 ∷ 34 ∷ 97 ∷ 34 ∷ 58 ∷ 110 ∷ 117 ∷ 108 ∷ 108 ∷ 125 ∷ [])
    ≡ read (object (field (97 ∷ []) (number (int (pos 1))) end)) []
unfolding parse
twice = refl

trailing : parse strtod is_finite (49 ∷ 32 ∷ 49 ∷ []) ≡ stopped "trailing data after JSON value"
unfolding parse
trailing = refl

parse-Good_example : Good 0 (IsProper is_finite 0) (parse strtod is_finite (91 ∷ 91 ∷ 49 ∷ []))
parse-Good_example = parse-Good strtod is_finite (91 ∷ 91 ∷ 49 ∷ [])

get-set_example :
    get (98 ∷ []) (set (98 ∷ []) null sample)
    ≡ (if same_bytes (98 ∷ []) (98 ∷ []) then some null else get (98 ∷ []) sample)
get-set_example = get-set (98 ∷ []) (98 ∷ []) null sample
