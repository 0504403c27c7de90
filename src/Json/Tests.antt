-- ===== src/Json/Tests.antt =====
-- Runs of the string functions, and their round trip at a string.
use architect_simulator.Base.{ℕ, ◌≡◌, refl, true, [], ◌∷◌, ◌++◌, arith}
use architect_simulator.Base.Int.{pos, negsuc}
use architect_simulator.Json.Number.{scanned, refused, int, parse_number, dump_int}
use architect_simulator.Json.Integers.{parse_number-dump_int}
use architect_simulator.Json.{parsed, failed, dump_string, parse_string}
use architect_simulator.Json.RoundTrip.{parse_string-dump_string}

-- A quote, a line feed, the control character 1 and the letter A.
dumped :
    dump_string (34 ∷ 10 ∷ 1 ∷ 65 ∷ [])
    ≡ 34 ∷ 92 ∷ 34 ∷ 92 ∷ 110 ∷ 92 ∷ 117 ∷ 48 ∷ 48 ∷ 48 ∷ 49 ∷ 65 ∷ 34 ∷ []
unfolding dump_string
dumped = refl

-- The escape of U+20AC gives its three bytes.
euro : parse_string (34 ∷ 92 ∷ 117 ∷ 50 ∷ 48 ∷ 97 ∷ 67 ∷ 34 ∷ []) ≡ parsed (226 ∷ 130 ∷ 172 ∷ []) []
unfolding parse_string
euro = refl

raw_control :
    parse_string (34 ∷ 9 ∷ 34 ∷ []) ≡ failed "raw control char in string (must be \\uXXXX escaped)"
unfolding parse_string
raw_control = refl

parse_string-dump_string_example :
    parse_string (dump_string (34 ∷ 10 ∷ 1 ∷ 65 ∷ []) ++ 44 ∷ [])
    ≡ parsed (34 ∷ 10 ∷ 1 ∷ 65 ∷ []) (44 ∷ [])
parse_string-dump_string_example = parse_string-dump_string (34 ∷ 10 ∷ 1 ∷ 65 ∷ []) (44 ∷ [])

-- The number -42 before a comma; `strtod` plays no part.
parse_number-dump_int_example :
    parse_number {D = ℕ} (λ ds. 0) (λ d. true) (dump_int (negsuc 41) ++ 44 ∷ [])
    ≡ scanned (int (negsuc 41)) (44 ∷ [])
parse_number-dump_int_example =
    parse_number-dump_int {D = ℕ} (λ ds. 0) (λ d. true) (negsuc 41) (44 ∷ []) (omega arith)
      (refl, refl, refl, refl)

-- 2^63 is refused.
too_large :
    parse_number {D = ℕ} (λ ds. 0) (λ d. true) (dump_int (pos 9223372036854775808))
    ≡ refused "integer literal out of range for int64_t"
unfolding parse_number dump_int
too_large = refl
