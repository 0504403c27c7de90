-- ===== src/Json/Number.antt =====
-- The numbers of frame_v2::Json (Plugins/FrameSolver/Standalone/v2/MiniJson.h): std::to_string of an
-- int64_t, and parseNumber. `strtod` and `isfinite` are parameters.
use Prim.Native.String.{String}
use architect_simulator.Base.{
  ℕ, zero, suc, ◌+◌, ◌-◌, ◌*◌, ◌/◌, ◌%◌, ◌^◌, Bool, true, false, not, ◌&&◌, ◌||◌, List, [], ◌∷◌,
  ◌++◌, if◌then◌else◌, ltb, leb, ◌==◌,
}
use architect_simulator.Base.Int.{ℤ, pos, negsuc}

-- What is read and what follows it, or the diagnostic.
pub data Scan (A : Type 0) : Type 0 where
  scanned : A → List ℕ → Scan A
  refused : String → Scan A

abbrev pub then_scan : {A B : Type 0} → Scan A → (A → List ℕ → Scan B) → Scan B
then_scan (scanned a rest) f = f a rest
then_scan (refused why) f = refused why

pub data Number (D : Type 0) : Type 0 where
  int : ℤ → Number D
  double : D → Number D

abbrev pub is_digit : ℕ → Bool
is_digit c = leb 48 c && leb c 57

abbrev pub starts_digit : List ℕ → Bool
starts_digit [] = false
starts_digit (c ∷ cs) = is_digit c

-- while (isDigit(i)) ++i;
unfoldable pub span_digits : List ℕ → List ℕ × List ℕ
span_digits [] = ([], [])
span_digits (c ∷ cs) =
    let more = span_digits cs in if is_digit c then (c ∷ more.0, more.1) else ([], c ∷ cs)

-- The digits before the point.
unfoldable pub scan_whole : List ℕ → Scan (List ℕ)
unfolding span_digits
scan_whole [] = refused "expected digit"
scan_whole (c ∷ cs) =
    if not (is_digit c)
    then refused "expected digit"
    else if c == 48
    then (if starts_digit cs then refused "leading zero in number" else scanned (48 ∷ []) cs)
    else (let more = span_digits cs in scanned (c ∷ more.0) more.1)

unfoldable pub scan_signed : List ℕ → Scan (Bool × List ℕ)
unfolding scan_whole
scan_signed [] = refused "expected digit"
scan_signed (c ∷ cs) =
    if c == 45
    then (if starts_digit cs
        then then_scan (scan_whole cs) (λ ds rest. scanned (true, ds) rest)
        else refused "expected digit after '-'")
    else then_scan (scan_whole (c ∷ cs)) (λ ds rest. scanned (false, ds) rest)

-- Digits that have to be there.
unfoldable pub scan_digits : String → List ℕ → Scan (List ℕ)
unfolding span_digits
scan_digits why cs =
    let more = span_digits cs in if starts_digit cs then scanned more.0 more.1 else refused why

unfoldable pub scan_fraction : List ℕ → Scan (List ℕ)
unfolding scan_digits
scan_fraction [] = scanned [] []
scan_fraction (c ∷ cs) =
    if c == 46
    then then_scan (scan_digits "expected digit after decimal point" cs)
        (λ ds rest. scanned (46 ∷ ds) rest)
    else scanned [] (c ∷ cs)

unfoldable pub scan_sign : List ℕ → List ℕ × List ℕ
scan_sign [] = ([], [])
scan_sign (c ∷ cs) = if (c == 43) || (c == 45) then (c ∷ [], cs) else ([], c ∷ cs)

unfoldable pub scan_exponent : List ℕ → Scan (List ℕ)
unfolding scan_digits scan_sign
scan_exponent [] = scanned [] []
scan_exponent (c ∷ cs) =
    let sign = scan_sign cs in
    if (c == 101) || (c == 69)
    then then_scan (scan_digits "expected digit in exponent" sign.1)
        (λ ds rest. scanned (c ∷ sign.0 ++ ds) rest)
    else scanned [] (c ∷ cs)

-- strtoll in base 10 of digits, its sign, and the range check by ERANGE.
unfoldable pub value : ℕ → List ℕ → ℕ
value n [] = n
value n (d ∷ ds) = value (n * 10 + (d - 48)) ds

abbrev pub signed : Bool → ℕ → ℤ
signed false n = pos n
signed true zero = pos 0
signed true (suc n) = negsuc n

abbrev pub out_of_range : Bool → ℕ → Bool
out_of_range false n = not (ltb n (2 ^ 63))
out_of_range true n = ltb (2 ^ 63) n

abbrev pub is_empty : List ℕ → Bool
is_empty [] = true
is_empty (x ∷ xs) = false

module _ {D : Type 0} (strtod : List ℕ → D) (is_finite : D → Bool) where
  unfoldable pub convert : Bool → List ℕ → List ℕ → List ℕ → List ℕ → Scan (Number D)
  unfolding value
  convert minus ds fraction exponent rest =
      let n = value 0 ds in
      let d = strtod ((if minus then 45 ∷ [] else []) ++ ds ++ fraction ++ exponent) in
      if is_empty fraction && is_empty exponent
      then (if out_of_range minus n
          then refused "integer literal out of range for int64_t"
          else scanned (int (signed minus n)) rest)
      else if is_finite d
      then scanned (double d) rest
      else refused "non-finite number (overflow or denormal)"

  unfoldable pub parse_number : List ℕ → Scan (Number D)
  unfolding scan_signed scan_fraction scan_exponent convert
  parse_number cs = then_scan (scan_signed cs) λ whole rest.
      then_scan (scan_fraction rest) λ fraction rest'.
        then_scan (scan_exponent rest')
          λ exponent rest''. convert whole.0 whole.1 fraction exponent rest''

-- The decimal digits of a number, most significant first; a round for each unit is enough.
unfoldable pub decimal_rounds : ℕ → ℕ → List ℕ
decimal_rounds zero n = []
decimal_rounds (suc k) n =
    let high = decimal_rounds k (n / 10) in
    if ltb n 10 then (48 + n) ∷ [] else high ++ (48 + n % 10) ∷ []

unfoldable pub dump_int : ℤ → List ℕ
unfolding decimal_rounds
dump_int (pos n) = decimal_rounds (suc n) n
dump_int (negsuc n) = 45 ∷ decimal_rounds (suc (suc n)) (suc n)
