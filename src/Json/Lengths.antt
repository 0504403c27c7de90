-- ===== src/Json/Lengths.antt =====
-- The readers of Plugins/FrameSolver/Standalone/v2/MiniJson.h leave no more than they were given, and
-- the numbers that they read are in range.
use Prim.Native.String.{String}
use architect_simulator.Base.{
  ◌≡◌, refl, ℕ, zero, suc, ◌≤◌, Bool, true, false, ◌&&◌, ◌||◌, List, [], ◌∷◌, ◌++◌, length,
  if◌then◌else◌, arith, not, ◌==◌,
}
use architect_simulator.Json.Number.{
  Scan, scanned, refused, then_scan, Number, int, double, span_digits, scan_whole, scan_signed,
  scan_digits, scan_fraction, scan_sign, scan_exponent, starts_digit, value, signed, out_of_range,
  is_empty, convert, parse_number, is_digit,
}
use architect_simulator.Json.Integers.{IsInt64}

abbrev pub Short : {A : Type 0} → ℕ → (A → Type 0) → Scan A → Type 0
Short n P (scanned a rest) = (length rest ≤ n) × P a
Short n P (refused why) = Unit

Short-then :
    {A B : Type 0} (n : ℕ) (P : A → Type 0) (Q : B → Type 0) (o : Scan A) (f : A → List ℕ → Scan B)
    → Short n P o
    → ((v : A) (rest : List ℕ) → length rest ≤ n → P v → Short n Q (f v rest))
    → Short n Q (then_scan o f)
Short-then n P Q (scanned v rest) f g k = k v rest g.0 g.1
Short-then n P Q (refused why) f g k = tt

Short-le : {A : Type 0} (n m : ℕ) (P : A → Type 0) (o : Scan A) → n ≤ m → Short n P o → Short m P o
Short-le n m P (scanned v rest) l g = (omega (arith, g.0, l), g.1)
Short-le n m P (refused why) l g = tt

abbrev Any : {A : Type 0} → A → Type 0
Any a = Unit

abbrev NotLonger : ℕ → List ℕ × List ℕ → Type 0
NotLonger n p = length p.1 ≤ n

length-span_digits : (s : List ℕ) → length (span_digits s).1 ≤ length s
unfolding span_digits
length-span_digits [] = omega arith
length-span_digits (c ∷ cs) = go (is_digit c) (span_digits cs) (length-span_digits cs)
  where
    go :
        (b : Bool) (more : List ℕ × List ℕ)
        → length more.1 ≤ length cs
        → NotLonger (suc (length cs)) (if b then (c ∷ more.0, more.1) else ([], c ∷ cs))
    go true more l = omega (arith, l)
    go false more l = omega arith

scan_digits-Short : (why : String) (s : List ℕ) → Short (length s) Any (scan_digits why s)
unfolding scan_digits
scan_digits-Short why s = go (starts_digit s) (span_digits s) (length-span_digits s)
  where
    go :
        (b : Bool) (more : List ℕ × List ℕ)
        → length more.1 ≤ length s
        → Short (length s) Any (if b then scanned more.0 more.1 else refused why)
    go true more l = (l, tt)
    go false more l = tt

scan_whole-Short : (s : List ℕ) → Short (length s) Any (scan_whole s)
unfolding scan_whole
scan_whole-Short [] = tt
scan_whole-Short (c ∷ cs) =
    go (not (is_digit c)) (c == 48) (starts_digit cs) (span_digits cs) (length-span_digits cs)
  where
    go :
        (a b d : Bool) (more : List ℕ × List ℕ)
        → length more.1 ≤ length cs
        → Short (suc (length cs)) Any (
            if a
            then refused "expected digit"
            else if b
            then (if d then refused "leading zero in number" else scanned (48 ∷ []) cs)
            else scanned (c ∷ more.0) more.1)
    go true b d more l = tt
    go false true true more l = tt
    go false true false more l = (omega arith, tt)
    go false false d more l = (omega (arith, l), tt)

then_scan-Short :
    {A B : Type 0} (n m : ℕ) (o : Scan A) (f : A → B)
    → n ≤ m
    → Short n Any o
    → Short m Any (then_scan o (λ a rest. scanned (f a) rest))
then_scan-Short n m (scanned a rest) f l h = (omega (arith, l, h.0), tt)
then_scan-Short n m (refused why) f l h = tt

scan_signed-Short : (s : List ℕ) → Short (length s) Any (scan_signed s)
unfolding scan_signed
scan_signed-Short [] = tt
scan_signed-Short (c ∷ cs) = go (c == 45) (starts_digit cs)
  where
    go :
        (a b : Bool)
        → Short {A = Bool × List ℕ} (suc (length cs)) Any (
            if a
            then (if b
                then then_scan (scan_whole cs) (λ ds rest. scanned (true, ds) rest)
                else refused "expected digit after '-'")
            else then_scan (scan_whole (c ∷ cs)) (λ ds rest. scanned (false, ds) rest))
    go true true =
        then_scan-Short (length cs) _ (scan_whole cs) (λ ds. (true, ds)) (omega arith)
          (scan_whole-Short cs)
    go true false = tt
    go false b =
        then_scan-Short (length (c ∷ cs)) _ (scan_whole (c ∷ cs)) (λ ds. (false, ds)) (omega arith)
          (scan_whole-Short (c ∷ cs))

scan_fraction-Short : (s : List ℕ) → Short (length s) Any (scan_fraction s)
unfolding scan_fraction
scan_fraction-Short [] = (omega arith, tt)
scan_fraction-Short (c ∷ cs) = go (c == 46)
  where
    go :
        (a : Bool)
        → Short (suc (length cs)) Any (
            if a
            then then_scan
                (scan_digits "expected digit after decimal point" cs)
                (λ ds rest. scanned (46 ∷ ds) rest)
            else scanned [] (c ∷ cs))
    go true =
        then_scan-Short (length cs) _ (scan_digits "expected digit after decimal point" cs)
          (λ ds. 46 ∷ ds) (omega arith) (scan_digits-Short "expected digit after decimal point" cs)
    go false = (omega arith, tt)

length-scan_sign : (s : List ℕ) → length (scan_sign s).1 ≤ length s
unfolding scan_sign
length-scan_sign [] = omega arith
length-scan_sign (c ∷ cs) = go ((c == 43) || (c == 45))
  where
    go : (b : Bool) → NotLonger (suc (length cs)) (if b then (c ∷ [], cs) else ([], c ∷ cs))
    go true = omega arith
    go false = omega arith

scan_exponent-Short : (s : List ℕ) → Short (length s) Any (scan_exponent s)
unfolding scan_exponent
scan_exponent-Short [] = (omega arith, tt)
scan_exponent-Short (c ∷ cs) = go ((c == 101) || (c == 69)) (scan_sign cs) (length-scan_sign cs)
  where
    go :
        (a : Bool) (sign : List ℕ × List ℕ)
        → length sign.1 ≤ length cs
        → Short (suc (length cs)) Any (
            if a
            then then_scan
                (scan_digits "expected digit in exponent" sign.1)
                (λ ds rest. scanned (c ∷ sign.0 ++ ds) rest)
            else scanned [] (c ∷ cs))
    go true sign l =
        then_scan-Short (length sign.1) _ (scan_digits "expected digit in exponent" sign.1)
          (λ ds. c ∷ sign.0 ++ ds) (omega (arith, l))
          (scan_digits-Short "expected digit in exponent" sign.1)
    go false sign l = (omega arith, tt)

signed-IsInt64 : (minus : Bool) (n : ℕ) → out_of_range minus n ≡ false → IsInt64 (signed minus n)
signed-IsInt64 false n h = ground (arith, h)
signed-IsInt64 true zero h = omega arith
signed-IsInt64 true (suc n) h = ground (arith, h)

module _ {D : Type 0} (is_finite : D → Bool) where
  -- Integers are in range and doubles are finite.
  abbrev pub IsRange : Number D → Type 0
  IsRange (int z) = IsInt64 z
  IsRange (double d) = is_finite d ≡ true

module _ {D : Type 0} (strtod : List ℕ → D) (is_finite : D → Bool) where
  convert-Short :
      (minus : Bool) (ds fraction exponent rest : List ℕ)
      → Short
          (length rest)
          (IsRange is_finite)
          (convert strtod is_finite minus ds fraction exponent rest)
  unfolding convert
  convert-Short minus ds fraction exponent rest =
      go (is_empty fraction && is_empty exponent) (value 0 ds)
        (strtod ((if minus then 45 ∷ [] else []) ++ ds ++ fraction ++ exponent))
    where
      whole :
          (n : ℕ) (b : Bool)
          → out_of_range minus n ≡ b
          → Short (length rest) (IsRange is_finite) (
              if b
              then refused "integer literal out of range for int64_t"
              else scanned (int (signed minus n)) rest)
      whole n true e = tt
      whole n false e = (omega arith, signed-IsInt64 minus n e)

      finite :
          (d : D) (b : Bool)
          → is_finite d ≡ b
          → Short (length rest) (IsRange is_finite) (
              if b
              then scanned (double d) rest
              else refused "non-finite number (overflow or denormal)")
      finite d true e = (omega arith, e)
      finite d false e = tt

      go :
          (b : Bool) (n : ℕ) (d : D)
          → Short (length rest) (IsRange is_finite) (
              if b
              then (if out_of_range minus n
                  then refused "integer literal out of range for int64_t"
                  else scanned (int (signed minus n)) rest)
              else if is_finite d
              then scanned (double d) rest
              else refused "non-finite number (overflow or denormal)")
      go true n d = whole n (out_of_range minus n) refl
      go false n d = finite d (is_finite d) refl

  pub parse_number-Short :
      (s : List ℕ) → Short (length s) (IsRange is_finite) (parse_number strtod is_finite s)
  unfolding parse_number
  parse_number-Short s =
      Short-then (length s) Any (IsRange is_finite) (scan_signed s) _ (scan_signed-Short s)
        λ w r l u.
          Short-then (length s) Any (IsRange is_finite) (scan_fraction r) _
            (Short-le (length r) _ Any (scan_fraction r) l (scan_fraction-Short r))
            λ f r' l' u'.
              Short-then (length s) Any (IsRange is_finite) (scan_exponent r') _
                (Short-le (length r') _ Any (scan_exponent r') l' (scan_exponent-Short r'))
                λ e r'' l'' u''.
                  Short-le (length r'') _ (IsRange is_finite)
                    (convert strtod is_finite w.0 w.1 f e r'') l'' (convert-Short w.0 w.1 f e r'')
