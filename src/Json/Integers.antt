-- ===== src/Json/Integers.antt =====
-- Integers are read back as they are written.
use architect_simulator.Base.{
  ◌≡◌, refl, ap, sym, ◌∙◌, subst, ℕ, zero, suc, ◌+◌, ◌-◌, ◌*◌, ◌/◌, ◌%◌, ◌<◌, ◌^◌, Bool, true,
  false, List, [], ◌∷◌, ◌++◌, All, All-append, arith, Bool-cases, inl, inr, ltb, ◌==◌,
}
use architect_simulator.Base.Int.{ℤ, pos, negsuc}
use architect_simulator.Json.Number.{
  scanned, int, is_digit, starts_digit, span_digits, scan_whole, scan_signed, scan_fraction,
  scan_exponent, value, signed, out_of_range, convert, parse_number, decimal_rounds, dump_int,
}

-- Nothing that continues a number.
abbrev pub Stops : List ℕ → Type 0
Stops [] = Unit
Stops (c ∷ cs) =
    (is_digit c ≡ false) × ((c == 46) ≡ false) × ((c == 101) ≡ false) × ((c == 69) ≡ false)

abbrev Digits : List ℕ → Type 0
Digits ds = All (λ c. is_digit c ≡ true) ds

Stops-starts_digit : (rest : List ℕ) → Stops rest → starts_digit rest ≡ false
Stops-starts_digit [] h = refl
Stops-starts_digit (c ∷ cs) h = h.0

span_digits-stop : (rest : List ℕ) → starts_digit rest ≡ false → span_digits rest ≡ ([], rest)
unfolding span_digits
span_digits-stop [] h = refl
span_digits-stop (c ∷ cs) h = rw h refl

span_digits-append :
    (ds rest : List ℕ)
    → Digits ds
    → starts_digit rest ≡ false
    → span_digits (ds ++ rest) ≡ (ds, rest)
unfolding span_digits
span_digits-append [] rest d h = span_digits-stop rest h
span_digits-append (c ∷ ds) rest d h = rw (d.0, span_digits-append ds rest d.1 h) refl

scan_fraction-stop : (rest : List ℕ) → Stops rest → scan_fraction rest ≡ scanned [] rest
unfolding scan_fraction
scan_fraction-stop [] h = refl
scan_fraction-stop (c ∷ cs) h = rw h.1 refl

scan_exponent-stop : (rest : List ℕ) → Stops rest → scan_exponent rest ≡ scanned [] rest
unfolding scan_exponent
scan_exponent-stop [] h = refl
scan_exponent-stop (c ∷ cs) h = rw (h.2, h.3) refl

value-append : (m : ℕ) (xs : List ℕ) (d : ℕ) → value m (xs ++ d ∷ []) ≡ value m xs * 10 + (d - 48)
unfolding value
value-append m [] d = refl
value-append m (x ∷ xs) d = value-append (m * 10 + (x - 48)) xs d

-- With a round more than the number the digits are digits, their value is the number, and the first is no
-- zero unless the number is.
record IsDecimal (n : ℕ) (ds : List ℕ) : Type 0 where
  digits : Digits ds
  worth : value 0 ds ≡ n
  first : ℕ
  others : List ℕ
  shape : ds ≡ first ∷ others
  single : n ≡ 0 → others ≡ []
  leading : 0 < n → (first == 48) ≡ false

one_digit : (n : ℕ) → n < 10 → IsDecimal n ((48 + n) ∷ [])
one_digit n h = record {
  digits = (ground (arith, h), tt);
  worth = unfold value in omega arith;
  first = 48 + n;
  others = [];
  shape = refl;
  single = λ z. refl;
  leading = λ p. ground (arith, p);
}

more_digits :
    (n : ℕ) (high : List ℕ)
    → 10 - 1 < n
    → IsDecimal (n / 10) high
    → IsDecimal n (high ++ (48 + n % 10) ∷ [])
more_digits n high big h = record {
  digits =
      All-append (λ c. is_digit c ≡ true) high ((48 + n % 10) ∷ []) h.digits (ground arith, tt);
  worth = value-append 0 high (48 + n % 10) ∙ omega (arith, h.worth);
  first = h.first;
  others = h.others ++ (48 + n % 10) ∷ [];
  single = λ z. absurd (omega (arith, z, big));
  shape = ap (λ x. x ++ (48 + n % 10) ∷ []) h.shape;
  leading = λ p. h.leading (omega (arith, big));
}

decimal_rounds-IsDecimal : (k n : ℕ) → n < k → IsDecimal n (decimal_rounds k n)
unfolding decimal_rounds
decimal_rounds-IsDecimal zero n h = absurd (omega (arith, h))
decimal_rounds-IsDecimal (suc k) n h = elim (Bool-cases (ltb n 10)) [
  | inl low ↦ rw low (one_digit n (ground (arith, low)))
  | inr big ↦
      let over : 9 < n = ground (arith, big) in
      rw big (
        more_digits n (decimal_rounds k (n / 10)) over
          (decimal_rounds-IsDecimal k (n / 10) (omega (arith, h, over))))
]

scan_whole-zero : (rest : List ℕ) → Stops rest → scan_whole (48 ∷ rest) ≡ scanned (48 ∷ []) rest
unfolding scan_whole
scan_whole-zero rest h = rw (Stops-starts_digit rest h) refl

scan_whole-other :
    (c : ℕ) (cs rest : List ℕ)
    → is_digit c ≡ true
    → (c == 48) ≡ false
    → Digits cs
    → Stops rest
    → scan_whole (c ∷ cs ++ rest) ≡ scanned (c ∷ cs) rest
unfolding scan_whole
scan_whole-other c cs rest d z ds h =
    rw (d, z, span_digits-append cs rest ds (Stops-starts_digit rest h)) refl

-- The digits of a number, and what is known of the first.
first_digit : {n : ℕ} {ds : List ℕ} (h : IsDecimal n ds) → Digits (h.first ∷ h.others)
first_digit h = subst Digits h.shape h.digits

scan_whole-IsDecimal :
    (n : ℕ) (ds rest : List ℕ) (h : IsDecimal n ds)
    → Stops rest
    → scan_whole (ds ++ rest) ≡ scanned ds rest
scan_whole-IsDecimal n ds rest h stop =
    let d = first_digit h in
    let whole : scan_whole (h.first ∷ h.others ++ rest) ≡ scanned (h.first ∷ h.others) rest =
      elim (Bool-cases (h.first == 48)) [
        | inl z ↦
            let none_left : h.others ≡ [] = h.single (ground (arith, h.leading, z)) in
            let at_zero : h.first ≡ 48 = ground (arith, z) in
            rw (none_left, at_zero) (scan_whole-zero rest stop)
        | inr z ↦ scan_whole-other h.first h.others rest d.0 z d.1 stop
      ] in
    rw h.shape whole

scan_signed-plain :
    (c : ℕ) (cs ds rest : List ℕ)
    → (c == 45) ≡ false
    → scan_whole (c ∷ cs) ≡ scanned ds rest
    → scan_signed (c ∷ cs) ≡ scanned (false, ds) rest
unfolding scan_signed
scan_signed-plain c cs ds rest n e = rw (n, e) refl

scan_signed-minus :
    (cs ds rest : List ℕ)
    → starts_digit cs ≡ true
    → scan_whole cs ≡ scanned ds rest
    → scan_signed (45 ∷ cs) ≡ scanned (true, ds) rest
unfolding scan_signed
scan_signed-minus cs ds rest n e = rw (n, e) refl

positive-scan :
    (n : ℕ) (ds rest : List ℕ) (h : IsDecimal n ds)
    → Stops rest
    → scan_signed (ds ++ rest) ≡ scanned (false, ds) rest
positive-scan n ds rest h stop =
    let d = first_digit h in
    let whole =
      subst (λ x. scan_whole (x ++ rest) ≡ scanned x rest) h.shape
        (scan_whole-IsDecimal n ds rest h stop) in
    subst (λ x. scan_signed (x ++ rest) ≡ scanned (false, x) rest) (sym h.shape)
      (scan_signed-plain h.first (h.others ++ rest) (h.first ∷ h.others) rest (ground (arith, d.0))
        whole)

negative-scan :
    (n : ℕ) (ds rest : List ℕ) (h : IsDecimal n ds)
    → Stops rest
    → scan_signed (45 ∷ ds ++ rest) ≡ scanned (true, ds) rest
negative-scan n ds rest h stop =
    let d = first_digit h in
    let starts = subst (λ x. starts_digit (x ++ rest) ≡ true) (sym h.shape) d.0 in
    scan_signed-minus (ds ++ rest) ds rest starts (scan_whole-IsDecimal n ds rest h stop)

-- The magnitudes of the integers that dump prints of an int64_t.
abbrev pub IsInt64 : ℤ → Type 0
IsInt64 (pos n) = n < 2 ^ 63
IsInt64 (negsuc n) = n < 2 ^ 63

module _ {D : Type 0} (strtod : List ℕ → D) (is_finite : D → Bool) where
  parse_number-whole :
      (cs ds rest : List ℕ) (minus : Bool)
      → scan_signed cs ≡ scanned (minus, ds) rest
      → Stops rest
      → parse_number strtod is_finite cs ≡ convert strtod is_finite minus ds [] [] rest
  unfolding parse_number
  parse_number-whole cs ds rest minus e stop =
      rw (e, scan_fraction-stop rest stop, scan_exponent-stop rest stop) refl

  convert-whole :
      (minus : Bool) (n : ℕ) (ds rest : List ℕ)
      → value 0 ds ≡ n
      → out_of_range minus n ≡ false
      → convert strtod is_finite minus ds [] [] rest ≡ scanned (int (signed minus n)) rest
  unfolding convert
  convert-whole minus n ds rest v r = rw (v, r) refl

  -- Every int64_t that dump writes is read back by parseNumber, which ends at what follows it, where
  -- that does not go on with the number.
  pub parse_number-dump_int :
      (z : ℤ) (rest : List ℕ)
      → IsInt64 z
      → Stops rest
      → parse_number strtod is_finite (dump_int z ++ rest) ≡ scanned (int z) rest
  unfolding dump_int
  parse_number-dump_int (pos n) rest range stop =
      let ds = decimal_rounds (suc n) n in
      let h = decimal_rounds-IsDecimal (suc n) n (omega arith) in
      parse_number-whole (ds ++ rest) ds rest false (positive-scan n ds rest h stop) stop
      ∙ convert-whole false n ds rest h.worth (ground (arith, range))
  parse_number-dump_int (negsuc n) rest range stop =
      let ds = decimal_rounds (suc (suc n)) (suc n) in
      let h = decimal_rounds-IsDecimal (suc (suc n)) (suc n) (omega arith) in
      parse_number-whole (45 ∷ ds ++ rest) ds rest true (negative-scan (suc n) ds rest h stop) stop
      ∙ convert-whole true (suc n) ds rest h.worth (ground (arith, range))
