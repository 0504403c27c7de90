-- ===== src/Json/RoundTrip.antt =====
-- What dumpString writes, parseString reads back.
use architect_simulator.Base.{
  ◌≡◌, refl, ap, sym, ◌∙◌, ℕ, suc, ◌+◌, ◌<◌, ◌*◌, ◌/◌, ◌%◌, length, false, List, [], ◌∷◌, ◌++◌,
  some, append_assoc, arith, Bool-cases, inl, inr, ltb, ◌==◌,
}
use architect_simulator.Json.{
  parsed, push, hex_char, hex_digit, utf8, escape, dump_char, dump_chars, dump_string, plain, hex,
  read_string, parse_string,
}

hex_digit-hex_char : (d : ℕ) → d < 16 → hex_digit (hex_char d) ≡ some d
unfolding hex_digit hex_char
hex_digit-hex_char d h = ground arith

read_hex :
    (k cp h d : ℕ) (cs : List ℕ)
    → hex_digit h ≡ some d
    → read_string (hex (suc k) cp) (h ∷ cs) ≡ read_string (hex k (cp * 16 + d)) cs
unfolding read_string
read_hex k cp h d cs e = rw (e, read_string) refl

read_last :
    (cp h d : ℕ) (cs : List ℕ)
    → hex_digit h ≡ some d
    → read_string (hex 0 cp) (h ∷ cs) ≡ push (utf8 (cp * 16 + d)) (read_string plain cs)
unfolding read_string
read_last cp h d cs e = rw (e, read_string) refl

utf8-ascii : (c : ℕ) → c < 128 → utf8 c ≡ c ∷ []
unfolding utf8
utf8-ascii c h = ground (arith, h)

read_unicode :
    (a b c d : ℕ) (cs : List ℕ)
    → read_string plain (92 ∷ 117 ∷ a ∷ b ∷ c ∷ d ∷ cs) ≡ read_string (hex 3 0) (a ∷ b ∷ c ∷ d ∷ cs)
unfolding read_string
read_unicode a b c d cs =
    let long : ltb (length (a ∷ b ∷ c ∷ d ∷ cs)) 4 ≡ false = ground arith in
    rw (long, read_string) refl

read-control :
    (c : ℕ) (rest : List ℕ)
    → c < 32
    → read_string plain (92 ∷ 117 ∷ 48 ∷ 48 ∷ hex_char (c / 16) ∷ hex_char (c % 16) ∷ rest)
      ≡ push (c ∷ []) (read_string plain rest)
read-control c rest h =
    let zero_digit : hex_digit 48 ≡ some 0 = unfold hex_digit in refl in
    let high : hex_digit (hex_char (c / 16)) ≡ some (c / 16) =
      hex_digit-hex_char (c / 16) (omega (arith, h)) in
    let low : hex_digit (hex_char (c % 16)) ≡ some (c % 16) =
      hex_digit-hex_char (c % 16) (omega arith) in
    let value : ((0 * 16 + 0) * 16 + 0) * 16 + c / 16 ≡ c / 16 = omega arith in
    let whole : (((0 * 16 + 0) * 16 + 0) * 16 + c / 16) * 16 + c % 16 ≡ c = omega arith in
    read_unicode 48 48 (hex_char (c / 16)) (hex_char (c % 16)) rest
    ∙ read_hex 2 0 48 0 _ zero_digit
    ∙ read_hex 1 (0 * 16 + 0) 48 0 _ zero_digit
    ∙ read_hex 0 ((0 * 16 + 0) * 16 + 0) (hex_char (c / 16)) (c / 16) _ high
    ∙ read_last (((0 * 16 + 0) * 16 + 0) * 16 + c / 16) (hex_char (c % 16)) (c % 16) rest low
    ∙ ap (λ x. push (utf8 x) (read_string plain rest)) whole
    ∙ ap (λ x. push x (read_string plain rest)) (utf8-ascii c (omega (arith, h)))

read_escape :
    (e b : ℕ) (cs : List ℕ)
    → (e == 117) ≡ false
    → escape e ≡ some b
    → read_string plain (92 ∷ e ∷ cs) ≡ push (b ∷ []) (read_string plain cs)
unfolding read_string
read_escape e b cs n h = rw (n, h, read_string) refl

read_raw :
    (c : ℕ) (cs : List ℕ)
    → (c == 34) ≡ false
    → (c == 92) ≡ false
    → ltb c 32 ≡ false
    → read_string plain (c ∷ cs) ≡ push (c ∷ []) (read_string plain cs)
unfolding read_string
read_raw c cs q b l = rw (q, b, l, read_string) refl

-- The characters that have an escape of one letter, with the letter; what is left is below 32 or is
-- written as it is.
data Kind (c : ℕ) : Type 0 where
  short : (e : ℕ) → dump_char c ≡ 92 ∷ e ∷ [] → (e == 117) ≡ false → escape e ≡ some c → Kind c
  control :
      dump_char c ≡ 92 ∷ 117 ∷ 48 ∷ 48 ∷ hex_char (c / 16) ∷ hex_char (c % 16) ∷ []
      → c < 32
      → Kind c
  raw : dump_char c ≡ c ∷ [] → (c == 34) ≡ false → (c == 92) ≡ false → ltb c 32 ≡ false → Kind c

unescaped-Kind :
    (c : ℕ)
    → (c == 34) ≡ false
    → (c == 92) ≡ false
    → (c == 10) ≡ false
    → (c == 13) ≡ false
    → (c == 9) ≡ false
    → (c == 8) ≡ false
    → (c == 12) ≡ false
    → Kind c
unfolding dump_char
unescaped-Kind c a b n r t s f = elim (Bool-cases (ltb c 32)) [
  | inl l ↦ control (rw (a, b, n, r, t, s, f, l) refl) (ground (arith, l))
  | inr l ↦ raw (rw (a, b, n, r, t, s, f, l) refl) a b l
]

any-Kind : (c : ℕ) → Kind c
any-Kind c = elim (Bool-cases (c == 34)) [
  | inl e ↦ letter 34 34 (ground (arith, e)) (unfold dump_char in refl) refl (unfold escape in refl)
  | inr a ↦ elim (Bool-cases (c == 92)) [
    | inl e ↦
        letter 92 92 (ground (arith, e)) (unfold dump_char in refl) refl (unfold escape in refl)
    | inr b ↦ elim (Bool-cases (c == 10)) [
      | inl e ↦
          letter 10 110 (ground (arith, e)) (unfold dump_char in refl) refl (unfold escape in refl)
      | inr n ↦ elim (Bool-cases (c == 13)) [
        | inl e ↦
            letter 13 114 (ground (arith, e)) (unfold dump_char in refl) refl
              (unfold escape in refl)
        | inr r ↦ elim (Bool-cases (c == 9)) [
          | inl e ↦
              letter 9 116 (ground (arith, e)) (unfold dump_char in refl) refl
                (unfold escape in refl)
          | inr t ↦ elim (Bool-cases (c == 8)) [
            | inl e ↦
                letter 8 98 (ground (arith, e)) (unfold dump_char in refl) refl
                  (unfold escape in refl)
            | inr s ↦ elim (Bool-cases (c == 12)) [
              | inl e ↦
                  letter 12 102 (ground (arith, e)) (unfold dump_char in refl) refl
                    (unfold escape in refl)
              | inr f ↦ unescaped-Kind c a b n r t s f
            ]
          ]
        ]
      ]
    ]
  ]
]
  where
    letter :
        (v e : ℕ)
        → c ≡ v
        → dump_char v ≡ 92 ∷ e ∷ []
        → (e == 117) ≡ false
        → escape e ≡ some v
        → Kind c
    letter v e q d n h = short e (ap dump_char q ∙ d) n (h ∙ ap some (sym q))

-- What a character is dumped as is read back as that character.
read-dump_char :
    (c : ℕ) (rest : List ℕ)
    → read_string plain (dump_char c ++ rest) ≡ push (c ∷ []) (read_string plain rest)
read-dump_char c rest = go (any-Kind c)
  where
    with_dump :
        (d : List ℕ)
        → dump_char c ≡ d
        → read_string plain (d ++ rest) ≡ push (c ∷ []) (read_string plain rest)
        → read_string plain (dump_char c ++ rest) ≡ push (c ∷ []) (read_string plain rest)
    with_dump d e h = ap (λ x. read_string plain (x ++ rest)) e ∙ h

    go : Kind c → read_string plain (dump_char c ++ rest) ≡ push (c ∷ []) (read_string plain rest)
    go (short e d n h) = with_dump _ d (read_escape e c rest n h)
    go (control d l) = with_dump _ d (read-control c rest l)
    go (raw d a b l) = with_dump _ d (read_raw c rest a b l)

read-dump_chars : (s rest : List ℕ) → read_string plain (dump_chars s ++ 34 ∷ rest) ≡ parsed s rest
unfolding dump_chars
read-dump_chars [] rest = unfold read_string in refl
read-dump_chars (c ∷ s) rest =
    ap (read_string plain) (append_assoc (dump_char c) (dump_chars s) (34 ∷ rest))
    ∙ read-dump_char c (dump_chars s ++ 34 ∷ rest)
    ∙ ap (push (c ∷ [])) (read-dump_chars s rest)

-- Every byte string that dumpString writes is read back by parseString, which ends after the closing
-- quote, whatever follows it.
pub parse_string-dump_string :
    (s rest : List ℕ) → parse_string (dump_string s ++ rest) ≡ parsed s rest
unfolding parse_string dump_string
parse_string-dump_string s rest =
    ap (read_string plain) (append_assoc (dump_chars s) (34 ∷ []) rest) ∙ read-dump_chars s rest
