-- ===== src/Json.antt =====
-- The strings of frame_v2::Json (Plugins/FrameSolver/Standalone/v2/MiniJson.h): dumpString and
-- parseString over bytes, which are the numbers below 256.
pub mod Number
pub mod Integers
pub mod RoundTrip
pub mod Value
pub mod Parse
pub mod Strings
pub mod Lengths
pub mod Proper
pub mod Access
pub mod Outcomes
pub mod Steps
pub mod Finishes
pub mod Heads
pub mod Texts
pub mod Values
pub mod Tests
pub mod Runs
use Prim.Native.String.{String}
use architect_simulator.Base.{
  ℕ, zero, suc, ◌+◌, ◌-◌, ◌*◌, ◌/◌, ◌%◌, Bool, true, false, ◌&&◌, List, [], ◌∷◌, ◌++◌, Option, none,
  some, if◌then◌else◌, length, ltb, leb, ◌==◌,
}

-- What parseString gives: the bytes and what follows the closing quote, or its diagnostic.
pub data Parsed : Type 0 where
  parsed : List ℕ → List ℕ → Parsed
  failed : String → Parsed

-- `r +=` before the rest of the string is read.
abbrev pub push : List ℕ → Parsed → Parsed
push bs (parsed r rest) = parsed (bs ++ r) rest
push bs (failed why) = failed why

-- "%x" of a digit.
unfoldable pub hex_char : ℕ → ℕ
hex_char d = if ltb d 10 then 48 + d else 87 + d

unfoldable pub dump_char : ℕ → List ℕ
unfolding hex_char
dump_char c =
    if c == 34
    then 92 ∷ 34 ∷ []
    else if c == 92
    then 92 ∷ 92 ∷ []
    else if c == 10
    then 92 ∷ 110 ∷ []
    else if c == 13
    then 92 ∷ 114 ∷ []
    else if c == 9
    then 92 ∷ 116 ∷ []
    else if c == 8
    then 92 ∷ 98 ∷ []
    else if c == 12
    then 92 ∷ 102 ∷ []
    else if ltb c 32
    then 92 ∷ 117 ∷ 48 ∷ 48 ∷ hex_char (c / 16) ∷ hex_char (c % 16) ∷ []
    else c ∷ []

unfoldable pub dump_chars : List ℕ → List ℕ
unfolding dump_char
dump_chars [] = []
dump_chars (c ∷ cs) = dump_char c ++ dump_chars cs

unfoldable pub dump_string : List ℕ → List ℕ
unfolding dump_chars
dump_string s = 34 ∷ dump_chars s ++ 34 ∷ []

unfoldable pub hex_digit : ℕ → Option ℕ
hex_digit h =
    if leb 48 h && leb h 57
    then some (h - 48)
    else if leb 97 h && leb h 102
    then some (10 + h - 97)
    else if leb 65 h && leb h 70
    then some (10 + h - 65)
    else none

-- The bytes of a code point below 2^16.
unfoldable pub utf8 : ℕ → List ℕ
utf8 cp =
    if ltb cp 128
    then cp ∷ []
    else if ltb cp 2048
    then (192 + cp / 64) ∷ (128 + cp % 64) ∷ []
    else (224 + cp / 4096) ∷ (128 + (cp / 64) % 64) ∷ (128 + cp % 64) ∷ []

-- The byte that a one-letter escape stands for.
unfoldable pub escape : ℕ → Option ℕ
escape e =
    if e == 34
    then some 34
    else if e == 92
    then some 92
    else if e == 47
    then some 47
    else if e == 110
    then some 10
    else if e == 114
    then some 13
    else if e == 116
    then some 9
    else if e == 98
    then some 8
    else if e == 102
    then some 12
    else none

-- Where the loop of parseString stands: between characters, after a backslash, or with so many digits
-- left of a code point.
pub data Mode : Type 0 where
  plain : Mode
  escaped : Mode
  hex : ℕ → ℕ → Mode

-- parseString after the opening quote, one byte for each round.
unfoldable pub read_string : Mode → List ℕ → Parsed
unfolding hex_digit utf8 escape
read_string plain [] = failed "unterminated string"
read_string escaped [] = failed "bad escape"
read_string (hex left cp) [] = failed "bad unicode escape"
read_string plain (c ∷ cs) = elim (c == 34) [
  | true ↦ parsed [] cs
  | false ↦ elim (c == 92) [
    | true ↦ read_string escaped cs
    | false ↦ elim (ltb c 32) [
      | true ↦ failed "raw control char in string (must be \\uXXXX escaped)"
      | false ↦ push (c ∷ []) (read_string plain cs)
    ]
  ]
]
read_string escaped (e ∷ cs) = elim (e == 117) [
  | true ↦ elim (ltb (length cs) 4) [
    | true ↦ failed "bad unicode escape"
    | false ↦ read_string (hex 3 0) cs
  ]
  | false ↦ elim (escape e) [
    | none ↦ failed "bad escape char"
    | some b ↦ push (b ∷ []) (read_string plain cs)
  ]
]
read_string (hex left cp) (h ∷ cs) = elim (hex_digit h) [
  | none ↦ failed "bad hex digit"
  | some d ↦ elim left [
    | zero ↦ push (utf8 (cp * 16 + d)) (read_string plain cs)
    | suc k ↦ read_string (hex k (cp * 16 + d)) cs
  ]
]

-- parseString at a byte that parseValue or parseObject has found to be a quote.
unfoldable pub parse_string : List ℕ → Parsed
unfolding read_string
parse_string [] = failed "unexpected EOF"
parse_string (q ∷ cs) = read_string plain cs
