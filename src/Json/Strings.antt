-- ===== src/Json/Strings.antt =====
-- How far parseString of Plugins/FrameSolver/Standalone/v2/MiniJson.h reads.
use architect_simulator.Base.{
  ℕ, zero, suc, ◌+◌, ◌*◌, ◌≤◌, Bool, true, false, List, [], ◌∷◌, length, Option, none, some, arith,
  ltb, ◌==◌,
}
use architect_simulator.Json.{
  Parsed, parsed, failed, Mode, plain, escaped, hex, push, hex_digit, utf8, escape, read_string,
}

abbrev pub ShortParsed : ℕ → Parsed → Type 0
ShortParsed n (parsed r rest) = length rest ≤ n
ShortParsed n (failed why) = Unit

push-ShortParsed :
    (n m : ℕ) (bs : List ℕ) (p : Parsed) → n ≤ m → ShortParsed n p → ShortParsed m (push bs p)
push-ShortParsed n m bs (parsed r rest) l h = omega (arith, l, h)
push-ShortParsed n m bs (failed why) l h = tt

ShortParsed-le : (n m : ℕ) (p : Parsed) → n ≤ m → ShortParsed n p → ShortParsed m p
ShortParsed-le n m (parsed r rest) l h = omega (arith, l, h)
ShortParsed-le n m (failed why) l h = tt

pub read_string-ShortParsed : (m : Mode) (s : List ℕ) → ShortParsed (length s) (read_string m s)
unfolding read_string
read_string-ShortParsed plain [] = tt
read_string-ShortParsed escaped [] = tt
read_string-ShortParsed (hex left cp) [] = tt
read_string-ShortParsed plain (c ∷ cs) =
    go (c == 34) (c == 92) (ltb c 32) (read_string-ShortParsed escaped cs)
      (read_string-ShortParsed plain cs)
  where
    go :
        (a b d : Bool)
        → ShortParsed (length cs) (read_string escaped cs)
        → ShortParsed (length cs) (read_string plain cs)
        → ShortParsed (suc (length cs)) (elim a [
          | true ↦ parsed [] cs
          | false ↦ elim b [
            | true ↦ read_string escaped cs
            | false ↦ elim d [
              | true ↦ failed "raw control char in string (must be \\uXXXX escaped)"
              | false ↦ push (c ∷ []) (read_string plain cs)
            ]
          ]
        ])
    go true b d e p = omega arith
    go false true d e p = ShortParsed-le (length cs) _ (read_string escaped cs) (omega arith) e
    go false false true e p = tt
    go false false false e p =
        push-ShortParsed (length cs) _ (c ∷ []) (read_string plain cs) (omega arith) p
read_string-ShortParsed escaped (e ∷ cs) =
    go (e == 117) (ltb (length cs) 4) (escape e) (read_string-ShortParsed (hex 3 0) cs)
      (read_string-ShortParsed plain cs)
  where
    go :
        (a b : Bool) (o : Option ℕ)
        → ShortParsed (length cs) (read_string (hex 3 0) cs)
        → ShortParsed (length cs) (read_string plain cs)
        → ShortParsed (suc (length cs)) (elim a [
          | true ↦ elim b [ true ↦ failed "bad unicode escape" | false ↦ read_string (hex 3 0) cs ]
          | false ↦ elim o [
            | none ↦ failed "bad escape char"
            | some b ↦ push (b ∷ []) (read_string plain cs)
          ]
        ])
    go true true o h p = tt
    go true false o h p = ShortParsed-le (length cs) _ (read_string (hex 3 0) cs) (omega arith) h
    go false b none h p = tt
    go false b (some x) h p =
        push-ShortParsed (length cs) _ (x ∷ []) (read_string plain cs) (omega arith) p
read_string-ShortParsed (hex left cp) (h ∷ cs) =
    go (hex_digit h) left (λ k x. read_string-ShortParsed (hex k x) cs)
      (read_string-ShortParsed plain cs)
  where
    go :
        (o : Option ℕ) (left : ℕ)
        → ((k x : ℕ) → ShortParsed (length cs) (read_string (hex k x) cs))
        → ShortParsed (length cs) (read_string plain cs)
        → ShortParsed (suc (length cs)) (elim o [
          | none ↦ failed "bad hex digit"
          | some d ↦ elim left [
            | zero ↦ push (utf8 (cp * 16 + d)) (read_string plain cs)
            | suc k ↦ read_string (hex k (cp * 16 + d)) cs
          ]
        ])
    go none left f p = tt
    go (some d) zero f p =
        push-ShortParsed (length cs) _ (utf8 (cp * 16 + d)) (read_string plain cs) (omega arith) p
    go (some d) (suc k) f p =
        ShortParsed-le (length cs) _ (read_string (hex k (cp * 16 + d)) cs) (omega arith)
          (f k (cp * 16 + d))
