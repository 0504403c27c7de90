-- ===== src/Wire/Frames.antt =====
-- ParseFrame and SerializeFrame of Plugins/FrameSolver/Standalone/v2/FrameWire.h.
use architect_simulator.Base.{
  ◌≡◌, refl, ap, ◌∙◌, ℕ, ◌+◌, ◌/◌, ◌%◌, ◌<◌, ◌≤◌, ◌^◌, Bool, true, false, List, ◌∷◌, ◌++◌, some,
  length, length-append, append_assoc, arith, ltb,
}
use architect_simulator.Json.Value.{Json, dump}
use architect_simulator.Json.Parse.{parse}
use architect_simulator.Json.Heads.{IsReadable}
use architect_simulator.Json.Values.{parse-dump}
use architect_simulator.Wire.{
  header_fixed_bytes, max_header_len, max_payload_len, framed, incomplete, drop, take, read_le32,
  write_le32, write_le16, with_payload, parse_body, parse_frame, header_result, serialize_frame,
}
use architect_simulator.Wire.Words.{
  take-append, drop-append, bytes_of_word, bytes_of_half, with_payload-small,
}

-- The fixed part of a frame before its body.
abbrev pub fixed : ℕ → ℕ → ℕ → List ℕ → List ℕ
fixed flags h p body =
    70
    ∷ 67
    ∷ flags % 256
    ∷ flags / 256 % 256
    ∷ h % 256
    ∷ h / 256 % 256
    ∷ h / 65536 % 256
    ∷ h / 16777216 % 256
    ∷ p % 256
    ∷ p / 256 % 256
    ∷ p / 65536 % 256
    ∷ p / 16777216 % 256
    ∷ body

module _ {D : Type 0} (strtod : List ℕ → D) (is_finite : D → Bool) where
  pub parse_frame-fixed :
      (flags h p : ℕ) (body : List ℕ)
      → flags < 2 ^ 16
      → h < 2 ^ 32
      → p < 2 ^ 32
      → parse_frame strtod is_finite (fixed flags h p body)
        ≡ parse_body strtod is_finite flags (some h) (some p) (fixed flags h p body)
  unfolding parse_frame read_le32
  parse_frame-fixed flags h p body lf lh lp =
      let long : ltb (length (fixed flags h p body)) header_fixed_bytes ≡ false = ground arith in
      let eight : ltb (length (fixed flags h p body)) (4 + 4) ≡ false = ground arith in
      rw (long, read_le32, eight, bytes_of_half flags lf, bytes_of_word h lh, bytes_of_word p lp)
        refl

  pub parse_body-short :
      (flags h p : ℕ) (buf : List ℕ)
      → h ≤ max_header_len
      → p ≤ max_payload_len
      → length buf < 12 + h + p
      → parse_body strtod is_finite flags (some h) (some p) buf
        ≡ incomplete (12 + h + p) "incomplete frame"
  unfolding parse_body
  parse_body-short flags h p buf lh lp l =
      let a : ltb max_header_len h ≡ false = ground (arith, lh) in
      let b : ltb max_payload_len p ≡ false = ground (arith, lp) in
      let c : ltb (length buf) (12 + h + p) ≡ true = ground (arith, l) in rw (a, b, c) refl

  parse_body-whole :
      (flags h p : ℕ) (buf : List ℕ)
      → h ≤ max_header_len
      → p ≤ max_payload_len
      → 12 + h + p ≤ length buf
      → parse_body strtod is_finite flags (some h) (some p) buf
        ≡ header_result strtod is_finite flags
            (take p (drop h (drop 12 buf)))
            (12 + h + p)
            (parse strtod is_finite (take h (drop 12 buf)))
  unfolding parse_body
  parse_body-whole flags h p buf lh lp l =
      let a : ltb max_header_len h ≡ false = ground (arith, lh) in
      let b : ltb max_payload_len p ≡ false = ground (arith, lp) in
      let c : ltb (length buf) (12 + h + p) ≡ false = ground (arith, l) in rw (a, b, c) refl

  after_fixed :
      (flags h p : ℕ) (body : List ℕ)
      → header_result strtod is_finite flags
          (take p (drop h (drop 12 (fixed flags h p body))))
          (12 + h + p)
          (parse strtod is_finite (take h (drop 12 (fixed flags h p body))))
        ≡ header_result strtod is_finite flags
            (take p (drop h body))
            (12 + h + p)
            (parse strtod is_finite (take h body))
  unfolding drop
  after_fixed flags h p body = refl

  module _ (format : D → List ℕ) where
    pub serialize_frame-fixed :
        (flags : ℕ) (header : Json D) (payload : List ℕ)
        → length (dump format header) < 2 ^ 32
        → length payload < 2 ^ 32
        → serialize_frame format flags header payload
          ≡ fixed
              (with_payload flags payload)
              (length (dump format header))
              (length payload)
              (dump format header ++ payload)
    unfolding serialize_frame write_le32 write_le16
    serialize_frame-fixed flags header payload lh lp =
        let h : length (dump format header) % 2 ^ 32 ≡ length (dump format header) =
          omega (arith, lh) in
        let p : length payload % 2 ^ 32 ≡ length payload = omega (arith, lp) in rw (h, p) refl

    -- What SerializeFrame writes is read back by ParseFrame, whatever bytes follow it: the same header and
    -- payload, the flags with the payload flag where there is a payload, and the length of the frame as the
    -- bytes consumed, where the flags fit in 16 bits, the lengths keep to the caps and the header is one
    -- that parse reads back.
    pub parse_frame-serialize_frame :
        (flags : ℕ) (header : Json D) (payload rest : List ℕ)
        → flags < 2 ^ 16
        → length (dump format header) ≤ max_header_len
        → length payload ≤ max_payload_len
        → IsReadable strtod is_finite format 0 header
        → parse_frame strtod is_finite (serialize_frame format flags header payload ++ rest)
          ≡ framed
              (record { flags = with_payload flags payload; header = header; payload = payload })
              (length (serialize_frame format flags header payload))
    parse_frame-serialize_frame flags header payload rest lf lh lp readable =
        let dumped = dump format header in
        let fl = with_payload flags payload in
        let h = length dumped in
        let p = length payload in
        let body = dumped ++ payload ++ rest in
        let e =
          serialize_frame-fixed flags header payload (omega (arith, lh)) (omega (arith, lp)) in
        let whole : 12 + h + p ≤ length (fixed fl h p body) =
          omega (arith, length-append (dumped ++ payload) rest, length-append dumped payload) in
        let size : 12 + h + p ≡ length (serialize_frame format flags header payload) =
          omega (arith, ap length e, length-append dumped payload) in
        let assoc = append_assoc dumped payload rest in
        let header_is : take h body ≡ dumped =
          ap (take h) assoc ∙ take-append dumped (payload ++ rest) in
        let payload_is : take p (drop h body) ≡ payload =
          ap (λ s. take p (drop h s)) assoc
          ∙ ap (take p) (drop-append dumped (payload ++ rest))
          ∙ take-append payload rest in
        ap (λ s. parse_frame strtod is_finite (s ++ rest)) e
        ∙ parse_frame-fixed fl h p body (with_payload-small flags payload lf) (omega (arith, lh))
            (omega (arith, lp))
        ∙ parse_body-whole fl h p (fixed fl h p body) lh lp whole
        ∙ after_fixed fl h p body
        ∙ ap
            (λ t.
              header_result strtod is_finite fl t (12 + h + p)
                (parse strtod is_finite (take h body)))
            payload_is
        ∙ ap
            (λ t. header_result strtod is_finite fl payload (12 + h + p) (parse strtod is_finite t))
            header_is
        ∙ ap (header_result strtod is_finite fl payload (12 + h + p))
            (parse-dump strtod is_finite format header readable)
        ∙ ap (framed (record { flags = fl; header = header; payload = payload })) size
