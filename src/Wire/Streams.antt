-- ===== src/Wire/Streams.antt =====
-- ParseFrame of Plugins/FrameSolver/Standalone/v2/FrameWire.h on a buffer that is still filling, and on
-- any bytes.
use architect_simulator.Base.{
  ◌≡◌, refl, ap, sym, ◌∙◌, subst, ℕ, suc, ◌+◌, ◌-◌, ◌*◌, ◌<◌, ◌≤◌, ◌^◌, Bool, true, false, not,
  ◌||◌, List, ◌++◌, Option, none, some, if◌then◌else◌, length, length-append, arith, get_or, ltb,
  ◌==◌, Bool-cases, inl, inr,
}
use architect_simulator.Json.Value.{Json, dump}
use architect_simulator.Json.Parse.{Outcome, read, stopped, unfinished, parse}
use architect_simulator.Json.Proper.{IsProper}
use architect_simulator.Json.Outcomes.{Good}
use architect_simulator.Json.Finishes.{parse-Good}
use architect_simulator.Wire.{
  max_header_len, max_payload_len, Frame, ParseResult, framed, incomplete, malformed, bad_header,
  stuck, drop, take, read_le32, with_payload, parse_body, parse_frame, header_result,
  serialize_frame,
}
use architect_simulator.Wire.Words.{length-take, length-take_le, with_payload-small}
use architect_simulator.Wire.Frames.{
  fixed, parse_frame-fixed, parse_body-short, serialize_frame-fixed,
}

-- The frame is incomplete, and the bytes needed are more than there are and no more than it has.
abbrev pub Waits : {D : Type 0} → ℕ → ℕ → ParseResult D → Type 0
Waits present total (incomplete needed why) = (present < needed) × (needed ≤ total)
Waits present total (framed f n) = ⊥
Waits present total (malformed why) = ⊥
Waits present total (bad_header why) = ⊥
Waits present total stuck = ⊥

take-fixed :
    (j flags h p : ℕ) (body : List ℕ)
    → take
        (suc (suc (suc (suc (suc (suc (suc (suc (suc (suc (suc (suc j))))))))))))
        (fixed flags h p body)
      ≡ fixed flags h p (take j body)
unfolding take
take-fixed j flags h p body = refl

module _ {D : Type 0} (strtod : List ℕ → D) (is_finite : D → Bool) where
  parse_frame-short :
      (buf : List ℕ)
      → length buf < 12
      → parse_frame strtod is_finite buf ≡ incomplete 12 "incomplete fixed header"
  unfolding parse_frame
  parse_frame-short buf h =
      let short : ltb (length buf) 12 ≡ true = ground (arith, h) in rw short refl

  fixed-Waits :
      (flags h p k : ℕ) (body : List ℕ)
      → flags < 2 ^ 16
      → h ≤ max_header_len
      → p ≤ max_payload_len
      → length body ≡ h + p
      → k < 12 + length body
      → Waits k (12 + length body) (parse_frame strtod is_finite (take k (fixed flags h p body)))
  fixed-Waits flags h p k body lf lh lp e lk = elim (Bool-cases (ltb k 12)) [
    | inl short ↦
        let size : length (take k (fixed flags h p body)) ≤ k =
          length-take_le k (fixed flags h p body) in
        subst (Waits k (12 + length body))
          (sym (parse_frame-short (take k (fixed flags h p body)) (ground (arith, short, size))))
          (ground (arith, short), omega arith)
    | inr long ↦
        let j = k - 12 in
        let at : k ≡ suc (suc (suc (suc (suc (suc (suc (suc (suc (suc (suc (suc j))))))))))) =
          ground (arith, long) in
        let size : length (take j body) ≡ j = length-take j body (ground (arith, long, lk)) in
        let text = ap (λ i. take i (fixed flags h p body)) at ∙ take-fixed j flags h p body in
        subst (Waits k (12 + length body))
          (sym (
            ap (parse_frame strtod is_finite) text
            ∙ parse_frame-fixed strtod is_finite flags h p (take j body) lf (omega (arith, lh))
                (omega (arith, lp))
            ∙ parse_body-short strtod is_finite flags h p (fixed flags h p (take j body)) lh lp
                (ground (arith, size, at, lk, e))))
          (ground (arith, lk, e), omega (arith, e))
  ]

  module _ (format : D → List ℕ) where
    -- On a proper beginning of what SerializeFrame writes, ParseFrame asks for more bytes than there are,
    -- and for no more than the frame has.
    pub parse_frame-Waits :
        (flags : ℕ) (header : Json D) (payload : List ℕ) (k : ℕ)
        → flags < 2 ^ 16
        → length (dump format header) ≤ max_header_len
        → length payload ≤ max_payload_len
        → k < length (serialize_frame format flags header payload)
        → Waits k
            (length (serialize_frame format flags header payload))
            (parse_frame strtod is_finite (take k (serialize_frame format flags header payload)))
    parse_frame-Waits flags header payload k lf lh lp lk =
        let dumped = dump format header in
        let fl = with_payload flags payload in
        let body = dumped ++ payload in
        let e =
          serialize_frame-fixed strtod is_finite format flags header payload (omega (arith, lh))
            (omega (arith, lp)) in
        let size : length (fixed fl (length dumped) (length payload) body) ≡ 12 + length body =
          omega arith in
        let waits =
          fixed-Waits fl (length dumped) (length payload) k body
            (with_payload-small flags payload lf) lh lp (length-append dumped payload)
            (omega (arith, lk, ap length e, size)) in
        subst (λ s. Waits k (length s) (parse_frame strtod is_finite (take k s))) (sym e)
          (subst
            (λ n. Waits k n (
              parse_frame strtod is_finite
                (take k (fixed fl (length dumped) (length payload) body))))
            (sym size) waits)

  -- What ParseFrame says of the bytes that it was given so many of.
  abbrev pub IsBounded : ℕ → ParseResult D → Type 0
  IsBounded present (framed f consumed) =
      (12 ≤ consumed)
      × (consumed ≤ present)
      × (length (Frame.payload f) ≤ max_payload_len)
      × IsProper is_finite 0 (Frame.header f)
  IsBounded present (incomplete needed why) =
      (present < needed) × (needed ≤ 12 + max_header_len + max_payload_len)
  IsBounded present (malformed why) = Unit
  IsBounded present (bad_header why) = Unit
  IsBounded present stuck = ⊥

  header_result-IsBounded :
      (present flags total : ℕ) (payload : List ℕ) (o : Outcome (Json D))
      → 12 ≤ total
      → total ≤ present
      → length payload ≤ max_payload_len
      → Good 0 (IsProper is_finite 0) o
      → IsBounded present (header_result strtod is_finite flags payload total o)
  header_result-IsBounded present flags total payload (read v rest) a b c g = (a, b, c, g.1)
  header_result-IsBounded present flags total payload (stopped why) a b c g = tt
  header_result-IsBounded present flags total payload unfinished a b c g = g

  parse_body-IsBounded :
      (flags : ℕ) (h p : Option ℕ) (buf : List ℕ)
      → IsBounded (length buf) (parse_body strtod is_finite flags h p buf)
  unfolding parse_body
  parse_body-IsBounded flags none p buf = tt
  parse_body-IsBounded flags (some h) none buf = tt
  parse_body-IsBounded flags (some h) (some p) buf =
      go (ltb max_header_len h) (ltb max_payload_len p) (ltb (length buf) (12 + h + p)) refl refl
        refl
    where
      go :
          (a b c : Bool)
          → ltb max_header_len h ≡ a
          → ltb max_payload_len p ≡ b
          → ltb (length buf) (12 + h + p) ≡ c
          → IsBounded (length buf) (
              if a
              then malformed "header too large"
              else if b
              then malformed "payload too large"
              else if c
              then incomplete (12 + h + p) "incomplete frame"
              else header_result strtod is_finite flags
                  (take p (drop h (drop 12 buf)))
                  (12 + h + p)
                  (parse strtod is_finite (take h (drop 12 buf))))
      go true b c ea eb ec = tt
      go false true c ea eb ec = tt
      go false false true ea eb ec = (ground (arith, ec), ground (arith, ea, eb))
      go false false false ea eb ec =
          header_result-IsBounded (length buf) flags (12 + h + p) (take p (drop h (drop 12 buf)))
            (parse strtod is_finite (take h (drop 12 buf))) (omega arith) (ground (arith, ec))
            (ground (arith, eb, length-take_le p (drop h (drop 12 buf))))
            (parse-Good strtod is_finite (take h (drop 12 buf)))

  -- For any bytes, ParseFrame ends. A frame that it gives was all there, consumed no less than its fixed
  -- part, keeps to the payload cap and has a proper header; where it asks for more, that is more than
  -- there is and within the caps.
  pub parse_frame-IsBounded :
      (buf : List ℕ) → IsBounded (length buf) (parse_frame strtod is_finite buf)
  unfolding parse_frame
  parse_frame-IsBounded buf =
      go (ltb (length buf) 12) (not (get_or buf 0 0 == 70) || not (get_or buf 1 0 == 67)) refl
    where
      go :
          (a b : Bool)
          → ltb (length buf) 12 ≡ a
          → IsBounded (length buf) (
              if a
              then incomplete 12 "incomplete fixed header"
              else if b
              then malformed "bad magic"
              else parse_body strtod is_finite
                  (get_or buf 2 0 + get_or buf 3 0 * 256)
                  (read_le32 buf 4)
                  (read_le32 buf 8)
                  buf)
      go true b e = (ground (arith, e), omega arith)
      go false true e = tt
      go false false e =
          parse_body-IsBounded (get_or buf 2 0 + get_or buf 3 0 * 256) (read_le32 buf 4)
            (read_le32 buf 8) buf
