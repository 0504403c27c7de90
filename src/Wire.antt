-- ===== src/Wire.antt =====
-- The frames of the v2 protocol (Plugins/FrameSolver/Standalone/v2/FrameWire.h) over bytes, which are
-- the numbers below 256. `strtod`, `isfinite` and the "%.17g" of a double are parameters.
pub mod Words
pub mod Frames
pub mod Streams
pub mod Tests
use Prim.Native.String.{String}
use architect_simulator.Base.{
  ℕ, zero, suc, ◌+◌, ◌*◌, ◌/◌, ◌%◌, ◌^◌, Bool, true, false, not, ◌||◌, List, [], ◌∷◌, ◌++◌, Option,
  none, some, if◌then◌else◌, length, get_or, ltb, ◌==◌,
}
use architect_simulator.Json.Value.{Json, dump}
use architect_simulator.Json.Parse.{Outcome, read, stopped, unfinished, parse}

abbrev pub header_fixed_bytes : ℕ
header_fixed_bytes = 12

abbrev pub max_header_len : ℕ
max_header_len = 16777216

abbrev pub max_payload_len : ℕ
max_payload_len = 268435456

pub record Frame (D : Type 0) : Type 0 where
  flags : ℕ
  header : Json D
  payload : List ℕ

-- What ParseFrame gives: a frame and the bytes consumed, or its diagnostic, with the bytes needed where
-- the frame is incomplete and with that of the JSON where the header is refused.
pub data ParseResult (D : Type 0) : Type 0 where
  framed : Frame D → ℕ → ParseResult D
  incomplete : ℕ → String → ParseResult D
  malformed : String → ParseResult D
  bad_header : String → ParseResult D
  stuck : ParseResult D

-- The bytes from an offset on, and so many bytes.
unfoldable pub drop : ℕ → List ℕ → List ℕ
drop zero s = s
drop (suc n) [] = []
drop (suc n) (c ∷ cs) = drop n cs

unfoldable pub take : ℕ → List ℕ → List ℕ
take zero s = []
take (suc n) [] = []
take (suc n) (c ∷ cs) = c ∷ take n cs

-- The bytes do not overlap, so that the disjunction of the shifted bytes is their sum.
unfoldable pub read_le32 : List ℕ → ℕ → Option ℕ
read_le32 buf off =
    if ltb (length buf) (off + 4)
    then none
    else some (
        get_or buf off 0
        + get_or buf (off + 1) 0 * 256
        + get_or buf (off + 2) 0 * 65536
        + get_or buf (off + 3) 0 * 16777216)

unfoldable pub write_le32 : ℕ → List ℕ
write_le32 v = v % 256 ∷ v / 256 % 256 ∷ v / 65536 % 256 ∷ v / 16777216 % 256 ∷ []

unfoldable pub write_le16 : ℕ → List ℕ
write_le16 v = v % 256 ∷ v / 256 % 256 ∷ []

-- flags |= kFlagHasPayload where there is a payload.
unfoldable pub with_payload : ℕ → List ℕ → ℕ
with_payload flags [] = flags
with_payload flags (b ∷ bs) = if flags / 2 % 2 == 1 then flags else flags + 2

module _ {D : Type 0} (strtod : List ℕ → D) (is_finite : D → Bool) where
  -- The header's outcome, with the payload and the length of the frame.
  abbrev pub header_result : ℕ → List ℕ → ℕ → Outcome (Json D) → ParseResult D
  header_result flags payload total (read header rest) =
      framed (record { flags = flags; header = header; payload = payload }) total
  header_result flags payload total (stopped why) = bad_header why
  header_result flags payload total unfinished = stuck

  unfoldable pub parse_body : ℕ → Option ℕ → Option ℕ → List ℕ → ParseResult D
  unfolding parse drop take
  parse_body flags none payload_len buf = malformed "header length read failed"
  parse_body flags (some header_len) none buf = malformed "header length read failed"
  parse_body flags (some header_len) (some payload_len) buf =
      let total = header_fixed_bytes + header_len + payload_len in
      if ltb max_header_len header_len
      then malformed "header too large"
      else if ltb max_payload_len payload_len
      then malformed "payload too large"
      else if ltb (length buf) total
      then incomplete total "incomplete frame"
      else header_result flags (take payload_len (drop header_len (drop header_fixed_bytes buf)))
          total (parse strtod is_finite (take header_len (drop header_fixed_bytes buf)))

  unfoldable pub parse_frame : List ℕ → ParseResult D
  unfolding parse_body read_le32
  parse_frame buf =
      if ltb (length buf) header_fixed_bytes
      then incomplete header_fixed_bytes "incomplete fixed header"
      else if not (get_or buf 0 0 == 70) || not (get_or buf 1 0 == 67)
      then malformed "bad magic"
      else parse_body (get_or buf 2 0 + get_or buf 3 0 * 256) (read_le32 buf 4) (read_le32 buf 8)
          buf

module _ {D : Type 0} (format : D → List ℕ) where
  -- The lengths are cast to uint32_t.
  unfoldable pub serialize_frame : ℕ → Json D → List ℕ → List ℕ
  unfolding dump write_le32 write_le16 with_payload
  serialize_frame flags header payload =
      let dumped = dump format header in
      70 ∷ 67 ∷ write_le16 (with_payload flags payload)
      ++ (write_le32 (length dumped % 2 ^ 32)
          ++ (write_le32 (length payload % 2 ^ 32) ++ (dumped ++ payload)))
