-- ===== src/Wire/Tests.antt =====
-- A frame of the v2 protocol with a payload of two bytes, and its theorems.
use architect_simulator.Base.{◌≡◌, refl, ℕ, List, [], ◌∷◌, ◌++◌, length, arith}
use architect_simulator.Json.Value.{dump}
use architect_simulator.Json.Runs.{half, strtod, is_finite, sample, sample-IsReadable}
use architect_simulator.Wire.{framed, malformed, take, parse_frame, serialize_frame, with_payload}
use architect_simulator.Wire.Frames.{parse_frame-serialize_frame}
use architect_simulator.Wire.Streams.{Waits, parse_frame-Waits, IsBounded, parse_frame-IsBounded}

abbrev payload : List ℕ
payload = 7 ∷ 8 ∷ []

written :
    take 14 (serialize_frame half 1 sample payload)
    ≡ 70 ∷ 67 ∷ 3 ∷ 0 ∷ 20 ∷ 0 ∷ 0 ∷ 0 ∷ 2 ∷ 0 ∷ 0 ∷ 0 ∷ 123 ∷ 34 ∷ []
unfolding serialize_frame take
written = refl

no_magic :
    parse_frame strtod is_finite (1 ∷ 2 ∷ 3 ∷ 4 ∷ 5 ∷ 6 ∷ 7 ∷ 8 ∷ 9 ∷ 10 ∷ 11 ∷ 12 ∷ [])
    ≡ malformed "bad magic"
unfolding parse_frame
no_magic = refl

size : length (dump half sample) ≡ 20
unfolding dump
size = refl

sizes : length (serialize_frame half 1 sample payload) ≡ 34
unfolding serialize_frame
sizes = refl

parse_frame-serialize_frame_example :
    parse_frame strtod is_finite (serialize_frame half 1 sample payload ++ 70 ∷ [])
    ≡ framed
        (record { flags = with_payload 1 payload; header = sample; payload = payload })
        (length (serialize_frame half 1 sample payload))
parse_frame-serialize_frame_example =
    parse_frame-serialize_frame strtod is_finite half 1 sample payload (70 ∷ []) (omega arith)
      (omega (arith, size)) (omega arith) sample-IsReadable

parse_frame-Waits_example :
    Waits 13
      (length (serialize_frame half 1 sample payload))
      (parse_frame strtod is_finite (take 13 (serialize_frame half 1 sample payload)))
parse_frame-Waits_example =
    parse_frame-Waits strtod is_finite half 1 sample payload 13 (omega arith) (omega (arith, size))
      (omega arith) (omega (arith, sizes))

abbrev beginning : List ℕ
beginning = 70 ∷ 67 ∷ []

parse_frame-IsBounded_example :
    IsBounded strtod is_finite (length beginning) (parse_frame strtod is_finite beginning)
parse_frame-IsBounded_example = parse_frame-IsBounded strtod is_finite beginning
