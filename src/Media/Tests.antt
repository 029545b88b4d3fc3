-- ===== src/Media/Tests.antt =====
-- Runs and instances for the model of modules/wl2_media/src/media_schema.cpp.
use winglib.Base.{
  ◌≡◌, refl, true, [], ◌∷◌, some, none, codes, ok, err, ◌>>◌, arith, split_at, text_eq,
}
use winglib.Media.Writer.{pos, negsuc, integer_text, escaped}
use winglib.Media.Reader.{parse_string}
use winglib.Media.Schema.{
  PacketMetadata, serialize_packet, parse_packet_metadata, validate_packet, parse_time_base,
  parse_failed, is_known_backpressure_profile,
}
use winglib.Media.Timestamp.{convert_timestamp}
use winglib.Media.Schema.RoundTrip.{parse-serialize_packet}

abbrev frame : PacketMetadata
frame = record {
  schema = pos 1;
  codec = codes "h264";
  media_type = codes "video";
  caps = b'"' ∷ 10 ∷ 1 ∷ b'\\' ∷ 200 ∷ [];
  stream_format = [];
  alignment = codes "au";
  track = pos 2;
  pts = negsuc 4;
  dts = pos 0;
  duration = pos 40;
  time_base = codes "1/90000";
  flags = 3;
  discontinuity = true;
  side_data = [];
}

parse-serialize_packet_example :
    parse_packet_metadata (serialize_packet frame) ≡ (validate_packet frame >> ok frame)
parse-serialize_packet_example =
    parse-serialize_packet frame
      (omega arith, omega arith, omega arith, omega arith, omega arith, omega arith)

printed_minus : integer_text (negsuc 41) ≡ codes "-42"
unfolding integer_text
printed_minus = refl

printed_escape : escaped (b'"' ∷ 1 ∷ []) ≡ codes "\"\\\"\\u0001\""
unfolding escaped
printed_escape = refl

read_escape : parse_string (codes "\"\\u00e9\"x") ≡ some (195 ∷ 169 ∷ [], codes "x")
unfolding parse_string
read_escape = refl

not_an_object : parse_packet_metadata (codes "[1]") ≡ err parse_failed
unfolding parse_packet_metadata
not_an_object = refl

zero_denominator : parse_time_base (codes "1/0") ≡ none
unfolding parse_time_base split_at
zero_denominator = refl

known_profile : is_known_backpressure_profile (codes "relay") ≡ true
unfolding is_known_backpressure_profile text_eq
known_profile = refl

-- A half is rounded away from zero.
converted : convert_timestamp (negsuc 2) (codes "1/2000") (codes "1/1000") ≡ negsuc 1
unfolding convert_timestamp split_at
converted = refl

unknown_base : convert_timestamp (pos 5) (codes "1/0") (codes "1/1000") ≡ pos 5
unfolding convert_timestamp split_at
unknown_base = refl
