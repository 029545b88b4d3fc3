-- ===== src/Media/Schema.antt =====
-- StreamDescriptor and PacketMetadata of modules/wl2_media: validate, serialize and the parsers.
pub mod RoundTrip
use winglib.Base.{
  ℕ, ◌+◌, ◌-◌, ◌*◌, ◌/◌, ◌%◌, ◌^◌, Bool, true, false, not, ◌&&◌, ◌||◌, List, [], ◌∷◌, ◌++◌, Option,
  none, some, Text, codes, is_empty, text_eq, split_at, if◌then◌else◌, ◌==◌, leb, ltb, Result, ok,
  err, ◌>>=◌, ◌>>◌, fail_if, lookup, text_Eq,
}
use winglib.Sdp.Numbers.{parse_digits}
use winglib.Media.Writer.{ℤ, pos, negsuc, JsonField, string, number, boolean, null, object_text}
use winglib.Media.Reader.{Fields, parse_flat_object}

pub data MediaError : Type 0 where
  invalid_argument invalid_schema unsupported_media_type invalid_time_base parse_failed : MediaError

pub record StreamDescriptor : Type 0 where
  pub schema : ℤ
  pub media_type : Text
  pub codec : Text
  pub caps : Text
  pub stream_format : Text
  pub alignment : Text
  pub track : ℤ

-- `flags` is a uint32_t.
pub record PacketMetadata : Type 0 where
  pub schema : ℤ
  pub codec : Text
  pub media_type : Text
  pub caps : Text
  pub stream_format : Text
  pub alignment : Text
  pub track : ℤ
  pub pts : ℤ
  pub dts : ℤ
  pub duration : ℤ
  pub time_base : Text
  pub flags : ℕ
  pub discontinuity : Bool
  pub side_data : Text

unfoldable pub is_known_media_type : Text → Bool
is_known_media_type media_type =
    text_eq media_type (codes "video")
    || (text_eq media_type (codes "audio")
        || (text_eq media_type (codes "subtitle") || text_eq media_type (codes "data")))

unfoldable pub is_known_backpressure_profile : Text → Bool
is_known_backpressure_profile name =
    text_eq name (codes "record")
    || (text_eq name (codes "transcode")
        || (text_eq name (codes "preview") || text_eq name (codes "relay")))

-- One half of a time base, in 64 bits, with the overflow taken to wrap.
unfoldable pub time_base_int : Text → Option ℕ
unfolding parse_digits
time_base_int [] = none
time_base_int (c ∷ s) = if c == b'-' then parse_digits true s else parse_digits false (c ∷ s)

unfoldable pub time_base_parts : Text → Text → Option (ℕ × ℕ)
unfolding time_base_int
time_base_parts before behind = elim (time_base_int before) [
  | none ↦ none
  | some num ↦ elim (time_base_int behind) [
    | none ↦ none
    | some den ↦ if den == 0 then none else some (num, den)
  ]
]

-- A slash that is not the first byte and not the last.
unfoldable pub parse_time_base : Text → Option (ℕ × ℕ)
unfolding time_base_parts
parse_time_base time_base = elim (split_at b'/' time_base) [
  | none ↦ none
  | some (before, behind) ↦
      if is_empty before || is_empty behind then none else time_base_parts before behind
]

abbrev pub is_one : ℤ → Bool
is_one (pos n) = n == 1
is_one (negsuc n) = false

abbrev pub is_negative : ℤ → Bool
is_negative (pos n) = false
is_negative (negsuc n) = true

unfoldable pub validate_stream : StreamDescriptor → Result MediaError (Unit {0})
unfolding is_known_media_type
validate_stream descriptor =
    (fail_if (not (is_one descriptor.schema)) invalid_schema
      >> fail_if (not (is_known_media_type descriptor.media_type)) unsupported_media_type
      >> fail_if (is_negative descriptor.track) invalid_argument)

abbrev pub is_none {ℓ} : {A : Type ℓ} → Option A → Bool
is_none none = true
is_none (some a) = false

unfoldable pub validate_packet : PacketMetadata → Result MediaError (Unit {0})
unfolding is_known_media_type parse_time_base
validate_packet metadata =
    (fail_if (not (is_one metadata.schema)) invalid_schema
      >> fail_if
          (not (is_empty metadata.media_type) && not (is_known_media_type metadata.media_type))
          unsupported_media_type
      >> fail_if (is_negative metadata.track) invalid_argument
      >> fail_if (is_none (parse_time_base metadata.time_base)) invalid_time_base)

unfoldable pub stream_fields : StreamDescriptor → Fields
stream_fields descriptor =
    (codes "schema", number descriptor.schema)
    ∷ (codes "mediaType", string descriptor.media_type)
    ∷ (codes "codec", string descriptor.codec)
    ∷ (codes "caps", string descriptor.caps)
    ∷ (codes "streamFormat", string descriptor.stream_format)
    ∷ (codes "alignment", string descriptor.alignment)
    ∷ (codes "track", number descriptor.track)
    ∷ []

unfoldable pub serialize_stream : StreamDescriptor → Text
unfolding stream_fields object_text
serialize_stream descriptor = object_text (stream_fields descriptor)

unfoldable pub packet_fields : PacketMetadata → Fields
packet_fields metadata =
    (codes "schema", number metadata.schema)
    ∷ (codes "mediaType", string metadata.media_type)
    ∷ (codes "codec", string metadata.codec)
    ∷ (codes "caps", string metadata.caps)
    ∷ (codes "streamFormat", string metadata.stream_format)
    ∷ (codes "alignment", string metadata.alignment)
    ∷ (codes "track", number metadata.track)
    ∷ (codes "pts", number metadata.pts)
    ∷ (codes "dts", number metadata.dts)
    ∷ (codes "duration", number metadata.duration)
    ∷ (codes "timeBase", string metadata.time_base)
    ∷ (codes "flags", number (pos metadata.flags))
    ∷ (codes "discontinuity", boolean metadata.discontinuity)
    ∷ (codes "sideData", string metadata.side_data)
    ∷ []

unfoldable pub serialize_packet : PacketMetadata → Text
unfolding packet_fields object_text
serialize_packet metadata = object_text (packet_fields metadata)

abbrev pub string_or : Text → Option JsonField → Text
string_or fallback (some (string value)) = value
string_or fallback other = fallback

abbrev pub number_or : ℤ → Option JsonField → ℤ
number_or fallback (some (number value)) = value
number_or fallback other = fallback

abbrev pub boolean_or : Bool → Option JsonField → Bool
boolean_or fallback (some (boolean value)) = value
boolean_or fallback other = fallback

unfoldable pub field_string : Fields → Text → Text → Text
unfolding lookup
field_string fields key fallback = string_or fallback (lookup key fields)

unfoldable pub field_int : Fields → Text → ℤ → ℤ
unfolding lookup
field_int fields key fallback = number_or fallback (lookup key fields)

unfoldable pub field_bool : Fields → Text → Bool → Bool
unfolding lookup
field_bool fields key fallback = boolean_or fallback (lookup key fields)

-- The low 32 bits: `static_cast<uint32_t>`, and `static_cast<int>` with their sign.
unfoldable pub to_uint32 : ℤ → ℕ
to_uint32 (pos n) = n % 2 ^ 32
to_uint32 (negsuc n) = 2 ^ 32 - 1 - n % 2 ^ 32

unfoldable pub signed32 : ℕ → ℤ
signed32 u = if ltb u (2 ^ 31) then pos u else negsuc (2 ^ 32 - 1 - u)

unfoldable pub to_int32 : ℤ → ℤ
unfolding to_uint32 signed32
to_int32 z = signed32 (to_uint32 z)

unfoldable pub default_time_base : Text
default_time_base = codes "1/1000000000"

unfoldable pub stream_of : Fields → StreamDescriptor
unfolding field_string field_int to_int32
stream_of fields = record {
  schema = to_int32 (field_int fields (codes "schema") (pos 1));
  media_type = field_string fields (codes "mediaType") [];
  codec = field_string fields (codes "codec") [];
  caps = field_string fields (codes "caps") [];
  stream_format = field_string fields (codes "streamFormat") [];
  alignment = field_string fields (codes "alignment") [];
  track = field_int fields (codes "track") (pos 0);
}

-- The fields read, checked.
unfoldable pub checked_stream : Option Fields → Result MediaError StreamDescriptor
unfolding stream_of validate_stream
checked_stream none = err parse_failed
checked_stream (some fields) = validate_stream (stream_of fields) >> ok (stream_of fields)

unfoldable pub parse_stream_descriptor : Text → Result MediaError StreamDescriptor
unfolding parse_flat_object checked_stream
parse_stream_descriptor json = checked_stream (parse_flat_object json)

unfoldable pub packet_of : Fields → PacketMetadata
unfolding field_string field_int field_bool to_int32 to_uint32 default_time_base
packet_of fields = record {
  schema = to_int32 (field_int fields (codes "schema") (pos 1));
  codec = field_string fields (codes "codec") [];
  media_type = field_string fields (codes "mediaType") [];
  caps = field_string fields (codes "caps") [];
  stream_format = field_string fields (codes "streamFormat") [];
  alignment = field_string fields (codes "alignment") [];
  track = field_int fields (codes "track") (pos 0);
  pts = field_int fields (codes "pts") (pos 0);
  dts = field_int fields (codes "dts") (pos 0);
  duration = field_int fields (codes "duration") (pos 0);
  time_base = field_string fields (codes "timeBase") default_time_base;
  flags = to_uint32 (field_int fields (codes "flags") (pos 0));
  discontinuity = field_bool fields (codes "discontinuity") false;
  side_data = field_string fields (codes "sideData") [];
}

-- The fields read, checked.
unfoldable pub checked_packet : Option Fields → Result MediaError PacketMetadata
unfolding packet_of validate_packet
checked_packet none = err parse_failed
checked_packet (some fields) = validate_packet (packet_of fields) >> ok (packet_of fields)

unfoldable pub parse_packet_metadata : Text → Result MediaError PacketMetadata
unfolding parse_flat_object checked_packet
parse_packet_metadata json = checked_packet (parse_flat_object json)
