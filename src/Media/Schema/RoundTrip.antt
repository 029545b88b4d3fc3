-- ===== src/Media/Schema/RoundTrip.antt =====
-- Descriptors and packet metadata of modules/wl2_media, written and parsed back.
use winglib.Base.{
  ◌≡◌, refl, ap, ◌∙◌, ℕ, ◌-◌, ◌%◌, ◌^◌, ◌<◌, true, false, [], text_eq, ltb, arith, ok, ◌>>◌, lookup,
  assign, text_Eq,
}
use winglib.Media.Writer.{ℤ, pos, negsuc}
use winglib.Media.Numbers.{IsInt64}
use winglib.Media.Objects.{assign_all, FieldsFit, parse_flat_object-text}
use winglib.Media.Schema.{
  StreamDescriptor, PacketMetadata, validate_stream, validate_packet, stream_fields, packet_fields,
  serialize_stream, serialize_packet, stream_of, packet_of, checked_stream, checked_packet,
  parse_stream_descriptor, parse_packet_metadata, to_int32, to_uint32, signed32, field_string,
  field_int, field_bool,
}

abbrev pub IsInt32 : ℤ → Type 0
IsInt32 (pos n) = n < 2 ^ 31
IsInt32 (negsuc n) = n < 2 ^ 31

to_int32-IsInt32 : (z : ℤ) → IsInt32 z → to_int32 z ≡ z
unfolding to_int32 to_uint32 signed32
to_int32-IsInt32 (pos n) h =
    let e : n % 2 ^ 32 ≡ n = omega (arith, h) in
    let b : ltb n (2 ^ 31) ≡ true = ground (arith, h) in rw (e, signed32, b) refl
to_int32-IsInt32 (negsuc n) h =
    let e : n % 2 ^ 32 ≡ n = omega (arith, h) in
    let b : ltb (2 ^ 32 - 1 - n) (2 ^ 31) ≡ false = ground (arith, h) in
    let r : 2 ^ 32 - 1 - (2 ^ 32 - 1 - n) ≡ n = omega (arith, h) in rw (e, signed32, b, r) refl

IsInt64-IsInt32 : (z : ℤ) → IsInt32 z → IsInt64 z
IsInt64-IsInt32 (pos n) h = omega (arith, h)
IsInt64-IsInt32 (negsuc n) h = omega (arith, h)

-- The numbers are in the range of their C++ types.
abbrev pub StreamFits : StreamDescriptor → Type 0
StreamFits d = IsInt32 d.schema × IsInt64 d.track

abbrev pub PacketFits : PacketMetadata → Type 0
PacketFits m =
    IsInt32 m.schema
    × IsInt64 m.track
    × IsInt64 m.pts
    × IsInt64 m.dts
    × IsInt64 m.duration
    × (m.flags < 2 ^ 32)

stream_fields-FieldsFit : (d : StreamDescriptor) → StreamFits d → FieldsFit (stream_fields d)
unfolding stream_fields
stream_fields-FieldsFit d h =
    (IsInt64-IsInt32 d.schema h.0, (tt, (tt, (tt, (tt, (tt, (h.1, tt)))))))

stream_of-fields :
    (d : StreamDescriptor) → StreamFits d → stream_of (assign_all (stream_fields d) []) ≡ d
unfolding stream_of stream_fields field_string field_int lookup assign text_eq
stream_of-fields d h i = record {
  schema = to_int32-IsInt32 d.schema h.0 i;
  media_type = d.media_type;
  codec = d.codec;
  caps = d.caps;
  stream_format = d.stream_format;
  alignment = d.alignment;
  track = d.track;
}

-- A descriptor whose numbers are in range is read back from its text as it was, whatever bytes its
-- strings hold, if it is valid; otherwise the parser gives the error of validate.
pub parse-serialize_stream :
    (d : StreamDescriptor)
    → StreamFits d
    → parse_stream_descriptor (serialize_stream d) ≡ (validate_stream d >> ok d)
unfolding parse_stream_descriptor serialize_stream checked_stream
parse-serialize_stream d h =
    ap checked_stream (parse_flat_object-text (stream_fields d) (stream_fields-FieldsFit d h))
    ∙ ap (λ e. validate_stream e >> ok e) (stream_of-fields d h)

packet_fields-FieldsFit : (m : PacketMetadata) → PacketFits m → FieldsFit (packet_fields m)
unfolding packet_fields
packet_fields-FieldsFit m h = (
  IsInt64-IsInt32 m.schema h.0,
  (
    tt,
    (tt, (tt, (tt, (tt, (h.1, (h.2, (h.3, (h.4, (tt, (omega (arith, h.5), (tt, (tt, tt)))))))))))),
  ),
)

small_flags : (n : ℕ) → n < 2 ^ 32 → n % 2 ^ 32 ≡ n
small_flags n h = omega (arith, h)

packet_of-fields :
    (m : PacketMetadata) → PacketFits m → packet_of (assign_all (packet_fields m) []) ≡ m
unfolding packet_of packet_fields field_string field_int field_bool lookup assign text_eq to_uint32
packet_of-fields m h i = record {
  schema = to_int32-IsInt32 m.schema h.0 i;
  codec = m.codec;
  media_type = m.media_type;
  caps = m.caps;
  stream_format = m.stream_format;
  alignment = m.alignment;
  track = m.track;
  pts = m.pts;
  dts = m.dts;
  duration = m.duration;
  time_base = m.time_base;
  flags = small_flags m.flags h.5 i;
  discontinuity = m.discontinuity;
  side_data = m.side_data;
}

-- Packet metadata likewise: its text is read back as it was, or refused as validate refuses it.
pub parse-serialize_packet :
    (m : PacketMetadata)
    → PacketFits m
    → parse_packet_metadata (serialize_packet m) ≡ (validate_packet m >> ok m)
unfolding parse_packet_metadata serialize_packet checked_packet
parse-serialize_packet m h =
    ap checked_packet (parse_flat_object-text (packet_fields m) (packet_fields-FieldsFit m h))
    ∙ ap (λ e. validate_packet e >> ok e) (packet_of-fields m h)
