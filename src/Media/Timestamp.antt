-- ===== src/Media/Timestamp.antt =====
-- convertTimestamp of modules/wl2_media/src/media_schema.cpp. The products are exact: where one leaves
-- 128 bits, the source is undefined.
use winglib.Base.{
  ℕ, suc, ◌+◌, ◌-◌, ◌*◌, ◌/◌, ◌%◌, ◌^◌, Bool, true, false, none, some, Text, if◌then◌else◌, ◌==◌,
  leb, ltb,
}
use winglib.Media.Writer.{ℤ, pos, negsuc}
use winglib.Media.Schema.{parse_time_base, is_negative}

-- 64 bits as a signed number.
unfoldable pub signed64 : ℕ → ℤ
signed64 u = if ltb u (2 ^ 63) then pos u else negsuc (2 ^ 64 - 1 - u)

unfoldable pub magnitude : ℤ → ℕ
magnitude (pos n) = n
magnitude (negsuc n) = suc n

abbrev pub differ : Bool → Bool → Bool
differ true b = if b then false else true
differ false b = b

-- `an / ad`, one more from a half on.
unfoldable pub rounded : ℕ → ℕ → ℕ
rounded an ad = if leb ad (an % ad * 2) then an / ad + 1 else an / ad

-- `static_cast<int64_t>(negative ? -q : q)`
unfoldable pub to_int64 : Bool → ℕ → ℤ
unfolding signed64
to_int64 negative q = signed64 (if negative then (2 ^ 64 - q % 2 ^ 64) % 2 ^ 64 else q % 2 ^ 64)

unfoldable pub scale : ℤ → ℤ → ℤ → ℤ → ℤ → ℤ
unfolding magnitude rounded to_int64
scale value fn fd tn td =
    let numerator = magnitude value * magnitude fn * magnitude td in
    let denominator = magnitude fd * magnitude tn in
    let below = differ (is_negative value) (differ (is_negative fn) (is_negative td)) in
    if denominator == 0
    then value
    else to_int64 (differ below (differ (is_negative fd) (is_negative tn)))
        (rounded numerator denominator)

unfoldable pub convert_timestamp : ℤ → Text → Text → ℤ
unfolding scale signed64 parse_time_base
convert_timestamp value from_time_base to_time_base = elim (parse_time_base from_time_base) [
  | none ↦ value
  | some (fn, fd) ↦ elim (parse_time_base to_time_base) [
    | none ↦ value
    | some (tn, td) ↦ scale value (signed64 fn) (signed64 fd) (signed64 tn) (signed64 td)
  ]
]
