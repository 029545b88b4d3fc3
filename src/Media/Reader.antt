-- ===== src/Media/Reader.antt =====
-- The reader of flat objects in modules/wl2_media/src/media_schema.cpp. An index into the text is the
-- text behind it, and a loop runs on fuel, one more than the bytes that are left.
use winglib.Base.{
  ℕ, zero, suc, ◌+◌, ◌-◌, ◌*◌, ◌/◌, ◌%◌, ◌^◌, min, Bool, true, false, ◌&&◌, ◌||◌, List, [], ◌∷◌,
  ◌++◌, Option, none, some, Text, codes, if◌then◌else◌, ◌==◌, leb, length, assign, text_Eq,
  starts_with, drop,
}
use winglib.Media.Writer.{ℤ, pos, negsuc, JsonField, string, number, boolean, null}

-- Code points have four hexadecimal digits; the bits that are joined never overlap.
unfoldable pub append_utf8 : ℕ → Text
append_utf8 cp =
    if leb cp 0x7f
    then cp ∷ []
    else if leb cp 0x7ff
    then (0xc0 + cp / 64) ∷ (0x80 + cp % 64) ∷ []
    else (0xe0 + cp / 4096) ∷ (0x80 + cp / 64 % 64) ∷ (0x80 + cp % 64) ∷ []

unfoldable pub skip_ws : Text → Text
skip_ws [] = []
skip_ws (c ∷ s) =
    let rest = skip_ws s in if c == b' ' || (c == 9 || (c == 10 || c == 13)) then rest else c ∷ s

unfoldable pub hex_value : ℕ → Option ℕ
hex_value h =
    if leb b'0' h && leb h b'9'
    then some (h - b'0')
    else if leb b'a' h && leb h b'f'
    then some (h - b'a' + 10)
    else if leb b'A' h && leb h b'F'
    then some (h - b'A' + 10)
    else none

-- `digits` hexadecimal digits behind the code point so far.
unfoldable pub read_hex : ℕ → ℕ → Text → Option (ℕ × Text)
unfolding hex_value
read_hex zero cp s = some (cp, s)
read_hex (suc digits) cp [] = none
read_hex (suc digits) cp (h ∷ s) = elim (hex_value h) [
  | none ↦ none
  | some d ↦ read_hex digits (cp * 16 + d) s
]

-- One turn of the loop of parse_string: the end, a failure, or bytes and the text that is left.
pub data Turn : Type 0 where
  closed : Text → Turn
  broken : Turn
  more : Text → Text → Turn

unfoldable pub unicode_turn : Text → Turn
unfolding read_hex append_utf8
unicode_turn s = elim (read_hex 4 0 s) [
  | none ↦ broken
  | some (cp, rest) ↦ more (append_utf8 cp) rest
]

unfoldable pub escape_turn : Text → Turn
unfolding unicode_turn
escape_turn [] = broken
escape_turn (e ∷ s) =
    if e == b'"' || (e == b'\\' || e == b'/')
    then more (e ∷ []) s
    else if e == b'b'
    then more (8 ∷ []) s
    else if e == b'f'
    then more (12 ∷ []) s
    else if e == b'n'
    then more (10 ∷ []) s
    else if e == b'r'
    then more (13 ∷ []) s
    else if e == b't'
    then more (9 ∷ []) s
    else if e == b'u'
    then unicode_turn s
    else broken

unfoldable pub string_turn : Text → Turn
unfolding escape_turn
string_turn [] = broken
string_turn (c ∷ s) =
    if c == b'"' then closed s else if c == b'\\' then escape_turn s else more (c ∷ []) s

unfoldable pub parse_chars : ℕ → Text → Option (Text × Text)
unfolding string_turn
parse_chars zero s = none
parse_chars (suc fuel) s = elim (string_turn s) [
  | closed rest ↦ some ([], rest)
  | broken ↦ none
  | more bytes rest ↦ elim (parse_chars fuel rest) [
    | none ↦ none
    | some (out, behind) ↦ some (bytes ++ out, behind)
  ]
]

unfoldable pub parse_string : Text → Option (Text × Text)
unfolding parse_chars
parse_string [] = none
parse_string (c ∷ s) = if c == b'"' then parse_chars (suc (length s)) s else none

abbrev pub is_digit : ℕ → Bool
is_digit c = leb b'0' c && leb c b'9'

-- The digits at the front, and what follows.
unfoldable pub span_digits : Text → Text × Text
span_digits [] = ([], [])
span_digits (c ∷ s) =
    let (digits, rest) = span_digits s in if is_digit c then (c ∷ digits, rest) else ([], c ∷ s)

unfoldable pub digits_value : ℕ → Text → ℕ
digits_value acc [] = acc
digits_value acc (c ∷ s) = digits_value (acc * 10 + (c - b'0')) s

-- std::strtoll, which stops at the least and the greatest value.
unfoldable pub clamped : Bool → ℕ → ℤ
clamped negative n =
    if negative
    then (if n == 0 then pos 0 else negsuc (min n (2 ^ 63) - 1))
    else pos (min n (2 ^ 63 - 1))

unfoldable pub number_value : Bool → Text → Option (JsonField × Text)
unfolding span_digits digits_value clamped
number_value negative s =
    let (digits, rest) = span_digits s in
    if length digits == 0
    then none
    else some (number (clamped negative (digits_value 0 digits)), rest)

unfoldable pub literal_value : Text → JsonField → Text → Option (JsonField × Text)
unfolding starts_with
literal_value text value s = if starts_with text s then some (value, drop (length text) s) else none

unfoldable pub string_value : Text → Option (JsonField × Text)
unfolding parse_string
string_value s = elim (parse_string s) [
  | none ↦ none
  | some (value, rest) ↦ some (string value, rest)
]

-- The value at the front, where no blank is.
unfoldable pub value_at : Text → Option (JsonField × Text)
unfolding string_value literal_value number_value
value_at [] = none
value_at (c ∷ s) =
    if c == b'"'
    then string_value (c ∷ s)
    else if c == b't'
    then literal_value (codes "true") (boolean true) (c ∷ s)
    else if c == b'f'
    then literal_value (codes "false") (boolean false) (c ∷ s)
    else if c == b'n'
    then literal_value (codes "null") null (c ∷ s)
    else if c == b'-'
    then number_value true s
    else if is_digit c
    then number_value false (c ∷ s)
    else none

unfoldable pub parse_value : Text → Option (JsonField × Text)
unfolding skip_ws value_at
parse_value s = value_at (skip_ws s)

-- One round of the loop of parse_flat_object: a key, ':', a value; and what is behind the blanks that
-- follow.
unfoldable pub parse_field : Text → Option (Text × JsonField × Text)
unfolding skip_ws parse_string parse_value
parse_field s = elim (parse_string (skip_ws s)) [
  | none ↦ none
  | some (key, after_key) ↦ elim (skip_ws after_key) [
    | [] ↦ none
    | c ∷ after_colon ↦
        if c == b':'
        then elim (parse_value after_colon) [
          | none ↦ none
          | some (value, rest) ↦ some (key, value, skip_ws rest)
        ]
        else none
  ]
]

abbrev pub Fields : Type 0
Fields = List (Text × JsonField)

unfoldable pub parse_fields : ℕ → Text → Fields → Option Fields
unfolding parse_field assign
parse_fields zero s fields = none
parse_fields (suc fuel) s fields = elim (parse_field s) [
  | none ↦ none
  | some (key, value, []) ↦ none
  | some (key, value, c ∷ rest) ↦
      let read = assign key value fields in
      elim (c == b',') [
        | true ↦ parse_fields fuel rest read
        | false ↦ if c == b'}' then some read else none
      ]
]

-- The text behind the '{'.
unfoldable pub parse_body : Text → Option Fields
unfolding parse_fields
parse_body [] = none
parse_body (c ∷ s) = if c == b'}' then some [] else parse_fields (suc (length s)) (c ∷ s) []

unfoldable pub parse_flat_object : Text → Option Fields
unfolding skip_ws parse_body
parse_flat_object s = elim (skip_ws s) [
  | [] ↦ none
  | c ∷ rest ↦ if c == b'{' then parse_body (skip_ws rest) else none
]
