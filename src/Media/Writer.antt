-- ===== src/Media/Writer.antt =====
-- The writer of flat objects in modules/wl2_media/src/media_schema.cpp.
use winglib.Base.{
  ℕ, zero, suc, ◌+◌, ◌/◌, ◌%◌, Bool, true, false, List, [], ◌∷◌, ◌++◌, none, some, Text, codes,
  if◌then◌else◌, ◌==◌, ltb, get_elem?,
}

-- `long long` as an integer; what bounds it stands where it is read and written.
pub data ℤ : Type 0 where
  pos : ℕ → ℤ
  negsuc : ℕ → ℤ

unfoldable pub hex_digits : Text
hex_digits = codes "0123456789abcdef"

unfoldable pub hex_digit : ℕ → ℕ
unfolding hex_digits
hex_digit n = elim (get_elem? hex_digits n) [ none ↦ 0 | some c ↦ c ]

unfoldable pub escape_char : ℕ → Text
unfolding hex_digit
escape_char c =
    if c == b'"'
    then b'\\' ∷ b'"' ∷ []
    else if c == b'\\'
    then b'\\' ∷ b'\\' ∷ []
    else if c == 8
    then b'\\' ∷ b'b' ∷ []
    else if c == 12
    then b'\\' ∷ b'f' ∷ []
    else if c == 10
    then b'\\' ∷ b'n' ∷ []
    else if c == 13
    then b'\\' ∷ b'r' ∷ []
    else if c == 9
    then b'\\' ∷ b't' ∷ []
    else if ltb c 32
    then b'\\' ∷ b'u' ∷ b'0' ∷ b'0' ∷ hex_digit (c / 16 % 16) ∷ hex_digit (c % 16) ∷ []
    else c ∷ []

unfoldable pub escape_chars : Text → Text
unfolding escape_char
escape_chars [] = []
escape_chars (c ∷ value) = escape_char c ++ escape_chars value

-- What append_escaped appends.
unfoldable pub escaped : Text → Text
unfolding escape_chars
escaped value = b'"' ∷ (escape_chars value ++ b'"' ∷ [])

-- std::to_string: the decimal digits in front of `rest`; 20 are enough for 64 bits.
unfoldable pub decimal : ℕ → ℕ → Text → Text
decimal zero n rest = rest
decimal (suc fuel) n rest =
    let more = decimal fuel (n / 10) ((b'0' + n % 10) ∷ rest) in
    if ltb n 10 then (b'0' + n) ∷ rest else more

unfoldable pub integer_text : ℤ → Text
unfolding decimal
integer_text (pos n) = decimal 20 n []
integer_text (negsuc n) = b'-' ∷ decimal 20 (n + 1) []

-- A value of a flat object, with the kind that JsonField keeps beside it.
pub data JsonField : Type 0 where
  string : Text → JsonField
  number : ℤ → JsonField
  boolean : Bool → JsonField
  null : JsonField

-- What append_string_field, append_int_field and append_bool_field write behind the ':'.
unfoldable pub field_text : JsonField → Text
unfolding escaped integer_text
field_text (string value) = escaped value
field_text (number value) = integer_text value
field_text (boolean value) = if value then codes "true" else codes "false"
field_text null = codes "null"

-- The appends in a row; `first` is true in front of the first of them.
unfoldable pub append_fields : Bool → List (Text × JsonField) → Text
unfolding escaped field_text
append_fields first [] = []
append_fields first ((key, value) ∷ fields) =
    (if first then [] else b',' ∷ [])
    ++ (escaped key ++ (b':' ∷ (field_text value ++ append_fields false fields)))

unfoldable pub object_text : List (Text × JsonField) → Text
unfolding append_fields
object_text fields = b'{' ∷ (append_fields true fields ++ b'}' ∷ [])
