-- ===== src/Media/Objects.antt =====
-- Flat objects of modules/wl2_media/src/media_schema.cpp, written and read back.
use winglib.Base.{
  ◌≡◌, refl, ap, ◌∙◌, ℕ, zero, suc, ◌≤◌, ◌<◌, Bool, true, false, ◌||◌, [], ◌∷◌, ◌++◌, append_assoc,
  some, Text, ◌==◌, arith, length, length-append, All, assign, text_Eq, starts_with,
}
use winglib.Media.Writer.{
  JsonField, string, number, boolean, null, escaped, field_text, append_fields, object_text,
}
use winglib.Media.Reader.{
  is_digit, skip_ws, value_at, parse_value, string_value, literal_value, parse_field, parse_fields,
  parse_body, parse_flat_object, Fields,
}
use winglib.Media.Strings.{parse_string-escaped}
use winglib.Media.Numbers.{Ends, IsInt64, value_at-integer_text, skip_ws-integer_text}

abbrev pub Fits : JsonField → Type 0
Fits (string value) = Unit {0}
Fits (number value) = IsInt64 value
Fits (boolean value) = Unit {0}
Fits null = Unit {0}

value_at-escaped :
    (value rest : Text) → value_at (escaped value ++ rest) ≡ some (string value, rest)
unfolding value_at string_value escaped
value_at-escaped value rest = rw (string_value, parse_string-escaped value rest) refl

-- A value is read back in front of a text at which a number ends.
parse_value-field_text :
    (v : JsonField) (rest : Text)
    → Fits v
    → Ends rest
    → parse_value (field_text v ++ rest) ≡ some (v, rest)
unfolding parse_value field_text skip_ws escaped value_at literal_value starts_with
parse_value-field_text (string value) rest h e = value_at-escaped value rest
parse_value-field_text (number value) rest h e =
    ap value_at (skip_ws-integer_text value rest h) ∙ value_at-integer_text value rest h e
parse_value-field_text (boolean true) rest h e = refl
parse_value-field_text (boolean false) rest h e = refl
parse_value-field_text null rest h e = refl

-- What follows a field: no digit and no blank.
abbrev Follows : ℕ → Type 0
Follows c = (is_digit c ≡ false) × ((c == b' ' || (c == 9 || (c == 10 || c == 13))) ≡ false)

skip_ws-escaped : (key rest : Text) → skip_ws (escaped key ++ rest) ≡ escaped key ++ rest
unfolding skip_ws escaped
skip_ws-escaped key rest = refl

parse_field-text :
    (key : Text) (v : JsonField) (c : ℕ) (rest : Text)
    → Fits v
    → Follows c
    → parse_field (escaped key ++ (b':' ∷ (field_text v ++ c ∷ rest))) ≡ some (key, v, c ∷ rest)
unfolding parse_field skip_ws
parse_field-text key v c rest h f =
    let start : skip_ws (escaped key ++ (b':' ∷ (field_text v ++ c ∷ rest)))
        ≡ escaped key ++ (b':' ∷ (field_text v ++ c ∷ rest)) =
      skip_ws-escaped key _ in
    rw
      (
        parse_field,
        start,
        parse_string-escaped key (b':' ∷ (field_text v ++ c ∷ rest)),
        skip_ws,
        parse_value-field_text v (c ∷ rest) h f.0,
        f.1,
      )
      refl

-- The fields as the map has them in the end.
abbrev pub assign_all : Fields → Fields → Fields
assign_all [] fields = fields
assign_all ((key, value) ∷ rest) fields = assign_all rest (assign key value fields)

abbrev pub FieldsFit : Fields → Type 0
FieldsFit = All (λ f. Fits f.1)

append_fields-first :
    (key : Text) (v : JsonField) (rest : Fields) (tail : Text)
    → append_fields true ((key, v) ∷ rest) ++ tail
      ≡ escaped key ++ (b':' ∷ (field_text v ++ (append_fields false rest ++ tail)))
unfolding append_fields
append_fields-first key v rest tail =
    append_assoc (escaped key) (b':' ∷ (field_text v ++ append_fields false rest)) tail
    ∙ ap (λ t. escaped key ++ (b':' ∷ t))
        (append_assoc (field_text v) (append_fields false rest) tail)

parse_fields-text :
    (fuel : ℕ) (key : Text) (v : JsonField) (rest : Fields) (tail : Text) (fields : Fields)
    → FieldsFit ((key, v) ∷ rest)
    → length rest < fuel
    → parse_fields fuel (append_fields true ((key, v) ∷ rest) ++ b'}' ∷ tail) fields
      ≡ some (assign_all ((key, v) ∷ rest) fields)
unfolding parse_fields append_fields
parse_fields-text zero key v rest tail fields h n = absurd (omega (arith, n))
parse_fields-text (suc fuel) key v [] tail fields h n =
    ap (λ s. parse_fields (suc fuel) s fields) (append_fields-first key v [] (b'}' ∷ tail))
    ∙ rw (parse_fields, parse_field-text key v b'}' tail h.0 (refl, refl)) refl
parse_fields-text (suc fuel) key v ((k, w) ∷ rest) tail fields h n =
    let more = append_fields true ((k, w) ∷ rest) ++ b'}' ∷ tail in
    ap (λ s. parse_fields (suc fuel) s fields)
      (append_fields-first key v ((k, w) ∷ rest) (b'}' ∷ tail))
    ∙ rw (parse_fields, parse_field-text key v b',' more h.0 (refl, refl))
        (parse_fields-text fuel k w rest tail (assign key v fields) h.1 (omega (arith, n)))

length-append_fields :
    (first : Bool) (fields : Fields) → length fields ≤ length (append_fields first fields)
unfolding append_fields escaped
length-append_fields first [] = omega arith
length-append_fields true ((k, v) ∷ fields) = omega (
  arith,
  length-append (escaped k) (b':' ∷ (field_text v ++ append_fields false fields)),
  length-append (field_text v) (append_fields false fields),
  length-append_fields false fields,
)
length-append_fields false ((k, v) ∷ fields) = omega (
  arith,
  length-append (escaped k) (b':' ∷ (field_text v ++ append_fields false fields)),
  length-append (field_text v) (append_fields false fields),
  length-append_fields false fields,
)

-- An object is read back as the map of its fields, whatever the strings in it are.
pub parse_flat_object-text :
    (fields : Fields)
    → FieldsFit fields
    → parse_flat_object (object_text fields) ≡ some (assign_all fields [])
unfolding parse_flat_object object_text skip_ws parse_body append_fields
parse_flat_object-text [] h = refl
parse_flat_object-text ((key, v) ∷ rest) h =
    let text = append_fields true ((key, v) ∷ rest) ++ b'}' ∷ [] in
    let size = length-append_fields true ((key, v) ∷ rest) in
    let fuel = length text in
    parse_fields-text fuel key v rest [] [] h
      (omega (arith, size, length-append (append_fields true ((key, v) ∷ rest)) (b'}' ∷ [])))
