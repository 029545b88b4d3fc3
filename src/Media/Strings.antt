-- ===== src/Media/Strings.antt =====
-- Strings of modules/wl2_media/src/media_schema.cpp, written and read back.
use winglib.Base.{
  ◌≡◌, refl, sym, ap, subst, ◌∙◌, ℕ, zero, suc, ◌+◌, ◌*◌, ◌/◌, ◌%◌, ◌≤◌, ◌<◌, Bool, true, false,
  ◌&&◌, [], ◌∷◌, ◌++◌, append_assoc, Option, none, some, Text, ◌==◌, ==_iff, leb, ltb, arith,
  Bool-cases, inl, inr, length, length-append,
}
use winglib.Media.Writer.{hex_digit, escape_char, escape_chars, escaped}
use winglib.Media.Reader.{
  more, string_turn, escape_turn, unicode_turn, read_hex, hex_value, append_utf8, parse_chars,
  parse_string,
}

-- What a digit that the writer chose is read as.
reads_as : Option ℕ → ℕ → Bool
reads_as none n = false
reads_as (some m) n = m == n

reads_as-some : (o : Option ℕ) (n : ℕ) → reads_as o n ≡ true → o ≡ some n
unfolding reads_as
reads_as-some none n h = cc
reads_as-some (some m) n h = ap some ((==_iff m n).0 h)

-- The digits below a bound are read as what they stand for.
digits_hold : ℕ → Bool
unfolding reads_as
digits_hold zero = true
digits_hold (suc bound) = digits_hold bound && reads_as (hex_value (hex_digit bound)) bound

digits_hold-below :
    (bound n : ℕ)
    → digits_hold bound ≡ true
    → n < bound
    → reads_as (hex_value (hex_digit n)) n ≡ true
unfolding digits_hold
digits_hold-below zero n h l = elim l [ ]
digits_hold-below (suc bound) n h l = elim (Bool-cases (n == bound)) [
  | inl e ↦
      let last : reads_as (hex_value (hex_digit bound)) bound ≡ true = ground arith in
      subst (λ m. reads_as (hex_value (hex_digit m)) m ≡ true) (sym ((==_iff n bound).0 e)) last
  | inr e ↦
      let rest : digits_hold bound ≡ true = ground arith in
      digits_hold-below bound n rest (ground (arith, e))
]

sixteen : digits_hold 16 ≡ true
unfolding digits_hold hex_value hex_digit
sixteen = refl

hex_value-hex_digit : (n : ℕ) → n < 16 → hex_value (hex_digit n) ≡ some n
hex_value-hex_digit n h =
    reads_as-some (hex_value (hex_digit n)) n (digits_hold-below 16 n sixteen h)

unicode_turn-control :
    (c : ℕ) (t : Text)
    → c < 32
    → unicode_turn (b'0' ∷ b'0' ∷ hex_digit (c / 16 % 16) ∷ hex_digit (c % 16) ∷ t)
      ≡ more (c ∷ []) t
unfolding unicode_turn read_hex append_utf8 hex_value
unicode_turn-control c t h =
    let code : ((0 * 16 + 0) * 16 + c / 16 % 16) * 16 + c % 16 ≡ c = omega arith in
    let small : leb c 0x7f ≡ true = ground arith in
    rw
      (
        unicode_turn,
        hex_value-hex_digit (c / 16 % 16) (omega arith),
        hex_value-hex_digit (c % 16) (omega arith),
        code,
        append_utf8,
        small,
      )
      refl

abbrev Reads : Text → ℕ → Type 0
Reads t c = string_turn (escape_char c ++ t) ≡ more (c ∷ []) t

-- An escape for one character of its own.
special : (t : Text) (k c : ℕ) → (c == k) ≡ true → Reads t k → Reads t c
special t k c e r = subst (Reads t) (sym ((==_iff c k).0 e)) r

-- The writer's text for one byte is read as this byte.
string_turn-escape_char : (c : ℕ) (t : Text) → Reads t c
unfolding string_turn escape_turn escape_char
string_turn-escape_char c t = elim (Bool-cases (c == b'"')) [
  | inl e ↦ special t b'"' c e refl
  | inr q ↦ elim (Bool-cases (c == b'\\')) [
    | inl e ↦ special t b'\\' c e refl
    | inr b ↦ elim (Bool-cases (c == 8)) [
      | inl e ↦ special t 8 c e refl
      | inr n8 ↦ elim (Bool-cases (c == 12)) [
        | inl e ↦ special t 12 c e refl
        | inr n12 ↦ elim (Bool-cases (c == 10)) [
          | inl e ↦ special t 10 c e refl
          | inr n10 ↦ elim (Bool-cases (c == 13)) [
            | inl e ↦ special t 13 c e refl
            | inr n13 ↦ elim (Bool-cases (c == 9)) [
              | inl e ↦ special t 9 c e refl
              | inr n9 ↦ elim (Bool-cases (ltb c 32)) [
                | inl e ↦
                    rw (escape_char, q, b, n8, n12, n10, n13, n9, e)
                      (unicode_turn-control c t (ground (arith, e)))
                | inr e ↦ rw (escape_char, q, b, n8, n12, n10, n13, n9, e, string_turn, q, b) refl
              ]
            ]
          ]
        ]
      ]
    ]
  ]
]

length-escape_char : (c : ℕ) → 1 ≤ length (escape_char c)
unfolding escape_char
length-escape_char c = ground arith

parse_chars-escape_chars :
    (fuel : ℕ) (value r : Text)
    → length (escape_chars value) < fuel
    → parse_chars fuel (escape_chars value ++ (b'"' ∷ r)) ≡ some (value, r)
unfolding parse_chars escape_chars string_turn
parse_chars-escape_chars zero value r h = absurd (omega (arith, h))
parse_chars-escape_chars (suc fuel) [] r h = refl
parse_chars-escape_chars (suc fuel) (c ∷ value) r h =
    let size = length-append (escape_char c) (escape_chars value) in
    let ih = parse_chars-escape_chars fuel value r (omega (arith, h, size, length-escape_char c)) in
    rw
      (
        append_assoc (escape_char c) (escape_chars value) (b'"' ∷ r),
        parse_chars,
        string_turn-escape_char c (escape_chars value ++ (b'"' ∷ r)),
        ih,
      )
      refl

-- A string is read back, whatever its bytes and whatever follows.
pub parse_string-escaped : (value r : Text) → parse_string (escaped value ++ r) ≡ some (value, r)
unfolding parse_string escaped
parse_string-escaped value r =
    let tail = escape_chars value ++ (b'"' ∷ r) in
    let fuel = suc (length ((escape_chars value ++ b'"' ∷ []) ++ r)) in
    let e = append_assoc (escape_chars value) (b'"' ∷ []) r in
    ap (parse_chars fuel) e
    ∙ parse_chars-escape_chars fuel value r (
        omega (
          arith,
          length-append (escape_chars value ++ b'"' ∷ []) r,
          length-append (escape_chars value) (b'"' ∷ []),
        ))
