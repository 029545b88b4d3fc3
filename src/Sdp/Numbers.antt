-- ===== src/Sdp/Numbers.antt =====
-- parse_int and to_int_or of modules/wl2_sdp/src/sdp.cpp, and std::to_string of an int. An int64_t is
-- its 64 bits and an int its 32 bits, as numbers below 2 ^ 64 and 2 ^ 32. The signed overflow of
-- parse_int, which C++ leaves undefined, is taken to wrap.
use winglib.Base.{
  ℕ, zero, suc, ◌+◌, ◌-◌, ◌*◌, ◌/◌, ◌%◌, ◌^◌, Bool, false, ◌&&◌, ◌||◌, [], ◌∷◌, Option, none, some,
  Text, if◌then◌else◌, ◌==◌, leb, ltb,
}

unfoldable pub is_digit : ℕ → Bool
is_digit c = leb b'0' c && leb c b'9'

unfoldable pub accumulate : ℕ → Text → Option ℕ
unfolding is_digit
accumulate acc [] = some acc
accumulate acc (c ∷ s) =
    let rest = accumulate ((acc * 10 + (c - b'0')) % 2 ^ 64) s in if is_digit c then rest else none

-- The digits behind a sign, of which there is at least one.
unfoldable pub parse_digits : Bool → Text → Option ℕ
unfolding accumulate
parse_digits negative [] = none
parse_digits negative (c ∷ s) = elim (accumulate 0 (c ∷ s)) [
  | none ↦ none
  | some acc ↦ some (if negative then (2 ^ 64 - acc) % 2 ^ 64 else acc)
]

unfoldable pub parse_int : Text → Option ℕ
unfolding parse_digits
parse_int [] = none
parse_int (c ∷ s) =
    if c == b'-' || c == b'+' then parse_digits (c == b'-') s else parse_digits false (c ∷ s)

-- `static_cast<int>`
abbrev pub to_int : ℕ → ℕ
to_int v = v % 2 ^ 32

unfoldable pub to_int_or : Text → ℕ → ℕ
unfolding parse_int
to_int_or s fallback = elim (parse_int s) [ none ↦ fallback | some v ↦ to_int v ]

-- -1 and -2, the two that the code uses.
unfoldable pub minus_one : ℕ
minus_one = 2 ^ 32 - 1

unfoldable pub minus_two : ℕ
minus_two = 2 ^ 32 - 2

abbrev pub is_negative : ℕ → Bool
is_negative n = leb (2 ^ 31) n

-- The decimal digits in front of `rest`; ten are enough for 32 bits.
unfoldable pub print_digits : ℕ → ℕ → Text → Text
print_digits zero n rest = rest
print_digits (suc fuel) n rest =
    let more = print_digits fuel (n / 10) ((b'0' + n % 10) ∷ rest) in
    if ltb n 10 then (b'0' + n) ∷ rest else more

unfoldable pub to_string : ℕ → Text
unfolding print_digits
to_string n = if is_negative n then b'-' ∷ print_digits 10 (2 ^ 32 - n) [] else print_digits 10 n []
