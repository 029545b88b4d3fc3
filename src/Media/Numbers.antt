-- ===== src/Media/Numbers.antt =====
-- Integers of modules/wl2_media/src/media_schema.cpp, written and read back.
use winglib.Base.{
  ◌≡◌, refl, sym, ap, ◌∙◌, ℕ, zero, suc, ◌+◌, ◌-◌, ◌*◌, ◌/◌, ◌%◌, ◌^◌, min, ◌≤◌, ◌<◌, Bool, true,
  false, ◌||◌, [], ◌∷◌, ◌++◌, append-nil, append_assoc, some, Text, ◌==◌, ltb, arith, Bool-cases,
  inl, inr, length, length-append, All, All-append,
}
use winglib.Media.Writer.{ℤ, pos, negsuc, decimal, integer_text, number}
use winglib.Media.Reader.{
  is_digit, span_digits, digits_value, clamped, number_value, value_at, skip_ws,
}

-- The numbers that have at most so many digits.
unfoldable digits_bound : ℕ → ℕ
digits_bound zero = 1
digits_bound (suc n) = digits_bound n * 10

abbrev Digits : Text → Type 0
Digits = All (λ c. is_digit c ≡ true)

digits_value-append :
    (acc : ℕ) (s t : Text) → digits_value acc (s ++ t) ≡ digits_value (digits_value acc s) t
unfolding digits_value
digits_value-append acc [] t = refl
digits_value-append acc (c ∷ s) t = digits_value-append (acc * 10 + (c - b'0')) s t

-- The digits of a number in front of a text.
record Printed (fuel n : ℕ) (rest : Text) : Type 0 where
  digits : Text
  equal : decimal fuel n rest ≡ digits ++ rest
  all_digits : Digits digits
  value : digits_value 0 digits ≡ n
  some_digit : 1 ≤ length digits

one_digit : (fuel n : ℕ) (rest : Text) → ltb n 10 ≡ true → Printed (suc fuel) n rest
unfolding decimal digits_value
one_digit fuel n rest e = record {
  digits = (b'0' + n) ∷ [];
  equal = rw (decimal, e) refl;
  all_digits = (ground (arith, e), tt);
  value = ground (arith, e);
  some_digit = omega arith;
}

decimal-Printed :
    (fuel n : ℕ) (rest : Text) → n < digits_bound (suc fuel) → Printed (suc fuel) n rest
unfolding decimal digits_value digits_bound
decimal-Printed zero n rest h = one_digit zero n rest (ground (arith, h))
decimal-Printed (suc fuel) n rest h = elim (Bool-cases (ltb n 10)) [
  | inl e ↦ one_digit (suc fuel) n rest e
  | inr e ↦
      let last = (b'0' + n % 10) ∷ [] in
      let ih = decimal-Printed fuel (n / 10) (last ++ rest) (omega (arith, h)) in
      record {
        digits = ih.digits ++ last;
        equal = rw (decimal, e) (ih.equal ∙ sym (append_assoc ih.digits last rest));
        all_digits =
            All-append (λ c. is_digit c ≡ true) ih.digits last ih.all_digits (ground arith, tt);
        value =
            digits_value-append 0 ih.digits last
            ∙ ap (λ m. m * 10 + (b'0' + n % 10 - b'0')) ih.value
            ∙ omega arith;
        some_digit = omega (arith, length-append ih.digits last, ih.some_digit);
      }
]

-- A text at which a number ends.
abbrev pub Ends : Text → Type 0
Ends [] = Unit {0}
Ends (c ∷ s) = is_digit c ≡ false

span_digits-Digits :
    (digits rest : Text) → Digits digits → Ends rest → span_digits (digits ++ rest) ≡ (digits, rest)
unfolding span_digits
span_digits-Digits [] [] d e = refl
span_digits-Digits [] (c ∷ rest) d e = rw (span_digits, e) refl
span_digits-Digits (c ∷ digits) rest d e = rw (span_digits-Digits digits rest d.1 e, d.0) refl

number_value-decimal :
    (negative : Bool) (n : ℕ) (rest : Text)
    → n ≤ 2 ^ 63
    → Ends rest
    → number_value negative (decimal 20 n [] ++ rest) ≡ some (number (clamped negative n), rest)
unfolding number_value digits_bound
number_value-decimal negative n rest h e =
    let p = decimal-Printed 19 n [] (omega (arith, h)) in
    let text : decimal 20 n [] ++ rest ≡ p.digits ++ rest =
      ap (λ t. t ++ rest) (p.equal ∙ append-nil p.digits) in
    let filled : (length p.digits == 0) ≡ false = ground (arith, p.some_digit) in
    rw (text, number_value, span_digits-Digits p.digits rest p.all_digits e, filled, p.value) refl

value_at-digit :
    (d : ℕ) (s : Text) → is_digit d ≡ true → value_at (d ∷ s) ≡ number_value false (d ∷ s)
unfolding value_at
value_at-digit d s h =
    let q : (d == b'"') ≡ false = ground arith in
    let t : (d == b't') ≡ false = ground arith in
    let f : (d == b'f') ≡ false = ground arith in
    let n : (d == b'n') ≡ false = ground arith in
    let m : (d == b'-') ≡ false = ground arith in rw (value_at, q, t, f, n, m, h) refl

value_at-Digits :
    (digits rest : Text)
    → Digits digits
    → 1 ≤ length digits
    → value_at (digits ++ rest) ≡ number_value false (digits ++ rest)
value_at-Digits [] rest d n = elim n [ ]
value_at-Digits (c ∷ digits) rest d n = value_at-digit c (digits ++ rest) d.0

value_at-minus :
    (n : ℕ) (rest : Text)
    → value_at (integer_text (negsuc n) ++ rest) ≡ number_value true (decimal 20 (n + 1) [] ++ rest)
unfolding value_at integer_text
value_at-minus n rest = refl

-- What a `long long` can be.
abbrev pub IsInt64 : ℤ → Type 0
IsInt64 (pos n) = n < 2 ^ 63
IsInt64 (negsuc n) = n < 2 ^ 63

pub value_at-integer_text :
    (z : ℤ) (rest : Text)
    → IsInt64 z
    → Ends rest
    → value_at (integer_text z ++ rest) ≡ some (number z, rest)
unfolding integer_text clamped digits_bound
value_at-integer_text (pos n) rest h e =
    let p = decimal-Printed 19 n [] (omega (arith, h)) in
    let text : decimal 20 n [] ++ rest ≡ p.digits ++ rest =
      ap (λ t. t ++ rest) (p.equal ∙ append-nil p.digits) in
    let top : min n (2 ^ 63 - 1) ≡ n = omega (arith, h) in
    ap value_at text
    ∙ value_at-Digits p.digits rest p.all_digits p.some_digit
    ∙ ap (number_value false) (sym text)
    ∙ number_value-decimal false n rest (omega (arith, h)) e
    ∙ ap (λ m. some (number (pos m), rest)) top
value_at-integer_text (negsuc n) rest h e =
    let some_size : (n + 1 == 0) ≡ false = ground arith in
    let size : min (n + 1) (2 ^ 63) - 1 ≡ n = omega (arith, h) in
    value_at-minus n rest
    ∙ number_value-decimal true (n + 1) rest (omega (arith, h)) e
    ∙ rw (some_size) (ap (λ m. some (number (negsuc m), rest)) size)

skip_ws-Digits :
    (digits rest : Text)
    → Digits digits
    → 1 ≤ length digits
    → skip_ws (digits ++ rest) ≡ digits ++ rest
unfolding skip_ws
skip_ws-Digits [] rest d n = elim n [ ]
skip_ws-Digits (c ∷ digits) rest d n =
    let h : is_digit c ≡ true = d.0 in
    let b : (c == b' ' || (c == 9 || (c == 10 || c == 13))) ≡ false = ground arith in
    rw (skip_ws, b) refl

pub skip_ws-integer_text :
    (z : ℤ) (rest : Text) → IsInt64 z → skip_ws (integer_text z ++ rest) ≡ integer_text z ++ rest
unfolding integer_text digits_bound skip_ws
skip_ws-integer_text (pos n) rest h =
    let p = decimal-Printed 19 n [] (omega (arith, h)) in
    let text : decimal 20 n [] ++ rest ≡ p.digits ++ rest =
      ap (λ t. t ++ rest) (p.equal ∙ append-nil p.digits) in
    ap skip_ws text ∙ skip_ws-Digits p.digits rest p.all_digits p.some_digit ∙ sym text
skip_ws-integer_text (negsuc n) rest h = refl
