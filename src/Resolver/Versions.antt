-- ===== src/Resolver/Versions.antt =====
-- Module versions and version ranges: parse_version, compare_versions and moduleVersionSatisfies of
-- src/core/module_resolver.cpp, with the extractions of std::istringstream that they use.
pub mod Ranges
use winglib.Base.{
  ℕ, ◌+◌, ◌*◌, ◌-◌, ◌^◌, Bool, true, false, ◌&&◌, ◌||◌, not, List, [], ◌∷◌, ◌++◌, Option, none,
  some, Text, codes, is_empty, starts_with, drop, if◌then◌else◌, ◌==◌, leb, ltb, Result, ok, err,
  ◌>>=◌,
}

-- std::isspace.
abbrev pub is_blank : ℕ → Bool
is_blank c = c == b' ' || (leb 9 c && leb c 13)

unfoldable pub skip_blanks : Text → Text
skip_blanks [] = []
skip_blanks (c ∷ s) = let rest = skip_blanks s in if is_blank c then rest else c ∷ s

-- `in >> c` for a char.
unfoldable pub read_char : Text → Option (ℕ × Text)
unfolding skip_blanks
read_char s = elim (skip_blanks s) [ [] ↦ none | c ∷ rest ↦ some (c, rest) ]

unfoldable pub until_blank : Text → Text × Text
until_blank [] = ([], [])
until_blank (c ∷ s) =
    let (word, rest) = until_blank s in if is_blank c then ([], c ∷ s) else (c ∷ word, rest)

-- `in >> w` for a std::string; where nothing is left, it is the empty text.
unfoldable pub read_word : Text → Text × Text
unfolding skip_blanks until_blank
read_word s = until_blank (skip_blanks s)

-- The digits at the front: how many, the value behind `n`, and what follows.
unfoldable pub read_digits : ℕ → ℕ → Text → ℕ × ℕ × Text
read_digits count n [] = (count, n, [])
read_digits count n (c ∷ s) =
    let more = read_digits (count + 1) (n * 10 + (c - b'0')) s in
    if leb b'0' c && leb c b'9' then more else (count, n, c ∷ s)

-- An `int` as its sign and its size.
abbrev pub Signed : Type 0
Signed = Bool × ℕ

unfoldable pub read_unsigned : Bool → Text → Option (Signed × Text)
unfolding read_digits
read_unsigned negative s =
    let (count, n, rest) = read_digits 0 0 s in
    if count == 0
    then none
    else if leb n (if negative then 2 ^ 31 else 2 ^ 31 - 1)
    then some ((negative, n), rest)
    else none

-- `in >> n` for an int.
unfoldable pub read_int : Text → Option (Signed × Text)
unfolding skip_blanks read_unsigned
read_int s = elim (skip_blanks s) [
  | [] ↦ none
  | c ∷ rest ↦
      if c == b'-'
      then read_unsigned true rest
      else if c == b'+'
      then read_unsigned false rest
      else read_unsigned false (c ∷ rest)
]

pub record Version : Type 0 where
  pub major : ℕ
  pub minor : ℕ
  pub patch : ℕ

pub data VersionError : Type 0 where
  invalid_version invalid_version_range : VersionError

abbrev pub is_negative : Signed → Bool
is_negative (negative, n) = negative && not (n == 0)

-- The five extractions in a row; the first that fails fails them all.
unfoldable pub read_version : Text → Option (Signed × ℕ × Signed × ℕ × Signed × Text)
unfolding read_int read_char
read_version text = elim (read_int text) [
  | none ↦ none
  | some (major, s1) ↦ elim (read_char s1) [
    | none ↦ none
    | some (dot1, s2) ↦ elim (read_int s2) [
      | none ↦ none
      | some (minor, s3) ↦ elim (read_char s3) [
        | none ↦ none
        | some (dot2, s4) ↦ elim (read_int s4) [
          | none ↦ none
          | some (patch, s5) ↦ some (major, dot1, minor, dot2, patch, s5)
        ]
      ]
    ]
  ]
]

unfoldable pub parse_version : Text → Result VersionError Version
unfolding read_version skip_blanks
parse_version text = elim (read_version text) [
  | none ↦ err invalid_version
  | some (major, dot1, minor, dot2, patch, rest) ↦
      if not (dot1 == b'.')
        || (not (dot2 == b'.') || (is_negative major || (is_negative minor || is_negative patch)))
      then err invalid_version
      else if not (is_empty (skip_blanks rest))
      then err invalid_version
      else ok (record { major = major.1; minor = minor.1; patch = patch.1 })
]

-- -1, 0 and 1.
pub data Compared : Type 0 where
  below same above : Compared

unfoldable pub compare_versions : Version → Version → Compared
compare_versions a b =
    if not (a.major == b.major)
    then (if ltb a.major b.major then below else above)
    else if not (a.minor == b.minor)
    then (if ltb a.minor b.minor then below else above)
    else if not (a.patch == b.patch)
    then (if ltb a.patch b.patch then below else above)
    else same

abbrev pub is_same : Compared → Bool
is_same below = false
is_same same = true
is_same above = false

abbrev pub is_below : Compared → Bool
is_below below = true
is_below same = false
is_below above = false

unfoldable pub at_least : Text
at_least = codes ">="

unfoldable pub less_than : Text
less_than = codes "<"

-- A range ">=a <b", by its two words and what is behind them.
unfoldable pub within_parts : Version → Text → Text → Text → Result VersionError Bool
unfolding parse_version compare_versions at_least less_than skip_blanks
within_parts version lower_part upper_part rest =
    if not (starts_with at_least lower_part)
      || (not (starts_with less_than upper_part) || not (is_empty (skip_blanks rest)))
    then err invalid_version_range
    else (parse_version (drop 2 lower_part) >>= λ lower.
        parse_version (drop 1 upper_part) >>= λ upper. ok (
          not (is_below (compare_versions version lower))
          && is_below (compare_versions version upper)))

unfoldable pub within : Version → Text → Result VersionError Bool
unfolding read_word within_parts
within version range =
    let (lower_part, s1) = read_word range in
    let (upper_part, s2) = read_word s1 in within_parts version lower_part upper_part s2

unfoldable pub module_version_satisfies : Text → Text → Result VersionError Bool
unfolding within parse_version compare_versions
module_version_satisfies version_text [] = ok true
module_version_satisfies version_text (c ∷ range) = parse_version version_text >>= λ version.
    (if c == b'='
      then parse_version range >>= (λ required. ok (is_same (compare_versions version required)))
      else within version (c ∷ range))
