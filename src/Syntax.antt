-- ===== src/Syntax.antt =====
-- The text helpers that src/core/module_deps.cpp and src/core/module_resolver.cpp share.
use winglib.Base.{
  ℕ, ◌+◌, Bool, ◌&&◌, ◌||◌, [], ◌∷◌, Option, none, some, Text, is_empty, ◌==◌, if◌then◌else◌,
  starts_with,
}

-- One of " \t\r\n".
unfoldable pub is_space : ℕ → Bool
is_space c = c == b' ' || (c == 9 || (c == 13 || c == 10))

-- `find_first_not_of` and `find_last_not_of`, as what they cut off.
unfoldable pub strip_left : Text → Text
strip_left [] = []
strip_left (c ∷ s) = let rest = strip_left s in if is_space c then rest else c ∷ s

unfoldable pub strip_right : Text → Text
strip_right [] = []
strip_right (c ∷ s) =
    let rest = strip_right s in if is_empty rest && is_space c then [] else c ∷ rest

-- `out.back() == q`, and what stands before that.
unfoldable pub drop_last : ℕ → Text → Option Text
drop_last q [] = none
drop_last q (c ∷ []) = if c == q then some [] else none
drop_last q (c ∷ d ∷ s) = elim (drop_last q (d ∷ s)) [ none ↦ none | some r ↦ some (c ∷ r) ]

-- Two equal quotes round a text of two bytes or more are dropped.
unfoldable pub unquote : Text → Text
unfolding drop_last
unquote [] = []
unquote (c ∷ s) =
    if c == b'"' || c == b'\'' then elim (drop_last c s) [ none ↦ c ∷ s | some r ↦ r ] else c ∷ s

unfoldable pub trim : Text → Text
trim value = unquote (strip_right (strip_left value))

unfoldable pub contains_text : Text → Text → Bool
contains_text p [] = is_empty p
contains_text p (c ∷ s) = starts_with p (c ∷ s) || contains_text p s

unfoldable pub indent_of : Text → ℕ
indent_of [] = 0
indent_of (c ∷ s) = let rest = indent_of s in if c == b' ' then rest + 1 else 0
