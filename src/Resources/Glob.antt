-- ===== src/Resources/Glob.antt =====
-- glob_match of src/core/resources.cpp. A position in the pattern or the value is the text from there
-- on; the loop takes one turn for each unit of fuel.
pub mod Spec
pub mod Loop
use winglib.Base.{
  ℕ, zero, suc, ◌+◌, Bool, true, false, ◌&&◌, ◌||◌, List, [], ◌∷◌, Option, none, some, Text,
  if◌then◌else◌, ◌==◌, length, drop,
}

-- The pattern behind the last '*', and the value from which it was tried.
pub record Star : Type 0 where
  pub after : Text
  pub match : Text

-- What one turn leads to: the three positions of the next one, or the answer.
pub data Turn : Type 0 where
  go : Text → Text → Option Star → Turn
  mismatch : Turn
  at_end : Turn

-- `star != npos`: one byte more of the value goes to the '*'.
unfoldable pub backtrack : Option Star → Turn
backtrack none = mismatch
backtrack (some s) =
    go s.after (drop 1 s.match) (some (record { after = s.after; match = drop 1 s.match }))

unfoldable pub turn : Text → Text → Option Star → Turn
unfolding backtrack
turn pattern [] star = at_end
turn [] (c ∷ value) star = backtrack star
turn (p ∷ pattern) (c ∷ value) star =
    if p == b'?' || p == c
    then go pattern value star
    else if p == b'*'
    then go pattern (c ∷ value) (some (record { after = pattern; match = c ∷ value }))
    else backtrack star

-- Nothing but '*'s.
unfoldable pub only_stars : Text → Bool
only_stars [] = true
only_stars (p ∷ pattern) = p == b'*' && only_stars pattern

unfoldable pub glob_loop : ℕ → Text → Text → Option Star → Option Bool
unfolding turn only_stars
glob_loop zero pattern value star = none
glob_loop (suc fuel) pattern value star = elim (turn pattern value star) [
  | go p v s ↦ glob_loop fuel p v s
  | mismatch ↦ some false
  | at_end ↦ some (only_stars pattern)
]

-- The fuel of n values of a '*', for turns of which at most `width` follow one another.
unfoldable pub budget : ℕ → ℕ → ℕ
budget width zero = 0
budget width (suc n) = budget width n + width

abbrev pub answer : Option Bool → Bool
answer none = false
answer (some b) = b

unfoldable pub run_glob : Text → Text → Option Bool
unfolding glob_loop budget
run_glob pattern value =
    let width = length pattern + length value + 1 in
    glob_loop (budget width (suc (suc (length value)))) pattern value none

unfoldable pub glob_match : Text → Text → Bool
unfolding run_glob
glob_match pattern value = answer (run_glob pattern value)
