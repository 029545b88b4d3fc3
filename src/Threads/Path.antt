-- ===== src/Threads/Path.antt =====
-- Absolute thread paths: parent_path and validate_thread_path of src/core/thread_tree.cpp.
pub mod Segments
use winglib.Base.{
  ℕ, ◌<◌, ◌≡◌, Bool, true, false, ◌&&◌, ◌||◌, List, [], ◌∷◌, ◌++◌, Option, none, some, arith, Text,
  codes, text_eq, is_empty, ◌==◌, ltb, if◌then◌else◌, length,
}

-- `path.find_last_of('/')`, as what stands before the last slash.
unfoldable pub before_last : ℕ → Text → Option Text
before_last c [] = none
before_last c (d ∷ s) = elim (before_last c s) [
  | some a ↦ some (d ∷ a)
  | none ↦ if d == c then some [] else none
]

-- No parent is the empty text.
unfoldable pub parent_path : Text → Text
unfolding before_last
parent_path path = elim (before_last b'/' path) [
  | none ↦ []
  | some before ↦ if is_empty before then [] else before
]

-- The reasons that validate_thread_path returns.
pub data PathError : Type 0 where
  empty_path not_absolute trailing_slash empty_segment dot_segment : PathError

-- `path.back() == '/'`
unfoldable pub ends_with_slash : Text → Bool
ends_with_slash [] = false
ends_with_slash (c ∷ []) = c == b'/'
ends_with_slash (c ∷ d ∷ s) = ends_with_slash (d ∷ s)

unfoldable pub check_segment : Text → Option PathError
check_segment segment =
    if is_empty segment
    then some empty_segment
    else if text_eq segment (codes ".") || text_eq segment (codes "..")
    then some dot_segment
    else none

-- The loop over the segments: `segment` holds the bytes from `segmentStart` on that are read
-- already, and the second argument those in which the next slash is looked for.
unfoldable pub check_segments : Text → Text → Option PathError
unfolding check_segment
check_segments segment [] = check_segment segment
check_segments segment (c ∷ rest) = elim (c == b'/') [
  | true ↦ elim (check_segment segment) [ some e ↦ some e | none ↦ check_segments [] rest ]
  | false ↦ check_segments (segment ++ c ∷ []) rest
]

unfoldable pub validate_thread_path : Text → Option PathError
unfolding check_segments ends_with_slash
validate_thread_path [] = some empty_path
validate_thread_path (c ∷ rest) =
    if c == b'/'
    then (if ltb 0 (length rest) && ends_with_slash (c ∷ rest)
        then some trailing_slash
        else check_segments [] rest)
    else some not_absolute
