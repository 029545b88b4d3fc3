-- ===== src/Resources/Paths.antt =====
-- The paths of resources: the helpers of src/core/resources.cpp on texts.
use winglib.Base.{
  ℕ, zero, suc, ◌+◌, Bool, false, not, ◌&&◌, ◌||◌, [], ◌∷◌, ◌++◌, none, some, Text, codes, text_eq,
  starts_with, split_last, if◌then◌else◌, ◌==◌, ltb, length, drop, get_elem?, text_Eq,
}
use winglib.Syntax.{drop_last}

unfoldable pub root_dir : Text
root_dir = codes "wl2:/"

-- The slashes at the end go, but for those of "/" and "wl2:/"; as many turns as there are bytes.
unfoldable pub trim_slashes : ℕ → Text → Text
unfolding root_dir drop_last
trim_slashes zero out = out
trim_slashes (suc fuel) out =
    if ltb 1 (length out) && not (text_eq out root_dir)
    then elim (drop_last b'/' out) [ none ↦ out | some rest ↦ trim_slashes fuel rest ]
    else out

unfoldable pub normalize_dir : Text → Text
unfolding trim_slashes
normalize_dir path = trim_slashes (length path) path

unfoldable pub is_wl2_path : Text → Bool
unfolding root_dir
is_wl2_path path = starts_with root_dir path

-- `path[i] == '/'`
unfoldable pub slash_at : Text → ℕ → Bool
slash_at path i = elim (get_elem? path i) [ none ↦ false | some c ↦ c == b'/' ]

unfoldable pub below : Text → Text → Bool
unfolding slash_at
below path prefix = starts_with prefix path && slash_at path (length prefix)

unfoldable pub path_matches_prefix : Text → Text → Bool
unfolding below
path_matches_prefix path prefix = text_eq path prefix || below path prefix

-- `find_last_of('/')`; the file name of a path is the same text.
unfoldable pub basename : Text → Text
basename path = elim (split_last b'/' path) [ none ↦ path | some (front, name) ↦ name ]

unfoldable pub relative_resource_path : Text → Text → Text
relative_resource_path path prefix =
    if length path == length prefix then [] else drop (length prefix + 1) path

-- A part of the path is "..".
unfoldable pub has_dots : Text → Text → Bool
has_dots part [] = text_eq part (codes "..")
has_dots part (c ∷ path) =
    (c == b'/' && text_eq part (codes ".."))
    || has_dots (if c == b'/' then [] else part ++ c ∷ []) path

abbrev pub is_absolute : Text → Bool
is_absolute [] = false
is_absolute (c ∷ path) = c == b'/'
