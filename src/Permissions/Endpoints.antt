-- ===== src/Permissions/Endpoints.antt =====
-- endpoint_matches, endpoint_inside and prefix_inside of src/core/permissions.cpp.
pub mod Sound
use winglib.Base.{
  ℕ, Bool, true, false, ◌&&◌, ◌||◌, not, List, [], ◌∷◌, ◌++◌, Option, none, some, Text, codes,
  text_eq, is_empty, split_last, starts_with, if◌then◌else◌, any,
}

unfoldable pub star : Text
star = codes "*"

unfoldable pub star_star : Text
star_star = codes "*:*"

unfoldable pub colon_star : Text
colon_star = codes ":*"

unfoldable pub endpoint_matches : Text → Text → Text → Bool
endpoint_matches entry host port =
    if text_eq entry star || text_eq entry star_star then true else elim (split_last b':' entry) [
      | none ↦ text_eq entry host
      | some (entry_host, entry_port) ↦
          (text_eq entry_host star || text_eq entry_host host)
          && (text_eq entry_port star || (not (text_eq port star) && text_eq entry_port port))
    ]

unfoldable pub endpoint_inside : List Text → Text → Bool
unfolding endpoint_matches
endpoint_inside approved requested = elim (split_last b':' requested) [
  | none ↦
      any
        (λ entry.
          text_eq entry star
          || (text_eq entry requested || text_eq entry (requested ++ colon_star)))
        approved
  | some (host, port) ↦ any (λ entry. endpoint_matches entry host port) approved
]

unfoldable pub prefix_inside : List Text → Text → Bool
prefix_inside approved requested =
    any (λ entry. not (is_empty entry) && starts_with entry requested) approved
