-- ===== src/Permissions/Tests.antt =====
-- Concrete permission sets, at which the theorems on them apply.
use winglib.Base.{
  ◌≡◌, ◌↔◌, refl, true, false, List, [], ◌∷◌, ◌++◌, Text, codes, implies, contains_char, text_eq,
  ◌≢◌, split_last, unique, sort, text_lt,
}
use winglib.Permissions.Paths.{dot, dots, path_contained_by, lexically_normal}
use winglib.Permissions.Paths.Inside.{path_contained_by_iff}
use winglib.Permissions.Paths.Inside.Normal.{IsName, absolute_path}
use winglib.Permissions.Endpoints.{endpoint_inside, star, star_star}
use winglib.Permissions.Endpoints.Sound.{names, some_names, endpoint_inside_sound, star_star_gap}
use winglib.Permissions.Sets.{
  PermissionSet, normalize, sort_unique_texts, sort_unique_paths, no_permissions,
  permission_set_contains, permission_set_delta,
}
use winglib.Permissions.Sets.Delta.{contains_iff_no_delta, contains_sound}

abbrev host : Text
host = codes "example.org"

abbrev port : Text
port = codes "443"

abbrev approved : List Text
approved = codes "localhost:*" ∷ codes "*:443" ∷ []

inside_holds : endpoint_inside approved (codes "example.org:443") ≡ true
unfolding endpoint_inside text_eq split_last star star_star
inside_holds = refl

named : names (codes "example.org:443") host port ≡ true
unfolding text_eq split_last star
named = refl

named_by_approved : some_names approved host port ≡ true
named_by_approved =
    endpoint_inside_sound approved (codes "example.org:443") host port inside_holds named

clean_host : contains_char b':' host ≡ false
unfolding contains_char
clean_host = refl

clean_port : contains_char b':' port ≡ false
unfolding contains_char
clean_port = refl

host_not_star : host ≢ star
unfolding star
host_not_star e = cc

bare_host_uncovered :
    (endpoint_inside (star_star ∷ []) host ≡ false)
    × (endpoint_inside (star_star ∷ []) (host ++ b':' ∷ port) ≡ true)
    × ((p : Text) → names star_star host p ≡ true)
bare_host_uncovered = star_star_gap host port clean_host clean_port host_not_star

abbrev data_dir : List Text
data_dir = codes "srv" ∷ codes "data" ∷ []

srv-IsName : IsName (codes "srv")
unfolding text_eq dot dots
srv-IsName = record { non_empty = refl; not_dot = refl; not_dots = refl }

data-IsName : IsName (codes "data")
unfolding text_eq dot dots
data-IsName = record { non_empty = refl; not_dot = refl; not_dots = refl }

path_contained_by_iff_example :
    (path_contained_by
        (absolute_path (codes "srv" ∷ codes "data" ∷ codes ".." ∷ codes "data" ∷ codes "x" ∷ []))
        (absolute_path data_dir)
      ≡ true)
    ↔ ((zs : List Text) × ((lexically_normal (
            absolute_path
              (codes "srv" ∷ codes "data" ∷ codes ".." ∷ codes "data" ∷ codes "x" ∷ []))).elements
          ≡ data_dir ++ zs))
path_contained_by_iff_example =
    path_contained_by_iff (codes "srv" ∷ codes "data" ∷ codes ".." ∷ codes "data" ∷ codes "x" ∷ [])
      data_dir (srv-IsName, (data-IsName, tt))

abbrev wide : PermissionSet
wide = record no_permissions { network = approved; ui = true }

abbrev narrow : PermissionSet
narrow = record no_permissions { network = codes "example.org:443" ∷ []; ui = true }

narrow_fits : permission_set_contains wide narrow ≡ true
unfolding permission_set_contains text_eq normalize sort_unique_texts unique sort endpoint_inside
    split_last text_lt star star_star sort_unique_paths
narrow_fits = refl

contains_iff_no_delta_example :
    (permission_set_contains wide narrow ≡ true)
    ↔ (permission_set_delta wide narrow ≡ no_permissions)
contains_iff_no_delta_example = contains_iff_no_delta wide narrow

contains_sound_example :
    (implies (some_names narrow.network host port) (some_names wide.network host port) ≡ true)
    × (implies (some_names [] host port) (some_names [] host port) ≡ true)
    × (implies true true ≡ true)
    × (implies false false ≡ true)
contains_sound_example = contains_sound wide narrow host port narrow_fits
