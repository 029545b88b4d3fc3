-- ===== src/Permissions/Sets.antt =====
-- PermissionSet of include/wl2/runtime.h, and normalizePermissionSet, permissionSetContains and
-- permissionSetDelta of src/core/permissions.cpp.
pub mod Delta
use winglib.Base.{
  ℕ, Bool, true, false, ◌&&◌, ◌||◌, not, List, [], ◌∷◌, Text, text_eq, text_lt, sort, unique, all,
  keep, map, if◌then◌else◌,
}
use winglib.Permissions.Paths.{FilePath, path_eq, path_inside, lexically_normal, elements_eq}
use winglib.Permissions.Endpoints.{endpoint_inside, prefix_inside}

pub record PermissionSet : Type 0 where
  pub network : List Text
  pub listen : List Text
  pub shared_memory : List Text
  pub filesystem_read : List FilePath
  pub filesystem_write : List FilePath
  pub ui : Bool
  pub graphics : Bool

-- `PermissionSet delta;`
abbrev pub no_permissions : PermissionSet
no_permissions = record {
  network = [];
  listen = [];
  shared_memory = [];
  filesystem_read = [];
  filesystem_write = [];
  ui = false;
  graphics = false;
}

unfoldable pub elements_lt : List Text → List Text → Bool
elements_lt [] [] = false
elements_lt [] (y ∷ ys) = true
elements_lt (x ∷ xs) [] = false
elements_lt (x ∷ xs) (y ∷ ys) = text_lt x y || (text_eq x y && elements_lt xs ys)

-- `path::compare(p) < 0`: a path with no root directory comes first.
unfoldable pub path_lt : FilePath → FilePath → Bool
unfolding elements_lt
path_lt p q =
    if p.absolute
    then (if q.absolute then elements_lt p.elements q.elements else false)
    else (if q.absolute then true else elements_lt p.elements q.elements)

unfoldable pub sort_unique_texts : List Text → List Text
sort_unique_texts values = unique text_eq (sort text_lt values)

unfoldable pub sort_unique_paths : List FilePath → List FilePath
unfolding path_lt path_eq
sort_unique_paths values = unique path_eq (sort path_lt values)

unfoldable pub normalize : PermissionSet → PermissionSet
normalize p = record p {
  network = sort_unique_texts p.network;
  listen = sort_unique_texts p.listen;
  shared_memory = sort_unique_texts p.shared_memory;
  filesystem_read = sort_unique_paths (map lexically_normal p.filesystem_read);
  filesystem_write = sort_unique_paths (map lexically_normal p.filesystem_write);
}

-- permissionSetContains of normalized sets; each loop returns at the first item that is outside.
unfoldable pub normal_contains : PermissionSet → PermissionSet → Bool
normal_contains approved requested =
    if requested.ui && not approved.ui
    then false
    else if requested.graphics && not approved.graphics
    then false
    else if not (all (endpoint_inside approved.network) requested.network)
    then false
    else if not (all (endpoint_inside approved.listen) requested.listen)
    then false
    else if not (all (prefix_inside approved.shared_memory) requested.shared_memory)
    then false
    else if not (all (path_inside approved.filesystem_read) requested.filesystem_read)
    then false
    else if not (all (path_inside approved.filesystem_write) requested.filesystem_write)
    then false
    else true

unfoldable pub permission_set_contains : PermissionSet → PermissionSet → Bool
unfolding normal_contains
permission_set_contains approved requested =
    normal_contains (normalize approved) (normalize requested)

-- The items that are outside, before the last normalization.
unfoldable pub normal_delta : PermissionSet → PermissionSet → PermissionSet
normal_delta approved requested = record {
  network = keep (λ x. not (endpoint_inside approved.network x)) requested.network;
  listen = keep (λ x. not (endpoint_inside approved.listen x)) requested.listen;
  shared_memory = keep (λ x. not (prefix_inside approved.shared_memory x)) requested.shared_memory;
  filesystem_read =
      keep (λ x. not (path_inside approved.filesystem_read x)) requested.filesystem_read;
  filesystem_write =
      keep (λ x. not (path_inside approved.filesystem_write x)) requested.filesystem_write;
  ui = requested.ui && not approved.ui;
  graphics = requested.graphics && not approved.graphics;
}

unfoldable pub permission_set_delta : PermissionSet → PermissionSet → PermissionSet
unfolding normal_delta
permission_set_delta approved requested =
    normalize (normal_delta (normalize approved) (normalize requested))
