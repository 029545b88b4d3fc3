-- ===== src/Permissions/Sets/Delta.antt =====
-- Containment and delta agree, and containment is sound.
use winglib.Base.{
  implies, implies-true, ◌≡◌, ◌↔◌, refl, sym, ap, ◌∙◌, Bool, true, false, ◌&&◌, not, List, [], ◌∷◌,
  Text, text_eq, text_eq_iff, text_lt, sort, insert_sorted, unique, all, keep, map, arith, any-sort,
  any-unique, text_Eq,
}
use winglib.Permissions.Paths.{FilePath, path_eq, path_inside, lexically_normal}
use winglib.Permissions.Endpoints.{endpoint_inside, prefix_inside}
use winglib.Permissions.Endpoints.Sound.{names, some_names, endpoint_inside_sound}
use winglib.Permissions.Sets.{
  PermissionSet, no_permissions, path_lt, sort_unique_texts, sort_unique_paths, normalize,
  normal_contains, normal_delta, permission_set_contains, permission_set_delta,
}

module _ {ℓ} {A : Type ℓ} where
  abbrev nil : List A → Bool
  nil [] = true
  nil (x ∷ xs) = false

  nil-keep : (p : A → Bool) (xs : List A) → nil (keep (λ x. not (p x)) xs) ≡ all p xs
  nil-keep p [] = refl
  nil-keep p (x ∷ xs) = ground (arith, nil-keep p xs)

  nil-insert_sorted :
      (lt : A → A → Bool) (x : A) (xs : List A) → nil (insert_sorted lt x xs) ≡ false
  unfolding insert_sorted
  nil-insert_sorted lt x [] = refl
  nil-insert_sorted lt x (y ∷ ys) = ground arith

  nil-sort : (lt : A → A → Bool) (xs : List A) → nil (sort lt xs) ≡ nil xs
  unfolding sort
  nil-sort lt [] = refl
  nil-sort lt (x ∷ xs) = nil-insert_sorted lt x (sort lt xs)

  nil-unique : (eq : A → A → Bool) (xs : List A) → nil (unique eq xs) ≡ nil xs
  unfolding unique
  nil-unique eq [] = refl
  nil-unique eq (x ∷ []) = refl
  nil-unique eq (x ∷ y ∷ ys) = ground (arith, nil-unique eq (y ∷ ys))

  nil_iff : (xs : List A) → (nil xs ≡ true) ↔ (xs ≡ [])
  nil_iff [] = ((λ _. refl), λ _. refl)
  nil_iff (x ∷ xs) = ((λ e. cc), λ e. cc)

nil-map {ℓ κ} : {A : Type ℓ} {B : Type κ} (f : A → B) (xs : List A) → nil (map f xs) ≡ nil xs
nil-map f [] = refl
nil-map f (x ∷ xs) = refl

-- No permission at all.
abbrev is_none : PermissionSet → Bool
is_none p =
    not p.ui
    && (not p.graphics
        && (nil p.network
            && (nil p.listen
                && (nil p.shared_memory && (nil p.filesystem_read && nil p.filesystem_write)))))

nil-sort_unique_texts : (xs : List Text) → nil (sort_unique_texts xs) ≡ nil xs
unfolding sort_unique_texts
nil-sort_unique_texts xs = nil-unique text_eq (sort text_lt xs) ∙ nil-sort text_lt xs

nil-sort_unique_paths : (xs : List FilePath) → nil (sort_unique_paths xs) ≡ nil xs
unfolding sort_unique_paths
nil-sort_unique_paths xs = nil-unique path_eq (sort path_lt xs) ∙ nil-sort path_lt xs

nil-normal_paths : (xs : List FilePath) → nil (sort_unique_paths (map lexically_normal xs)) ≡ nil xs
nil-normal_paths xs = nil-sort_unique_paths (map lexically_normal xs) ∙ nil-map lexically_normal xs

is_none-normalize : (p : PermissionSet) → is_none (normalize p) ≡ is_none p
unfolding normalize
is_none-normalize p = rw (
  nil-sort_unique_texts p.network,
  nil-sort_unique_texts p.listen,
  nil-sort_unique_texts p.shared_memory,
  nil-normal_paths p.filesystem_read,
  nil-normal_paths p.filesystem_write,
)

is_none-delta : (a r : PermissionSet) → is_none (normal_delta a r) ≡ normal_contains a r
unfolding normal_delta normal_contains
is_none-delta a r =
    rw
      (
        nil-keep (endpoint_inside a.network) r.network,
        nil-keep (endpoint_inside a.listen) r.listen,
        nil-keep (prefix_inside a.shared_memory) r.shared_memory,
        nil-keep (path_inside a.filesystem_read) r.filesystem_read,
        nil-keep (path_inside a.filesystem_write) r.filesystem_write,
      )
      (ground arith)

none_of_is_none : (p : PermissionSet) → is_none p ≡ true → p ≡ no_permissions
none_of_is_none p e = ground (
  arith,
  nil_iff p.network,
  nil_iff p.listen,
  nil_iff p.shared_memory,
  nil_iff p.filesystem_read,
  nil_iff p.filesystem_write,
)

-- A request lies inside what is approved exactly if the delta between them is empty: what the delta
-- reports is all that is missing, and it reports nothing that is not missing.
pub contains_iff_no_delta :
    (approved requested : PermissionSet)
    → (permission_set_contains approved requested ≡ true)
      ↔ (permission_set_delta approved requested ≡ no_permissions)
unfolding permission_set_contains permission_set_delta
contains_iff_no_delta approved requested =
    let same : is_none (permission_set_delta approved requested)
        ≡ permission_set_contains approved requested =
      is_none-normalize (normal_delta (normalize approved) (normalize requested))
      ∙ is_none-delta (normalize approved) (normalize requested) in
    (
      (λ e. none_of_is_none (permission_set_delta approved requested) (same ∙ e)),
      (λ e. sym same ∙ ap is_none e),
    )

inside_names :
    (approved : List Text) (h p : Text) (requested : List Text)
    → all (endpoint_inside approved) requested ≡ true
    → some_names requested h p ≡ true
    → some_names approved h p ≡ true
inside_names approved h p [] e n = cc
inside_names approved h p (x ∷ xs) e n =
    ground (arith, endpoint_inside_sound approved x h p, inside_names approved h p xs)

some_names-sort_unique :
    (xs : List Text) (h p : Text) → some_names (sort_unique_texts xs) h p ≡ some_names xs h p
unfolding sort_unique_texts
some_names-sort_unique xs h p =
    any-unique text_eq (λ x y. (text_eq_iff x y).0) (λ entry. names entry h p) (sort text_lt xs)
    ∙ any-sort text_lt (λ entry. names entry h p) xs

normal_endpoints :
    (approved requested : List Text) (h p : Text)
    → all (endpoint_inside (sort_unique_texts approved)) (sort_unique_texts requested) ≡ true
    → some_names requested h p ≡ true
    → some_names approved h p ≡ true
normal_endpoints approved requested h p e n =
    sym (some_names-sort_unique approved h p)
    ∙ inside_names (sort_unique_texts approved) h p (sort_unique_texts requested) e
        (some_names-sort_unique requested h p ∙ n)

-- A contained request opens no endpoint that was not approved: every host and port that its network
-- entries name is named by an approved network entry, and so for its listen entries. Nor does it ask
-- for the user interface or for graphics without approval.
pub contains_sound :
    (approved requested : PermissionSet) (h p : Text)
    → permission_set_contains approved requested ≡ true
    → (implies (some_names requested.network h p) (some_names approved.network h p) ≡ true)
      × (implies (some_names requested.listen h p) (some_names approved.listen h p) ≡ true)
      × (implies requested.ui approved.ui ≡ true)
      × (implies requested.graphics approved.graphics ≡ true)
unfolding permission_set_contains normal_contains normalize
contains_sound approved requested h p e =
    let network : all (endpoint_inside (sort_unique_texts approved.network))
          (sort_unique_texts requested.network)
        ≡ true =
      ground arith in
    let listen : all (endpoint_inside (sort_unique_texts approved.listen))
          (sort_unique_texts requested.listen)
        ≡ true =
      ground arith in
    (
      implies-true _ _ (normal_endpoints approved.network requested.network h p network),
      implies-true _ _ (normal_endpoints approved.listen requested.listen h p listen),
      implies-true requested.ui approved.ui (λ u. ground arith),
      implies-true requested.graphics approved.graphics (λ u. ground arith),
    )
