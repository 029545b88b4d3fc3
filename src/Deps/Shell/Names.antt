-- ===== src/Deps/Shell/Names.antt =====
-- Where the checkout of a dependency lies: is_safe_dependency_name of src/core/module_deps.cpp.
use winglib.Base.{
  ◌≡◌, ap, true, false, List, [], ◌∷◌, ◌++◌, arith, Text, contains_char, All, All-append,
}
use winglib.Permissions.Paths.{FilePath, dot, dots, lexically_normal, path_contained_by}
use winglib.Permissions.Paths.Inside.{path_contained_by_iff}
use winglib.Permissions.Paths.Inside.Normal.{IsName, absolute_path, normal_names}
use winglib.Deps.Shell.{is_safe_dependency_name}

safe-IsName : (name : Text) → is_safe_dependency_name name ≡ true → IsName name
unfolding is_safe_dependency_name dot dots
safe-IsName name e = record {
  non_empty = ground (arith, e);
  not_dot = ground (arith, e);
  not_dots = ground (arith, e);
}

-- The directory of a dependency with a safe name lies in the dependency root, an absolute path of
-- plain names: it is its own normal form, the root with the name as one more element, and the name
-- has no slash in it.
pub safe_name_inside :
    (root : List Text) (name : Text)
    → All IsName root
    → is_safe_dependency_name name ≡ true
    → (contains_char b'/' name ≡ false)
      × (lexically_normal (absolute_path (root ++ name ∷ [])) ≡ absolute_path (root ++ name ∷ []))
      × (path_contained_by (absolute_path (root ++ name ∷ [])) (absolute_path root) ≡ true)
unfolding is_safe_dependency_name
safe_name_inside root name g e =
    let same =
      normal_names (root ++ name ∷ [])
        (All-append IsName root (name ∷ []) g (safe-IsName name e, tt)) in
    (
      ground (arith, e),
      same,
      (path_contained_by_iff (root ++ name ∷ []) root g).1
          (name ∷ [], ap (λ (p : FilePath). p.elements) same),
    )
