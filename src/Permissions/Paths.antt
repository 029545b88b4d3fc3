-- ===== src/Permissions/Paths.antt =====
-- path_contained_by and path_inside of src/core/permissions.cpp, with the operations of
-- std::filesystem::path that they use.
pub mod Inside
use winglib.Base.{
  ℕ, ◌+◌, Bool, true, false, ◌&&◌, ◌||◌, not, List, [], ◌∷◌, ◌++◌, Option, none, some, Text, codes,
  text_eq, is_empty, if◌then◌else◌, any, leb, ltb, ◌==◌,
}
use mathlib.Core.List.{reverse}

-- Whether the path has a root directory, and its elements behind that; an empty last element is a
-- trailing slash.
pub record FilePath : Type 0 where
  pub absolute : Bool
  pub elements : List Text

unfoldable pub dot : Text
dot = codes "."

unfoldable pub dots : Text
dots = codes ".."

unfoldable pub elements_eq : List Text → List Text → Bool
elements_eq [] [] = true
elements_eq [] (y ∷ ys) = false
elements_eq (x ∷ xs) [] = false
elements_eq (x ∷ xs) (y ∷ ys) = text_eq x y && elements_eq xs ys

unfoldable pub bool_eq : Bool → Bool → Bool
bool_eq true b = b
bool_eq false b = not b

unfoldable pub path_eq : FilePath → FilePath → Bool
unfolding elements_eq bool_eq
path_eq p q = bool_eq p.absolute q.absolute && elements_eq p.elements q.elements

-- The elements of the normal form, from those read so far (the last one first) and whether a slash
-- stands at their end.
unfoldable pub normal_elements : Bool → List Text → Bool → List Text → List Text
normal_elements absolute done slash [] = finish done
  where
    finish : List Text → List Text
    finish [] = []
    finish (e ∷ es) = reverse (if slash && not (text_eq e dots) then [] ∷ e ∷ es else e ∷ es)
normal_elements absolute done slash (e ∷ es) =
    let skip = normal_elements absolute done true es in
    let push = normal_elements absolute (e ∷ done) false es in
    if is_empty e || text_eq e dot
    then skip
    else if text_eq e dots
    then elim done [
      | [] ↦ if absolute then skip else push
      | d ∷ ds ↦
          let pop = normal_elements absolute ds true es in if text_eq d dots then push else pop
    ]
    else push

-- A relative path with nothing left is ".".
unfoldable pub or_dot : Bool → List Text → List Text
or_dot absolute [] = if absolute then [] else dot ∷ []
or_dot absolute (e ∷ es) = e ∷ es

unfoldable pub lexically_normal : FilePath → FilePath
lexically_normal p = record p {
  elements = elim p.elements [
    | [] ↦ []
    | e ∷ es ↦ or_dot p.absolute (normal_elements p.absolute [] false (e ∷ es))
  ];
}

-- What is left of both behind the elements that they share.
unfoldable pub mismatch : List Text → List Text → List Text × List Text
mismatch [] ys = ([], ys)
mismatch (x ∷ xs) [] = (x ∷ xs, [])
mismatch (x ∷ xs) (y ∷ ys) = if text_eq x y then mismatch xs ys else (x ∷ xs, y ∷ ys)

-- How many directories a list of elements goes down, and how many up.
unfoldable pub downs : List Text → ℕ
downs [] = 0
downs (e ∷ es) = (if is_empty e || (text_eq e dot || text_eq e dots) then 0 else 1) + downs es

unfoldable pub ups : List Text → ℕ
ups [] = 0
ups (e ∷ es) = (if text_eq e dots then 1 else 0) + ups es

-- The first element of `target.lexically_relative(root)`, if that is not empty.
unfoldable pub rest_head : List Text → Text
rest_head [] = dot
rest_head (e ∷ es) = if is_empty e then dot else e

unfoldable pub relative_head : FilePath → FilePath → Option Text
unfolding rest_head
relative_head target root =
    let (a, b) = mismatch target.elements root.elements in
    if not (bool_eq target.absolute root.absolute)
    then none
    else if ltb (downs b) (ups b)
    then none
    else if downs b == ups b
    then some (rest_head a)
    else some dots

-- `!relative.empty() && *relative.begin() != ".."`
abbrev pub leads_inside : Option Text → Bool
leads_inside none = false
leads_inside (some e) = not (text_eq e dots)

-- path_contained_by for paths in normal form.
abbrev pub normal_contained_by : FilePath → FilePath → Bool
normal_contained_by target root =
    if path_eq target root then true else leads_inside (relative_head target root)

unfoldable pub path_contained_by : FilePath → FilePath → Bool
path_contained_by target root =
    normal_contained_by (lexically_normal target) (lexically_normal root)

unfoldable pub path_inside : List FilePath → FilePath → Bool
unfolding path_contained_by
path_inside approved requested = any (λ root. path_contained_by requested root) approved
