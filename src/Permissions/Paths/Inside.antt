-- ===== src/Permissions/Paths/Inside.antt =====
-- Which paths lie inside an approved directory.
pub mod Normal
use mathlib.Core.List.{reverse, reverse-cons}
use winglib.Base.{
  ◌≡◌, ◌↔◌, refl, sym, ap, ◌∙◌, inl, inr, Bool, true, false, ◌&&◌, ◌||◌, not, List, [], ◌∷◌, ◌++◌,
  Option, none, some, arith, Text, text_eq, text_eq_iff, text_eq_refl, is_empty, if◌then◌else◌, ltb,
  ◌==◌, All, All-append, Bool-cases, length, append-nil, append_assoc, subst,
}
use winglib.Permissions.Paths.{
  FilePath, dot, dots, elements_eq, bool_eq, path_eq, normal_elements, lexically_normal, or_dot,
  rest_head, mismatch, downs, ups, relative_head, leads_inside, normal_contained_by,
  path_contained_by,
}
use winglib.Permissions.Paths.Inside.Normal.{
  IsName, NoDots, absolute_path, normal-NoDots, normal_names,
}

mismatch_split :
    (xs ys : List Text)
    → (cs : List Text) × (xs ≡ cs ++ (mismatch xs ys).0) × (ys ≡ cs ++ (mismatch xs ys).1)
unfolding mismatch
mismatch_split [] ys = ([], refl, refl)
mismatch_split (x ∷ xs) [] = ([], refl, refl)
mismatch_split (x ∷ xs) (y ∷ ys) = elim (Bool-cases (text_eq x y)) [
  | inl e ↦
      let (cs, p, q) = mismatch_split xs ys in
      (x ∷ cs, ground (arith, e, p), ground (arith, e, q, text_eq_iff x y))
  | inr e ↦ ([], ground (arith, e), ground (arith, e))
]

mismatch-append : (ys zs : List Text) → mismatch (ys ++ zs) ys ≡ (zs, [])
unfolding mismatch
mismatch-append [] [] = refl
mismatch-append [] (z ∷ zs) = refl
mismatch-append (y ∷ ys) zs = ground (arith, text_eq_refl y, mismatch-append ys zs)

All-suffix {κ} : (P : Text → Type κ) (cs xs ys : List Text) → ys ≡ cs ++ xs → All P ys → All P xs
All-suffix P cs xs ys e h = drop_front cs (subst (All P) e h)
  where
    drop_front : (cs : List Text) → All P (cs ++ xs) → All P xs
    drop_front [] q = q
    drop_front (c ∷ cs) q = drop_front cs q.1

downs-names : (es : List Text) → All IsName es → downs es ≡ length es
unfolding downs
downs-names [] g = refl
downs-names (e ∷ es) g =
    ground (arith, g.0.non_empty, g.0.not_dot, g.0.not_dots, downs-names es g.1)

ups-names : (es : List Text) → All IsName es → ups es ≡ 0
unfolding ups
ups-names [] g = refl
ups-names (e ∷ es) g = ground (arith, g.0.not_dots, ups-names es g.1)

elements_eq→eq : (xs ys : List Text) → elements_eq xs ys ≡ true → xs ≡ ys
unfolding elements_eq
elements_eq→eq [] [] e = refl
elements_eq→eq [] (y ∷ ys) e = cc
elements_eq→eq (x ∷ xs) [] e = cc
elements_eq→eq (x ∷ xs) (y ∷ ys) e = ground (arith, text_eq_iff x y, elements_eq→eq xs ys)

dot_not_dots : text_eq dot dots ≡ false
unfolding text_eq dot dots
dot_not_dots = refl

rest_head-not_dots : (es : List Text) → NoDots es → text_eq (rest_head es) dots ≡ false
unfolding rest_head
rest_head-not_dots [] h = dot_not_dots
rest_head-not_dots (e ∷ es) h = ground (arith, h.0, dot_not_dots)

abbrev nothing : List Text → Bool
nothing [] = true
nothing (b ∷ bs) = false

abbrev head_of : List Text → List Text → Option Text
head_of a b =
    if ltb (downs b) (ups b)
    then none
    else if downs b == ups b
    then some (rest_head a)
    else some dots

head_of_inside :
    (a b : List Text) → NoDots a → All IsName b → leads_inside (head_of a b) ≡ nothing b
unfolding downs ups
head_of_inside a [] h g = ground (arith, rest_head-not_dots a h)
head_of_inside a (b ∷ bs) h g = ground (
  arith,
  downs-names bs g.1,
  ups-names bs g.1,
  g.0.non_empty,
  g.0.not_dot,
  g.0.not_dots,
  text_eq_refl dots,
)

-- What is left of the root decides: nothing is left of it exactly if the target goes on below it.
relative_inside :
    (n r : List Text)
    → NoDots n
    → All IsName r
    → leads_inside (relative_head (absolute_path n) (absolute_path r)) ≡ nothing (mismatch n r).1
unfolding relative_head bool_eq
relative_inside n r h g =
    let (cs, p, q) = mismatch_split n r in
    head_of_inside (mismatch n r).0 (mismatch n r).1 (All-suffix _ cs _ n p h)
      (All-suffix _ cs _ r q g)

nothing_nil : (bs : List Text) → nothing bs ≡ true → bs ≡ []
nothing_nil [] e = refl
nothing_nil (b ∷ bs) e = cc

abbrev contained : List Text → List Text → Bool
contained n r = normal_contained_by (absolute_path n) (absolute_path r)

contained_iff :
    (n r : List Text)
    → NoDots n
    → All IsName r
    → (contained n r ≡ true) ↔ ((zs : List Text) × (n ≡ r ++ zs))
unfolding path_eq bool_eq
contained_iff n r h g =
    let test = relative_inside n r h g in
    (
      (λ e. elim (Bool-cases (elements_eq n r)) [
        | inl same ↦ ([], elements_eq→eq n r same ∙ sym (append-nil r))
        | inr other ↦
            let empty = nothing_nil (mismatch n r).1 (sym test ∙ ground (arith, e, other)) in
            let (cs, p, q) = mismatch_split n r in
            ((mismatch n r).0, cc (p, q, empty, append-nil cs))
      ]),
      (λ (zs, e).
          let inside : nothing (mismatch n r).1 ≡ true = rw (e, mismatch-append r zs) in
          ground (arith, test, inside)),
    )

normal_absolute :
    (ts : List Text)
    → lexically_normal (absolute_path ts)
      ≡ absolute_path (lexically_normal (absolute_path ts)).elements
unfolding lexically_normal
normal_absolute ts = refl

-- An absolute path lies inside an approved directory, which is absolute and of plain names, exactly
-- if its normal form, with every "." and ".." resolved, is the directory's path with further
-- elements: no detour over ".." leads out of what was approved.
pub path_contained_by_iff :
    (ts r : List Text)
    → All IsName r
    → (path_contained_by (absolute_path ts) (absolute_path r) ≡ true)
      ↔ ((zs : List Text) × ((lexically_normal (absolute_path ts)).elements ≡ r ++ zs))
unfolding path_contained_by
path_contained_by_iff ts r g =
    let n = (lexically_normal (absolute_path ts)).elements in
    let same : path_contained_by (absolute_path ts) (absolute_path r) ≡ contained n r =
      ap (normal_contained_by (lexically_normal (absolute_path ts))) (normal_names r g)
      ∙ ap (λ p. normal_contained_by p (absolute_path r)) (normal_absolute ts) in
    rw same (contained_iff n r (normal-NoDots ts) g)
