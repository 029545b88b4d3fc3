-- ===== src/Permissions/Paths/Inside/Normal.antt =====
-- The normal form of absolute paths: src/core/permissions.cpp.
use mathlib.Core.List.{reverse, reverse-cons}
use winglib.Base.{
  ◌≡◌, refl, ap, ◌∙◌, inl, inr, Bool, true, false, ◌&&◌, ◌||◌, not, List, [], ◌∷◌, ◌++◌, arith,
  Text, text_eq, is_empty, All, All-append, Bool-cases, append-nil, append_assoc,
}
use winglib.Permissions.Paths.{FilePath, dot, dots, normal_elements, lexically_normal, or_dot}

-- A plain file name.
pub record IsName (e : Text) : Type 0 where
  pub non_empty : is_empty e ≡ false
  pub not_dot : text_eq e dot ≡ false
  pub not_dots : text_eq e dots ≡ false

-- The path leads nowhere up.
abbrev pub NoDots : List Text → Type 0
NoDots = All (λ e. text_eq e dots ≡ false)

abbrev pub absolute_path : List Text → FilePath
absolute_path es = record { absolute = true; elements = es }

All-reverse {κ} : (P : Text → Type κ) (xs : List Text) → All P xs → All P (reverse xs)
All-reverse P [] h = h
All-reverse P (x ∷ xs) h =
    rw (reverse-cons x xs) (All-append P (reverse xs) (x ∷ []) (All-reverse P xs h.1) (h.0, tt))

nil_not_dots : text_eq [] dots ≡ false
unfolding text_eq dots
nil_not_dots = refl

-- Each step of the normal form of an absolute path keeps what has been read free of "..".
normal_elements-NoDots :
    (done : List Text) (slash : Bool) (es : List Text)
    → NoDots done
    → NoDots (normal_elements true done slash es)
unfolding normal_elements
normal_elements-NoDots [] slash [] h = tt
normal_elements-NoDots (d ∷ ds) slash [] h = elim (Bool-cases (slash && not (text_eq d dots))) [
  | inl q ↦ rw (q, normal_elements) (All-reverse _ ([] ∷ d ∷ ds) (nil_not_dots, h))
  | inr q ↦ rw (q, normal_elements) (All-reverse _ (d ∷ ds) h)
]
normal_elements-NoDots [] slash (e ∷ es) h = elim (Bool-cases (is_empty e || text_eq e dot)) [
  | inl q ↦ rw (q, normal_elements) (normal_elements-NoDots [] true es h)
  | inr q ↦ elim (Bool-cases (text_eq e dots)) [
    | inl r ↦ rw (q, r, normal_elements) (normal_elements-NoDots [] true es h)
    | inr r ↦ rw (q, r, normal_elements) (normal_elements-NoDots (e ∷ []) false es (r, h))
  ]
]
normal_elements-NoDots (d ∷ ds) slash (e ∷ es) h = elim (Bool-cases (is_empty e || text_eq e dot)) [
  | inl q ↦ rw (q, normal_elements) (normal_elements-NoDots (d ∷ ds) true es h)
  | inr q ↦ elim (Bool-cases (text_eq e dots)) [
    | inl r ↦
        rw (q, r, normal_elements)
          (rw (h.0, normal_elements) (normal_elements-NoDots ds true es h.1))
    | inr r ↦ rw (q, r, normal_elements) (normal_elements-NoDots (e ∷ d ∷ ds) false es (r, h))
  ]
]

or_dot_absolute : (es : List Text) → or_dot true es ≡ es
unfolding or_dot
or_dot_absolute [] = refl
or_dot_absolute (e ∷ es) = refl

-- The normal form of an absolute path has no ".." in it.
pub normal-NoDots : (es : List Text) → NoDots (lexically_normal (absolute_path es)).elements
unfolding lexically_normal
normal-NoDots [] = tt
normal-NoDots (e ∷ es) =
    rw (or_dot_absolute (normal_elements true [] false (e ∷ es)))
      (normal_elements-NoDots [] false (e ∷ es) tt)

normal_elements-names :
    (done es : List Text)
    → All IsName done
    → All IsName es
    → normal_elements true done false es ≡ reverse done ++ es
unfolding normal_elements
normal_elements-names [] [] h g = refl
normal_elements-names (d ∷ ds) [] h g = rw append-nil
normal_elements-names done (e ∷ es) h g = ground (
  arith,
  g.0.non_empty,
  g.0.not_dot,
  g.0.not_dots,
  normal_elements-names (e ∷ done) es (g.0, h) g.1,
  reverse-cons e done,
  append_assoc (reverse done) (e ∷ []) es,
)

-- An absolute path of plain names is in normal form.
pub normal_names :
    (es : List Text) → All IsName es → lexically_normal (absolute_path es) ≡ absolute_path es
unfolding lexically_normal
normal_names [] g = refl
normal_names (e ∷ es) g = ap absolute_path (
    or_dot_absolute (normal_elements true [] false (e ∷ es))
    ∙ normal_elements-names [] (e ∷ es) tt g)
