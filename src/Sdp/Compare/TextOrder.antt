-- ===== src/Sdp/Compare/TextOrder.antt =====
-- The order of std::string by bytes, and sorting by it, for modules/wl2_sdp/src/sdp.cpp.
use mathlib.Core.List.{Permᴰ}
use mathlib.Core.List.Permᴰ
use winglib.Base.{
  ◌≡◌, refl, ap, ◌∙◌, true, false, List, [], ◌∷◌, Text, arith, Bool-cases, inl, inr, text_lt, sort,
  insert_sorted, if◌then◌else◌,
}

text_lt_antisymm : (s t : Text) → text_lt s t ≡ false → text_lt t s ≡ false → s ≡ t
unfolding text_lt
text_lt_antisymm [] [] h k = refl
text_lt_antisymm [] (d ∷ t) h k = cc
text_lt_antisymm (c ∷ s) [] h k = cc
text_lt_antisymm (c ∷ s) (d ∷ t) h k = ground (arith, text_lt_antisymm s t)

text_lt_asymm : (s t : Text) → text_lt s t ≡ true → text_lt t s ≡ false
unfolding text_lt
text_lt_asymm [] [] h = cc
text_lt_asymm [] (d ∷ t) h = refl
text_lt_asymm (c ∷ s) [] h = cc
text_lt_asymm (c ∷ s) (d ∷ t) h = ground (arith, text_lt_asymm s t)

text_lt_trans : (s t u : Text) → text_lt s t ≡ true → text_lt t u ≡ true → text_lt s u ≡ true
unfolding text_lt
text_lt_trans [] [] u h k = cc
text_lt_trans [] (d ∷ t) [] h k = cc
text_lt_trans [] (d ∷ t) (e ∷ u) h k = refl
text_lt_trans (c ∷ s) [] u h k = cc
text_lt_trans (c ∷ s) (d ∷ t) [] h k = cc
text_lt_trans (c ∷ s) (d ∷ t) (e ∷ u) h k = ground (arith, text_lt_trans s t u)

insert_sorted-two :
    (x y : Text) (zs : List Text)
    → (if text_lt x y then x ∷ y ∷ zs else y ∷ x ∷ zs)
      ≡ (if text_lt y x then y ∷ x ∷ zs else x ∷ y ∷ zs)
insert_sorted-two x y zs = elim (Bool-cases (text_lt x y)) [
  | inl e ↦ rw (e, text_lt_asymm x y e) refl
  | inr e ↦ elim (Bool-cases (text_lt y x)) [
    | inl f ↦ rw (e, f) refl
    | inr f ↦ rw (e, f, text_lt_antisymm x y e f) refl
  ]
]

insert_sorted_comm :
    (x y : Text) (zs : List Text)
    → insert_sorted text_lt x (insert_sorted text_lt y zs)
      ≡ insert_sorted text_lt y (insert_sorted text_lt x zs)
unfolding insert_sorted
insert_sorted_comm x y [] = insert_sorted-two x y []
insert_sorted_comm x y (z ∷ zs) = ground (
  arith,
  insert_sorted-two x y (z ∷ zs),
  text_lt_trans x y z,
  text_lt_trans y x z,
  insert_sorted_comm x y zs,
)

insert_sorted-Perm : (x : Text) (ys : List Text) → Permᴰ (insert_sorted text_lt x ys) (x ∷ ys)
unfolding insert_sorted
insert_sorted-Perm x [] = Permᴰ.refl (x ∷ [])
insert_sorted-Perm x (y ∷ ys) = elim (Bool-cases (text_lt x y)) [
  | inl e ↦ rw (e) (Permᴰ.refl (x ∷ y ∷ ys))
  | inr e ↦ rw (e) (Permᴰ.trans (Permᴰ.cons refl (insert_sorted-Perm x ys)) (Permᴰ.swap refl refl))
]

pub sort-Perm : (xs : List Text) → Permᴰ (sort text_lt xs) xs
unfolding sort
sort-Perm [] = Permᴰ.nil
sort-Perm (x ∷ xs) =
    Permᴰ.trans (insert_sorted-Perm x (sort text_lt xs)) (Permᴰ.cons refl (sort-Perm xs))

pub Perm-sort : {xs ys : List Text} → Permᴰ xs ys → sort text_lt xs ≡ sort text_lt ys
unfolding sort
Perm-sort Permᴰ.nil = refl
Perm-sort (Permᴰ.cons {a = a} {l₂ = ys} e p) =
    ap (insert_sorted text_lt a) (Perm-sort p)
    ∙ ap (λ x. insert_sorted text_lt x (sort text_lt ys)) e
Perm-sort (Permᴰ.swap {a = a} {b = b} {l = l} e f) =
    insert_sorted_comm a b (sort text_lt l)
    ∙ (λ i. insert_sorted text_lt (f i) (insert_sorted text_lt (e i) (sort text_lt l)))
Perm-sort (Permᴰ.trans p q) = Perm-sort p ∙ Perm-sort q
