-- ===== src/Base/Sort.antt =====
-- std::sort, by insertion, and std::unique, over a Boolean order and a Boolean equality. Where the
-- order does not tell two elements apart, std::sort may leave them in either order, and this sort
-- keeps the order that they had.
use mathlib.Core.Path.{◌≡◌, refl, ap, ◌∙◌}
use mathlib.Core.Logic.{inl, inr}
use mathlib.Core.Bool.{Bool, true, false, ◌&&◌, ◌||◌}
use mathlib.Core.List.{List, [], ◌∷◌}
use native.Mathlib.Omega.{arith}
use winglib.Base.Tests.{if◌then◌else◌, Bool-cases, ltb, ◌==◌}
use winglib.Base.Lists.{all, any, All}
use winglib.Base.Bytes.{Text}

-- `std::string::compare` by bytes.
unfoldable pub text_lt : Text → Text → Bool
text_lt [] [] = false
text_lt [] (d ∷ t) = true
text_lt (c ∷ s) [] = false
text_lt (c ∷ s) (d ∷ t) = ltb c d || (c == d && text_lt s t)

module _ {ℓ} {A : Type ℓ} (lt : A → A → Bool) where
  unfoldable pub insert_sorted : A → List A → List A
  insert_sorted x [] = x ∷ []
  insert_sorted x (y ∷ ys) = if lt x y then x ∷ y ∷ ys else y ∷ insert_sorted x ys

  unfoldable pub sort : List A → List A
  unfolding insert_sorted
  sort [] = []
  sort (x ∷ xs) = insert_sorted x (sort xs)

  all-insert_sorted :
      (f : A → Bool) (x : A) (xs : List A) → all f (insert_sorted x xs) ≡ (f x && all f xs)
  unfolding insert_sorted
  all-insert_sorted f x [] = refl
  all-insert_sorted f x (y ∷ ys) = ground (arith, all-insert_sorted f x ys)

  pub all-sort : (f : A → Bool) (xs : List A) → all f (sort xs) ≡ all f xs
  unfolding sort
  all-sort f [] = refl
  all-sort f (x ∷ xs) = all-insert_sorted f x (sort xs) ∙ ap (λ b. f x && b) (all-sort f xs)

  any-insert_sorted :
      (f : A → Bool) (x : A) (xs : List A) → any f (insert_sorted x xs) ≡ (f x || any f xs)
  unfolding insert_sorted
  any-insert_sorted f x [] = refl
  any-insert_sorted f x (y ∷ ys) = ground (arith, any-insert_sorted f x ys)

  pub any-sort : (f : A → Bool) (xs : List A) → any f (sort xs) ≡ any f xs
  unfolding sort
  any-sort f [] = refl
  any-sort f (x ∷ xs) = any-insert_sorted f x (sort xs) ∙ ap (λ b. f x || b) (any-sort f xs)

  All-insert_sorted {κ} :
      (P : A → Type κ) (x : A) (xs : List A) → P x → All P xs → All P (insert_sorted x xs)
  unfolding insert_sorted
  All-insert_sorted P x [] p h = (p, tt)
  All-insert_sorted P x (y ∷ ys) p (q, h) =
      elim (lt x y) as (λ b. All P (if b then x ∷ y ∷ ys else y ∷ insert_sorted x ys)) [
        | true ↦ (p, (q, h))
        | false ↦ (q, All-insert_sorted P x ys p h)
      ]

  pub All-sort {κ} : (P : A → Type κ) (xs : List A) → All P xs → All P (sort xs)
  unfolding sort
  All-sort P [] h = tt
  All-sort P (x ∷ xs) (p, h) = All-insert_sorted P x (sort xs) p (All-sort P xs h)

module _ {ℓ} {A : Type ℓ} (eq : A → A → Bool) where
  unfoldable pub unique : List A → List A
  unique [] = []
  unique (x ∷ []) = x ∷ []
  unique (x ∷ y ∷ ys) = let rest = unique (y ∷ ys) in if eq x y then rest else x ∷ rest

module _ {ℓ} {A : Type ℓ} (eq : A → A → Bool) (eq_sound : (x y : A) → eq x y ≡ true → x ≡ y) where
  pub all-unique : (f : A → Bool) (xs : List A) → all f (unique eq xs) ≡ all f xs
  unfolding unique
  all-unique f [] = refl
  all-unique f (x ∷ []) = refl
  all-unique f (x ∷ y ∷ ys) = elim (Bool-cases (eq x y)) [
    | inl e ↦ ground (arith, e, ap f (eq_sound x y e), all-unique f (y ∷ ys))
    | inr e ↦ ground (arith, e, all-unique f (y ∷ ys))
  ]

  pub any-unique : (f : A → Bool) (xs : List A) → any f (unique eq xs) ≡ any f xs
  unfolding unique
  any-unique f [] = refl
  any-unique f (x ∷ []) = refl
  any-unique f (x ∷ y ∷ ys) = elim (Bool-cases (eq x y)) [
    | inl e ↦ ground (arith, e, ap f (eq_sound x y e), any-unique f (y ∷ ys))
    | inr e ↦ ground (arith, e, any-unique f (y ∷ ys))
  ]
