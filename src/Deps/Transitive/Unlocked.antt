-- ===== src/Deps/Transitive/Unlocked.antt =====
-- What is still to lock in lockModuleDependenciesTransitive of src/core/module_deps.cpp.
use winglib.Base.{
  ◌≡◌, refl, ap, ◌∙◌, ℕ, zero, suc, ◌+◌, ◌*◌, ◌≤◌, ◌<◌, true, false, not, ◌&&◌, List, [], ◌∷◌, Text,
  is_empty, if◌then◌else◌, member, text_Eq, text_eq, text_eq_refl, text_eq_iff, length, All, arith,
  Bool-cases, inl, inr,
}
use winglib.Deps.Locking.{ModuleDependency}
use winglib.Deps.Transitive.{fresh_sources}

-- The names that are not locked yet.
unfoldable pub unlocked : List Text → List Text → ℕ
unlocked [] locked = 0
unlocked (n ∷ names) locked = let k = unlocked names locked in if member n locked then k else suc k

pub unlocked-nil : (names : List Text) → unlocked names [] ≡ length names
unfolding unlocked member
unlocked-nil [] = refl
unlocked-nil (n ∷ names) = ap suc (unlocked-nil names)

unlocked-cons_le :
    (names : List Text) (n : Text) (locked : List Text)
    → unlocked names (n ∷ locked) ≤ unlocked names locked
unfolding unlocked member
unlocked-cons_le [] n locked = omega arith
unlocked-cons_le (m ∷ names) n locked = ground (arith, unlocked-cons_le names n locked)

pub unlocked-cons :
    (names : List Text) (n : Text) (locked : List Text)
    → member n names ≡ true
    → member n locked ≡ false
    → unlocked names (n ∷ locked) < unlocked names locked
unfolding unlocked member
unlocked-cons [] n locked h b = cc
unlocked-cons (m ∷ names) n locked h b = elim (Bool-cases (text_eq m n)) [
  | inl e ↦
      let q = (text_eq_iff m n).0 e in
      ground (
        arith,
        ap (λ x. member x locked) q ∙ b,
        ap (λ x. text_eq n x) q ∙ text_eq_refl n,
        unlocked-cons_le names n locked,
      )
  | inr e ↦ ground (arith, e, h, unlocked-cons names n locked (ground (arith, e, h)) b)
]

module _ (names : List Text) where
  abbrev pub Named : ModuleDependency → Type 0
  Named d = member d.name names ≡ true

  pub fresh_sources-Named :
      (locked : List Text) (deps : List ModuleDependency)
      → All Named deps
      → All Named (fresh_sources locked deps)
  unfolding fresh_sources
  fresh_sources-Named locked [] h = tt
  fresh_sources-Named locked (d ∷ deps) (p, h) =
      elim (not (is_empty d.name) && not (member d.name locked))
        as (λ b.
          All Named (if b then d ∷ fresh_sources locked deps else fresh_sources locked deps)) [
            | true ↦ (p, fresh_sources-Named locked deps h)
            | false ↦ fresh_sources-Named locked deps h
          ]

pub fresh_sources-length :
    (locked : List Text) (deps : List ModuleDependency)
    → length (fresh_sources locked deps) ≤ length deps
unfolding fresh_sources
fresh_sources-length locked [] = omega arith
fresh_sources-length locked (d ∷ deps) = ground (arith, fresh_sources-length locked deps)

pub mul_step : (a b w : ℕ) → a < b → a * w + w ≤ b * w
mul_step a zero w h = absurd (omega (arith, h))
mul_step zero (suc b) w h = omega arith
mul_step (suc a) (suc b) w h = omega (arith, mul_step a b w (omega (arith, h)))
