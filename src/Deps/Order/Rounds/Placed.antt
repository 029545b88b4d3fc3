-- ===== src/Deps/Order/Rounds/Placed.antt =====
-- The modules that have been placed: orderLockedModulesForBuild of src/core/module_deps.cpp.
use winglib.Base.{
  text_eq_swap, ℕ, suc, ◌+◌, ◌≤◌, ◌<◌, ◌≡◌, refl, ap, ◌∙◌, ◌⊎◌, inl, inr, true, false, ◌||◌, not,
  List, [], ◌∷◌, ◌++◌, none, some, arith, Text, subst, text_eq, text_eq_iff, text_eq_refl, text_Eq,
  member, member-append, if◌then◌else◌, Bool-cases, all, any, All, length,
}
use winglib.Deps.Lockfile.{LockedModule}
use winglib.Deps.Order.{ℤ, is_zero, degree_at, pick}
use winglib.Deps.Order.Degree.{bearers}

pub All-and {ℓ κ μ} :
    {A : Type ℓ} (P : A → Type κ) (Q : A → Type μ) (xs : List A)
    → All P xs
    → All Q xs
    → All (λ x. P x × Q x) xs
All-and P Q [] h g = tt
All-and P Q (x ∷ xs) h g = ((h.0, g.0), All-and P Q xs h.1 g.1)

pub pick-some :
    (P : LockedModule → Type 0) (placed : List Text) (g : List (Text × ℤ)) (ms : List LockedModule)
    {m : LockedModule}
    → All P ms
    → pick placed g ms ≡ some m
    → P m × (member m.name placed ≡ false) × (is_zero (degree_at m.name g) ≡ true)
unfolding pick
pick-some P placed g [] h e = cc
pick-some P placed g (x ∷ xs) {m} h e =
    elim (Bool-cases (member x.name placed || not (is_zero (degree_at x.name g)))) [
      | inl q ↦ pick-some P placed g xs h.1 (rw q at e)
      | inr q ↦
          let same : some x ≡ some m = rw q at e in
          subst (λ y. P y × (member y.name placed ≡ false) × (is_zero (degree_at y.name g) ≡ true))
            (cc same) (h.0, ground (arith, q), ground (arith, q))
    ]

pub pick-none :
    (placed : List Text) (g : List (Text × ℤ)) (ms : List LockedModule)
    → pick placed g ms ≡ none
    → All (λ m. (member m.name placed ≡ true) ⊎ (is_zero (degree_at m.name g) ≡ false)) ms
unfolding pick
pick-none placed g [] e = tt
pick-none placed g (x ∷ xs) e =
    elim (Bool-cases (member x.name placed || not (is_zero (degree_at x.name g)))) [
      | inl q ↦
          let rest = pick-none placed g xs (rw q at e) in
          elim (Bool-cases (member x.name placed)) [
            | inl m ↦ (inl m, rest)
            | inr m ↦ (inr (ground (arith, q, m)), rest)
          ]
      | inr q ↦ cc (e, q)
    ]

-- How many of the modules are placed.
unfoldable pub placed_count : List Text → List LockedModule → ℕ
placed_count placed [] = 0
placed_count placed (m ∷ ms) =
    let n = placed_count placed ms in if member m.name placed then suc n else n

placed_count-le : (placed : List Text) (ms : List LockedModule) → placed_count placed ms ≤ length ms
unfolding placed_count
placed_count-le placed [] = omega arith
placed_count-le placed (m ∷ ms) = ground (arith, placed_count-le placed ms)

pub placed_count-all :
    (placed : List Text) (ms : List LockedModule)
    → placed_count placed ms ≡ length ms
    → all (λ m. member m.name placed) ms ≡ true
unfolding placed_count
placed_count-all placed [] e = refl
placed_count-all placed (m ∷ ms) e =
    ground (arith, placed_count-le placed ms, placed_count-all placed ms)

pub placed_count-some :
    (placed : List Text) (ms : List LockedModule)
    → placed_count placed ms < length ms
    → any (λ m. not (member m.name placed)) ms ≡ true
unfolding placed_count
placed_count-some placed [] e = absurd (omega arith)
placed_count-some placed (m ∷ ms) e = ground (arith, placed_count-some placed ms)

pub placed_count-place :
    (placed : List Text) (name : Text) (ms : List LockedModule)
    → member name placed ≡ false
    → placed_count (placed ++ name ∷ []) ms ≡ placed_count placed ms + bearers name ms
unfolding placed_count bearers member
placed_count-place placed name [] n = refl
placed_count-place placed name (m ∷ ms) n = elim (Bool-cases (text_eq m.name name)) [
  | inl e ↦
      let q = (text_eq_iff m.name name).0 e in
      rw (member-append m.name placed (name ∷ []), member)
        (ground (
          arith,
          e,
          n,
          ap (λ x. member x placed) q ∙ n,
          ap (λ x. text_eq name x) q ∙ text_eq_refl name,
          placed_count-place placed name ms n,
        ))
  | inr e ↦
      rw (member-append m.name placed (name ∷ []), member)
        (ground (arith, e, text_eq_swap m.name name e, placed_count-place placed name ms n))
]
