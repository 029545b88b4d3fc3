-- ===== src/Deps/Trust/Letters.antt =====
-- Texts that differ in the case of ASCII letters alone, and to_lower, with which
-- src/core/module_deps.cpp compares them.
use winglib.Base.{
  ◌≡◌, ◌↔◌, refl, ap, sym, subst, Bool-cases, ◌⊎◌, inl, inr, ℕ, ◌+◌, ◌≤◌, true, false, List, [],
  ◌∷◌, ◌++◌, Text, arith, to_lower_char, to_lower, contains_char, any, In, text_eq, text_eq_iff,
}

-- The same byte, or the capital and the small letter of one kind.
abbrev pub SameLetter : ℕ → ℕ → Type 0
SameLetter c d =
    (c ≡ d) ⊎ (((65 ≤ c) × (c ≤ 90) × (d ≡ c + 32)) ⊎ ((65 ≤ d) × (d ≤ 90) × (c ≡ d + 32)))

abbrev pub SameCase : Text → Text → Type 0
SameCase [] [] = Unit {0}
SameCase [] (d ∷ t) = ⊥
SameCase (c ∷ s) [] = ⊥
SameCase (c ∷ s) (d ∷ t) = SameLetter c d × SameCase s t

to_lower_char_iff : (c d : ℕ) → (to_lower_char c ≡ to_lower_char d) ↔ SameLetter c d
unfolding to_lower_char
to_lower_char_iff c d = ((λ e. ground arith), λ h. ground arith)

pub to_lower_iff : (s t : Text) → (to_lower s ≡ to_lower t) ↔ SameCase s t
unfolding to_lower
to_lower_iff [] [] = ((λ _. tt), λ _. refl)
to_lower_iff [] (d ∷ t) = ((λ e. cc), λ h. elim h [ ])
to_lower_iff (c ∷ s) [] = ((λ e. cc), λ h. elim h [ ])
to_lower_iff (c ∷ s) (d ∷ t) =
    let letter = to_lower_char_iff c d in
    let rest = to_lower_iff s t in
    ((λ e. (letter.0 (cc e), rest.0 (cc e))), λ h. cc (letter.1 h.0, rest.1 h.1))

pub to_lower-append : (s t : Text) → to_lower (s ++ t) ≡ to_lower s ++ to_lower t
unfolding to_lower
to_lower-append [] t = refl
to_lower-append (c ∷ s) t = ap (λ r. to_lower_char c ∷ r) (to_lower-append s t)

-- A byte below the letters is not made or unmade.
pub contains_char-to_lower :
    (c : ℕ) (s : Text) → c ≤ 64 → contains_char c s ≡ false → contains_char c (to_lower s) ≡ false
unfolding to_lower to_lower_char contains_char
contains_char-to_lower c [] h e = refl
contains_char-to_lower c (d ∷ s) h e = ground (arith, e, contains_char-to_lower c s h)

-- A test of any entry for a text, up to case.
pub any-to_lower_iff :
    (entries : List Text) (s : Text)
    → (any (λ entry. text_eq (to_lower entry) (to_lower s)) entries ≡ true)
      ↔ ((entry : Text) × In entry entries × SameCase entry s)
any-to_lower_iff [] s = ((λ e. cc), λ (entry, h, _). elim h [ ])
any-to_lower_iff (x ∷ entries) s =
    let test = text_eq_iff (to_lower x) (to_lower s) in
    let case = to_lower_iff x s in
    let rest = any-to_lower_iff entries s in
    (
      (λ e. elim (Bool-cases (text_eq (to_lower x) (to_lower s))) [
        | inl hit ↦ (x, inl refl, case.0 (test.0 hit))
        | inr miss ↦ let (entry, h, k) = rest.0 (ground (arith, e, miss)) in (entry, inr h, k)
      ]),
      (λ (entry, h, k). elim h [
        | inl q ↦
            let hit = test.1 (case.1 (subst (λ y. SameCase y s) (sym q) k)) in ground (arith, hit)
        | inr i ↦ let more = rest.1 (entry, i, k) in ground (arith, more)
      ]),
    )
