-- ===== src/Base/Bytes.antt =====
-- std::string as the list of its bytes, and the std::string operations the code uses.
use Prim.Native.Nat.{ℕ, ◌+◌, ◌-◌}
use Prim.Native.Char.{code}
use Prim.Native.String.{String}
use mathlib.Core.Path.{◌≡◌, refl, sym}
use mathlib.Core.Logic.{◌↔◌, inl, inr}
use mathlib.Core.Bool.{Bool, true, false, ◌&&◌, ◌||◌}
use mathlib.Core.List.{List, [], ◌∷◌, ◌++◌}
use mathlib.Core.Option.{Option, none, some}
use native.Mathlib.Omega.{arith}
use winglib.Base.Tests.{==_refl, ◌==◌, if◌then◌else◌, Option-cases, Bool-cases, leb}

abbrev pub Text : Type 0
Text = List ℕ

-- The code points of a literal: its bytes, since the source's literals are ASCII.
abbrev pub codes : String → Text
codes String.[] = []
codes (String.◌∷◌ c s) = code c ∷ codes s

abbrev pub is_empty : Text → Bool
is_empty [] = true
is_empty (c ∷ s) = false

unfoldable pub text_eq : Text → Text → Bool
text_eq [] [] = true
text_eq [] (d ∷ t) = false
text_eq (c ∷ s) [] = false
text_eq (c ∷ s) (d ∷ t) = c == d && text_eq s t

pub text_eq_refl : (s : Text) → text_eq s s ≡ true
unfolding text_eq
text_eq_refl [] = refl
text_eq_refl (c ∷ s) = ground (arith, text_eq_refl s)

text_eq→eq : (s t : Text) → text_eq s t ≡ true → s ≡ t
unfolding text_eq
text_eq→eq [] [] h = refl
text_eq→eq [] (d ∷ t) h = cc
text_eq→eq (c ∷ s) [] h = cc
text_eq→eq (c ∷ s) (d ∷ t) h = ground (arith, text_eq→eq s t)

pub text_eq_iff : (s t : Text) → (text_eq s t ≡ true) ↔ (s ≡ t)
text_eq_iff s t = (text_eq→eq s t, λ e. rw e (text_eq_refl t))

-- `s.rfind(p, 0) == 0`
unfoldable pub starts_with : Text → Text → Bool
starts_with [] s = true
starts_with (c ∷ p) [] = false
starts_with (c ∷ p) (d ∷ s) = c == d && starts_with p s

-- `std::tolower` by the ASCII test that the code writes out.
unfoldable pub to_lower_char : ℕ → ℕ
to_lower_char c = if leb b'A' c && leb c b'Z' then c - b'A' + b'a' else c

unfoldable pub to_lower : Text → Text
unfolding to_lower_char
to_lower [] = []
to_lower (c ∷ s) = to_lower_char c ∷ to_lower s

-- `s.find(c)` split at the hit: what stands before it and what stands behind it.
unfoldable pub split_at : ℕ → Text → Option (Text × Text)
split_at c [] = none
split_at c (d ∷ s) =
    if d == c
    then some ([], s)
    else elim (split_at c s) [ none ↦ none | some (a, b) ↦ some (d ∷ a, b) ]

-- `s.find(c) != npos`
unfoldable pub contains_char : ℕ → Text → Bool
contains_char c [] = false
contains_char c (d ∷ s) = d == c || contains_char c s

pub starts_with_iff : (p s : Text) → (starts_with p s ≡ true) ↔ ((r : Text) × (s ≡ p ++ r))
unfolding starts_with
starts_with_iff [] s = ((λ _. (s, refl)), λ _. refl)
starts_with_iff (c ∷ p) [] = ((λ h. cc), λ (r, e). cc)
starts_with_iff (c ∷ p) (d ∷ s) = (
  (λ h.
      let q : (starts_with p s ≡ true) × (c ≡ d) = ground arith in
      let (r, e) = (starts_with_iff p s).0 q.0 in (r, cc (q.1, e))),
  (λ (r, e). let t : s ≡ p ++ r = cc e in ground (arith, (starts_with_iff p s).1 (r, t))),
)

-- What `split_at` returns puts the text together again, and the part before has no `c`.
pub split_at-some :
    (c : ℕ) (s a b : Text)
    → split_at c s ≡ some (a, b)
    → (s ≡ a ++ c ∷ b) × (contains_char c a ≡ false)
unfolding split_at contains_char
split_at-some c [] a b h = cc
split_at-some c (d ∷ s) a b h = elim (Option-cases (split_at c s)) [
  | inl e ↦ ground (arith, e)
  | inr ((x, y), e) ↦ ground (arith, e, split_at-some c s x y e)
]

-- `s.rfind(c)` split at the last hit.
unfoldable pub split_last : ℕ → Text → Option (Text × Text)
split_last c [] = none
split_last c (d ∷ s) = elim (split_last c s) [
  | some (a, b) ↦ some (d ∷ a, b)
  | none ↦ if d == c then some ([], s) else none
]

pub split_last-none : (c : ℕ) (s : Text) → contains_char c s ≡ false → split_last c s ≡ none
unfolding split_last contains_char
split_last-none c [] h = refl
split_last-none c (d ∷ s) h = ground (arith, split_last-none c s)

-- The last `c` is the one behind which there is none.
pub split_last-append :
    (c : ℕ) (a b : Text) → contains_char c b ≡ false → split_last c (a ++ c ∷ b) ≡ some (a, b)
unfolding split_last
split_last-append c [] b h = rw (split_last-none c b h, split_last) (ground (arith, ==_refl c))
split_last-append c (d ∷ a) b h = rw (split_last-append c a b h, split_last)

pub split_at-none : (c : ℕ) (s : Text) → contains_char c s ≡ false → split_at c s ≡ none
unfolding split_at contains_char
split_at-none c [] h = refl
split_at-none c (d ∷ s) h = ground (arith, split_at-none c s)

pub split_at-append :
    (c : ℕ) (a b : Text) → contains_char c a ≡ false → split_at c (a ++ c ∷ b) ≡ some (a, b)
unfolding split_at contains_char
split_at-append c [] b h = ground (arith, ==_refl c)
split_at-append c (d ∷ a) b h = ground (arith, split_at-append c a b)

pub contains_char-append :
    (c : ℕ) (s t : Text) → contains_char c (s ++ t) ≡ (contains_char c s || contains_char c t)
unfolding contains_char
contains_char-append c [] t = refl
contains_char-append c (d ∷ s) t = ground (arith, contains_char-append c s t)

pub text_eq_swap : (s t : Text) → text_eq s t ≡ false → text_eq t s ≡ false
text_eq_swap s t n = elim (Bool-cases (text_eq t s)) [
  | inl e ↦ cc (n, (text_eq_iff s t).1 (sym ((text_eq_iff t s).0 e)))
  | inr e ↦ e
]
