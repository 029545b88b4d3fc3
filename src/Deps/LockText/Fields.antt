-- ===== src/Deps/LockText/Fields.antt =====
-- What trimming leaves of the lines that writeLockfile of src/core/module_deps.cpp writes.
use winglib.Base.{
  ◌≡◌, refl, ap, ◌∙◌, ℕ, false, [], ◌∷◌, ◌++◌, Text, is_empty, arith, ◌==◌, if◌then◌else◌, ◌||◌,
}
use winglib.Syntax.{is_space, strip_left, strip_right, unquote, trim}
use winglib.Deps.LockText.Lines.{Line}

-- A value that is read back as it was written: no space at either end, no quotes round it, no newline.
pub record Plain (value : Text) : Type 0 where
  pub left : strip_left value ≡ value
  pub right : strip_right value ≡ value
  pub bare : unquote value ≡ value
  pub line : Line value

-- The byte begins a text that trimming leaves as it is there.
abbrev pub Opens : ℕ → Type 0
Opens c = (is_space c ≡ false) × ((c == b'"' || c == b'\'') ≡ false)

-- What stands behind the colon once the line is trimmed.
unfoldable pub gap : Text → Text
gap value = if is_empty value then [] else b' ' ∷ value

strip_right-append :
    (s t : Text) → is_empty (strip_right t) ≡ false → strip_right (s ++ t) ≡ s ++ strip_right t
unfolding strip_right
strip_right-append [] t h = refl
strip_right-append (c ∷ s) t h =
    rw (strip_right, strip_right-append s t h) (ground (arith, not_empty s (strip_right t) h))
  where
    not_empty : (s t : Text) → is_empty t ≡ false → is_empty (s ++ t) ≡ false
    not_empty [] t h = h
    not_empty (c ∷ s) t h = refl

strip_right-gap :
    (value : Text) → strip_right value ≡ value → strip_right (b' ' ∷ value) ≡ gap value
unfolding strip_right gap is_space
strip_right-gap value h = rw (strip_right, h) (ground arith)

strip_right-colon :
    (value : Text)
    → strip_right value ≡ value
    → strip_right (b':' ∷ b' ' ∷ value) ≡ b':' ∷ gap value
unfolding strip_right is_space
strip_right-colon value h = rw (strip_right, strip_right-gap value h) (ground arith)

-- A line that begins with a byte of its own.
pub trim-line :
    (c : ℕ) (key value : Text)
    → Opens c
    → strip_right value ≡ value
    → trim (c ∷ (key ++ b':' ∷ b' ' ∷ value)) ≡ c ∷ (key ++ b':' ∷ gap value)
unfolding trim strip_left unquote
trim-line c key value (n, q) h =
    let e : strip_right (c ∷ (key ++ b':' ∷ b' ' ∷ value)) ≡ c ∷ (key ++ b':' ∷ gap value) =
      strip_right-append (c ∷ key) (b':' ∷ b' ' ∷ value) (rw (strip_right-colon value h) refl)
      ∙ ap (λ t. c ∷ (key ++ t)) (strip_right-colon value h) in
    rw (trim, n, e, q) refl

pub trim-space : (s : Text) → trim (b' ' ∷ s) ≡ trim s
unfolding trim strip_left is_space
trim-space s = refl

gap-right : (value : Text) → strip_right value ≡ value → strip_right (gap value) ≡ gap value
unfolding gap strip_right
gap-right [] h = refl
gap-right (c ∷ s) h = strip_right-gap (c ∷ s) h

pub trim-gap : (value : Text) → Plain value → trim (gap value) ≡ value
unfolding gap trim strip_left is_space unquote strip_right
trim-gap [] p = refl
trim-gap (c ∷ s) p = rw (trim, p.left, p.right) (p.bare)

-- A trimmed line stays what it is.
pub trim_again :
    (c : ℕ) (key value : Text)
    → Opens c
    → strip_right value ≡ value
    → trim (c ∷ (key ++ b':' ∷ gap value)) ≡ c ∷ (key ++ b':' ∷ gap value)
unfolding trim strip_left unquote strip_right is_space
trim_again c key value (n, q) h =
    let d : strip_right (b':' ∷ gap value) ≡ b':' ∷ gap value =
      rw (strip_right, gap-right value h) (ground arith) in
    let e : strip_right (c ∷ (key ++ b':' ∷ gap value)) ≡ c ∷ (key ++ b':' ∷ gap value) =
      strip_right-append (c ∷ key) (b':' ∷ gap value) (rw d refl) ∙ ap (λ t. c ∷ (key ++ t)) d in
    rw (trim, n, e, q) refl
