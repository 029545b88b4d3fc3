-- ===== src/Resources/Glob/Spec.antt =====
-- glob_match of src/core/resources.cpp against the meaning of a pattern.
use winglib.Base.{
  ◌≡◌, refl, ℕ, Bool, true, false, ◌&&◌, ◌||◌, [], ◌∷◌, Option, none, some, Text, if◌then◌else◌,
  ◌==◌, arith, Bool-cases, inl, inr,
}
use winglib.Resources.Glob.{Star, only_stars}

-- What follows a '*' matches some end of the value.
abbrev pub some_end : (Text → Bool) → Text → Bool
some_end p [] = p []
some_end p (c ∷ value) = p (c ∷ value) || some_end p value

-- What a pattern means: '?' is any byte, '*' any run of bytes, and any other byte itself.
unfoldable pub matches : Text → Text → Bool
matches [] [] = true
matches [] (c ∷ value) = false
matches (p ∷ pattern) value =
    if p == b'*'
    then some_end (matches pattern) value
    else elim value [ [] ↦ false | c ∷ rest ↦ (p == b'?' || p == c) && matches pattern rest ]

pub only_stars-matches : (pattern : Text) → only_stars pattern ≡ matches pattern []
unfolding only_stars matches
only_stars-matches [] = refl
only_stars-matches (p ∷ pattern) = ground (arith, only_stars-matches pattern)

some_end-here : (p : Text → Bool) (v : Text) → p v ≡ true → some_end p v ≡ true
some_end-here p [] h = h
some_end-here p (c ∷ v) h = rw (h) refl

pub some_end-some_end :
    (p : Text → Bool) (v : Text) → some_end (some_end p) v ≡ true → some_end p v ≡ true
some_end-some_end p [] h = h
some_end-some_end p (c ∷ v) h = elim (Bool-cases (some_end p (c ∷ v))) [
  | inl e ↦ e
  | inr e ↦
      let n : some_end p v ≡ false = ground (arith, e) in
      let k : some_end (some_end p) v ≡ true = ground (arith, e, h) in
      cc (n, some_end-some_end p v k)
]

-- What a '*' still offers that has been tried at this value.
abbrev pub starred_at : (Text → Bool) → Text → Bool
starred_at p [] = false
starred_at p (c ∷ v) = some_end p v

pub some_end-starred_at : (p : Text → Bool) (v : Text) → some_end p v ≡ (p v || starred_at p v)
some_end-starred_at p [] = ground arith
some_end-starred_at p (c ∷ v) = refl

starred_at-some_end : (p : Text → Bool) (v : Text) → starred_at p v ≡ true → some_end p v ≡ true
starred_at-some_end p [] h = cc
starred_at-some_end p (c ∷ v) h = elim (Bool-cases (p (c ∷ v))) [
  | inl e ↦ rw (e) refl
  | inr e ↦ rw (e) h
]

pub matches-byte :
    (q : ℕ) (p : Text) (c : ℕ) (v : Text)
    → (q == b'*') ≡ false
    → matches (q ∷ p) (c ∷ v) ≡ ((q == b'?' || q == c) && matches p v)
unfolding matches
matches-byte q p c v n = rw (matches, n) refl

matches-byte_end : (q : ℕ) (p : Text) → (q == b'*') ≡ false → matches (q ∷ p) [] ≡ false
unfolding matches
matches-byte_end q p n = rw (matches, n) refl

pub matches-star :
    (q : ℕ) (p v : Text) → (q == b'*') ≡ true → matches (q ∷ p) v ≡ some_end (matches p) v
unfolding matches
matches-star q p v e = rw (matches, e) refl

-- One byte of the pattern further, one byte of the value further.
pub starred_at-byte :
    (q : ℕ) (p v : Text)
    → (q == b'*') ≡ false
    → some_end (matches (q ∷ p)) v ≡ true
    → starred_at (matches p) v ≡ true
starred_at-byte q p [] n h = cc (matches-byte_end q p n, h)
starred_at-byte q p (d ∷ v) n h = elim (Bool-cases (matches (q ∷ p) (d ∷ v))) [
  | inl e ↦
      let m : matches p v ≡ true = ground (arith, e, matches-byte q p d v n) in
      some_end-here (matches p) v m
  | inr e ↦
      let k : some_end (matches (q ∷ p)) v ≡ true = rw (e) at h in
      starred_at-some_end (matches p) v (starred_at-byte q p v n k)
]

abbrev pub starred : Option Star → Bool
starred none = false
starred (some s) = starred_at (matches s.after) s.match
