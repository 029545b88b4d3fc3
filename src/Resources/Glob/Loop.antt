-- ===== src/Resources/Glob/Loop.antt =====
-- The turns of glob_match of src/core/resources.cpp: each keeps what is left to decide, and brings the
-- loop nearer to its end.
use winglib.Base.{
  ◌≡◌, refl, sym, ap, subst, ◌∙◌, ℕ, zero, suc, ◌+◌, ◌≤◌, ◌<◌, Bool, true, false, ◌||◌, [], ◌∷◌,
  Option, none, some, Text, ◌==◌, arith, Bool-cases, inl, inr, length, contains_char,
}
use mathlib.Core.Path.{fun_ext}
use winglib.Resources.Glob.{Star, backtrack, turn, glob_loop, budget, answer, run_glob, glob_match}
use winglib.Resources.Glob.Spec.{
  matches, some_end, some_end-some_end, starred_at, starred, some_end-starred_at, matches-byte,
  matches-star, starred_at-byte, only_stars-matches,
}

abbrev Clean : Text → Type 0
Clean v = contains_char b'*' v ≡ false

or_false : (b : Bool) → b ≡ (b || false)
or_false b = ground arith

module _ (width slots : ℕ) where
  -- A '*' that has been passed: what it still offers, the rest of the pattern still offers.
  abbrev StarOk : Text → Text → Option Star → Type 0
  StarOk p v none = Unit {0}
  StarOk p v (some s) =
      (length v ≤ length s.match)
      × (length s.match ≤ slots)
      × (length s.after + length s.match < width)
      × Clean s.match
      × (starred_at (matches s.after) s.match ≡ true → starred_at (matches p) v ≡ true)

  record Inv (p v : Text) (star : Option Star) : Type 0 where
    small : length p + length v < width
    short : length v ≤ slots
    clean : Clean v
    passed : StarOk p v star

  -- The turns that may still come.
  abbrev allowance : Option Star → ℕ
  allowance none = suc slots
  allowance (some s) = length s.match

  abbrev cost : Text → Text → Option Star → ℕ
  cost p v star = length p + length v + budget width (allowance star)

  abbrev Decides : ℕ → Text → Text → Option Star → Type 0
  Decides fuel p v star = glob_loop fuel p v star ≡ some (matches p v || starred star)

  budget-le : (m n : ℕ) → m ≤ n → budget width m ≤ budget width n
  unfolding budget
  budget-le zero n h = omega arith
  budget-le (suc m) zero h = elim h [ ]
  budget-le (suc m) (suc n) h = omega (arith, budget-le m n (omega (arith, h)))

  -- Nothing is left of the value.
  Decides-end :
      (fuel : ℕ) (p : Text) (star : Option Star) → Inv p [] star → Decides (suc fuel) p [] star
  unfolding glob_loop turn
  Decides-end fuel p none i = ap some (only_stars-matches p ∙ or_false (matches p []))
  Decides-end fuel p (some s) i = elim (Bool-cases (starred_at (matches s.after) s.match)) [
    | inl e ↦ cc (i.passed.4 e)
    | inr e ↦ rw (e) (ap some (only_stars-matches p ∙ or_false (matches p [])))
  ]

  StarOk-byte :
      (q : ℕ) (p : Text) (c : ℕ) (v : Text) (star : Option Star)
      → (q == b'*') ≡ false
      → StarOk (q ∷ p) (c ∷ v) star
      → StarOk p v star
  StarOk-byte q p c v none n o = tt
  StarOk-byte q p c v (some s) n o =
      (omega (arith, o.0), o.1, o.2, o.3, λ h. starred_at-byte q p v n (o.4 h))

  -- What the earlier '*' offers, the later one offers too.
  absorbed :
      (q : ℕ) (p : Text) (c : ℕ) (v : Text) (star : Option Star)
      → (q == b'*') ≡ true
      → StarOk (q ∷ p) (c ∷ v) star
      → (matches (q ∷ p) (c ∷ v) || starred star) ≡ some_end (matches p) (c ∷ v)
  absorbed q p c v none y o =
      rw (matches-star q p (c ∷ v) y) (sym (or_false (some_end (matches p) (c ∷ v))))
  absorbed q p c v (some s) y o = elim (Bool-cases (starred_at (matches s.after) s.match)) [
    | inl e ↦
        let h : some_end (some_end (matches p)) v ≡ true =
          subst (λ f. some_end f v ≡ true) (fun_ext (λ w. matches-star q p w y)) (o.4 e) in
        let k : some_end (matches p) v ≡ true = some_end-some_end (matches p) v h in
        rw (e, matches-star q p (c ∷ v) y, k) (ground arith)
    | inr e ↦ rw (e, matches-star q p (c ∷ v) y) (sym (or_false (some_end (matches p) (c ∷ v))))
  ]

  allowance-star :
      (q : ℕ) (p : Text) (c : ℕ) (v : Text) (star : Option Star)
      → Inv (q ∷ p) (c ∷ v) star
      → budget width (length (c ∷ v)) ≤ budget width (allowance star)
  allowance-star q p c v none i = budget-le (length (c ∷ v)) (suc slots) (omega (arith, i.short))
  allowance-star q p c v (some s) i = budget-le (length (c ∷ v)) (length s.match) i.passed.0

  abbrev Smaller : ℕ → Type 0
  Smaller fuel =
      (q : Text) (w : Text) (t : Option Star) → Inv q w t → cost q w t < fuel → Decides fuel q w t

  Decides-retry :
      (fuel : ℕ) (p : Text) (c : ℕ) (v after match : Text)
      → Smaller fuel
      → turn p (c ∷ v) (some (record { after = after; match = match }))
        ≡ backtrack (some (record { after = after; match = match }))
      → matches p (c ∷ v) ≡ false
      → Inv p (c ∷ v) (some (record { after = after; match = match }))
      → cost p (c ∷ v) (some (record { after = after; match = match })) < suc fuel
      → Decides (suc fuel) p (c ∷ v) (some (record { after = after; match = match }))
  unfolding glob_loop backtrack budget contains_char
  Decides-retry fuel p c v after [] ih e n i k = absurd (omega (arith, i.passed.0))
  Decides-retry fuel p c v after (d ∷ m) ih e n i k =
      let passed = i.passed in
      let clean : Clean m = ground (arith, passed.3) in
      let inv : Inv after m (some (record { after = after; match = m })) = record {
        small = omega (arith, passed.2);
        short = omega (arith, passed.1);
        clean = clean;
        passed = (omega arith, omega (arith, passed.1), omega (arith, passed.2), clean, λ h. h);
      } in
      rw (glob_loop, e, n)
        (ih after m (some (record { after = after; match = m })) inv (omega (arith, k, passed.2))
          ∙ ap some (sym (some_end-starred_at (matches after) m)))

  -- The pattern does not match here: one byte more goes to the last '*'.
  Decides-backtrack :
      (fuel : ℕ) (p : Text) (c : ℕ) (v : Text) (star : Option Star)
      → Smaller fuel
      → turn p (c ∷ v) star ≡ backtrack star
      → matches p (c ∷ v) ≡ false
      → Inv p (c ∷ v) star
      → cost p (c ∷ v) star < suc fuel
      → Decides (suc fuel) p (c ∷ v) star
  unfolding glob_loop backtrack
  Decides-backtrack fuel p c v none ih e n i k = rw (glob_loop, e, n) refl
  Decides-backtrack fuel p c v (some s) ih e n i k =
      Decides-retry fuel p c v s.after s.match ih e n i k

  -- A byte of the pattern that matches the byte of the value.
  Decides-byte :
      (fuel q : ℕ) (p : Text) (c : ℕ) (v : Text) (star : Option Star)
      → Smaller fuel
      → (q == b'*') ≡ false
      → (q == b'?' || q == c) ≡ true
      → Inv (q ∷ p) (c ∷ v) star
      → cost (q ∷ p) (c ∷ v) star < suc fuel
      → Decides (suc fuel) (q ∷ p) (c ∷ v) star
  unfolding glob_loop turn contains_char
  Decides-byte fuel q p c v star ih n e i k =
      let clean : Clean v = ground (arith, i.clean) in
      let inv : Inv p v star = record {
        small = omega (arith, i.small);
        short = omega (arith, i.short);
        clean = clean;
        passed = StarOk-byte q p c v star n i.passed;
      } in
      rw (glob_loop, turn, e, matches-byte q p c v n, e) (ih p v star inv (omega (arith, k)))

  -- A '*' of the pattern, which takes nothing at first.
  Decides-star :
      (fuel q : ℕ) (p : Text) (c : ℕ) (v : Text) (star : Option Star)
      → Smaller fuel
      → (q == b'*') ≡ true
      → (q == b'?' || q == c) ≡ false
      → Inv (q ∷ p) (c ∷ v) star
      → cost (q ∷ p) (c ∷ v) star < suc fuel
      → Decides (suc fuel) (q ∷ p) (c ∷ v) star
  unfolding glob_loop turn
  Decides-star fuel q p c v star ih y e i k =
      let next : Star = record { after = p; match = c ∷ v } in
      let inv : Inv p (c ∷ v) (some next) = record {
        small = omega (arith, i.small);
        short = i.short;
        clean = i.clean;
        passed = (omega arith, i.short, omega (arith, i.small), i.clean, λ h. h);
      } in
      rw (glob_loop, turn, e, y)
        (ih p (c ∷ v) (some next) inv (omega (arith, k, allowance-star q p c v star i))
          ∙ ap some (sym (absorbed q p c v star y i.passed)))

  -- With fuel for all the turns the loop decides.
  decides :
      (fuel : ℕ) (p v : Text) (star : Option Star)
      → Inv p v star
      → cost p v star < fuel
      → Decides fuel p v star
  unfolding turn matches contains_char
  decides zero p v star i k = absurd (omega (arith, k))
  decides (suc fuel) p [] star i k = Decides-end fuel p star i
  decides (suc fuel) [] (c ∷ v) star i k =
      Decides-backtrack fuel [] c v star (decides fuel) refl refl i k
  decides (suc fuel) (q ∷ p) (c ∷ v) star i k = elim (Bool-cases (q == b'?' || q == c)) [
    | inl e ↦
        let n : (q == b'*') ≡ false = ground (arith, i.clean, e) in
        Decides-byte fuel q p c v star (decides fuel) n e i k
    | inr e ↦ elim (Bool-cases (q == b'*')) [
      | inl y ↦ Decides-star fuel q p c v star (decides fuel) y e i k
      | inr n ↦
          Decides-backtrack fuel (q ∷ p) c v star (decides fuel) (rw (turn, e, n) refl)
            (matches-byte q p c v n ∙ rw (e) refl) i k
    ]
  ]

-- Where the value has no '*' in it, the loop comes to its end within its fuel, and what it answers
-- there, which is what glob_match answers, is what the pattern means.
pub glob_match-matches :
    (pattern value : Text)
    → contains_char b'*' value ≡ false
    → (run_glob pattern value ≡ some (matches pattern value))
      × (glob_match pattern value ≡ matches pattern value)
unfolding run_glob glob_match budget
glob_match-matches pattern value clean =
    let width = length pattern + length value + 1 in
    let inv : Inv width (length value) pattern value none = record {
      small = omega arith;
      short = omega arith;
      clean = clean;
      passed = tt;
    } in
    let e =
      decides width (length value) (budget width (suc (suc (length value)))) pattern value none inv
        (omega arith) in
    let found = e ∙ ap some (sym (or_false (matches pattern value))) in (found, ap answer found)
