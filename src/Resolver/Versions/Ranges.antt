-- ===== src/Resolver/Versions/Ranges.antt =====
-- What version ranges mean.
use winglib.Base.{
  ◌<◌, ◌≡◌, ◌↔◌, ◌⊎◌, refl, subst, ap, ◌∙◌, Bool, true, false, ◌&&◌, ◌||◌, not, [], ◌∷◌, ◌++◌,
  arith, Text, any, starts_with, Result, ok,
}
use winglib.Resolver.Versions.{
  is_blank, skip_blanks, until_blank, read_word, Version, parse_version, compare_versions, is_below,
  is_same, within_parts, VersionError, at_least, less_than, within, module_version_satisfies,
}

-- `a` comes before `b`: major first, then minor, then patch.
abbrev pub Before : Version → Version → Type 0
Before a b =
    (a.major < b.major)
    ⊎ ((a.major ≡ b.major) × ((a.minor < b.minor) ⊎ ((a.minor ≡ b.minor) × (a.patch < b.patch))))

compare_below : (a b : Version) → (is_below (compare_versions a b) ≡ true) ↔ Before a b
unfolding compare_versions
compare_below a b = ((λ e. ground arith), λ e. ground arith)

refl_same : (a : Version) → is_same (compare_versions a a) ≡ true
unfolding compare_versions
refl_same a = ground arith

compare_same : (a b : Version) → (is_same (compare_versions a b) ≡ true) ↔ (a ≡ b)
unfolding compare_versions
compare_same a b = (
  (λ e.
      let q : (a.major ≡ b.major) × (a.minor ≡ b.minor) × (a.patch ≡ b.patch) = ground (arith, e) in
      cc (q.0, q.1, q.2)),
  λ e. subst (λ x. is_same (compare_versions a x) ≡ true) e (refl_same a),
)

split_or : (x y : Bool) → (x || y) ≡ false → (x ≡ false) × (y ≡ false)
split_or x y h = ground (arith, h)

-- A word is read up to the blank behind it.
until_blank-append :
    (w s : Text) → any is_blank w ≡ false → until_blank (w ++ b' ' ∷ s) ≡ (w, b' ' ∷ s)
unfolding until_blank
until_blank-append [] s h = refl
until_blank-append (c ∷ w) s h =
    let (here, rest) = split_or (is_blank c) (any is_blank w) h in
    rw (here, until_blank-append w s rest) refl

until_blank-all : (w : Text) → any is_blank w ≡ false → until_blank w ≡ (w, [])
unfolding until_blank
until_blank-all [] h = refl
until_blank-all (c ∷ w) h =
    let (here, rest) = split_or (is_blank c) (any is_blank w) h in
    rw (here, until_blank-all w rest) refl

read_both :
    (lo hi : Text)
    → any is_blank lo ≡ false
    → any is_blank hi ≡ false
    → (read_word (at_least ++ (lo ++ b' ' ∷ (less_than ++ hi)))
        ≡ (at_least ++ lo, b' ' ∷ (less_than ++ hi)))
      × (read_word (b' ' ∷ (less_than ++ hi)) ≡ (less_than ++ hi, []))
unfolding read_word skip_blanks at_least less_than until_blank
read_both lo hi h g =
    (rw (until_blank-append lo (b'<' ∷ hi) h) refl, rw (until_blank-all hi g) refl)

within-range :
    (lo hi : Text) (v a b : Version)
    → any is_blank lo ≡ false
    → any is_blank hi ≡ false
    → parse_version lo ≡ ok a
    → parse_version hi ≡ ok b
    → within v (at_least ++ (lo ++ b' ' ∷ (less_than ++ hi)))
      ≡ ok (not (is_below (compare_versions v a)) && is_below (compare_versions v b))
unfolding within within_parts starts_with at_least less_than skip_blanks
within-range lo hi v a b h g p q =
    let (first, second) = read_both lo hi h g in
    ap (λ (w : Text × Text). within_parts v w.0 (read_word w.1).0 (read_word w.1).1) first
    ∙ ap (λ (w : Text × Text). within_parts v (at_least ++ lo) w.0 w.1) second
    ∙ rw (p, q) refl

not_below : (x : Bool) → ¬ (x ≡ true) → x ≡ false
not_below true n = absurd (n refl)
not_below false n = refl

abbrev answer : Bool → Result VersionError Bool
answer b = ok b

ok_both : (x y : Bool) → (answer (not x && y) ≡ answer true) ↔ ((x ≡ false) × (y ≡ true))
ok_both true y = ((λ e. cc), λ e. cc)
ok_both false y = ((λ e. (refl, cc e)), λ e. ap answer e.1)

-- A range ">=a <b" takes the versions from a on and before b, in the order of major, minor and patch.
pub satisfies-range :
    (version lo hi : Text) (v a b : Version)
    → parse_version version ≡ ok v
    → parse_version lo ≡ ok a
    → parse_version hi ≡ ok b
    → any is_blank lo ≡ false
    → any is_blank hi ≡ false
    → (module_version_satisfies version (at_least ++ (lo ++ b' ' ∷ (less_than ++ hi))) ≡ ok true)
      ↔ ((¬ Before v a) × Before v b)
unfolding module_version_satisfies at_least
satisfies-range version lo hi v a b e p q h g =
    rw (e, within-range lo hi v a b h g p q)
      (
        (λ x.
            let (late, early) =
              (ok_both (is_below (compare_versions v a)) (is_below (compare_versions v b))).0 x in
            ((λ y. let z = (compare_below v a).1 y in cc (z, late)), (compare_below v b).0 early)),
        (λ (late, early).
            (ok_both (is_below (compare_versions v a)) (is_below (compare_versions v b))).1 (
              not_below (is_below (compare_versions v a)) (λ y. late ((compare_below v a).0 y)),
              (compare_below v b).1 early,
            )),
      )

-- A range "=a" takes the version a alone.
pub satisfies-exact :
    (version required : Text) (v a : Version)
    → parse_version version ≡ ok v
    → parse_version required ≡ ok a
    → (module_version_satisfies version (b'=' ∷ required) ≡ ok true) ↔ (v ≡ a)
unfolding module_version_satisfies
satisfies-exact version required v a e p =
    rw (e, p) ((λ x. (compare_same v a).0 (cc x)), λ x. ap ok ((compare_same v a).1 x))
