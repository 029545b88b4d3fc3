-- ===== src/Deps/Order/Degree.antt =====
-- What the degrees of orderLockedModulesForBuild count: the entries of a module that wait for a
-- module which is known and not placed.
use winglib.Base.{
  text_eq_swap, ℕ, zero, suc, ◌+◌, ◌≡◌, refl, ap, ◌∙◌, inl, inr, Bool, true, false, ◌&&◌, not, List,
  [], ◌∷◌, ◌++◌, arith, Text, text_eq, text_eq_refl, text_eq_iff, text_Eq, member, member-append,
  assign, lookup-assign, if◌then◌else◌, Bool-cases,
}
use winglib.Deps.Lockfile.{LockedModule}
use winglib.Deps.Order.{ℤ, pos, decrement, edges_at, degree_at, lower, lower_all}

-- How often a name stands in a list, and how many modules have it.
unfoldable pub times : Text → List Text → ℕ
times name [] = 0
times name (d ∷ ds) = let n = times name ds in if text_eq d name then suc n else n

unfoldable pub bearers : Text → List LockedModule → ℕ
bearers name [] = 0
bearers name (m ∷ ms) = let n = bearers name ms in if text_eq m.name name then suc n else n

abbrev pub decrements : ℕ → ℤ → ℤ
decrements zero z = z
decrements (suc k) z = decrements k (decrement z)

abbrev pub repeat_decrements : ℕ → ℕ → ℤ → ℤ
repeat_decrements zero k z = z
repeat_decrements (suc n) k z = repeat_decrements n k (decrements k z)

pub decrements_pos : (k n a : ℕ) → a ≡ k + n → decrements k (pos a) ≡ pos n
decrements_pos zero n a e = ap pos (omega arith)
decrements_pos (suc k) n zero e = absurd (omega arith)
decrements_pos (suc k) n (suc a) e = decrements_pos k n a (omega arith)

pub degree_at-assign :
    (k j : Text) (v : ℤ) (g : List (Text × ℤ))
    → degree_at j (assign k v g) ≡ (if text_eq k j then v else degree_at j g)
unfolding degree_at
degree_at-assign k j v g = elim (Bool-cases (text_eq k j)) [
  | inl e ↦ rw (degree_at, lookup-assign k j v g, e)
  | inr e ↦ rw (degree_at, lookup-assign k j v g, e)
]

lower_self :
    (name other : Text) (ds : List Text) (g : List (Text × ℤ))
    → degree_at other (lower name other ds g) ≡ decrements (times name ds) (degree_at other g)
unfolding lower times
lower_self name other [] g = refl
lower_self name other (d ∷ ds) g = elim (Bool-cases (text_eq d name)) [
  | inl e ↦ rw e (
      lower_self name other ds _
      ∙ ap (decrements (times name ds)) (
          degree_at-assign other other (decrement (degree_at other g)) g ∙ rw (text_eq_refl other)))
  | inr e ↦ rw e (lower_self name other ds g)
]

lower_other :
    (name other j : Text) (ds : List Text) (g : List (Text × ℤ))
    → text_eq other j ≡ false
    → degree_at j (lower name other ds g) ≡ degree_at j g
unfolding lower
lower_other name other j [] g n = refl
lower_other name other j (d ∷ ds) g n = elim (Bool-cases (text_eq d name)) [
  | inl e ↦ rw e (lower_other name other j ds _ n ∙ degree_at-assign other j _ g ∙ rw n)
  | inr e ↦ rw e (lower_other name other j ds g n)
]

-- A round lowers the degree of a module that is not placed by the entries for the placed one.
pub degree-lower_all :
    (deps : List (Text × List Text)) (placed : List Text) (name j : Text) (ms : List LockedModule)
    (g : List (Text × ℤ))
    → member j placed ≡ false
    → degree_at j (lower_all deps placed name ms g)
      ≡ repeat_decrements (bearers j ms) (times name (edges_at j deps)) (degree_at j g)
unfolding lower_all bearers
degree-lower_all deps placed name j [] g n = refl
degree-lower_all deps placed name j (m ∷ ms) g n = elim (Bool-cases (text_eq m.name j)) [
  | inl e ↦
      rw ((text_eq_iff m.name j).0 e, n, text_eq_refl j)
        (degree-lower_all deps placed name j ms _ n
          ∙ ap (repeat_decrements (bearers j ms) (times name (edges_at j deps)))
              (lower_self name j (edges_at j deps) g))
  | inr e ↦ elim (Bool-cases (member m.name placed)) [
    | inl q ↦ rw (e, q) (degree-lower_all deps placed name j ms g n)
    | inr q ↦
        rw (e, q)
          (degree-lower_all deps placed name j ms _ n
            ∙ ap (repeat_decrements (bearers j ms) (times name (edges_at j deps)))
                (lower_other name m.name j (edges_at m.name deps) g e))
  ]
]

-- The entries that wait: for a name that is known and not placed.
unfoldable pub waiting : (Text → Bool) → List Text → List Text → ℕ
waiting known placed [] = 0
waiting known placed (d ∷ ds) =
    let n = waiting known placed ds in if known d && not (member d placed) then suc n else n

pub waiting-place :
    (known : Text → Bool) (placed : List Text) (name : Text) (ds : List Text)
    → known name ≡ true
    → member name placed ≡ false
    → waiting known placed ds ≡ times name ds + waiting known (placed ++ name ∷ []) ds
unfolding waiting times member
waiting-place known placed name [] k n = refl
waiting-place known placed name (d ∷ ds) k n = elim (Bool-cases (text_eq d name)) [
  | inl e ↦
      let q = (text_eq_iff d name).0 e in
      rw (member-append d placed (name ∷ []), member)
        (ground (
          arith,
          e,
          k,
          n,
          ap known q ∙ k,
          ap (λ x. member x placed) q ∙ n,
          ap (λ x. text_eq name x) q ∙ text_eq_refl name,
          waiting-place known placed name ds k n,
        ))
  | inr e ↦
      rw (e, member-append d placed (name ∷ []), member)
        (ground (arith, text_eq_swap d name e, waiting-place known placed name ds k n))
]
