-- ===== src/Deps/Order/Start.antt =====
-- The degrees with which orderLockedModulesForBuild starts, and its two maps.
use winglib.Base.{
  ◌≤◌, ◌≡◌, subst, refl, ap, ◌∙◌, inl, inr, Bool, true, ◌&&◌, ◌||◌, not, List, [], ◌∷◌, Option,
  some, arith, Text, text_eq, text_eq_iff, text_eq_refl, text_Eq, member, lookup, assign,
  lookup-assign, if◌then◌else◌, Bool-cases, all, any, All, In, ◌==◌,
}
use winglib.Deps.Lockfile.{LockedModule}
use winglib.Deps.Order.{
  ℤ, pos, edges_at, degree_at, index_by_name, is_known, count_known, initial_degrees, edges_of,
  index_deps,
}
use winglib.Deps.Order.Degree.{degree_at-assign, bearers, waiting}
use winglib.Deps.Order.Rounds.Placed.{placed_count}

-- The names that some module has.
abbrev pub is_listed : List LockedModule → Text → Bool
is_listed ms d = any (λ m. text_eq m.name d) ms

pub is_known-index :
    (d : Text) (by_name : List (Text × LockedModule)) (ms : List LockedModule)
    → is_known (index_by_name by_name ms) d ≡ (is_known by_name d || is_listed ms d)
unfolding index_by_name is_known
is_known-index d by_name [] = ground arith
is_known-index d by_name (m ∷ ms) =
    ground (arith, is_known-index d (assign m.name m by_name) ms, lookup-assign m.name d m by_name)

pub count_known-waiting :
    (by_name : List (Text × LockedModule)) (ms : List LockedModule)
    → ((d : Text) → is_known by_name d ≡ is_listed ms d)
    → (ds : List Text) → count_known by_name ds ≡ waiting (is_listed ms) [] ds
unfolding count_known waiting member
count_known-waiting by_name ms same [] = refl
count_known-waiting by_name ms same (d ∷ ds) =
    ground (arith, same d, count_known-waiting by_name ms same ds)

pub initial-absent :
    (by_name : List (Text × LockedModule)) (deps : List (Text × List Text)) (j : Text)
    (g : List (Text × ℤ)) (ms : List LockedModule)
    → degree_at j (initial_degrees by_name deps g ms)
      ≡ (if bearers j ms == 0 then degree_at j g else pos (count_known by_name (edges_at j deps)))
unfolding initial_degrees bearers
initial-absent by_name deps j g [] = refl
initial-absent by_name deps j g (m ∷ ms) = elim (Bool-cases (text_eq m.name j)) [
  | inl e ↦
      let own = pos (count_known by_name (edges_at m.name deps)) in
      let new : degree_at j (assign m.name own g) ≡ pos (count_known by_name (edges_at j deps)) =
        degree_at-assign m.name j own g
        ∙ rw e
            (ap (λ n. pos (count_known by_name (edges_at n deps))) ((text_eq_iff m.name j).0 e)) in
      ground (arith, e, new, initial-absent by_name deps j (assign m.name own g) ms)
  | inr e ↦
      let own = pos (count_known by_name (edges_at m.name deps)) in
      ground (
        arith,
        e,
        degree_at-assign m.name j own g,
        initial-absent by_name deps j (assign m.name own g) ms,
      )
]

bearers-In : (x : LockedModule) (ms : List LockedModule) → In x ms → 1 ≤ bearers x.name ms
unfolding bearers
bearers-In x [] h = absurd h
bearers-In x (y ∷ ys) (inl e) =
    ground (arith, ap (λ m. text_eq m.name x.name) e ∙ text_eq_refl x.name)
bearers-In x (y ∷ ys) (inr h) = ground (arith, bearers-In x ys h)

pub All-In :
    (P : LockedModule → Type 0) (ms : List LockedModule)
    → All P ms
    → (x : LockedModule) → In x ms
    → P x
All-In P [] h x i = absurd i
All-In P (m ∷ ms) h x (inl e) = subst P e h.0
All-In P (m ∷ ms) h x (inr i) = All-In P ms h.1 x i

pub is_listed-In :
    (x : LockedModule) (ms : List LockedModule) → In x ms → is_listed ms x.name ≡ true
is_listed-In x [] h = absurd h
is_listed-In x (m ∷ ms) (inl e) =
    ground (arith, ap (λ y. text_eq y.name x.name) e ∙ text_eq_refl x.name)
is_listed-In x (m ∷ ms) (inr h) = ground (arith, is_listed-In x ms h)

pub all-All :
    (f : LockedModule → Bool) (ms : List LockedModule) → All (λ m. f m ≡ true) ms → all f ms ≡ true
all-All f [] h = refl
all-All f (m ∷ ms) h = ground (arith, h, all-All f ms h.1)

pub any-waiting :
    (known : Text → Bool) (placed ds : List Text)
    → any (λ d. known d && not (member d placed)) ds ≡ not (waiting known placed ds == 0)
unfolding waiting
any-waiting known placed [] = refl
any-waiting known placed (d ∷ ds) = ground (arith, any-waiting known placed ds)

pub placed_count-none : (ms : List LockedModule) → placed_count [] ms ≡ 0
unfolding placed_count member
placed_count-none [] = refl
placed_count-none (m ∷ ms) = placed_count-none ms

module _ (read : LockedModule → Option (List Text)) where
  index_deps-absent :
      (j : Text) (deps : List (Text × List Text)) (ms : List LockedModule)
      → bearers j ms ≡ 0
      → lookup j (index_deps read deps ms) ≡ lookup j deps
  unfolding index_deps bearers
  index_deps-absent j deps [] n = refl
  index_deps-absent j deps (m ∷ ms) n = ground (
    arith,
    index_deps-absent j (assign m.name (edges_of read m) deps) ms,
    lookup-assign m.name j (edges_of read m) deps,
  )

  pub index_deps-In :
      (x : LockedModule) (deps : List (Text × List Text)) (ms : List LockedModule)
      → In x ms
      → bearers x.name ms ≡ 1
      → lookup x.name (index_deps read deps ms) ≡ some (edges_of read x)
  unfolding index_deps bearers
  index_deps-In x deps [] h n = absurd h
  index_deps-In x deps (y ∷ ys) (inl e) n =
      let q : text_eq y.name x.name ≡ true =
        ap (λ m. text_eq m.name x.name) e ∙ text_eq_refl x.name in
      index_deps-absent x.name _ ys (ground (arith, q))
      ∙ lookup-assign y.name x.name (edges_of read y) deps
      ∙ rw q (ap (λ m. some (edges_of read m)) e)
  index_deps-In x deps (y ∷ ys) (inr h) n =
      index_deps-In x (assign y.name (edges_of read y) deps) ys h
        (ground (arith, bearers-In x ys h))
