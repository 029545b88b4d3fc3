-- ===== src/Deps/Order/Built.antt =====
-- What orderLockedModulesForBuild promises the build: dependencies come first, and a refusal means
-- that the modules wait for each other.
use winglib.Base.{
  ℕ, zero, suc, ◌<◌, ◌≡◌, subst, refl, ap, sym, ◌∙◌, ◌⊎◌, inl, inr, Bool, true, false, ◌&&◌, ◌||◌,
  not, List, [], ◌∷◌, ◌++◌, Option, none, some, arith, Text, text_Eq, member, lookup, Bool-cases,
  map, all, any, All, All-map, In, All-of, length, ◌==◌, ok, err,
}
use winglib.Deps.Lockfile.{LockedModule, Lockfile}
use winglib.Deps.Order.{
  pos, is_zero, edges_at, degree_at, index_by_name, is_known, initial_degrees, pick, Progress,
  run_rounds, OrderError, source_cycle, finish, edges_of, index_deps,
  order_locked_modules_for_build,
}
use winglib.Deps.Order.Degree.{bearers, waiting}
use winglib.Deps.Order.Rounds.{topological, Inv, run_rounds-Inv}
use winglib.Deps.Order.Rounds.Placed.{pick-none, placed_count-all, placed_count-some}
use winglib.Deps.Order.Start.{
  is_listed, is_known-index, count_known-waiting, initial-absent, all-All, any-waiting,
  placed_count-none, All-In, is_listed-In, index_deps-In,
}

-- No two modules have one name.
abbrev pub DistinctNames : List LockedModule → Type 0
DistinctNames ms = All (λ m. bearers m.name ms ≡ 1) ms

module _ (read : LockedModule → Option (List Text)) (modules : List LockedModule) where
  -- Each module stands behind those of the lock that its metadata names.
  unfoldable pub in_order : List Text → List LockedModule → Bool
  in_order seen [] = true
  in_order seen (m ∷ ms) =
      all (λ d. not (is_listed modules d) || member d seen) (edges_of read m)
      && in_order (seen ++ m.name ∷ []) ms

  -- A module of the lock that is not placed, and waits for another such module.
  unfoldable pub blocked : List Text → LockedModule → Bool
  blocked placed m = any (λ d. is_listed modules d && not (member d placed)) (edges_of read m)

  abbrev Drawn : LockedModule → Type 0
  Drawn m = (In m modules) × (edges_at m.name (index_deps read [] modules) ≡ edges_of read m)

  in_order-topological :
      (seen : List Text) (out : List LockedModule)
      → All Drawn out
      → topological (index_deps read [] modules) (is_listed modules) seen out ≡ in_order seen out
  unfolding topological in_order
  in_order-topological seen [] h = refl
  in_order-topological seen (m ∷ ms) h =
      rw (h.0.1, in_order-topological (seen ++ m.name ∷ []) ms h.1) refl

  abbrev start : Progress
  start = record {
    ordered = [];
    placed = [];
    indegree = initial_degrees (index_by_name [] modules) (index_deps read [] modules) [] modules;
  }

  All-Drawn : DistinctNames modules → All Drawn modules
  unfolding edges_at
  All-Drawn d =
      All-of Drawn modules
        (λ x h. (h, rw (edges_at, index_deps-In read x [] modules h (one x h)) refl))
    where
      one : (x : LockedModule) → In x modules → bearers x.name modules ≡ 1
      one x h = All-In (λ m. bearers m.name modules ≡ 1) modules d x h

  listed-All : All (λ m. is_listed modules m.name ≡ true) modules
  listed-All = All-of _ modules (λ x h. is_listed-In x modules h)

  known_listed : (d : Text) → is_known (index_by_name [] modules) d ≡ is_listed modules d
  unfolding is_known lookup
  known_listed d = is_known-index d [] modules

  start-Inv :
      DistinctNames modules
      → Inv (index_deps read [] modules) (is_listed modules) modules Drawn start
  unfolding topological
  start-Inv d = record {
    degrees = All-of _ modules (λ x h. inr (
        initial-absent (index_by_name [] modules) (index_deps read [] modules) x.name [] modules
        ∙ rw (All-In (λ m. bearers m.name modules ≡ 1) modules d x h) (
            ap pos (
              count_known-waiting (index_by_name [] modules) modules known_listed
                (edges_at x.name (index_deps read [] modules))))));
    names = refl;
    counted = sym (placed_count-none modules);
    sorted = refl;
    drawn = tt;
  }

  -- The loop ends, within its rounds.
  ran :
      DistinctNames modules
      → (q : Progress) × (run_rounds (length modules) (index_deps read [] modules) modules start
          ≡ some q)
        × Inv (index_deps read [] modules) (is_listed modules) modules Drawn q
        × ((length q.ordered ≡ length modules)
            ⊎ ((pick q.placed q.indegree modules ≡ none) × (length q.ordered < length modules)))
  ran d =
      run_rounds-Inv (index_deps read [] modules) (is_listed modules) modules Drawn d listed-All
        (All-Drawn d) (length modules) start (start-Inv d) (omega arith)

  blocked_at :
      (q : Progress)
      → Inv (index_deps read [] modules) (is_listed modules) modules Drawn q
      → (x : LockedModule) → Drawn x
      → ((member x.name q.placed ≡ true)
          ⊎ (degree_at x.name q.indegree
              ≡ pos (
                  waiting
                    (is_listed modules)
                    q.placed
                    (edges_at x.name (index_deps read [] modules)))))
      → ((member x.name q.placed ≡ true) ⊎ (is_zero (degree_at x.name q.indegree) ≡ false))
      → (member x.name q.placed || blocked q.placed x) ≡ true
  unfolding blocked
  blocked_at q v x h (inl m) n = ground (arith, m)
  blocked_at q v x h (inr a) (inl m) = ground (arith, m)
  blocked_at q v x h (inr a) (inr z) =
      let w = waiting (is_listed modules) q.placed (edges_at x.name (index_deps read [] modules)) in
      let more : is_zero (pos w) ≡ false = ap is_zero (sym a) ∙ z in
      let some_waits : blocked q.placed x ≡ true =
        ap (any (λ d. is_listed modules d && not (member d q.placed))) (sym h.1)
        ∙ any-waiting (is_listed modules) q.placed (edges_at x.name (index_deps read [] modules))
        ∙ nonzero w more in
      ground (arith, some_waits)
    where
      nonzero : (w : ℕ) → is_zero (pos w) ≡ false → not (w == 0) ≡ true
      nonzero zero h = cc
      nonzero (suc w) h = ground arith

  blocked-All :
      (q : Progress)
      → Inv (index_deps read [] modules) (is_listed modules) modules Drawn q
      → DistinctNames modules
      → pick q.placed q.indegree modules ≡ none
      → All (λ m. (member m.name q.placed || blocked q.placed m) ≡ true) modules
  blocked-All q v d stuck = All-of _ modules λ x i.
      blocked_at q v x (All-In Drawn modules (All-Drawn d) x i) (All-In _ modules v.degrees x i)
        (All-In _ modules (pick-none q.placed q.indegree modules stuck) x i)

-- If the order is given, it has the modules of the lock, all of them and no others, and each stands
-- behind those of them that its metadata names as its source dependencies. (Where no two modules of
-- the lock have one name.)
pub order_sound :
    (read : LockedModule → Option (List Text)) (lock : Lockfile)
    → DistinctNames lock.modules
    → {out : List LockedModule} → order_locked_modules_for_build read lock ≡ ok out
    → (in_order read lock.modules [] out ≡ true)
      × (length out ≡ length lock.modules)
      × (all (λ m. member m.name (map (λ x. x.name) out)) lock.modules ≡ true)
      × All (λ m. In m lock.modules) out
unfolding order_locked_modules_for_build finish
order_sound read lock d {out} e =
    let modules = lock.modules in
    let (q, run, v, done) = ran read modules d in
    let left : finish modules (some q) ≡ ok out = rw run at e in
    elim (Bool-cases (length q.ordered == length modules)) [
      | inl full ↦
          let same : q.ordered ≡ out = cc (left, full) in
          subst
            (λ o.
              (in_order read modules [] o ≡ true)
              × (length o ≡ length modules)
              × (all (λ m. member m.name (map (λ x. x.name) o)) modules ≡ true)
              × All (λ m. In m modules) o)
            same
            (
              sym (in_order-topological read modules [] q.ordered v.drawn) ∙ v.sorted,
              ground (arith, full),
              subst (λ p. all (λ m. member m.name p) modules ≡ true) v.names
                  (placed_count-all q.placed modules (ground (arith, full, v.counted))),
              All-map (Drawn read modules) (λ m. In m modules) (λ x h. h.0) q.ordered v.drawn,
            )
      | inr part ↦ cc (left, part)
    ]

-- It is refused only for a cycle: some modules of the lock are left over, and each of them names one
-- that is left over, perhaps itself, as its source dependency.
pub order_blocked :
    (read : LockedModule → Option (List Text)) (lock : Lockfile)
    → DistinctNames lock.modules
    → {error : OrderError} → order_locked_modules_for_build read lock ≡ err error
    → (error ≡ source_cycle)
      × ((placed : List Text) × (any (λ m. not (member m.name placed)) lock.modules ≡ true)
          × (all (λ m. member m.name placed || blocked read lock.modules placed m) lock.modules
              ≡ true))
unfolding order_locked_modules_for_build finish
order_blocked read lock d {error} e =
    let modules = lock.modules in
    let (q, run, v, done) = ran read modules d in
    let left : finish modules (some q) ≡ err error = rw run at e in
    elim done [
      | inl full ↦
          let yes : (length q.ordered == length modules) ≡ true = ground (arith, full) in
          cc (left, yes)
      | inr (stuck, fewer) ↦
          let no : (length q.ordered == length modules) ≡ false = ground (arith, fewer) in
          (
            cc (left, no),
            (
              q.placed,
              placed_count-some q.placed modules (omega (arith, v.counted, fewer)),
              all-All (λ m. member m.name q.placed || blocked read modules q.placed m) modules
                  (blocked-All read modules q v d stuck),
            ),
          )
    ]
