-- ===== src/Deps/Order/Rounds.antt =====
-- The rounds of orderLockedModulesForBuild: each places a module whose entries are all placed.
pub mod Placed
use winglib.Base.{
  text_eq_swap, ℕ, zero, suc, ◌+◌, ◌≤◌, ◌<◌, ◌≡◌, refl, ap, sym, ◌∙◌, ◌⊎◌, inl, inr, Bool, true,
  false, ◌&&◌, ◌||◌, not, List, [], ◌∷◌, ◌++◌, none, some, arith, Text, subst, text_eq, text_eq_iff,
  text_eq_refl, text_Eq, member, member-append, if◌then◌else◌, Bool-cases, Option-cases, map, all,
  any, All, All-append, All-map, length, length-append, ltb, append-nil, append_assoc,
}
use mathlib.Core.List.{map-append}
use winglib.Deps.Lockfile.{LockedModule}
use winglib.Deps.Order.{ℤ, pos, is_zero, edges_at, degree_at, pick, Progress, place, run_rounds}
use winglib.Deps.Order.Degree.{
  times, bearers, decrements_pos, degree-lower_all, waiting, waiting-place,
}
use winglib.Deps.Order.Rounds.Placed.{
  All-and, pick-none, pick-some, placed_count, placed_count-all, placed_count-place,
  placed_count-some,
}

-- All entries that are known have been seen.
abbrev pub ready : (Text → Bool) → List Text → List Text → Bool
ready known seen edges = all (λ d. not (known d) || member d seen) edges

pub ready-waiting :
    (known : Text → Bool) (seen ds : List Text)
    → (waiting known seen ds ≡ 0 → ready known seen ds ≡ true)
      × (ready known seen ds ≡ true → waiting known seen ds ≡ 0)
unfolding waiting
ready-waiting known seen [] = ((λ e. refl), λ e. refl)
ready-waiting known seen (d ∷ ds) = (
  (λ e. ground (arith, ready-waiting known seen ds)),
  λ e. ground (arith, ready-waiting known seen ds),
)

-- Each module stands behind the entries that it waits for.
module _ (deps : List (Text × List Text)) (known : Text → Bool) where
  abbrev pub ready_module : List Text → LockedModule → Bool
  ready_module seen m = ready known seen (edges_at m.name deps)

  unfoldable pub topological : List Text → List LockedModule → Bool
  topological seen [] = true
  topological seen (m ∷ ms) = ready_module seen m && topological (seen ++ m.name ∷ []) ms

  pub topological-snoc :
      (seen : List Text) (xs : List LockedModule) (m : LockedModule)
      → topological seen (xs ++ m ∷ [])
        ≡ (topological seen xs && ready_module (seen ++ map (λ x. x.name) xs) m)
  unfolding topological
  topological-snoc seen [] m = rw (append-nil seen) (ground arith)
  topological-snoc seen (x ∷ xs) m =
      rw
        (
          topological-snoc (seen ++ x.name ∷ []) xs m,
          append_assoc seen (x.name ∷ []) (map (λ y. y.name) xs),
        )
        (ground arith)

  module _ (modules : List LockedModule) (P : LockedModule → Type 0) where
    pub record Inv (p : Progress) : Type 0 where
      pub degrees :
          All
            (λ m.
              (member m.name p.placed ≡ true)
              ⊎ (degree_at m.name p.indegree ≡ pos (waiting known p.placed (edges_at m.name deps))))
            modules
      pub names : p.placed ≡ map (λ m. m.name) p.ordered
      pub counted : length p.ordered ≡ placed_count p.placed modules
      pub sorted : topological [] p.ordered ≡ true
      pub drawn : All P p.ordered

    module _ (one : All (λ m. bearers m.name modules ≡ 1) modules)
        (listed : All (λ m. known m.name ≡ true) modules) (meets : All P modules) where
      -- What holds of a module at any time.
      abbrev At : Progress → LockedModule → Type 0
      At p x =
          (member x.name p.placed ≡ true)
          ⊎ (degree_at x.name p.indegree ≡ pos (waiting known p.placed (edges_at x.name deps)))

      abbrev Stays : LockedModule → Type 0
      Stays x = P x × (bearers x.name modules ≡ 1) × (known x.name ≡ true)

      All-Stays : All Stays modules
      All-Stays =
          All-map (λ x. P x × ((bearers x.name modules ≡ 1) × (known x.name ≡ true))) Stays
            (λ x h. (h.0, h.1.0, h.1.1)) modules
            (All-and _ _ modules meets (All-and _ _ modules one listed))

      place-At :
          (p : Progress) (m x : LockedModule)
          → member m.name p.placed ≡ false
          → known m.name ≡ true
          → bearers x.name modules ≡ 1
          → At p x
          → At (place deps modules m p) x
      unfolding place member
      place-At p m x n k o (inl e) =
          inl (rw (member-append x.name p.placed (m.name ∷ [])) (ground (arith, e)))
      place-At p m x n k o (inr e) = elim (Bool-cases (member x.name (p.placed ++ m.name ∷ []))) [
        | inl q ↦ inl q
        | inr q ↦ inr (
            degree-lower_all deps (p.placed ++ m.name ∷ []) m.name x.name modules p.indegree q
            ∙ rw (o, e)
                (decrements_pos (times m.name (edges_at x.name deps)) _ _
                  (waiting-place known p.placed m.name (edges_at x.name deps) k n)))
      ]

      picked-ready :
          (p : Progress) (m : LockedModule)
          → member m.name p.placed ≡ false
          → is_zero (degree_at m.name p.indegree) ≡ true
          → At p m
          → ready_module p.placed m ≡ true
      picked-ready p m n z (inl e) = cc (n, e)
      picked-ready p m n z (inr e) =
          (ready-waiting known p.placed (edges_at m.name deps)).0
            (zero_of (waiting known p.placed (edges_at m.name deps)) (sym (ap is_zero e) ∙ z))
        where
          zero_of : (n : ℕ) → is_zero (pos n) ≡ true → n ≡ 0
          zero_of zero h = refl
          zero_of (suc n) h = cc

      place-Inv :
          (p : Progress) (m : LockedModule)
          → Inv p
          → pick p.placed p.indegree modules ≡ some m
          → Inv (place deps modules m p)
      unfolding place
      place-Inv p m v e =
          let (both, n, z) =
            pick-some (λ x. Stays x × At p x) p.placed p.indegree modules
              (All-and Stays (At p) modules All-Stays v.degrees) e in
          let (met, alone, k) = both.0 in
          record {
            degrees =
                All-map (λ x. Stays x × At p x) (At (place deps modules m p))
                  (λ x h. place-At p m x n k h.0.1 h.1) modules
                  (All-and Stays (At p) modules All-Stays v.degrees);
            names =
                ap (λ t. t ++ m.name ∷ []) v.names
                ∙ sym (map-append (λ x. x.name) p.ordered (m ∷ []));
            counted =
                rw
                  (
                    length-append p.ordered (m ∷ []),
                    placed_count-place p.placed m.name modules n,
                    alone,
                  )
                  (omega (arith, v.counted));
            sorted =
                rw (topological-snoc [] p.ordered m, v.sorted, sym v.names)
                  (picked-ready p m n z both.1);
            drawn = All-append P p.ordered (m ∷ []) v.drawn (met, tt);
          }

      pub run_rounds-Inv :
          (rounds : ℕ) (p : Progress)
          → Inv p
          → length p.ordered + rounds ≡ length modules
          → (q : Progress) × (run_rounds rounds deps modules p ≡ some q)
            × Inv q
            × ((length q.ordered ≡ length modules)
                ⊎ ((pick q.placed q.indegree modules ≡ none) × (length q.ordered < length modules)))
      unfolding run_rounds
      run_rounds-Inv zero p v n = (
        p,
        elim (Bool-cases (ltb (length p.ordered) (length modules))) [
          | inl e ↦ absurd (ground (arith, e, n))
          | inr e ↦ rw e
        ],
        v,
        inl (omega arith),
      )
      run_rounds-Inv (suc rounds) p v n =
          let more : ltb (length p.ordered) (length modules) ≡ true = ground (arith, n) in
          elim (Option-cases (pick p.placed p.indegree modules)) [
            | inl e ↦ (p, rw (more, e), v, inr (e, omega arith))
            | inr (m, e) ↦
                let (q, run, w, done) =
                  run_rounds-Inv rounds (place deps modules m p) (place-Inv p m v e)
                    (omega (arith, length-append p.ordered (m ∷ []), n)) in
                (q, rw (more, e) run, w, done)
          ]
