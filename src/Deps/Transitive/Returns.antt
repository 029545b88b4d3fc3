-- ===== src/Deps/Transitive/Returns.antt =====
-- The queue of lockModuleDependenciesTransitive of src/core/module_deps.cpp runs empty.
use winglib.Base.{
  append-nil, sort, codes, subst, Result-cases, ◌≡◌, refl, sym, ap, ◌∙◌, ℕ, zero, suc, ◌+◌, ◌*◌,
  ◌≤◌, ◌<◌, false, ◌||◌, List, [], ◌∷◌, ◌++◌, Option, none, some, Text, is_empty, ◌==◌, Result, ok,
  err, member, text_Eq, length, length-append, All, All-append, arith, Bool-cases, inl, inr, ◌⊎◌,
}
use winglib.Deps.Lockfile.{LockedModule, Lockfile}
use winglib.Deps.Trust.{SourceTrustPolicy}
use winglib.Deps.Locking.{ModuleDependency, locked_at, name_lt}
use winglib.Deps.Fetch.{FetchError, SourceMetadata, Tools, fetch_locked_module, join_path}
use winglib.Deps.Transitive.{
  schema_of, fresh_sources, Locking, with_tree, with_metadata, commit_of, lock_fetched,
  lock_dependency, lock_rounds, lock_module_dependencies_transitive,
}
use winglib.Deps.Transitive.Unlocked.{
  unlocked, unlocked-nil, unlocked-cons, Named, fresh_sources-Named, fresh_sources-length, mul_step,
}

ok_inj : {a b : Locking} → ◌≡◌ {A = Result FetchError Locking} (ok a) (ok b) → a ≡ b
ok_inj e = cc e

module _ {W : Type 0} (tools : Tools W) (policy : SourceTrustPolicy) (deps_root : Text)
    (names : List Text) (width : ℕ) where
  -- The sources of every module that can be fetched need at most `width` modules, all of them known.
  abbrev pub Bounded : Type 0
  Bounded =
      (m : LockedModule) (w : W) (s : SourceMetadata)
      → tools.read_metadata m deps_root w ≡ some s
      → All (Named names) s.source_dependencies × (length s.source_dependencies ≤ width)

  -- What a round does to the queue: nothing, or a module is locked and its sources come to the end.
  abbrev Adds : Text → Locking → Locking → Type 0
  Adds name l next =
      (next.locked ≡ name ∷ l.locked)
      × ((extra : List ModuleDependency) × ((next.queue ≡ l.queue ++ extra)
            × (All (Named names) extra × (length extra ≤ width))))

  with_metadata-Adds :
      (m : LockedModule) (o : Option SourceMetadata) (l : Locking)
      → ((s : SourceMetadata)
          → o ≡ some s
          → All (Named names) s.source_dependencies × (length s.source_dependencies ≤ width))
      → Adds m.name l (with_metadata tools policy deps_root m o l)
  unfolding with_metadata
  with_metadata-Adds m none l h = (refl, ([], (sym (append-nil l.queue), (tt, omega arith))))
  with_metadata-Adds m (some s) l h =
      let (p, k) = h s refl in
      (
        refl,
        (
          fresh_sources l.locked s.source_dependencies,
          (
            refl,
            (
              fresh_sources-Named names l.locked s.source_dependencies p,
              omega (arith, k, fresh_sources-length l.locked s.source_dependencies),
            ),
          ),
        ),
      )

  with_tree_name :
      (m : LockedModule) (w : W) → (with_tree tools policy deps_root m w).0.name ≡ m.name
  unfolding with_tree
  with_tree_name m w =
      elim (Bool-cases (
        (tools.run_git
          (codes "-C"
            ∷ join_path deps_root m.name
            ∷ codes "rev-parse"
            ∷ (m.commit ++ codes "^{tree}")
            ∷ [])
          w).0.status
        == 0)) [ inl e ↦ rw (with_tree, e) refl | inr e ↦ rw (with_tree, e) refl ]

  lock_fetched-Adds :
      (bounded : Bounded) (m : LockedModule) (l next : Locking) (w : W)
      → (lock_fetched tools policy deps_root m l w).0 ≡ ok next
      → Adds m.name l next
  unfolding lock_fetched
  lock_fetched-Adds bounded m l next w h =
      let fetched = fetch_locked_module tools policy m deps_root w in
      elim (Result-cases fetched.0) [
        | inr (e, f) ↦ cc (rw (lock_fetched, f) at h)
        | inl (u, f) ↦
            let (checked, after) = with_tree tools policy deps_root m fetched.1 in
            let found = tools.read_metadata checked deps_root after in
            let same : with_metadata tools policy deps_root checked found l ≡ next =
              ok_inj (rw (lock_fetched, f) at h) in
            subst (λ x. Adds x l next) (with_tree_name m fetched.1)
              (subst (λ x. Adds checked.name l x) same
                (with_metadata-Adds checked found l (λ s g. bounded checked after s g)))
      ]

  lock_dependency-Adds :
      (bounded : Bounded) (dep : ModuleDependency) (l next : Locking) (w : W)
      → (lock_dependency tools policy deps_root dep l w).0 ≡ ok next
      → (next ≡ l) ⊎ ((member dep.name l.locked ≡ false) × Adds dep.name l next)
  unfolding lock_dependency
  lock_dependency-Adds bounded dep l next w h =
      elim (Bool-cases (is_empty dep.name || member dep.name l.locked)) [
        | inl e ↦ inl (sym (ok_inj (rw (lock_dependency, e) at h)))
        | inr e ↦
            let found = commit_of tools policy deps_root dep w in
            elim (Result-cases found.0) [
              | inr (x, f) ↦ cc (rw (lock_dependency, e, f) at h)
              | inl (commit, f) ↦ inr (
                ground (arith, e),
                lock_fetched-Adds bounded
                    (record (locked_at dep commit) { provides = dep.provides }) l next found.1
                    (rw (lock_dependency, e, f) at h),
              )
            ]
      ]

  abbrev cost : List ModuleDependency → List Text → ℕ
  cost queue locked = unlocked names locked * width + length queue

  -- A round costs at least one of the fuel that is set aside.
  Adds-cost :
      (dep : ModuleDependency) (queue : List ModuleDependency) (l next : Locking)
      → l.queue ≡ queue
      → Named names dep
      → member dep.name l.locked ≡ false
      → Adds dep.name l next
      → cost next.queue next.locked < cost (dep ∷ queue) l.locked
  Adds-cost dep queue l next q n f (e, (extra, (g, (p, k)))) =
      let u : unlocked names next.locked < unlocked names l.locked =
        rw (e) (unlocked-cons names dep.name l.locked n f) in
      let m : unlocked names next.locked * width + width ≤ unlocked names l.locked * width =
        mul_step (unlocked names next.locked) (unlocked names l.locked) width u in
      let c : length next.queue ≡ length queue + length extra =
        ap length g ∙ length-append l.queue extra ∙ ap (λ x. length x + length extra) q in
      omega (arith, m, c, k)

  lock_rounds-returns :
      (bounded : Bounded) (fuel : ℕ) (queue : List ModuleDependency) (l : Locking) (w : W)
      → All (Named names) queue
      → cost queue l.locked < fuel
      → (r : Result FetchError (List LockedModule) × W) × (lock_rounds tools policy deps_root fuel
            queue l w
          ≡ some r)
  unfolding lock_rounds
  lock_rounds-returns bounded zero queue l w h k = absurd (omega (arith, k))
  lock_rounds-returns bounded (suc fuel) [] l w h k = ((ok l.modules, w), refl)
  lock_rounds-returns bounded (suc fuel) (dep ∷ queue) l w (n, h) k =
      let here : Locking = record { queue = queue; locked = l.locked; modules = l.modules } in
      let done = lock_dependency tools policy deps_root dep here w in
      elim (Result-cases done.0) [
        | inr (e, f) ↦ ((err e, done.1), rw (lock_rounds, f) refl)
        | inl (next, f) ↦ elim (lock_dependency-Adds bounded dep here next w f) [
          | inl same ↦
              let (r, g) =
                lock_rounds-returns bounded fuel next.queue next done.1 (rw (same) h)
                  (rw (same) (omega (arith, k))) in
              (r, rw (lock_rounds, f) g)
          | inr (free, adds) ↦
              let (r, g) =
                lock_rounds-returns bounded fuel next.queue next done.1
                  (rw (adds.1.1.0) (All-append (Named names) queue adds.1.0 h adds.1.1.1.0))
                  (omega (arith, k, Adds-cost dep queue here next refl n free adds)) in
              (r, rw (lock_rounds, f) g)
        ]
      ]

  -- The locking of transitive dependencies returns, with a lock or an error, where all the modules that
  -- are asked for or needed by fetched sources are among finitely many names: as many rounds are
  -- enough as there are dependencies at the start, and one for each source dependency of each name.
  pub lock_module_dependencies_transitive-returns :
      (bounded : Bounded) (fuel : ℕ) (dependencies : List ModuleDependency) (w : W)
      → All (Named names) dependencies
      → length names * width + length dependencies < fuel
      → (r : Result FetchError Lockfile × W) × (lock_module_dependencies_transitive tools policy
            deps_root fuel dependencies w
          ≡ some r)
  unfolding lock_module_dependencies_transitive
  lock_module_dependencies_transitive-returns bounded fuel dependencies w h k =
      let start : Locking = record { queue = dependencies; locked = []; modules = [] } in
      let ((answer, after), e) =
        lock_rounds-returns bounded fuel dependencies start w h (rw (unlocked-nil names) k) in
      elim (Result-cases answer) [
        | inr (x, f) ↦ ((err x, after), rw (lock_module_dependencies_transitive, e, f) refl)
        | inl (ms, f) ↦ (
          (ok (record { schema = schema_of ms; modules = sort name_lt ms }), after),
          rw (lock_module_dependencies_transitive, e, f) refl,
        )
      ]
