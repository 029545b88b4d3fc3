-- ===== src/Resolver/Graph/Total.antt =====
-- The resolver's recursion ends: its depth is bounded by the number of providers.
use winglib.Base.{
  ℕ, zero, suc, ◌<◌, ◌≡◌, refl, subst, inl, inr, Bool, true, false, ◌&&◌, ◌||◌, not, List, [], ◌∷◌,
  ◌++◌, Option, some, arith, Text, text_Eq, member, length, Bool-cases, Option-cases, Result, ok,
  err,
}
use winglib.Resolver.Choice.{
  Requirement, ModuleProvider, Resolver, ResolvedModule, ResolutionRoot, Diagnostic, DiagnosticCode,
  no_work, choose, diagnose, dependency_cycle,
}
use winglib.Resolver.Graph.{
  select, each_dependency, enter, leave, visit, is_required, visit_roots, last_code, finish_plan,
  resolve_module_graph, load_order,
}
use winglib.Resolver.Graph.Kept.{visit-Kept}
use winglib.Resolver.Graph.Kept.Same.{
  distinct, Good, Kept, choose-Same, select-Same, Same-trans, Same-Kept,
}
use winglib.Resolver.Graph.Untouched.{
  untouched, untouched-length, untouched-Kept, untouched-enter, choose-has,
}

each_dependency-some :
    (ps : List ModuleProvider) (fuel : ℕ) (go : Requirement → Resolver → Option (Resolver × Bool))
    → ((d : Requirement) (r r' : Resolver) (b : Bool) → go d r ≡ some (r', b) → Kept r r')
    → ((d : Requirement) (r : Resolver)
        → untouched ps r < fuel
        → (x : Resolver × Bool) × (go d r ≡ some x))
    → (inherited : Bool) (ds : List Requirement) (r : Resolver) → untouched ps r < fuel
    → (x : Resolver × Bool) × (each_dependency go inherited ds r ≡ some x)
unfolding each_dependency
each_dependency-some ps fuel go k f inherited [] r u = ((r, true), refl)
each_dependency-some ps fuel go k f inherited (d ∷ ds) r u =
    let ((r1, done), e) = f d r u in
    elim (Bool-cases (not done && (is_required d.kind && not inherited))) [
      | inl t ↦ ((r1, false), rw (each_dependency, e, t) refl)
      | inr t ↦
          let (x, w) =
            each_dependency-some ps fuel go k f inherited ds r1
              (omega (arith, u, untouched-Kept ps r r1 (k d r r1 done e))) in
          (x, rw (each_dependency, e, t) w)
    ]

-- With fuel beyond the number of untouched providers, visit returns.
visit-some :
    (fuel : ℕ) (ps : List ModuleProvider) (q : Requirement) (inherited : Bool) (chain : List Text)
    (r : Resolver)
    → untouched ps r < fuel
    → (x : Resolver × Bool) × (visit fuel ps q inherited chain r ≡ some x)
unfolding visit
visit-some zero ps q inherited chain r u = absurd (omega arith)
visit-some (suc fuel) ps q inherited chain r u =
    let must = is_required q.kind && not inherited in
    let path = chain ++ q.name ∷ [] in
    let r1 = (choose ps q path must r).0 in
    let k1 = choose-Same ps q path must r in
    elim (Option-cases (choose ps q path must r).1) [
      | inl e ↦ ((r1, not must), rw (visit, e) refl)
      | inr (p, e) ↦
          let r2 = (select q inherited p path r1).0 in
          let k2 = Same-trans r r1 r2 k1 (select-Same q inherited p path r1) in
          elim (Bool-cases (select q inherited p path r1).1) [
            | inr f ↦ ((r2, not must), rw (visit, e, f) refl)
            | inl f ↦ elim (Bool-cases (member p.info.name r2.visited)) [
              | inl seen ↦ ((r2, true), rw (visit, e, f, seen) refl)
              | inr new ↦ elim (Bool-cases (member p.info.name r2.visiting)) [
                | inl open_ ↦
                    ((diagnose dependency_cycle path r2, false), rw (visit, e, f, new, open_) refl)
                | inr free ↦
                    let less =
                      untouched-enter ps p.info.name r2 (choose-has ps q path must r e)
                        (ground (arith, new, free)) in
                    let ((r3, done), w) =
                      each_dependency-some ps fuel
                        (λ d. visit fuel ps d (inherited || not (is_required q.kind)) path)
                        (λ d x y z.
                          visit-Kept fuel ps d (inherited || not (is_required q.kind)) path x y z)
                        (λ d x. visit-some fuel ps d (inherited || not (is_required q.kind)) path x)
                        inherited p.info.dependencies (enter p.info.name r2)
                        (omega (arith, u, less, untouched-Kept ps r r2 (Same-Kept r r2 k2))) in
                    elim (Bool-cases done) [
                      | inl t ↦
                          ((leave p.info.name r3, true), rw (visit, e, f, new, free, w, t) refl)
                      | inr t ↦ ((r3, false), rw (visit, e, f, new, free, w, t) refl)
                    ]
              ]
            ]
          ]
    ]

visit_roots-some :
    (ps : List ModuleProvider) (roots : List ResolutionRoot) (r : Resolver)
    → (x : Result DiagnosticCode Resolver) × (visit_roots (suc (length ps)) ps roots r ≡ some x)
unfolding visit_roots
visit_roots-some ps [] r = (ok r, refl)
visit_roots-some ps (root ∷ roots) r =
    let q : Requirement = record {
      name = root.name;
      version_range = [];
      stable_id = [];
      kind = root.kind;
    } in
    let ((r1, done), e) =
      visit-some (suc (length ps)) ps q (not (is_required root.kind)) [] r
        (omega (arith, untouched-length ps r)) in
    elim (Bool-cases (not done && is_required root.kind)) [
      | inl t ↦ (err (last_code r1.diagnostics), rw (visit_roots, e, t) refl)
      | inr t ↦ let (x, w) = visit_roots-some ps roots r1 in (x, rw (visit_roots, e, t) w)
    ]

-- The resolver always returns: a depth of one more than the number of providers is never exceeded,
-- since each nested visit is of a provider's name that no outer visit is at.
pub resolve_total :
    (ps : List ModuleProvider) (roots : List ResolutionRoot)
    → (plan : Result DiagnosticCode (List ResolvedModule × List Diagnostic)) × (resolve_module_graph
          (suc (length ps))
          ps
          roots
        ≡ some plan)
unfolding resolve_module_graph finish_plan
resolve_total ps roots = let (x, e) = visit_roots-some ps roots no_work in planned x e
  where
    planned :
        (x : Result DiagnosticCode Resolver)
        → visit_roots (suc (length ps)) ps roots no_work ≡ some x
        → (plan : Result DiagnosticCode (List ResolvedModule × List Diagnostic)) × (finish_plan
              (visit_roots (suc (length ps)) ps roots no_work)
            ≡ some plan)
    planned (err c) e = (err c, rw e refl)
    planned (ok r) e = (ok (load_order r.selected r.order, r.diagnostics), rw e refl)

visit_roots-Good :
    (fuel : ℕ) (ps : List ModuleProvider) (roots : List ResolutionRoot) (r r' : Resolver)
    → visit_roots fuel ps roots r ≡ some (ok r')
    → Good r
    → Good r'
unfolding visit_roots
visit_roots-Good fuel ps [] r r' e g = let same : r ≡ r' = cc e in subst Good same g
visit_roots-Good fuel ps (root ∷ roots) r r' e g =
    let q : Requirement = record {
      name = root.name;
      version_range = [];
      stable_id = [];
      kind = root.kind;
    } in
    elim (Option-cases (visit fuel ps q (not (is_required root.kind)) [] r)) [
      | inl n ↦ cc (rw (visit_roots, n) at e)
      | inr ((r1, done), v) ↦ elim (Bool-cases (not done && is_required root.kind)) [
        | inl t ↦ cc (rw (visit_roots, v, t) at e)
        | inr t ↦
            visit_roots-Good fuel ps roots r1 r' (rw (visit_roots, v, t) at e)
              ((visit-Kept fuel ps q (not (is_required root.kind)) [] r r1 done v).good g)
      ]
    ]

-- Each module has one place in the load order, however often it is required and along whatever
-- chains.
pub order-distinct :
    (fuel : ℕ) (ps : List ModuleProvider) (roots : List ResolutionRoot) {r : Resolver}
    → visit_roots fuel ps roots no_work ≡ some (ok r)
    → distinct r.order ≡ true
unfolding distinct
order-distinct fuel ps roots {r} e =
    (visit_roots-Good fuel ps roots no_work r e (record { once = refl; names = λ n. refl })).once
