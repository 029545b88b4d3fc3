-- ===== src/Resolver/Graph.antt =====
-- resolveModuleGraph of src/core/module_resolver.cpp: visit and run of its Resolver. `visit` calls
-- itself, so it runs on fuel: the depth to which it may go.
pub mod Kept
pub mod Untouched
pub mod Total
use winglib.Base.{
  ℕ, zero, suc, Bool, true, false, ◌&&◌, ◌||◌, not, List, [], ◌∷◌, ◌++◌, Option, none, some, Text,
  codes, text_eq, text_Eq, is_empty, member, lookup, emplace, keep, sort, ltb, if◌then◌else◌,
  Result, ok, err,
}
use winglib.Resolver.Choice.{
  DependencyKind, Requirement, ModuleInfo, ProviderSource, ModuleProvider, ResolutionRoot,
  ResolvedModule, DiagnosticCode, Diagnostic, source_rank, source_name, Resolver, no_work,
  candidates, diagnose, newline, shadow_key, diagnose_shadowed, identity_ok, version_ok, rejection,
  choose_from, choose_among, choose, required, optional, explicit, module_path, project,
  local_scope, install, user, system, builtin, dependency_missing, optional_missing,
  provider_shadowed, identity_mismatch, version_mismatch, optional_unavailable, dependency_conflict,
  dependency_cycle,
}

abbrev pub is_required : DependencyKind → Bool
is_required required = true
is_required optional = false

-- The provider becomes the selected one of its name, or the one that was selected before has to
-- satisfy the requirement as well.
unfoldable pub select : Requirement → Bool → ModuleProvider → List Text → Resolver → Resolver × Bool
unfolding version_ok diagnose
select requirement inherited provider chain r = elim (lookup provider.info.name r.selected) [
  | some old ↦
      if not (identity_ok requirement old.provider.info)
        || not (version_ok requirement old.provider.info)
      then (diagnose dependency_conflict chain r, false)
      else (r, true)
  | none ↦ (
    record r {
      selected =
          emplace provider.info.name
            (record {
              provider = provider;
              optional = inherited || not (is_required requirement.kind);
            })
            r.selected;
    },
    true,
  )
]

-- The loop over a provider's dependencies. It goes on after a dependency that was resolved or may
-- be missing.
unfoldable pub each_dependency :
    (Requirement → Resolver → Option (Resolver × Bool))
    → Bool
    → List Requirement
    → Resolver
    → Option (Resolver × Bool)
each_dependency go inherited [] r = some (r, true)
each_dependency go inherited (d ∷ ds) r = elim (go d r) [
  | none ↦ none
  | some (r', done) ↦ elim (not done && (is_required d.kind && not inherited)) [
    | true ↦ some (r', false)
    | false ↦ each_dependency go inherited ds r'
  ]
]

abbrev pub enter : Text → Resolver → Resolver
enter name r = record r { visiting = name ∷ r.visiting }

abbrev pub leave : Text → Resolver → Resolver
leave name r = record r {
  visiting = keep (λ n. not (text_eq n name)) r.visiting;
  visited = name ∷ r.visited;
  order = r.order ++ name ∷ [];
}

unfoldable pub visit :
    ℕ → List ModuleProvider → Requirement → Bool → List Text → Resolver → Option (Resolver × Bool)
unfolding choose select each_dependency diagnose
visit zero providers requirement inherited chain r = none
visit (suc fuel) providers requirement inherited chain r =
    let must = is_required requirement.kind && not inherited in
    let path = chain ++ requirement.name ∷ [] in
    let (r1, chosen) = choose providers requirement path must r in
    elim chosen [
      | none ↦ some (r1, not must)
      | some provider ↦
          let name = provider.info.name in
          let (r2, fits) = select requirement inherited provider path r1 in
          elim fits [
            | false ↦ some (r2, not must)
            | true ↦ elim (member name r2.visited) [
              | true ↦ some (r2, true)
              | false ↦ elim (member name r2.visiting) [
                | true ↦ some (diagnose dependency_cycle path r2, false)
                | false ↦
                    elim (each_dependency
                      (λ d.
                        visit fuel providers d (inherited || not (is_required requirement.kind))
                          path)
                      inherited provider.info.dependencies (enter name r2)) [
                        | none ↦ none
                        | some (r3, false) ↦ some (r3, false)
                        | some (r3, true) ↦ some (leave name r3, true)
                      ]
              ]
            ]
          ]
    ]

-- `plan.diagnostics.back().code`
unfoldable pub last_code : List Diagnostic → DiagnosticCode
last_code [] = dependency_missing
last_code (d ∷ []) = d.code
last_code (d ∷ e ∷ ds) = last_code (e ∷ ds)

-- The loop over the roots.
unfoldable pub visit_roots :
    ℕ
    → List ModuleProvider
    → List ResolutionRoot
    → Resolver
    → Option (Result DiagnosticCode Resolver)
unfolding visit last_code
visit_roots fuel providers [] r = some (ok r)
visit_roots fuel providers (root ∷ roots) r =
    elim (visit fuel providers
      (record { name = root.name; version_range = []; stable_id = []; kind = root.kind })
      (not (is_required root.kind)) [] r) [
        | none ↦ none
        | some (r', done) ↦ elim (not done && is_required root.kind) [
          | true ↦ some (err (last_code r'.diagnostics))
          | false ↦ visit_roots fuel providers roots r'
        ]
      ]

unfoldable pub load_order : List (Text × ResolvedModule) → List Text → List ResolvedModule
load_order selected [] = []
load_order selected (name ∷ names) =
    let rest = load_order selected names in
    elim (lookup name selected) [ none ↦ rest | some m ↦ m ∷ rest ]

unfoldable pub finish_plan :
    Option (Result DiagnosticCode Resolver)
    → Option (Result DiagnosticCode (List ResolvedModule × List Diagnostic))
unfolding load_order
finish_plan none = none
finish_plan (some (err e)) = some (err e)
finish_plan (some (ok r)) = some (ok (load_order r.selected r.order, r.diagnostics))

-- `none` when the fuel runs out.
unfoldable pub resolve_module_graph :
    ℕ
    → List ModuleProvider
    → List ResolutionRoot
    → Option (Result DiagnosticCode (List ResolvedModule × List Diagnostic))
unfolding visit_roots finish_plan
resolve_module_graph fuel providers roots = finish_plan (visit_roots fuel providers roots no_work)
