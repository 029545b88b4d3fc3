-- ===== src/Resolver/Choice.antt =====
-- The data of module resolution, and the choice of a provider: Resolver::choose of
-- src/core/module_resolver.cpp. Messages are left out of the diagnostics, and the sets of names are
-- lists.
use winglib.Base.{
  ℕ, Bool, true, false, ◌&&◌, ◌||◌, not, List, [], ◌∷◌, ◌++◌, Option, none, some, Text, codes,
  text_eq, text_Eq, is_empty, member, keep, sort, ltb, if◌then◌else◌, ok, err,
}
use winglib.Resolver.Versions.{module_version_satisfies}

pub data DependencyKind : Type 0 where
  required optional : DependencyKind

pub record Requirement : Type 0 where
  pub name : Text
  pub version_range : Text
  pub stable_id : Text
  pub kind : DependencyKind

-- The fields of ModuleInfo that resolution reads.
pub record ModuleInfo : Type 0 where
  pub name : Text
  pub version : Text
  pub stable_id : Text
  pub dependencies : List Requirement

pub data ProviderSource : Type 0 where
  explicit module_path project local_scope install user system builtin : ProviderSource

pub record ModuleProvider : Type 0 where
  pub info : ModuleInfo
  pub source : ProviderSource
  pub path : Text

pub record ResolutionRoot : Type 0 where
  pub name : Text
  pub kind : DependencyKind

pub record ResolvedModule : Type 0 where
  pub provider : ModuleProvider
  pub optional : Bool

pub data DiagnosticCode : Type 0 where
  dependency_missing optional_missing provider_shadowed identity_mismatch version_mismatch
        optional_unavailable dependency_conflict dependency_cycle :
      DiagnosticCode

pub record Diagnostic : Type 0 where
  pub code : DiagnosticCode
  pub chain : List Text

unfoldable pub source_rank : ProviderSource → ℕ
source_rank explicit = 0
source_rank module_path = 1
source_rank project = 2
source_rank local_scope = 3
source_rank install = 4
source_rank user = 5
source_rank system = 6
source_rank builtin = 7

unfoldable pub source_name : ProviderSource → Text
source_name explicit = codes "explicit"
source_name module_path = codes "module-path"
source_name project = codes "project"
source_name local_scope = codes "local"
source_name install = codes "install"
source_name user = codes "user"
source_name system = codes "system"
source_name builtin = codes "builtin"

pub record Resolver : Type 0 where
  pub selected : List (Text × ResolvedModule)
  pub visiting : List Text
  pub visited : List Text
  pub shadow_keys : List Text
  pub order : List Text
  pub diagnostics : List Diagnostic

abbrev pub no_work : Resolver
no_work = record {
  selected = [];
  visiting = [];
  visited = [];
  shadow_keys = [];
  order = [];
  diagnostics = [];
}

-- `providers[name]` as the constructor leaves it; empty where the map has no such key.
unfoldable pub candidates : List ModuleProvider → Text → List ModuleProvider
unfolding source_rank
candidates providers name =
    if is_empty name
    then []
    else sort (λ a b. ltb (source_rank a.source) (source_rank b.source))
        (keep (λ p. text_eq p.info.name name) providers)

unfoldable pub diagnose : DiagnosticCode → List Text → Resolver → Resolver
diagnose code chain r = record r {
  diagnostics = r.diagnostics ++ record { code = code; chain = chain } ∷ [];
}

abbrev pub newline : ℕ
newline = 10

unfoldable pub shadow_key : Text → ModuleProvider → ModuleProvider → Text
unfolding source_name
shadow_key name provider shadowed =
    name
    ++ newline
      ∷ (source_name provider.source
          ++ newline ∷ (source_name shadowed.source ++ newline ∷ shadowed.path))

-- A provider of the same rank is not shadowed, so neither is the provider itself.
unfoldable pub diagnose_shadowed :
    Text → ModuleProvider → List Text → List ModuleProvider → Resolver → Resolver
unfolding source_rank shadow_key diagnose
diagnose_shadowed name provider chain [] r = r
diagnose_shadowed name provider chain (shadowed ∷ others) r =
    let key = shadow_key name provider shadowed in
    let r' =
      if ltb (source_rank provider.source) (source_rank shadowed.source)
        && not (member key r.shadow_keys)
      then diagnose provider_shadowed chain (record r { shadow_keys = r.shadow_keys ++ key ∷ [] })
      else r in
    diagnose_shadowed name provider chain others r'

abbrev pub identity_ok : Requirement → ModuleInfo → Bool
identity_ok requirement info =
    is_empty requirement.stable_id || text_eq info.stable_id requirement.stable_id

-- `versionOk && versionOk.value()`
unfoldable pub version_ok : Requirement → ModuleInfo → Bool
unfolding module_version_satisfies
version_ok requirement info =
    elim (module_version_satisfies info.version requirement.version_range) [
      | ok b ↦ b
      | err e ↦ false
    ]

-- The code of a choice that found no compatible provider.
abbrev pub rejection : Bool → Bool → Bool → DiagnosticCode
rejection false identity version = optional_unavailable
rejection true true version = identity_mismatch
rejection true false true = version_mismatch
rejection true false false = dependency_missing

unfoldable pub choose_from :
    Requirement
    → List Text
    → Bool
    → List ModuleProvider
    → List ModuleProvider
    → Bool
    → Bool
    → Resolver
    → Resolver × Option ModuleProvider
unfolding diagnose_shadowed diagnose version_ok
choose_from requirement chain must all [] identity version r =
    (diagnose (rejection must identity version) chain r, none)
choose_from requirement chain must all (p ∷ ps) identity version r =
    elim (identity_ok requirement p.info) [
      | false ↦ choose_from requirement chain must all ps true version r
      | true ↦ elim (version_ok requirement p.info) [
        | false ↦ choose_from requirement chain must all ps identity true r
        | true ↦ (diagnose_shadowed requirement.name p chain all r, some p)
      ]
    ]

abbrev pub choose_among :
    Requirement
    → List Text
    → Bool
    → List ModuleProvider
    → Resolver
    → Resolver × Option ModuleProvider
choose_among requirement chain must [] r =
    (diagnose (if must then dependency_missing else optional_missing) chain r, none)
choose_among requirement chain must (p ∷ ps) r =
    choose_from requirement chain must (p ∷ ps) (p ∷ ps) false false r

unfoldable pub choose :
    List ModuleProvider
    → Requirement
    → List Text
    → Bool
    → Resolver
    → Resolver × Option ModuleProvider
unfolding candidates choose_from diagnose
choose providers requirement chain must r =
    choose_among requirement chain must (candidates providers requirement.name) r
