-- ===== src/Resolver/Tests.antt =====
-- Concrete versions and module graphs, at which the theorems on them apply.
use winglib.Base.{
  ℕ, ◌≡◌, ◌↔◌, refl, true, false, List, [], ◌∷◌, ◌++◌, codes, Result, ok, some, text_eq, sort,
  lookup, emplace, member, text_Eq,
}
use winglib.Resolver.Versions.{
  Version, parse_version, module_version_satisfies, at_least, less_than,
}
use winglib.Resolver.Choice.{
  ModuleInfo, ModuleProvider, ResolutionRoot, ResolvedModule, Resolver, Diagnostic, DiagnosticCode,
  required, optional, builtin, user, no_work,
}
use winglib.Resolver.Graph.{visit_roots, resolve_module_graph}
use winglib.Resolver.Graph.Kept.Same.{distinct}
use winglib.Resolver.Graph.Total.{resolve_total, order-distinct}
use winglib.Resolver.Versions.Ranges.{Before, satisfies-range, satisfies-exact}

abbrev version_of : ℕ → ℕ → ℕ → Version
version_of a b c = record { major = a; minor = b; patch = c }

parsed : parse_version (codes "1.12.3") ≡ ok (version_of 1 12 3)
unfolding parse_version
parsed = refl

lower_parsed : parse_version (codes "1.2.0") ≡ ok (version_of 1 2 0)
unfolding parse_version
lower_parsed = refl

upper_parsed : parse_version (codes "2.0.0") ≡ ok (version_of 2 0 0)
unfolding parse_version
upper_parsed = refl

satisfies-range_example :
    (module_version_satisfies
        (codes "1.12.3")
        (at_least ++ (codes "1.2.0" ++ b' ' ∷ (less_than ++ codes "2.0.0")))
      ≡ ok true)
    ↔ ((¬ Before (version_of 1 12 3) (version_of 1 2 0))
        × Before (version_of 1 12 3) (version_of 2 0 0))
satisfies-range_example =
    satisfies-range (codes "1.12.3") (codes "1.2.0") (codes "2.0.0") (version_of 1 12 3)
      (version_of 1 2 0) (version_of 2 0 0) parsed lower_parsed upper_parsed refl refl

exact_range :
    (module_version_satisfies (codes "1.12.3") (b'=' ∷ codes "1.2.0") ≡ ok true)
    ↔ (version_of 1 12 3 ≡ version_of 1 2 0)
exact_range =
    satisfies-exact (codes "1.12.3") (codes "1.2.0") (version_of 1 12 3) (version_of 1 2 0) parsed
      lower_parsed

-- app needs net, and both are wanted.
abbrev net_info : ModuleInfo
net_info = record { name = codes "net"; version = codes "1.0.0"; stable_id = []; dependencies = [] }

abbrev app_info : ModuleInfo
app_info = record {
  name = codes "app";
  version = codes "1.0.0";
  stable_id = [];
  dependencies =
      record { name = codes "net"; version_range = []; stable_id = []; kind = required } ∷ [];
}

abbrev net_provider : ModuleProvider
net_provider = record { info = net_info; source = builtin; path = [] }

abbrev app_provider : ModuleProvider
app_provider = record { info = app_info; source = user; path = codes "/m/app" }

abbrev providers : List ModuleProvider
providers = net_provider ∷ app_provider ∷ []

abbrev roots : List ResolutionRoot
roots =
    record { name = codes "app"; kind = required }
    ∷ record { name = codes "net"; kind = optional }
    ∷ []

abbrev resolved : Resolver
resolved = record {
  selected =
      (codes "app", record { provider = app_provider; optional = false })
      ∷ (codes "net", record { provider = net_provider; optional = false })
      ∷ [];
  visiting = [];
  visited = codes "app" ∷ codes "net" ∷ [];
  shadow_keys = [];
  order = codes "net" ∷ codes "app" ∷ [];
  diagnostics = [];
}

runs : visit_roots 3 providers roots no_work ≡ some (ok resolved)
unfolding visit_roots text_eq sort lookup emplace member
runs = refl

resolve_total_example :
    (plan : Result DiagnosticCode (List ResolvedModule × List Diagnostic)) × (resolve_module_graph 3
        providers roots
      ≡ some plan)
resolve_total_example = resolve_total providers roots

order-distinct_example : distinct (codes "net" ∷ codes "app" ∷ []) ≡ true
order-distinct_example = order-distinct 3 providers roots runs
