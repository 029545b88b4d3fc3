-- ===== src/Deps/FetchTests.antt =====
-- Runs of the model of fetching and locking of src/core/module_deps.cpp.
use winglib.Base.{
  subst, length, ◌≤◌, arith, Result, All, List, Text, none, ◌≡◌, refl, ℕ, suc, true, false, [], ◌∷◌,
  some, codes, text_eq, starts_with, split_at, text_lt, to_lower, member, contains_char, ok, err,
}
use winglib.Syntax.{is_space, strip_left, strip_right, unquote, trim}
use winglib.Deps.Lockfile.{LockedModule, Lockfile}
use winglib.Deps.Shell.{looks_like_option, is_safe_dependency_name}
use winglib.Deps.Trust.{SourceTrustPolicy, check_source_trust, classify_lower}
use winglib.Deps.Locking.{ModuleDependency}
use winglib.Deps.LockText.{lock_v2, no_module}
use winglib.Deps.Fetch.{
  FetchError, Tools, join_path, fetch_locked_module, verify_fetched_commit, dependency_status,
  deps_invalid_name, deps_tree_mismatch,
}
use winglib.Deps.Fetch.Confined.{fetch_locked_module-confined}
use winglib.Deps.Transitive.Unlocked.{Named}
use winglib.Deps.Transitive.Returns.{Bounded, lock_module_dependencies_transitive-returns}
use winglib.Deps.Transitive.{lock_module_dependencies_transitive}

abbrev any_remote : SourceTrustPolicy
any_remote = record {
  allow_local_paths = true;
  allow_insecure_transport = false;
  allowed_hosts = [];
}

abbrev dep_a : ModuleDependency
dep_a = record {
  name = codes "a";
  git = codes "https://h/a";
  tag = [];
  commit = codes "c";
  path = [];
  provides = [];
}

abbrev dep_b : ModuleDependency
dep_b = record dep_a { name = codes "b"; provides = codes "wl2:b" }

-- Each run of git counts, says "c" and succeeds; the sources of every module need a and b.
abbrev counting : Tools ℕ
counting = record {
  run_git = λ args runs. (record { status = 0; output = codes "c" }, suc runs);
  is_directory = λ path runs. true;
  create_directories = λ path runs. runs;
  remove_all = λ path runs. 0;
  read_metadata = λ m root runs.
      some (record { provides = codes "wl2:m"; source_dependencies = dep_a ∷ dep_b ∷ [] });
}

abbrev locked_a : LockedModule
locked_a = record no_module { name = codes "a"; git = codes "https://h/a"; commit = codes "c" }

-- A clone at the locked commit is left alone.
fetched : fetch_locked_module counting any_remote locked_a (codes "/d") 0 ≡ (ok tt, 1)
unfolding fetch_locked_module is_safe_dependency_name looks_like_option check_source_trust
    classify_lower text_eq starts_with split_at to_lower trim strip_left strip_right is_space
    unquote contains_char
fetched = refl

-- A name that leads out of the root is refused, and nothing is run.
outside_refused :
    fetch_locked_module counting any_remote (record locked_a { name = codes ".." }) (codes "/d") 0
    ≡ (err deps_invalid_name, 0)
unfolding fetch_locked_module is_safe_dependency_name text_eq contains_char
outside_refused = refl

tree_checked :
    verify_fetched_commit counting (record locked_a { tree_checksum = codes "t" }) (codes "/d") 0
    ≡ (err deps_tree_mismatch, 2)
unfolding verify_fetched_commit is_safe_dependency_name text_eq trim strip_left strip_right is_space
    unquote contains_char
tree_checked = refl

-- The two modules are locked once each, though the sources of both need both.
both_locked :
    lock_module_dependencies_transitive counting any_remote (codes "/d") 5 (dep_a ∷ []) 0
    ≡ some (
      ok (record {
        schema = lock_v2;
        modules =
            record locked_a { tree_checksum = codes "c"; provides = codes "wl2:m" }
            ∷ record locked_a {
              name = codes "b";
              tree_checksum = codes "c";
              provides = codes "wl2:b";
            }
            ∷ [];
      }),
      4,
    )
unfolding lock_module_dependencies_transitive is_safe_dependency_name looks_like_option
    check_source_trust classify_lower text_eq starts_with split_at to_lower text_lt trim strip_left
    strip_right is_space unquote contains_char member
both_locked = refl

status_known :
    dependency_status counting
      (dep_a ∷ dep_b ∷ [])
      (record { schema = lock_v2; modules = locked_a ∷ [] })
      (codes "/d")
      0
    ≡ (
      record { name = codes "a"; tag = []; locked_commit = codes "c"; fetched = true }
          ∷ record { name = codes "b"; tag = []; locked_commit = []; fetched = false }
          ∷ [],
      1,
    )
unfolding dependency_status text_eq trim strip_left strip_right is_space unquote
status_known = refl

-- The paths that are removed, the last first.
abbrev removing : Tools (List Text)
removing = record {
  run_git = λ args removed. (record { status = 0; output = codes "c" }, removed);
  is_directory = λ path removed. false;
  create_directories = λ path removed. removed;
  remove_all = λ path removed. path ∷ removed;
  read_metadata = λ m root removed. none;
}

-- Nothing but "/d/a" is removed.
fetch_locked_module-confined_example :
    All
      (λ path. path ≡ codes "/d/a")
      (fetch_locked_module removing any_remote locked_a (codes "/d") []).1
unfolding join_path
fetch_locked_module-confined_example =
    fetch_locked_module-confined removing any_remote locked_a (codes "/d")
      (All (λ path. path ≡ codes "/d/a")) []
      (λ m. record { makes_root = λ w p. p; clears = λ w p. (refl, p); runs = λ args c w p. p }) tt

counting_bounded : Bounded counting any_remote (codes "/d") (codes "a" ∷ codes "b" ∷ []) 2
unfolding member text_eq
counting_bounded m w s e =
    let same : record { provides = codes "wl2:m"; source_dependencies = dep_a ∷ dep_b ∷ [] } ≡ s =
      cc e in
    subst
      (λ x.
        All (Named (codes "a" ∷ codes "b" ∷ [])) x.source_dependencies
        × (length x.source_dependencies ≤ 2))
      same ((refl, (refl, tt)), omega arith)

lock_module_dependencies_transitive-returns_example :
    (r : Result FetchError Lockfile × ℕ) × (lock_module_dependencies_transitive counting any_remote
        (codes "/d")
        6
        (dep_a ∷ [])
        0
      ≡ some r)
unfolding member text_eq
lock_module_dependencies_transitive-returns_example =
    lock_module_dependencies_transitive-returns counting any_remote (codes "/d")
      (codes "a" ∷ codes "b" ∷ []) 2 counting_bounded 6 (dep_a ∷ []) 0 (refl, tt) (omega arith)
