-- ===== src/Deps/Transitive.antt =====
-- lockModuleDependenciesTransitive of src/core/module_deps.cpp: a queue of dependencies, each of which
-- is locked and fetched, so that its own dependencies come to the end of the queue. Each round takes
-- one from the queue and one unit of fuel; without fuel there is no answer.
pub mod Unlocked
pub mod Returns
use winglib.Base.{
  ℕ, zero, suc, not, List, [], ◌∷◌, ◌++◌, Option, none, some, Text, codes, is_empty, if◌then◌else◌,
  ◌==◌, ◌&&◌, ◌||◌, Result, ok, err, sort, any, keep, member, text_Eq,
}
use winglib.Syntax.{trim}
use winglib.Deps.Lockfile.{LockedModule, Lockfile}
use winglib.Deps.Shell.{looks_like_option}
use winglib.Deps.Trust.{SourceTrustPolicy, check_source_trust}
use winglib.Deps.Locking.{
  ModuleDependency, LockError, resolve_git_commit, ls_remote, locked_at, name_lt, lock_v1,
}
use winglib.Deps.LockText.{lock_v2}
use winglib.Deps.Fetch.{
  FetchError, not_locked, SourceMetadata, Tools, join_path, fetch_locked_module,
}

-- A captured checksum makes it the schema that bears one.
unfoldable pub schema_of : List LockedModule → Text
schema_of ms = if any (λ m. not (is_empty m.tree_checksum)) ms then lock_v2 else lock_v1

-- The dependencies of the sources that are new.
unfoldable pub fresh_sources : List Text → List ModuleDependency → List ModuleDependency
fresh_sources locked deps = keep (λ d. not (is_empty d.name) && not (member d.name locked)) deps

-- `modules` are the locked ones in the order in which they were locked.
pub record Locking : Type 0 where
  pub queue : List ModuleDependency
  pub locked : List Text
  pub modules : List LockedModule

module _ {W : Type 0} (tools : Tools W) (policy : SourceTrustPolicy) (deps_root : Text) where
  unfoldable pub resolve_in : Text → Text → W → Result LockError Text × W
  unfolding resolve_git_commit ls_remote
  resolve_in git_url tag w =
      let answer = resolve_git_commit (λ args. (tools.run_git args w).0) policy git_url tag in
      if looks_like_option git_url then (answer, w) else elim (check_source_trust git_url policy) [
        | err e ↦ (answer, w)
        | ok u ↦ (answer, (tools.run_git (ls_remote git_url tag) w).1)
      ]

  unfoldable pub commit_of : ModuleDependency → W → Result LockError Text × W
  unfolding resolve_in
  commit_of dep w =
      if not (is_empty dep.commit) then (ok dep.commit, w) else resolve_in dep.git dep.tag w

  unfoldable pub with_tree : LockedModule → W → LockedModule × W
  unfolding join_path
  with_tree m w =
      let (tree, after) =
        tools.run_git
          (codes "-C"
            ∷ join_path deps_root m.name
            ∷ codes "rev-parse"
            ∷ (m.commit ++ codes "^{tree}")
            ∷ [])
          w in
      (if tree.status == 0 then record m { tree_checksum = trim tree.output } else m, after)

  -- What the metadata of the fetched sources adds, if there is any.
  unfoldable pub with_metadata : LockedModule → Option SourceMetadata → Locking → Locking
  unfolding fresh_sources
  with_metadata m none l = record {
    queue = l.queue;
    locked = m.name ∷ l.locked;
    modules = l.modules ++ m ∷ [];
  }
  with_metadata m (some metadata) l = record {
    queue = l.queue ++ fresh_sources l.locked metadata.source_dependencies;
    locked = m.name ∷ l.locked;
    modules =
        l.modules
        ++ (if is_empty m.provides then record m { provides = metadata.provides } else m) ∷ [];
  }

  -- A dependency with its commit is fetched and locked.
  unfoldable pub lock_fetched : LockedModule → Locking → W → Result FetchError Locking × W
  unfolding fetch_locked_module with_tree with_metadata
  lock_fetched m l w =
      let (fetched, there) = fetch_locked_module tools policy m deps_root w in
      elim fetched [
        | err e ↦ (err e, there)
        | ok u ↦
            let (checked, after) = with_tree m there in
            (ok (with_metadata checked (tools.read_metadata checked deps_root after) l), after)
      ]

  unfoldable pub lock_dependency : ModuleDependency → Locking → W → Result FetchError Locking × W
  unfolding commit_of lock_fetched
  lock_dependency dep l w =
      if is_empty dep.name || member dep.name l.locked
      then (ok l, w)
      else let (found, after) = commit_of dep w in
        elim found [
          | err e ↦ (err (not_locked e), after)
          | ok commit ↦
              lock_fetched (record (locked_at dep commit) { provides = dep.provides }) l after
        ]

  unfoldable pub lock_rounds :
      ℕ → List ModuleDependency → Locking → W → Option (Result FetchError (List LockedModule) × W)
  unfolding lock_dependency
  lock_rounds zero queue l w = none
  lock_rounds (suc fuel) [] l w = some (ok l.modules, w)
  lock_rounds (suc fuel) (dep ∷ queue) l w =
      let (locked, after) =
        lock_dependency dep (record { queue = queue; locked = l.locked; modules = l.modules }) w in
      elim locked [ err e ↦ some (err e, after) | ok next ↦ lock_rounds fuel next.queue next after ]

  unfoldable pub lock_module_dependencies_transitive :
      ℕ → List ModuleDependency → W → Option (Result FetchError Lockfile × W)
  unfolding lock_rounds schema_of sort
  lock_module_dependencies_transitive fuel dependencies w =
      elim (lock_rounds fuel dependencies
        (record { queue = dependencies; locked = []; modules = [] }) w) [
          | none ↦ none
          | some (err e, after) ↦ some (err e, after)
          | some (ok ms, after) ↦
              some (ok (record { schema = schema_of ms; modules = sort name_lt ms }), after)
        ]
