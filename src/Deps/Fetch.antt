-- ===== src/Deps/Fetch.antt =====
-- fetchLockedModule, verifyFetchedCommit and dependencyStatus of
-- src/core/module_deps.cpp. The world, what git and the file system do to it and what the source
-- metadata of a fetched module says are arguments.
pub mod Confined
use winglib.Base.{
  Bool, false, not, List, [], ◌∷◌, ◌++◌, Option, none, some, Text, codes, is_empty, text_eq,
  if◌then◌else◌, ◌==◌, ◌&&◌, Result, ok, err, ◌>>◌, fail_if, text_Eq,
}
use winglib.Syntax.{trim, drop_last}
use winglib.Deps.Lockfile.{LockedModule, Lockfile, find}
use winglib.Deps.Shell.{looks_like_option, is_safe_dependency_name}
use winglib.Deps.Trust.{SourceTrustPolicy, TrustError, check_source_trust}
use winglib.Deps.Locking.{ModuleDependency, GitResult, LockError}

pub data FetchError : Type 0 where
  deps_unlocked deps_invalid_name deps_invalid_git_url deps_invalid_commit : FetchError
  untrusted : TrustError → FetchError
  deps_clone_failed deps_checkout_failed : FetchError
  deps_not_fetched deps_commit_mismatch deps_tree_mismatch deps_tree_dirty : FetchError
  not_locked : LockError → FetchError

-- The part of the metadata of a module's sources that locking reads.
pub record SourceMetadata : Type 0 where
  pub provides : Text
  pub source_dependencies : List ModuleDependency

pub record Tools (W : Type 0) : Type 0 where
  pub run_git : List Text → W → GitResult × W
  pub is_directory : Text → W → Bool
  pub create_directories : Text → W → W
  pub remove_all : Text → W → W
  pub read_metadata : LockedModule → Text → W → Option SourceMetadata

-- `root / name`
unfoldable pub join_path : Text → Text → Text
unfolding drop_last
join_path [] name = name
join_path (c ∷ root) [] = elim (drop_last b'/' (c ∷ root)) [
  | none ↦ (c ∷ root) ++ b'/' ∷ []
  | some front ↦ c ∷ root
]
join_path (c ∷ root) (d ∷ name) = if d == b'/' then d ∷ name else elim (drop_last b'/' (c ∷ root)) [
  | none ↦ (c ∷ root) ++ b'/' ∷ d ∷ name
  | some front ↦ (c ∷ root) ++ d ∷ name
]

-- The fields that dependencyStatus fills; the others are for its caller.
pub record DependencyStatus : Type 0 where
  pub name : Text
  pub tag : Text
  pub locked_commit : Text
  pub fetched : Bool

abbrev trust_of : Result TrustError (Unit {0}) → Result FetchError (Unit {0})
trust_of (ok u) = ok u
trust_of (err e) = err (untrusted e)

-- What is refused before anything is touched.
unfoldable pub fetch_guards : SourceTrustPolicy → LockedModule → Result FetchError (Unit {0})
fetch_guards policy locked =
    fail_if (is_empty locked.commit) deps_unlocked
    >> fail_if (not (is_safe_dependency_name locked.name)) deps_invalid_name
    >> fail_if (looks_like_option locked.git) deps_invalid_git_url
    >> fail_if (looks_like_option locked.commit) deps_invalid_commit
    >> trust_of (check_source_trust locked.git policy)

-- A run of git gave this and nothing else.
unfoldable pub gave : GitResult → Text → Bool
gave result text = (result.status == 0) && text_eq (trim result.output) text

module _ {W : Type 0} (tools : Tools W) where
  unfoldable pub checkout : LockedModule → Text → W → Result FetchError (Unit {0}) × W
  checkout locked target w =
      let (result, after) =
        tools.run_git
          (codes "-C" ∷ target ∷ codes "checkout" ∷ codes "--quiet" ∷ locked.commit ∷ []) w in
      (fail_if (not (result.status == 0)) deps_checkout_failed, after)

  -- A clone that is there is brought up to date, unless it is at the commit already.
  unfoldable pub update_clone : LockedModule → Text → W → Result FetchError (Unit {0}) × W
  unfolding checkout gave
  update_clone locked target w =
      let (head, after) =
        tools.run_git (codes "-C" ∷ target ∷ codes "rev-parse" ∷ codes "HEAD" ∷ []) w in
      if gave head locked.commit
      then (ok tt, after)
      else checkout locked target
          (tools.run_git (codes "-C" ∷ target ∷ codes "fetch" ∷ codes "--all" ∷ codes "--tags" ∷ [])
            after).1

  unfoldable pub make_clone : LockedModule → Text → W → Result FetchError (Unit {0}) × W
  unfolding checkout
  make_clone locked target w =
      let (clone, after) =
        tools.run_git (codes "clone" ∷ codes "--" ∷ locked.git ∷ target ∷ [])
          (tools.remove_all target w) in
      if not (clone.status == 0)
      then (err deps_clone_failed, after)
      else checkout locked target after

  unfoldable pub fetch_locked_module :
      SourceTrustPolicy → LockedModule → Text → W → Result FetchError (Unit {0}) × W
  unfolding fetch_guards update_clone make_clone join_path
  fetch_locked_module policy locked deps_root w = elim (fetch_guards policy locked) [
    | err e ↦ (err e, w)
    | ok u ↦
        let target = join_path deps_root locked.name in
        let there = tools.create_directories deps_root w in
        if tools.is_directory (join_path target (codes ".git")) there
        then update_clone locked target there
        else make_clone locked target there
  ]

  unfoldable pub verify_tree : LockedModule → Text → W → Result FetchError (Unit {0}) × W
  unfolding gave
  verify_tree locked target w =
      let (tree, seen) =
        tools.run_git (codes "-C" ∷ target ∷ codes "rev-parse" ∷ codes "HEAD^{tree}" ∷ []) w in
      if not (gave tree locked.tree_checksum)
      then (err deps_tree_mismatch, seen)
      else let (dirty, after) =
          tools.run_git (codes "-C" ∷ target ∷ codes "status" ∷ codes "--porcelain" ∷ []) seen in
        (fail_if (not (gave dirty [])) deps_tree_dirty, after)

  unfoldable pub verify_fetched_commit : LockedModule → Text → W → Result FetchError (Unit {0}) × W
  unfolding verify_tree gave join_path
  verify_fetched_commit locked deps_root w =
      let target = join_path deps_root locked.name in
      if not (is_safe_dependency_name locked.name)
      then (err deps_invalid_name, w)
      else if not (tools.is_directory (join_path target (codes ".git")) w)
      then (err deps_not_fetched, w)
      else let (head, after) =
          tools.run_git (codes "-C" ∷ target ∷ codes "rev-parse" ∷ codes "HEAD" ∷ []) w in
        if not (gave head locked.commit)
        then (err deps_commit_mismatch, after)
        else if is_empty locked.tree_checksum
        then (ok tt, after)
        else verify_tree locked target after

  -- The clone is there and at the commit.
  unfoldable pub at_commit : LockedModule → Text → W → Bool × W
  unfolding gave
  at_commit locked target w =
      if not (tools.is_directory (join_path target (codes ".git")) w)
      then (false, w)
      else let (head, after) =
          tools.run_git (codes "-C" ∷ target ∷ codes "rev-parse" ∷ codes "HEAD" ∷ []) w in
        (gave head locked.commit, after)

  unfoldable pub status_of : ModuleDependency → Lockfile → Text → W → DependencyStatus × W
  unfolding at_commit join_path find
  status_of dep lock deps_root w = elim (find dep.name lock) [
    | none ↦ (record { name = dep.name; tag = dep.tag; locked_commit = []; fetched = false }, w)
    | some locked ↦
        let (fetched, after) = at_commit locked (join_path deps_root dep.name) w in
        (
          record {
            name = dep.name;
            tag = dep.tag;
            locked_commit = locked.commit;
            fetched = fetched;
          },
          after,
        )
  ]

  unfoldable pub dependency_status :
      List ModuleDependency → Lockfile → Text → W → List DependencyStatus × W
  unfolding status_of
  dependency_status [] lock deps_root w = ([], w)
  dependency_status (dep ∷ deps) lock deps_root w =
      let (status, after) = status_of dep lock deps_root w in
      let (statuses, last) = dependency_status deps lock deps_root after in
      (status ∷ statuses, last)
