-- ===== src/Deps/Locking.antt =====
-- How a lock comes about: resolveGitCommit and lockModuleDependencies of src/core/module_deps.cpp. What a run of git gives is an argument.
use winglib.Base.{
  ℕ, Bool, true, false, not, List, [], ◌∷◌, ◌++◌, none, some, Text, codes, is_empty, split_at,
  if◌then◌else◌, ◌==◌, Result, ok, err, ◌>>=◌, ◌>>◌, fail_if, sort, text_lt,
}
use winglib.Syntax.{trim, drop_last}
use winglib.Deps.Lockfile.{LockedModule, Lockfile}
use winglib.Deps.Shell.{looks_like_option}
use winglib.Deps.Trust.{SourceTrustPolicy, TrustError, check_source_trust}

pub record ModuleDependency : Type 0 where
  pub name : Text
  pub git : Text
  pub tag : Text
  pub commit : Text
  pub path : Text
  pub provides : Text

-- Of the status only whether it is 0 is read; the -1 of a run that did not start is any other number.
pub record GitResult : Type 0 where
  pub status : ℕ
  pub output : Text

pub data LockError : Type 0 where
  deps_invalid_git_url deps_git_failed deps_tag_not_found : LockError
  untrusted : TrustError → LockError

-- The lines that std::getline reads, with what has been read of the first.
unfoldable pub lines_from : Text → Text → List Text
lines_from line [] = if is_empty line then [] else line ∷ []
lines_from line (c ∷ s) = elim (c == 10) [
  | true ↦ line ∷ lines_from [] s
  | false ↦ lines_from (line ++ c ∷ []) s
]

unfoldable pub lines : Text → List Text
unfolding lines_from
lines text = lines_from [] text

-- The commits of a tag: of what it points at, and its own.
pub record TagCommits : Type 0 where
  pub peeled : Text
  pub plain : Text

-- `ref.compare(ref.size() - 3, 3, "^{}") == 0`
unfoldable pub is_peeled : Text → Bool
is_peeled ref = elim (drop_last b'}' ref) [
  | none ↦ false
  | some r ↦ elim (drop_last b'{' r) [
    | none ↦ false
    | some q ↦ elim (drop_last b'^' q) [ none ↦ false | some p ↦ true ]
  ]
]

unfoldable pub read_ref : TagCommits → Text → TagCommits
unfolding is_peeled
read_ref commits line = elim (split_at 9 line) [
  | none ↦ commits
  | some (sha, ref) ↦
      if is_peeled (trim ref)
      then record { peeled = trim sha; plain = commits.plain }
      else record { peeled = commits.peeled; plain = trim sha }
]

unfoldable pub read_refs : TagCommits → List Text → TagCommits
unfolding read_ref
read_refs commits [] = commits
read_refs commits (line ∷ rest) = read_refs (read_ref commits line) rest

abbrev pub trust_of : Result TrustError (Unit {0}) → Result LockError (Unit {0})
trust_of (ok u) = ok u
trust_of (err e) = err (untrusted e)

unfoldable pub ls_remote : Text → Text → List Text
ls_remote git_url tag =
    let ref = codes "refs/tags/" ++ tag in
    codes "ls-remote" ∷ codes "--" ∷ git_url ∷ (ref ++ codes "^{}") ∷ ref ∷ []

unfoldable pub resolve_git_commit :
    (List Text → GitResult) → SourceTrustPolicy → Text → Text → Result LockError Text
unfolding read_refs lines ls_remote
resolve_git_commit run_git policy git_url tag =
    let result = run_git (ls_remote git_url tag) in
    let commits = read_refs (record { peeled = []; plain = [] }) (lines result.output) in
    let commit = if not (is_empty commits.peeled) then commits.peeled else commits.plain in
    fail_if (looks_like_option git_url) deps_invalid_git_url
    >> trust_of (check_source_trust git_url policy)
    >> fail_if (not (result.status == 0)) deps_git_failed
    >> fail_if (is_empty commit) deps_tag_not_found
    >> ok commit

abbrev pub locked_at : ModuleDependency → Text → LockedModule
locked_at dep commit = record {
  name = dep.name;
  git = dep.git;
  tag = dep.tag;
  commit = commit;
  tree_checksum = [];
  path = dep.path;
  provides = [];
}

unfoldable pub lock_one :
    (List Text → GitResult) → SourceTrustPolicy → ModuleDependency → Result LockError LockedModule
unfolding resolve_git_commit
lock_one run_git policy dep =
    if not (is_empty dep.commit)
    then ok (locked_at dep dep.commit)
    else resolve_git_commit run_git policy dep.git dep.tag >>= λ commit. ok (locked_at dep commit)

unfoldable pub lock_all :
    (List Text → GitResult)
    → SourceTrustPolicy
    → List ModuleDependency
    → Result LockError (List LockedModule)
unfolding lock_one
lock_all run_git policy [] = ok []
lock_all run_git policy (dep ∷ deps) =
    lock_one run_git policy dep >>= λ m. lock_all run_git policy deps >>= λ ms. ok (m ∷ ms)

abbrev pub name_lt : LockedModule → LockedModule → Bool
name_lt a b = text_lt a.name b.name

abbrev pub lock_v1 : Text
lock_v1 = codes "wl2.lock.v1"

unfoldable pub lock_module_dependencies :
    (List Text → GitResult) → SourceTrustPolicy → List ModuleDependency → Result LockError Lockfile
unfolding lock_all sort
lock_module_dependencies run_git policy dependencies =
    lock_all run_git policy dependencies >>= λ ms.
    ok (record { schema = lock_v1; modules = sort name_lt ms })
