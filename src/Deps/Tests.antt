-- ===== src/Deps/Tests.antt =====
-- Concrete sources, commands and locks, at which the theorems on them apply.
use winglib.Base.{
  ◌≡◌, ◌≢◌, ◌↔◌, refl, inl, inr, true, false, ◌||◌, not, List, [], ◌∷◌, ◌++◌, Option, some, Text,
  codes, All, any, all, In, length, contains_char, text_eq, text_Eq, member, lookup, assign,
  to_lower, starts_with, split_at, ok, err,
}
use winglib.Deps.Lockfile.{LockedModule, Lockfile}
use winglib.Deps.Trust.{
  SourceTrustPolicy, check_source_trust, classify_lower, host_allowed, untrusted_transport,
  https_scheme, http_scheme,
}
use winglib.Deps.Trust.Letters.{SameCase, to_lower_iff}
use winglib.Deps.Trust.Hosts.{https_trusted_iff, host_list_bypass, cleartext_refused}
use winglib.Syntax.{is_space, strip_left, strip_right, unquote, trim}
use winglib.Deps.Locking.{GitResult, resolve_git_commit}
use winglib.Permissions.Paths.{dot, dots, lexically_normal, path_contained_by}
use winglib.Permissions.Paths.Inside.Normal.{IsName, absolute_path}
use winglib.Deps.Shell.Names.{safe_name_inside}
use winglib.Deps.Shell.{is_safe_dependency_name, looks_like_option, git_command, no_stderr, git}
use winglib.Deps.Shell.Words.{git_command-words, shell_words, between}
use winglib.Deps.Order.{order_locked_modules_for_build, source_cycle}
use winglib.Deps.Order.Degree.{bearers}
use winglib.Deps.Order.Built.{order_sound, order_blocked, in_order, blocked, DistinctNames}

abbrev only_github : SourceTrustPolicy
only_github = record {
  allow_local_paths = true;
  allow_insecure_transport = false;
  allowed_hosts = codes "GitHub.com" ∷ [];
}

abbrev any_source : SourceTrustPolicy
any_source = record {
  allow_local_paths = true;
  allow_insecure_transport = false;
  allowed_hosts = [];
}

abbrev github : Text
github = codes "github.com"

no_slash : contains_char b'/' github ≡ false
unfolding contains_char
no_slash = refl

no_colon : contains_char b':' github ≡ false
unfolding contains_char
no_colon = refl

no_user : contains_char b'@' (github ++ codes ":443/a/b") ≡ false
unfolding contains_char
no_user = refl

not_empty : only_github.allowed_hosts ≢ []
not_empty e = cc

spelled_small : to_lower (codes "HTTPS://") ≡ to_lower (codes "https://")
unfolding to_lower
spelled_small = refl

spelled : SameCase (codes "HTTPS://") (codes "https://")
spelled = (to_lower_iff (codes "HTTPS://") (codes "https://")).0 spelled_small

https_trusted_iff_example :
    (check_source_trust (codes "HTTPS://" ++ (github ++ codes ":443/a/b")) only_github ≡ ok tt)
    ↔ ((entry : Text) × In entry only_github.allowed_hosts × SameCase entry github)
https_trusted_iff_example =
    https_trusted_iff (codes "HTTPS://") github (codes ":443/a/b") only_github spelled
      (no_slash, no_colon) (inr refl) no_user not_empty

evil_spelled :
    to_lower (codes "https://evil.example/@github.com/x")
    ≡ https_scheme ++ (codes "evil.example" ++ b'/' ∷ b'@' ∷ (github ++ b'/' ∷ codes "x"))
unfolding to_lower https_scheme
evil_spelled = refl

evil_clean : contains_char b'@' (codes "evil.example") ≡ false
unfolding contains_char
evil_clean = refl

github_allowed : host_allowed only_github.allowed_hosts github ≡ true
unfolding host_allowed to_lower text_eq
github_allowed = refl

host_list_bypass_example :
    check_source_trust (codes "https://evil.example/@github.com/x") only_github ≡ ok tt
host_list_bypass_example =
    host_list_bypass (codes "https://evil.example/@github.com/x") (codes "evil.example") github
      (codes "x") only_github evil_spelled evil_clean (no_slash, no_colon) github_allowed

clear_spelled : to_lower (codes "HTTP://github.com/a") ≡ http_scheme ++ codes "github.com/a"
unfolding to_lower http_scheme
clear_spelled = refl

http_refused :
    check_source_trust (codes "HTTP://github.com/a") only_github ≡ err untrusted_transport
http_refused =
    cleartext_refused (codes "HTTP://github.com/a") (codes "github.com/a") only_github
      (inl clear_spelled) refl

abbrev clone : List Text
clone = codes "clone" ∷ codes "it's; rm -rf $HOME" ∷ []

clone_clean : All (λ arg. contains_char 0 arg ≡ false) clone
unfolding contains_char
clone_clean = (refl, (refl, tt))

git_command-words_example :
    (line : Text) × (git_command clone ≡ line ++ no_stderr)
    × (shell_words between line ≡ some (git ∷ clone))
git_command-words_example = git_command-words clone clone_clean

abbrev locked : Text → LockedModule
locked name = record {
  name = name;
  git = codes "https://github.com/a";
  tag = [];
  commit = codes "0123";
  tree_checksum = [];
  path = [];
  provides = [];
}

abbrev lock : Lockfile
lock = record {
  schema = codes "wl2.lock.v2";
  modules = locked (codes "app") ∷ locked (codes "net") ∷ [];
}

-- app is built from net, and net from something outside of the lock.
abbrev sources : LockedModule → Option (List Text)
sources m = elim (text_eq m.name (codes "app")) [
  | true ↦ some (codes "net" ∷ [])
  | false ↦ some (codes "zlib" ∷ [])
]

-- Each is built from the other.
abbrev mutual_sources : LockedModule → Option (List Text)
mutual_sources m = some (codes "net" ∷ codes "app" ∷ [])

lock_distinct : DistinctNames lock.modules
unfolding bearers text_eq
lock_distinct = (refl, (refl, tt))

ordered :
    order_locked_modules_for_build sources lock
    ≡ ok (locked (codes "net") ∷ locked (codes "app") ∷ [])
unfolding order_locked_modules_for_build text_eq member lookup assign
ordered = refl

order_sound_example :
    (in_order sources lock.modules [] (locked (codes "net") ∷ locked (codes "app") ∷ []) ≡ true)
    × (length (locked (codes "net") ∷ locked (codes "app") ∷ []) ≡ length lock.modules)
    × (all (λ m. member m.name (codes "net" ∷ codes "app" ∷ [])) lock.modules ≡ true)
    × All (λ m. In m lock.modules) (locked (codes "net") ∷ locked (codes "app") ∷ [])
order_sound_example = order_sound sources lock lock_distinct ordered

refused : order_locked_modules_for_build mutual_sources lock ≡ err source_cycle
unfolding order_locked_modules_for_build text_eq member lookup assign
refused = refl

order_blocked_example :
    (source_cycle ≡ source_cycle)
    × ((placed : List Text) × (any (λ m. not (member m.name placed)) lock.modules ≡ true)
        × (all
              (λ m. member m.name placed || blocked mutual_sources lock.modules placed m)
              lock.modules
            ≡ true))
order_blocked_example = order_blocked mutual_sources lock lock_distinct refused

srv_root : All IsName (codes "srv" ∷ [])
unfolding text_eq dot dots
srv_root = (record { non_empty = refl; not_dot = refl; not_dots = refl }, tt)

net_safe : is_safe_dependency_name (codes "net") ≡ true
unfolding is_safe_dependency_name contains_char text_eq
net_safe = refl

safe_name_inside_example :
    (contains_char b'/' (codes "net") ≡ false)
    × (lexically_normal (absolute_path (codes "srv" ∷ codes "net" ∷ []))
        ≡ absolute_path (codes "srv" ∷ codes "net" ∷ []))
    × (path_contained_by
          (absolute_path (codes "srv" ∷ codes "net" ∷ []))
          (absolute_path (codes "srv" ∷ []))
        ≡ true)
safe_name_inside_example = safe_name_inside (codes "srv" ∷ []) (codes "net") srv_root net_safe

abbrev two_refs : List Text → GitResult
two_refs args = record {
  status = 0;
  output =
      codes "c0"
      ++ 9 ∷ codes "refs/tags/v1"
      ++ 10 ∷ codes "c1"
      ++ 9 ∷ codes "refs/tags/v1^{}"
      ++ 10 ∷ [];
}

-- The commit that an annotated tag points at is taken.
tag_peeled :
    resolve_git_commit two_refs any_source (codes "https://h/zlib.git") (codes "v1")
    ≡ ok (codes "c1")
unfolding resolve_git_commit check_source_trust text_eq starts_with split_at trim strip_left
    strip_right is_space unquote looks_like_option classify_lower to_lower
tag_peeled = refl
