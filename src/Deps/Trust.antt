-- ===== src/Deps/Trust.antt =====
-- Which Git sources a policy trusts: classify_source, sourceTrustPolicyFromEnv and checkSourceTrust
-- of src/core/module_deps.cpp.
pub mod Letters
pub mod Hosts
use winglib.Base.{
  ℕ, Bool, true, false, ◌&&◌, ◌||◌, not, List, [], ◌∷◌, ◌++◌, Option, none, some, Text, codes,
  text_eq, to_lower, starts_with, split_at, contains_char, any, is_empty, if◌then◌else◌, Result, ok,
  err, ◌==◌, drop, length,
}
use winglib.Syntax.{contains_text}

pub data SourceKind : Type 0 where
  local secure_remote insecure_remote : SourceKind

unfoldable pub https_scheme : Text
https_scheme = codes "https://"

unfoldable pub ssh_scheme : Text
ssh_scheme = codes "ssh://"

unfoldable pub http_scheme : Text
http_scheme = codes "http://"

unfoldable pub git_scheme : Text
git_scheme = codes "git://"

unfoldable pub file_scheme : Text
file_scheme = codes "file://"

unfoldable pub scheme_end : Text
scheme_end = codes "://"

-- `rest.substr(at + 1)` if there is an '@', by `rest.find('@')`.
unfoldable pub after_at : Text → Text
after_at rest = elim (split_at b'@' rest) [ none ↦ rest | some (user, behind) ↦ behind ]

-- The text before the first of "/:".
unfoldable pub before_end : Text → Text
before_end [] = []
before_end (c ∷ s) = let rest = before_end s in if c == b'/' || c == b':' then [] else c ∷ rest

unfoldable pub remote_host : Text → Text
unfolding after_at before_end
remote_host after_scheme = before_end (after_at after_scheme)

-- user@host:path, with no scheme and with its colon before any slash.
unfoldable pub scp_host : Text → Option Text
unfolding after_at scheme_end
scp_host url = elim (split_at b':' url) [
  | none ↦ none
  | some (before, behind) ↦
      if not (contains_text scheme_end url) && not (contains_char b'/' before)
      then some (after_at before)
      else none
]

-- The kind, and the host or the empty text.
unfoldable pub classify_lower : Text → SourceKind × Text
unfolding https_scheme ssh_scheme http_scheme git_scheme file_scheme
classify_lower url =
    if starts_with https_scheme url
    then (secure_remote, remote_host (drop (length https_scheme) url))
    else if starts_with ssh_scheme url
    then (secure_remote, remote_host (drop (length ssh_scheme) url))
    else if starts_with http_scheme url
    then (insecure_remote, remote_host (drop (length http_scheme) url))
    else if starts_with git_scheme url
    then (insecure_remote, remote_host (drop (length git_scheme) url))
    else if starts_with file_scheme url
    then (local, [])
    else elim (scp_host url) [ none ↦ (local, []) | some host ↦ (secure_remote, host) ]

unfoldable pub classify_source : Text → SourceKind × Text
classify_source url = classify_lower (to_lower url)

pub record SourceTrustPolicy : Type 0 where
  pub allow_local_paths : Bool
  pub allow_insecure_transport : Bool
  pub allowed_hosts : List Text

-- The host names between commas and spaces; `current` is what has been read of one.
unfoldable pub split_hosts : Text → Text → List Text
split_hosts current [] = if is_empty current then [] else current ∷ []
split_hosts current (c ∷ s) =
    let cut = split_hosts [] s in
    let more = split_hosts (current ++ c ∷ []) s in
    if c == b',' || c == b' ' then (if is_empty current then cut else current ∷ cut) else more

-- The three environment variables, empty where they are not set.
unfoldable pub source_trust_policy_from_env : Text → Text → Text → SourceTrustPolicy
unfolding split_hosts
source_trust_policy_from_env allow_insecure deny_local hosts = record {
  allow_local_paths = not (text_eq deny_local (codes "1"));
  allow_insecure_transport = text_eq allow_insecure (codes "1");
  allowed_hosts = split_hosts [] hosts;
}

pub data TrustError : Type 0 where
  untrusted_local untrusted_transport untrusted_host : TrustError

abbrev pub is_insecure : SourceKind → Bool
is_insecure local = false
is_insecure secure_remote = false
is_insecure insecure_remote = true

abbrev pub is_local : SourceKind → Bool
is_local local = true
is_local secure_remote = false
is_local insecure_remote = false

unfoldable pub host_allowed : List Text → Text → Bool
host_allowed allowed host = any (λ entry. text_eq (to_lower entry) host) allowed

abbrev pub no_hosts : List Text → Bool
no_hosts [] = true
no_hosts (h ∷ hs) = false

unfoldable pub judge : SourceTrustPolicy → SourceKind → Text → Result TrustError (Unit {0})
unfolding host_allowed
judge policy kind host =
    if is_local kind
    then (if not policy.allow_local_paths then err untrusted_local else ok tt)
    else if is_insecure kind && not policy.allow_insecure_transport
    then err untrusted_transport
    else if not (no_hosts policy.allowed_hosts) && not (host_allowed policy.allowed_hosts host)
    then err untrusted_host
    else ok tt

unfoldable pub check_source_trust : Text → SourceTrustPolicy → Result TrustError (Unit {0})
unfolding classify_source judge
check_source_trust url policy = let (kind, host) = classify_source url in judge policy kind host
