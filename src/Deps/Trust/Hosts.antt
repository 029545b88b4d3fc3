-- ===== src/Deps/Trust/Hosts.antt =====
-- Which host the allowed-hosts list is compared with.
use winglib.Base.{
  ◌≡◌, ◌↔◌, ◌⊎◌, sym, refl, append_assoc, ap, ◌∙◌, inl, inr, true, false, [], ◌∷◌, ◌++◌, arith,
  Text, to_lower, starts_with, split_at-none, split_at-append, contains_char, contains_char-append,
  ok, err, ◌≢◌, List, In, codes, to_lower_char,
}
use winglib.Deps.Trust.Letters.{
  SameCase, to_lower_iff, to_lower-append, contains_char-to_lower, any-to_lower_iff,
}
use winglib.Deps.Trust.{
  SourceKind, https_scheme, http_scheme, git_scheme, ssh_scheme, after_at, before_end, remote_host,
  classify_lower, classify_source, SourceTrustPolicy, untrusted_transport, secure_remote,
  host_allowed, no_hosts, judge, check_source_trust,
}

-- Neither a slash nor a colon.
abbrev pub IsHost : Text → Type 0
IsHost h = (contains_char b'/' h ≡ false) × (contains_char b':' h ≡ false)

before_end_slash : (h t : Text) → IsHost h → before_end (h ++ b'/' ∷ t) ≡ h
unfolding before_end contains_char
before_end_slash [] t g = refl
before_end_slash (c ∷ h) t g =
    let rest : IsHost h = (ground arith, ground arith) in ground (arith, before_end_slash h t rest)

remote_host_at :
    (user h path : Text)
    → contains_char b'@' user ≡ false
    → IsHost h
    → remote_host (user ++ b'@' ∷ (h ++ b'/' ∷ path)) ≡ h
unfolding remote_host
remote_host_at user h path n g =
    rw (split_at-append b'@' user (h ++ b'/' ∷ path) n, after_at) (before_end_slash h path g)

classify_https :
    (url r : Text)
    → to_lower url ≡ https_scheme ++ r
    → classify_source url ≡ (secure_remote, remote_host r)
unfolding classify_source classify_lower starts_with
classify_https url r e = rw e

no_hosts-false : (hosts : List Text) → hosts ≢ [] → no_hosts hosts ≡ false
no_hosts-false [] n = absurd (n refl)
no_hosts-false (h ∷ hosts) n = refl

-- The verdict on an https source is that of the list on its host.
judge_secure :
    (policy : SourceTrustPolicy) (host : Text)
    → no_hosts policy.allowed_hosts ≡ false
    → (judge policy secure_remote host ≡ ok tt) ↔ (host_allowed policy.allowed_hosts host ≡ true)
unfolding judge
judge_secure policy host n = ((λ e. ground arith), λ e. ground arith)

judge_allowed :
    (policy : SourceTrustPolicy) (host : Text)
    → host_allowed policy.allowed_hosts host ≡ true
    → judge policy secure_remote host ≡ ok tt
unfolding judge
judge_allowed policy host m = ground (arith, m)

check_https :
    (url r : Text) (policy : SourceTrustPolicy)
    → to_lower url ≡ https_scheme ++ r
    → check_source_trust url policy ≡ judge policy secure_remote (remote_host r)
unfolding check_source_trust
check_https url r policy e =
    ap (λ (p : SourceKind × Text). judge policy p.0 p.1) (classify_https url r e)

-- What may stand behind the host in a URL: nothing, a path or a port.
abbrev pub EndsHost : Text → Type 0
EndsHost [] = Unit {0}
EndsHost (c ∷ t) = (c ≡ b'/') ⊎ (c ≡ b':')

before_end-append : (h t : Text) → IsHost h → EndsHost t → before_end (h ++ t) ≡ h
unfolding before_end contains_char
before_end-append [] [] g e = refl
before_end-append [] (c ∷ t) g e = ground (arith, e)
before_end-append (c ∷ h) t g e =
    let rest : IsHost h = (ground arith, ground arith) in
    ground (arith, before_end-append h t rest e)

to_lower-EndsHost : (t : Text) → EndsHost t → EndsHost (to_lower t)
unfolding to_lower to_lower_char
to_lower-EndsHost [] e = tt
to_lower-EndsHost (c ∷ t) (inl e) = inl (ground (arith, e))
to_lower-EndsHost (c ∷ t) (inr e) = inr (ground (arith, e))

-- The host that the list is compared with is the URL's, in small letters.
classified_host :
    (host tail : Text)
    → IsHost host
    → EndsHost tail
    → contains_char b'@' (host ++ tail) ≡ false
    → remote_host (to_lower (host ++ tail)) ≡ to_lower host
unfolding remote_host
classified_host host tail g t n =
    let small : IsHost (to_lower host) = (
      contains_char-to_lower b'/' host (omega arith) g.0,
      contains_char-to_lower b':' host (omega arith) g.1,
    ) in
    rw
      (
        split_at-none b'@' (to_lower (host ++ tail))
            (contains_char-to_lower b'@' (host ++ tail) (omega arith) n),
        after_at,
        to_lower-append host tail,
      )
      (before_end-append (to_lower host) (to_lower tail) small (to_lower-EndsHost tail t))

spelled_https :
    (scheme rest : Text)
    → SameCase scheme (codes "https://")
    → to_lower (scheme ++ rest) ≡ https_scheme ++ to_lower rest
unfolding to_lower https_scheme
spelled_https scheme rest h =
    to_lower-append scheme rest
    ∙ ap (λ t. t ++ to_lower rest) ((to_lower_iff scheme (codes "https://")).1 h)

-- With a list of allowed hosts, an https source whose URL has no "@" is trusted exactly if its host
-- is an entry of the list, whatever the case of the letters in the scheme, the host and the entry,
-- and whether a path, a port or nothing stands behind the host.
pub https_trusted_iff :
    (scheme host tail : Text) (policy : SourceTrustPolicy)
    → SameCase scheme (codes "https://")
    → IsHost host
    → EndsHost tail
    → contains_char b'@' (host ++ tail) ≡ false
    → policy.allowed_hosts ≢ []
    → (check_source_trust (scheme ++ (host ++ tail)) policy ≡ ok tt)
      ↔ ((entry : Text) × In entry policy.allowed_hosts × SameCase entry host)
unfolding host_allowed
https_trusted_iff scheme host tail policy h g t n m =
    let same =
      check_https (scheme ++ (host ++ tail)) (to_lower (host ++ tail)) policy
        (spelled_https scheme (host ++ tail) h)
      ∙ ap (judge policy secure_remote) (classified_host host tail g t n) in
    let verdict = judge_secure policy (to_lower host) (no_hosts-false policy.allowed_hosts m) in
    let listed = any-to_lower_iff policy.allowed_hosts host in
    ((λ q. listed.0 (verdict.0 (sym same ∙ q))), λ q. same ∙ verdict.1 (listed.1 q))

-- But the host is looked for behind the first "@" of the whole URL, and that may stand in the path:
-- an https source on any host at all is trusted, if its path begins with "@" and an allowed host.
pub host_list_bypass :
    (url host allowed path : Text) (policy : SourceTrustPolicy)
    → to_lower url ≡ https_scheme ++ (host ++ b'/' ∷ b'@' ∷ (allowed ++ b'/' ∷ path))
    → contains_char b'@' host ≡ false
    → IsHost allowed
    → host_allowed policy.allowed_hosts allowed ≡ true
    → check_source_trust url policy ≡ ok tt
unfolding contains_char
host_list_bypass url host allowed path policy e n g m =
    let rest = b'@' ∷ (allowed ++ b'/' ∷ path) in
    let user = host ++ b'/' ∷ [] in
    let clean : contains_char b'@' user ≡ false =
      rw (contains_char-append b'@' host (b'/' ∷ []), n, contains_char) refl in
    let split : to_lower url ≡ https_scheme ++ (user ++ rest) =
      e ∙ ap (λ (t : Text). https_scheme ++ t) (sym (append_assoc host (b'/' ∷ []) rest)) in
    check_https url (user ++ rest) policy split
    ∙ ap (judge policy secure_remote) (remote_host_at user allowed path clean g)
    ∙ judge_allowed policy allowed m

-- Over http and git no source is trusted, unless the policy allows insecure transport, however the
-- scheme is spelled and whatever the list of hosts says.
pub cleartext_refused :
    (url r : Text) (policy : SourceTrustPolicy)
    → (to_lower url ≡ http_scheme ++ r) ⊎ (to_lower url ≡ git_scheme ++ r)
    → policy.allow_insecure_transport ≡ false
    → check_source_trust url policy ≡ err untrusted_transport
unfolding check_source_trust classify_source classify_lower judge starts_with https_scheme
    ssh_scheme http_scheme git_scheme
cleartext_refused url r policy (inl e) n = rw e (ground (arith, n))
cleartext_refused url r policy (inr e) n = rw e (ground (arith, n))
