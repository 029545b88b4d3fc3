-- ===== src/Permissions/Endpoints/Sound.antt =====
-- What endpoint_inside allows, read as sets of hosts and ports.
use winglib.Base.{
  ◌≡◌, ◌≢◌, refl, sym, ap, inl, inr, Bool, true, false, ◌&&◌, ◌||◌, not, List, [], ◌∷◌, ◌++◌, none,
  some, arith, Text, text_eq, text_eq_iff, text_eq_refl, split_last, split_last-append,
  split_last-none, contains_char, any, Option-cases, Bool-cases,
}
use winglib.Permissions.Endpoints.{star, star_star, colon_star, endpoint_matches, endpoint_inside}

-- The endpoint (host, port) is among those that an entry names: "*" names every host, a host alone
-- all of its ports, "host:port" one port, and "*" stands for any host or any port.
abbrev pub names : Text → Text → Text → Bool
names entry host port = elim (split_last b':' entry) [
  | none ↦ text_eq entry star || text_eq entry host
  | some (h, p) ↦ (text_eq h star || text_eq h host) && (text_eq p star || text_eq p port)
]

star_names : (h p : Text) → names star h p ≡ true
unfolding star split_last text_eq
star_names h p = refl

star_star_names : (h p : Text) → names star_star h p ≡ true
unfolding star_star star split_last text_eq
star_star_names h p = refl

matches_host :
    (entry host h : Text)
    → text_eq entry host ≡ true
    → (text_eq host star || text_eq host h) ≡ true
    → (text_eq entry star || text_eq entry h) ≡ true
matches_host entry host h m a = rw ((text_eq_iff entry host).0 m) a

matches_port :
    (entry port p : Text)
    → (text_eq entry star || (not (text_eq port star) && text_eq entry port)) ≡ true
    → (text_eq port star || text_eq port p) ≡ true
    → (text_eq entry star || text_eq entry p) ≡ true
matches_port entry port p m a = ground (arith, text_eq_iff entry port, m, a)

matches_names :
    (entry host port h p : Text)
    → endpoint_matches entry host port ≡ true
    → (text_eq host star || text_eq host h) ≡ true
    → (text_eq port star || text_eq port p) ≡ true
    → names entry h p ≡ true
unfolding endpoint_matches
matches_names entry host port h p m a b = elim (Bool-cases (text_eq entry star)) [
  | inl e ↦ rw ((text_eq_iff entry star).0 e) (star_names h p)
  | inr e ↦ elim (Bool-cases (text_eq entry star_star)) [
    | inl f ↦ rw ((text_eq_iff entry star_star).0 f) (star_star_names h p)
    | inr f ↦ elim (Option-cases (split_last b':' entry)) [
      | inl q ↦ ground (arith, e, f, q, matches_host entry host h)
      | inr ((eh, ep), q) ↦ ground (arith, e, f, q, matches_host eh host h, matches_port ep port p)
    ]
  ]
]

-- An approved entry names the endpoint.
abbrev pub some_names : List Text → Text → Text → Bool
some_names approved h p = any (λ entry. names entry h p) approved

any_mono :
    (f g : Text → Bool)
    → ((x : Text) → f x ≡ true → g x ≡ true)
    → (xs : List Text) → any f xs ≡ true
    → any g xs ≡ true
any_mono f g k [] h = h
any_mono f g k (x ∷ xs) h = ground (arith, k x, any_mono f g k xs)

split_colon_star : (s : Text) → split_last b':' (s ++ colon_star) ≡ some (s, star)
unfolding colon_star star contains_char
split_colon_star s = split_last-append b':' s star refl

bare_names :
    (entry requested h p : Text)
    → split_last b':' requested ≡ none
    → (text_eq entry star || (text_eq entry requested || text_eq entry (requested ++ colon_star)))
      ≡ true
    → names requested h p ≡ true
    → names entry h p ≡ true
bare_names entry requested h p q m n = elim (Bool-cases (text_eq entry star)) [
  | inl e ↦ rw ((text_eq_iff entry star).0 e) (star_names h p)
  | inr e ↦ elim (Bool-cases (text_eq entry requested)) [
    | inl f ↦ rw ((text_eq_iff entry requested).0 f) n
    | inr f ↦
        let g : entry ≡ requested ++ colon_star =
          (text_eq_iff entry (requested ++ colon_star)).0 (ground (arith, e, f, m)) in
        rw g (ground (arith, split_colon_star requested, q, n, text_eq_refl star))
  ]
]

-- What is inside gives no more than what was approved: every host and port that the requested
-- endpoint names is named by an approved entry.
pub endpoint_inside_sound :
    (approved : List Text) (requested h p : Text)
    → endpoint_inside approved requested ≡ true
    → names requested h p ≡ true
    → some_names approved h p ≡ true
unfolding endpoint_inside
endpoint_inside_sound approved requested h p e n = elim (Option-cases (split_last b':' requested)) [
  | inl q ↦
      any_mono _ (λ entry. names entry h p) (λ entry m. bare_names entry requested h p q m n)
        approved (rw (q, endpoint_inside) at e)
  | inr ((host, port), q) ↦
      let both : ((text_eq host star || text_eq host h) ≡ true)
          × ((text_eq port star || text_eq port p) ≡ true) =
        ground (arith, q, n) in
      any_mono _ (λ entry. names entry h p)
        (λ entry m. matches_names entry host port h p m both.0 both.1) approved
        (rw (q, endpoint_inside) at e)
]

not_star_star : (host : Text) → contains_char b':' host ≡ false → text_eq star_star host ≡ false
unfolding star_star contains_char
not_star_star host h = elim (Bool-cases (text_eq star_star host)) [
  | inl e ↦ let q : host ≡ star_star = sym ((text_eq_iff star_star host).0 e) in cc (rw q at h)
  | inr e ↦ e
]

not_star-colon_star : (host : Text) → host ≢ star → text_eq star_star (host ++ colon_star) ≡ false
unfolding star_star star split_last
not_star-colon_star host n = elim (Bool-cases (text_eq star_star (host ++ colon_star))) [
  | inl e ↦
      let q = ap (split_last b':') ((text_eq_iff star_star (host ++ colon_star)).0 e) in
      absurd (n (cc (q, split_colon_star host)))
  | inr e ↦ e
]

apart : text_eq star_star star ≡ false
unfolding star_star star text_eq
apart = refl

-- But the code is narrower than that reading: a bare host, which names all ports of the host, is not
-- inside an approval of everything spelled "*:*", although each single port of it is.
pub star_star_gap :
    (host port : Text)
    → contains_char b':' host ≡ false
    → contains_char b':' port ≡ false
    → host ≢ star
    → (endpoint_inside (star_star ∷ []) host ≡ false)
      × (endpoint_inside (star_star ∷ []) (host ++ b':' ∷ port) ≡ true)
      × ((p : Text) → names star_star host p ≡ true)
unfolding endpoint_inside star_star star
star_star_gap host port hh hp ne = (
  rw (split_last-none b':' host hh, endpoint_inside)
      (ground (arith, not_star_star host hh, not_star-colon_star host ne, apart)),
  rw (split_last-append b':' host port hp, endpoint_inside)
      (ground (arith, text_eq_refl star_star)),
  star_star_names host,
)
