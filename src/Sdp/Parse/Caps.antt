-- ===== src/Sdp/Parse/Caps.antt =====
-- The caps and the strictness of the parser of modules/wl2_sdp/src/sdp.cpp, on every text it accepts.
pub mod Steps
use winglib.Base.{
  ◌≡◌, refl, ap, subst, ◌∙◌, ℕ, suc, ◌+◌, ◌≤◌, ◌<◌, Bool, true, false, not, ◌&&◌, List, [], ◌∷◌,
  ◌++◌, Text, is_empty, ◌==◌, arith, Bool-cases, Option-cases, inl, inr, length, length-append, ltb,
  leb, Result, ok, >>=-eq-ok,
}
use winglib.Sdp.Lines.{Line, Media, Session, ParseOptions, split_spaces, has_line_type}
use winglib.Sdp.Parse.{
  segments, parse_line, parse_lines, parse_content, parse_media, parse_stripped, strip_cr,
  type_and_value, store_line, add_to_last, push_media, media_of, parse_with, empty_session,
  check_required, warn, short_media_warning, malformed_warning,
}
use winglib.Sdp.Parse.Turns.{with_session}
use winglib.Sdp.Parse.Output.{section_lines, all_lines}
use winglib.Sdp.Parse.Caps.Steps.{Step, ok_inj, parse_content-Step}

-- What holds of a session and the count of its lines while the parser runs.
abbrev Within : ParseOptions → Session → ℕ → Type 0
Within options s count =
    (length (all_lines s) ≤ count)
    × (count ≤ options.max_lines)
    × (length s.media ≤ options.max_media)
    × (options.lenient ≡ false → s.warnings ≡ [])

Step-Within :
    (options : ParseOptions) (s t : Session) (count : ℕ)
    → Within options s count
    → count < options.max_lines
    → Step options s t
    → Within options t (count + 1)
Step-Within options s t count w n q =
    (omega (arith, w.0, q.0), omega arith, q.1 w.2, λ k. q.2 k ∙ w.3 k)

abbrev WithinState : ParseOptions → Session × ℕ → Type 0
WithinState options (s, count) = Within options s count

parse_stripped-Within :
    (options : ParseOptions) (line : Text) (had_cr : Bool) (s : Session) (count : ℕ)
    (after : Session × ℕ)
    → Within options s count
    → parse_stripped options (line, had_cr) (s, count) ≡ ok after
    → WithinState options after
unfolding parse_stripped
parse_stripped-Within options line had_cr s count after w h = elim (Bool-cases (is_empty line)) [
  | inl e ↦ subst (WithinState options) (ok_inj (rw (e) at h)) w
  | inr filled ↦ elim (Bool-cases (options.crlf_only && not had_cr)) [
    | inl bare ↦ elim (Bool-cases options.lenient) [
      | inl lax ↦
          subst (WithinState options) (ok_inj (rw (filled, bare, lax) at h))
            (w.0, w.1, w.2, λ k. cc (lax, k))
      | inr strict ↦ cc (rw (filled, bare, strict) at h)
    ]
    | inr n ↦ elim (Bool-cases (ltb options.max_lines (count + 1))) [
      | inl over ↦ cc (rw (filled, n, over) at h)
      | inr below ↦
          let (t, e, f) =
            >>=-eq-ok (parse_content options line s) (λ t. ok (t, count + 1))
              (rw (filled, n, below) at h) in
          subst (WithinState options) (ok_inj f)
            (Step-Within options s t count w (ground arith) (parse_content-Step options line s t e))
    ]
  ]
]

parse_line-Within :
    (options : ParseOptions) (segment : Text) (s : Session) (count : ℕ) (after : Session × ℕ)
    → Within options s count
    → parse_line options segment (s, count) ≡ ok after
    → WithinState options after
unfolding parse_line
parse_line-Within options segment s count after w h =
    parse_stripped-Within options (strip_cr segment).0 (strip_cr segment).1 s count after w h

parse_lines-Within :
    (options : ParseOptions) (rest : List Text) (s : Session) (count : ℕ) (after : Session × ℕ)
    → Within options s count
    → parse_lines options rest (s, count) ≡ ok after
    → WithinState options after
unfolding parse_lines
parse_lines-Within options [] s count after w h = subst (WithinState options) (ok_inj h) w
parse_lines-Within options (segment ∷ rest) s count after w h =
    let ((t, n), e, f) =
      >>=-eq-ok (parse_line options segment (s, count)) (parse_lines options rest) h in
    parse_lines-Within options rest t n after (parse_line-Within options segment s count (t, n) w e)
      f

check_required-ok :
    (options : ParseOptions) (s t : Session)
    → check_required options s ≡ ok t
    → (s ≡ t)
      × (options.lenient ≡ false
          → (has_line_type t.lines b'v' ≡ true) × (has_line_type t.lines b's' ≡ true))
unfolding check_required
check_required-ok options s t h = elim (Bool-cases options.lenient) [
  | inl lax ↦ (ok_inj (rw (check_required, lax) at h), λ k. cc (lax, k))
  | inr strict ↦ elim (Bool-cases (has_line_type s.lines b'v')) [
    | inl v ↦ elim (Bool-cases (has_line_type s.lines b's')) [
      | inl r ↦
          let e : s ≡ t = ok_inj (rw (strict, v, r) at h) in
          (
            e,
            λ k. (
              subst (λ x. has_line_type x.lines b'v' ≡ true) e v,
              subst (λ x. has_line_type x.lines b's' ≡ true) e r,
            ),
          )
      | inr r ↦ cc (rw (strict, v, r) at h)
    ]
    | inr v ↦ cc (rw (strict, v) at h)
  ]
]

-- A session that parse returns: the text is within maxLen, its lines, m= lines included, within
-- maxLines and its media sections within maxMedia, and unless the parser was lenient it has the v= and
-- s= lines and no warnings.
pub parse_with-caps :
    (text : Text) (options : ParseOptions) (s : Session)
    → parse_with text options ≡ ok s
    → (length text ≤ options.max_len)
      × (length (all_lines s) ≤ options.max_lines)
      × (length s.media ≤ options.max_media)
      × (options.lenient ≡ false
          → (s.warnings ≡ [])
            × (has_line_type s.lines b'v' ≡ true)
            × (has_line_type s.lines b's' ≡ true))
unfolding parse_with empty_session
parse_with-caps text options s h = elim (Bool-cases (ltb options.max_len (length text))) [
  | inl e ↦ cc (rw (e) at h)
  | inr e ↦
      let ((t, n), p, q) =
        >>=-eq-ok (parse_lines options (segments text) (empty_session text, 0)) _ (rw (e) at h) in
      let w =
        parse_lines-Within options (segments text) (empty_session text) 0 (t, n)
          (omega arith, omega arith, omega arith, λ k. refl) p in
      let (same, required) = check_required-ok options t s q in
      let v : Within options s n = subst (λ x. Within options x n) same w in
      (
        ground (arith, e),
        omega (arith, v.0, v.1),
        v.2,
        λ k. (v.3 k, (required k).0, (required k).1),
      )
]
