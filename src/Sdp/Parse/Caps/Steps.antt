-- ===== src/Sdp/Parse/Caps/Steps.antt =====
-- What a line of a text does to the sizes of the session: parse of modules/wl2_sdp/src/sdp.cpp.
use winglib.Base.{
  ◌≡◌, refl, ap, subst, suc, ◌+◌, ◌≤◌, ◌<◌, true, false, not, ◌&&◌, List, [], ◌∷◌, ◌++◌, Text, ◌==◌,
  arith, Bool-cases, Option-cases, inl, inr, length, length-append, ltb, leb, Result, ok,
}
use winglib.Sdp.Lines.{Line, Media, Session, ParseOptions, split_spaces}
use winglib.Sdp.Parse.{
  parse_content, parse_media, type_and_value, store_line, add_to_last, push_media, media_of, warn,
  short_media_warning, malformed_warning,
}
use winglib.Sdp.Parse.Turns.{with_session}
use winglib.Sdp.Parse.Output.{section_lines, all_lines}

section_lines-push :
    (media : List Media) (m : Media)
    → length (section_lines (media ++ m ∷ [])) ≡ length (section_lines media) + suc (length m.lines)
section_lines-push [] m = omega (arith, length-append m.lines [])
section_lines-push (k ∷ media) m = omega (
  arith,
  length-append k.lines (section_lines (media ++ m ∷ [])),
  length-append k.lines (section_lines media),
  section_lines-push media m,
)

section_lines-add_to_last :
    (l : Line) (m : Media) (media : List Media)
    → length (section_lines (add_to_last l (m ∷ media))) ≡ suc (length (section_lines (m ∷ media)))
unfolding add_to_last
section_lines-add_to_last l m [] = omega (
  arith,
  length-append (m.lines ++ l ∷ []) [],
  length-append m.lines (l ∷ []),
  length-append m.lines [],
)
section_lines-add_to_last l m (k ∷ media) = omega (
  arith,
  length-append m.lines (section_lines (add_to_last l (k ∷ media))),
  length-append m.lines (section_lines (k ∷ media)),
  section_lines-add_to_last l k media,
)

length-add_to_last : (l : Line) (media : List Media) → length (add_to_last l media) ≡ length media
unfolding add_to_last
length-add_to_last l [] = refl
length-add_to_last l (m ∷ []) = refl
length-add_to_last l (m ∷ k ∷ media) = ap suc (length-add_to_last l (k ∷ media))

pub ok_inj : {E A : Type 0} {a b : A} → ◌≡◌ {A = Result E A} (ok a) (ok b) → a ≡ b
ok_inj e = cc e

-- What one line may do to the session.
abbrev pub Step : ParseOptions → Session → Session → Type 0
Step options s t =
    (length (all_lines t) ≤ suc (length (all_lines s)))
    × (length s.media ≤ options.max_media → length t.media ≤ options.max_media)
    × (options.lenient ≡ false → t.warnings ≡ s.warnings)

store_line-Step_by :
    (options : ParseOptions) (l : Line) (s : Session) (lines : List Line) (media : List Media)
    → Step options (with_session s lines media) (store_line l (with_session s lines media))
unfolding store_line
store_line-Step_by options l s lines [] = (
  omega (
    arith,
    length-append (lines ++ l ∷ []) [],
    length-append lines (l ∷ []),
    length-append lines [],
  ),
  λ h. h,
  λ h. refl,
)
store_line-Step_by options l s lines (m ∷ media) = (
  omega (
    arith,
    length-append lines (section_lines (add_to_last l (m ∷ media))),
    length-append lines (section_lines (m ∷ media)),
    section_lines-add_to_last l m media,
  ),
  λ h. omega (arith, h, length-add_to_last l (m ∷ media)),
  λ h. refl,
)

store_line-Step :
    (options : ParseOptions) (l : Line) (s : Session) → Step options s (store_line l s)
store_line-Step options l s = store_line-Step_by options l s s.lines s.media

media_of-lines : (tokens : List Text) → (media_of tokens).lines ≡ []
unfolding media_of
media_of-lines [] = refl
media_of-lines (kind ∷ []) = refl
media_of-lines (kind ∷ port ∷ []) = refl
media_of-lines (kind ∷ port ∷ proto ∷ formats) = refl

push_media-Step :
    (options : ParseOptions) (m : Media) (s : Session)
    → m.lines ≡ []
    → length s.media < options.max_media
    → Step options s (push_media m s)
push_media-Step options m s e h = (
  omega (
    arith,
    length-append s.lines (section_lines (s.media ++ m ∷ [])),
    length-append s.lines (section_lines s.media),
    section_lines-push s.media m,
    ap length e,
  ),
  λ k. omega (arith, length-append s.media (m ∷ [])),
  λ k. refl,
)

parse_media-Step :
    (options : ParseOptions) (line : Text) (tokens : List Text) (s t : Session)
    → parse_media options line tokens s ≡ ok t
    → Step options s t
unfolding parse_media
parse_media-Step options line tokens s t h =
    elim (Bool-cases (leb options.max_media (length s.media))) [
      | inl full ↦ elim (Bool-cases (ltb (length tokens) 3 && not options.lenient)) [
        | inl e ↦ cc (rw (e) at h)
        | inr e ↦ cc (rw (e, full) at h)
      ]
      | inr free ↦ elim (Bool-cases (ltb (length tokens) 3)) [
        | inl short ↦ elim (Bool-cases options.lenient) [
          | inl lax ↦
              let m = media_of tokens in
              let q =
                push_media-Step options m (warn (short_media_warning line) s)
                  (media_of-lines tokens) (ground arith) in
              let e : push_media m (warn (short_media_warning line) s) ≡ t =
                ok_inj (rw (short, lax, free) at h) in
              let r = subst (Step options (warn (short_media_warning line) s)) e q in
              (r.0, r.1, λ k. cc (lax, k))
          | inr strict ↦ cc (rw (short, strict) at h)
        ]
        | inr long ↦
            let e : push_media (media_of tokens) s ≡ t = ok_inj (rw (long, free) at h) in
            subst (Step options s) e
              (push_media-Step options (media_of tokens) s (media_of-lines tokens) (ground arith))
      ]
    ]

-- A warning changes nothing else, and is given in the lenient mode only.
warn-Step :
    (options : ParseOptions) (w : Text) (s t : Session)
    → options.lenient ≡ true
    → warn w s ≡ t
    → Step options s t
warn-Step options w s t lax e = subst (Step options s) e (omega arith, λ h. h, λ k. cc (lax, k))

pub parse_content-Step :
    (options : ParseOptions) (line : Text) (s t : Session)
    → parse_content options line s ≡ ok t
    → Step options s t
unfolding parse_content
parse_content-Step options line s t h = elim (Option-cases (type_and_value line)) [
  | inl e ↦ elim (Bool-cases options.lenient) [
    | inl lax ↦
        warn-Step options (malformed_warning line) s t lax
          (ok_inj (rw (parse_content, e, lax) at h))
    | inr strict ↦ cc (rw (parse_content, e, strict) at h)
  ]
  | inr ((type, value), e) ↦ elim (Bool-cases (type == b'm')) [
    | inl m ↦ parse_media-Step options line (split_spaces value) s t (rw (parse_content, e, m) at h)
    | inr n ↦
        subst (Step options s) (ok_inj (rw (parse_content, e, n) at h))
          (store_line-Step options _ s)
  ]
]
