-- ===== src/Threads/Path/Segments.antt =====
-- Which paths validate_thread_path accepts, and what parent_path makes of them.
use winglib.Base.{
  ℕ, ◌≡◌, refl, ◌≢◌, ◌↔◌, inl, inr, ap, sym, ◌∙◌, true, false, List, [], ◌∷◌, ◌++◌, none, some,
  arith, Text, codes, text_eq_iff, contains_char, contains_char-append, ◌==◌, All, Bool-cases,
  Option-cases, append_assoc, append-nil,
}
use winglib.Threads.Path.{
  before_last, parent_path, ends_with_slash, check_segment, check_segments, validate_thread_path,
}

pub record IsSegment (s : Text) : Type 0 where
  pub non_empty : s ≢ []
  pub no_slash : contains_char b'/' s ≡ false
  pub not_dot : s ≢ codes "."
  pub not_dots : s ≢ codes ".."

-- "/" before each segment.
abbrev pub join : List Text → Text
join [] = []
join (s ∷ ss) = b'/' ∷ (s ++ join ss)

pub record IsThreadPath (path : Text) : Type 0 where
  pub segments : List Text
  pub some_segment : segments ≢ []
  pub good : All IsSegment segments
  pub spelled : path ≡ join segments

pub check_segment-none :
    (s : Text) → contains_char b'/' s ≡ false → check_segment s ≡ none → IsSegment s
unfolding check_segment
check_segment-none s h e = record {
  non_empty = λ q. ground arith;
  no_slash = h;
  not_dot = λ q. ground (arith, text_eq_iff s (codes "."));
  not_dots = λ q. ground (arith, text_eq_iff s (codes ".."));
}

IsSegment-check : (s : Text) → IsSegment s → check_segment s ≡ none
unfolding check_segment
IsSegment-check [] g = absurd (g.non_empty refl)
IsSegment-check (c ∷ s) g = ground (
  arith,
  text_eq_iff (c ∷ s) (codes "."),
  text_eq_iff (c ∷ s) (codes ".."),
  g.not_dot,
  g.not_dots,
)

no_slash_snoc :
    (s : Text) (c : ℕ)
    → contains_char b'/' s ≡ false
    → (c == b'/') ≡ false
    → contains_char b'/' (s ++ c ∷ []) ≡ false
unfolding contains_char
no_slash_snoc s c h e = ground (arith, contains_char-append b'/' s (c ∷ []))

-- What the loop has read and has still to read is a first segment and further ones.
check_segments_sound :
    (seg rest : Text)
    → contains_char b'/' seg ≡ false
    → check_segments seg rest ≡ none
    → (s : Text) × (ss : List Text) × All IsSegment (s ∷ ss) × (seg ++ rest ≡ s ++ join ss)
unfolding check_segments contains_char
check_segments_sound seg [] h e = (seg, [], (check_segment-none seg h e, tt), refl)
check_segments_sound seg (c ∷ rest) h e = elim (Bool-cases (c == b'/')) [
  | inl slash ↦ elim (Option-cases (check_segment seg)) [
    | inl fine ↦
        let (s, ss, g, q) = check_segments_sound [] rest refl (ground (arith, slash, fine)) in
        (seg, s ∷ ss, (check_segment-none seg h fine, g), ground (arith, q))
    | inr (x, bad) ↦ ground (arith, slash, bad)
  ]
  | inr other ↦
      let (s, ss, g, q) =
        check_segments_sound (seg ++ c ∷ []) rest (no_slash_snoc seg c h other)
          (ground (arith, other)) in
      (s, ss, g, sym (append_assoc seg (c ∷ []) rest) ∙ q)
]

check_segments_complete :
    (seg s : Text) (ss : List Text)
    → contains_char b'/' s ≡ false
    → check_segment (seg ++ s) ≡ none
    → All IsSegment ss
    → check_segments seg (s ++ join ss) ≡ none
unfolding check_segments contains_char
check_segments_complete seg [] [] h e g = rw (append-nil) at e
check_segments_complete seg [] (t ∷ ts) h e g =
    let e' : check_segment seg ≡ none = rw (append-nil) at e in
    rw (e', check_segments)
      (check_segments_complete [] t ts g.0.no_slash (IsSegment-check t g.0) g.1)
check_segments_complete seg (c ∷ s) ss h e g =
    let q : ((c == b'/') ≡ false) × (contains_char b'/' s ≡ false) = ground arith in
    rw (q.0, check_segments)
      (check_segments_complete (seg ++ c ∷ []) s ss q.1 (rw append_assoc e) g)

-- A text that ends with a slash has an empty last segment.
check_segments_slash :
    (seg : Text) (c : ℕ) (rest : Text)
    → ends_with_slash (c ∷ rest) ≡ true
    → check_segments seg (c ∷ rest) ≢ none
unfolding ends_with_slash check_segments check_segment
check_segments_slash seg c [] h e = elim (Option-cases (check_segment seg)) [
  | inl q ↦ ground (arith, h, q)
  | inr (x, q) ↦ ground (arith, h, q)
]
check_segments_slash seg c (d ∷ rest) h e = elim (Bool-cases (c == b'/')) [
  | inl slash ↦ elim (Option-cases (check_segment seg)) [
    | inl fine ↦ check_segments_slash [] d rest h (ground (arith, slash, fine))
    | inr (x, bad) ↦ ground (arith, slash, bad)
  ]
  | inr other ↦ check_segments_slash (seg ++ c ∷ []) d rest h (ground (arith, other))
]

no_slash_end :
    (c : ℕ) (rest : Text) → check_segments [] (c ∷ rest) ≡ none → ends_with_slash (c ∷ rest) ≡ false
no_slash_end c rest fine = elim (Bool-cases (ends_with_slash (c ∷ rest))) [
  | inl h ↦ absurd (check_segments_slash [] c rest h fine)
  | inr h ↦ h
]

validate_thread_path_sound : (path : Text) → validate_thread_path path ≡ none → IsThreadPath path
unfolding validate_thread_path contains_char
validate_thread_path_sound [] e = cc
validate_thread_path_sound (c ∷ rest) e =
    let q : (c ≡ b'/') × (check_segments [] rest ≡ none) = ground arith in
    let (s, ss, g, p) = check_segments_sound [] rest refl q.1 in
    record { segments = s ∷ ss; some_segment = λ x. cc; good = g; spelled = cc (q.0, p) }

validate_thread_path-join :
    (s : Text) (ss : List Text)
    → All IsSegment (s ∷ ss)
    → validate_thread_path (join (s ∷ ss)) ≡ none
unfolding validate_thread_path
validate_thread_path-join [] ss g = absurd (g.0.non_empty refl)
validate_thread_path-join (d ∷ s) ss g =
    let fine =
      check_segments_complete [] (d ∷ s) ss g.0.no_slash (IsSegment-check (d ∷ s) g.0) g.1 in
    ground (arith, fine, no_slash_end d (s ++ join ss) fine)

validate_thread_path_complete : (path : Text) → IsThreadPath path → validate_thread_path path ≡ none
validate_thread_path_complete path v = split v.segments v.some_segment v.good v.spelled
  where
    split :
        (ss : List Text)
        → ss ≢ []
        → All IsSegment ss
        → path ≡ join ss
        → validate_thread_path path ≡ none
    split [] n g e = absurd (n refl)
    split (s ∷ ss) n g e = rw e (validate_thread_path-join s ss g)

-- validate_thread_path accepts exactly the paths that are one or more good segments, each behind a
-- slash: a good segment is not empty, has no slash, and is neither "." nor "..".
pub validate_thread_path-IsThreadPath :
    (path : Text) → (validate_thread_path path ≡ none) ↔ IsThreadPath path
validate_thread_path-IsThreadPath path =
    (validate_thread_path_sound path, validate_thread_path_complete path)

before_last-none : (s : Text) → contains_char b'/' s ≡ false → before_last b'/' s ≡ none
unfolding before_last contains_char
before_last-none [] h = refl
before_last-none (c ∷ s) h = ground (arith, before_last-none s)

before_last-append :
    (a s : Text) → contains_char b'/' s ≡ false → before_last b'/' (a ++ b'/' ∷ s) ≡ some a
unfolding before_last
before_last-append [] s h = rw (before_last-none s h, before_last)
before_last-append (c ∷ a) s h = rw (before_last-append a s h, before_last)

join-append : (ss : List Text) (s : Text) → join (ss ++ s ∷ []) ≡ join ss ++ b'/' ∷ s
join-append [] s = rw append-nil
join-append (t ∷ ss) s = ap (λ x. b'/' ∷ x) (rw (join-append ss s, append_assoc))

parent_path_of : (path a : Text) → before_last b'/' path ≡ some a → parent_path path ≡ a
unfolding parent_path
parent_path_of path [] e = rw (e, parent_path)
parent_path_of path (c ∷ a) e = rw (e, parent_path)

-- The parent of a path is the path without its last segment, and the empty text for a path of one
-- segment: it names the thread above, to which a new thread's exit is reported.
pub parent_path-join :
    (ss : List Text) (s : Text) → IsSegment s → parent_path (join (ss ++ s ∷ [])) ≡ join ss
parent_path-join ss s g =
    parent_path_of _ _ (rw (join-append ss s) (before_last-append (join ss) s g.no_slash))
