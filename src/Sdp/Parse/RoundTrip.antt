-- ===== src/Sdp/Parse/RoundTrip.antt =====
-- The parser of modules/wl2_sdp/src/sdp.cpp on the text that its builder prints.
use winglib.Base.{
  All-append, ◌≡◌, refl, sym, ap, ◌∙◌, ℕ, ◌+◌, ◌≤◌, Bool, true, false, not, ◌&&◌, List, [], ◌∷◌,
  ◌++◌, map, append-nil, append_assoc, Text, contains_char, if◌then◌else◌, arith, All, All-map,
  length, length-append, ltb, implies, ok,
}
use winglib.Sdp.Lines.{Line, Media, Session, ParseOptions, has_line_type}
use winglib.Sdp.Parse.{segments, parse_lines}
use winglib.Sdp.Build.{line_text, print_lines, separator, media_line}
use winglib.Sdp.Parse.Printed.{
  LineOk, MediaOk, line_segment, with_lines, no_return, segments-print_lines, no_newline,
}
use winglib.Sdp.Parse.{parse_with, empty_session, check_required, crlf_text, is_some}
use winglib.Sdp.Parse.Turns.{
  read_session_lines, read_media_lines, parse_line-media, with_session, add_zero,
}
use winglib.Sdp.Build.{build, wants_crlf}
use winglib.Sdp.Lines.{LineEnding}
use winglib.Syntax.{contains_text, drop_last}
use mathlib.Core.List.{map-append}
use winglib.Sdp.Parse.Output.{
  section_lines, all_lines, exact, build-all_lines, crlf-print_lines, newline-print_lines,
}

read_media :
    (options : ParseOptions) (crlf : Bool) (fits : implies options.crlf_only crlf ≡ true)
    (s : Session) (new : List Media) (lines : List Line) (media : List Media) (count : ℕ)
    → All MediaOk new
    → count + length (section_lines new) ≤ options.max_lines
    → length media + length new ≤ options.max_media
    → parse_lines options
        (map (line_segment crlf) (section_lines new))
        (with_session s lines media, count)
      ≡ ok (with_session s lines (media ++ new), count + length (section_lines new))
unfolding parse_lines
read_media options crlf fits s [] lines media count h n k =
    rw (append-nil media, add_zero count) refl
read_media options crlf fits s (m ∷ new) lines media count h n k =
    let e = length-append m.lines (section_lines new) in
    rw
      (
        parse_line-media options crlf fits m (with_session s lines media) count h.0 (omega arith)
            (omega arith),
        map-append (line_segment crlf) m.lines (section_lines new),
        read_media_lines options crlf fits s m.lines lines media (with_lines m []) _ (count + 1)
            h.0.4 (omega (arith, e)),
        read_media options crlf fits s new lines (media ++ m ∷ []) (count + 1 + length m.lines) h.1
            (omega (arith, e)) (omega (arith, length-append media (m ∷ []))),
        append_assoc media (m ∷ []) new,
      )
      (ap (λ n. ok (with_session s lines (media ++ m ∷ new), n)) (omega (arith, e)))

abbrev Clean : ℕ → Line → Type 0
Clean c l = contains_char c (line_text l) ≡ false

section_lines-Clean :
    (c : ℕ) (media : List Media)
    → ((m : Media) → MediaOk m → Clean c (media_line m))
    → ((l : Line) → LineOk l → Clean c l)
    → All MediaOk media
    → All (Clean c) (section_lines media)
section_lines-Clean c [] header line h = tt
section_lines-Clean c (m ∷ media) header line h = (
  header m h.0,
  All-append (Clean c) m.lines (section_lines media) (All-map LineOk (Clean c) line m.lines h.0.4)
      (section_lines-Clean c media header line h.1),
)

-- What the parser gives back exactly: a session that ends with a terminator and has no warnings and
-- the required lines, with no line break inside a line, no m= line among the lines of a scope, and
-- tokens that are not empty and have no space in the m= lines.
abbrev pub Printable : Session → Type 0
Printable s =
    All LineOk s.lines
    × All MediaOk s.media
    × (has_line_type s.lines b'v' ≡ true)
    × (has_line_type s.lines b's' ≡ true)
    × (s.trailing_newline ≡ true)
    × (s.warnings ≡ [])

abbrev pub with_crlf : Bool → Session → Session
with_crlf crlf s = record {
  lines = s.lines;
  media = s.media;
  crlf = crlf;
  trailing_newline = s.trailing_newline;
  warnings = s.warnings;
}

abbrev Header : Bool → Text → Type 0
Header crlf text = (contains_text crlf_text text ≡ crlf) × (is_some (drop_last 10 text) ≡ true)

Header-print_lines :
    (crlf : Bool) (lines : List Line)
    → has_line_type lines b'v' ≡ true
    → All (Clean 13) lines
    → Header crlf (print_lines (separator crlf) lines)
unfolding has_line_type
Header-print_lines crlf [] v h = cc
Header-print_lines crlf (l ∷ lines) v h =
    (crlf-print_lines crlf l lines h, newline-print_lines crlf l lines)

has_line_type-append :
    (xs ys : List Line) (type : ℕ)
    → has_line_type xs type ≡ true
    → has_line_type (xs ++ ys) type ≡ true
unfolding has_line_type
has_line_type-append [] ys type h = cc
has_line_type-append (l ∷ xs) ys type h = ground (arith, has_line_type-append xs ys type)

module _ (options : ParseOptions) (s : Session) (p : Printable s) where
  all_lines-Clean :
      (c : ℕ)
      → ((m : Media) → MediaOk m → Clean c (media_line m))
      → ((l : Line) → LineOk l → Clean c l)
      → All (Clean c) (all_lines s)
  all_lines-Clean c header line =
      All-append (Clean c) s.lines (section_lines s.media)
        (All-map LineOk (Clean c) line s.lines p.0) (section_lines-Clean c s.media header line p.1)

  segments-all_lines :
      (crlf : Bool)
      → segments (print_lines (separator crlf) (all_lines s))
        ≡ map (line_segment crlf) s.lines ++ map (line_segment crlf) (section_lines s.media)
  unfolding segments
  segments-all_lines crlf =
      let e =
        segments-print_lines crlf (all_lines s) [] (all_lines-Clean 10 no_newline (λ l h. h.1)) in
      (rw
        (
          append-nil (print_lines (separator crlf) (all_lines s)),
          append-nil (map (line_segment crlf) (all_lines s)),
        )
        at e)
      ∙ map-append (line_segment crlf) s.lines (section_lines s.media)

  Header-all_lines : (crlf : Bool) → Header crlf (print_lines (separator crlf) (all_lines s))
  Header-all_lines crlf =
      Header-print_lines crlf (all_lines s)
        (has_line_type-append s.lines (section_lines s.media) b'v' p.2)
        (all_lines-Clean 13 no_return (λ l h. h.2))

  read_all_lines :
      (crlf : Bool) (session : Session)
      → implies options.crlf_only crlf ≡ true
      → length (all_lines s) ≤ options.max_lines
      → length s.media ≤ options.max_media
      → parse_lines options
          (map (line_segment crlf) s.lines ++ map (line_segment crlf) (section_lines s.media))
          (with_session session [] [], 0)
        ≡ ok (with_session session s.lines s.media, length (all_lines s))
  read_all_lines crlf session fits n k =
      let e = length-append s.lines (section_lines s.media) in
      read_session_lines options crlf fits session s.lines [] _ 0 p.0 (omega (arith, e))
      ∙ read_media options crlf fits session s.media s.lines [] (0 + length s.lines) p.1
          (omega (arith, e)) (omega arith)
      ∙ ap (λ t. ok (with_session session s.lines s.media, t)) (omega (arith, e))

same_fields :
    (s : Session) (c : Bool) (text : Text)
    → Printable s
    → Header c text
    → with_session (empty_session text) s.lines s.media ≡ with_crlf c s
unfolding empty_session
same_fields s c text p head i = record {
  lines = s.lines;
  media = s.media;
  crlf = head.0 i;
  trailing_newline = (head.1 ∙ sym p.4) i;
  warnings = sym p.5 i;
}

check_true : {A : Type 0} (b : Bool) (x y : A) → (if b && false then x else y) ≡ y
check_true true x y = refl
check_true false x y = refl

-- What the builder prints is read back: for every choice of the line ending, the parser returns the
-- session itself with the flag of that ending, where the session is printable, its size is within
-- the caps of the options, and the options admit that line ending.
pub parse_with-build :
    (options : ParseOptions) (s : Session) (ending : LineEnding)
    → Printable s
    → implies options.crlf_only (wants_crlf s ending) ≡ true
    → length (build s (exact ending)) ≤ options.max_len
    → length (all_lines s) ≤ options.max_lines
    → length s.media ≤ options.max_media
    → parse_with (build s (exact ending)) options ≡ ok (with_crlf (wants_crlf s ending) s)
unfolding parse_with empty_session check_required
parse_with-build options s ending p fits size n k =
    let c = wants_crlf s ending in
    let text = print_lines (separator c) (all_lines s) in
    let e : build s (exact ending) ≡ text = build-all_lines s ending p.4 in
    let fit : ltb options.max_len (length text) ≡ false = ground (arith, ap length e) in
    let head = Header-all_lines options s p c in
    rw
      (
        e,
        fit,
        segments-all_lines options s p c,
        read_all_lines options s p c (empty_session text) fits n k,
        p.2,
        p.3,
      )
      (check_true (not options.lenient) _ _ ∙ ap ok (same_fields s c text p head))
