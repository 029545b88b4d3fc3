-- ===== src/Sdp/Parse/Turns.antt =====
-- The turns of the parser of modules/wl2_sdp/src/sdp.cpp over the lines that its builder prints.
use winglib.Base.{
  ◌≡◌, refl, sym, ap, ◌∙◌, ℕ, suc, ◌+◌, ◌≤◌, ◌<◌, Bool, true, false, not, ◌&&◌, List, [], ◌∷◌, ◌++◌,
  map, append-nil, append_assoc, Text, is_empty, contains_char, arith, All, length, ltb, leb,
  implies, ok, ◌>>=◌,
}
use winglib.Sdp.Lines.{Line, Media, Session, ParseOptions}
use winglib.Sdp.Parse.{
  parse_line, parse_stripped, parse_lines, parse_content, parse_media, type_and_value, store_line,
  add_to_last, add_to_media, push_media, media_of,
}
use winglib.Sdp.Parse.Segments.{return_of, strip_cr-append}
use winglib.Sdp.Build.{line_text, media_line}
use winglib.Sdp.Parse.Printed.{
  LineOk, MediaOk, line_segment, with_lines, split_spaces-media, no_return,
}

-- A line with no return is read without its return.
module _ (options : ParseOptions) (crlf : Bool) (fits : implies options.crlf_only crlf ≡ true) where
  parse_stripped-line :
      (w : Text) (session : Session) (count : ℕ)
      → is_empty w ≡ false
      → count < options.max_lines
      → parse_stripped options (w, crlf) (session, count)
        ≡ (parse_content options w session >>= λ s. ok (s, count + 1))
  unfolding parse_stripped
  parse_stripped-line w session count e n =
      let bound : ltb options.max_lines (count + 1) ≡ false = ground arith in
      let bare : (options.crlf_only && not crlf) ≡ false = ground arith in rw (e, bare, bound) refl

  parse_line-print :
      (w : Text) (session : Session) (count : ℕ)
      → is_empty w ≡ false
      → contains_char 13 w ≡ false
      → count < options.max_lines
      → parse_line options (w ++ return_of crlf) (session, count)
        ≡ (parse_content options w session >>= λ s. ok (s, count + 1))
  unfolding parse_line
  parse_line-print w session count e h n =
      ap (λ p. parse_stripped options p (session, count)) (strip_cr-append crlf w h)
      ∙ parse_stripped-line w session count e n

  pub parse_line-line :
      (l : Line) (session : Session) (count : ℕ)
      → LineOk l
      → count < options.max_lines
      → parse_line options (line_segment crlf l) (session, count)
        ≡ ok (store_line l session, count + 1)
  unfolding line_text parse_content type_and_value
  parse_line-line l session count h n =
      parse_line-print (line_text l) session count refl h.2 n ∙ rw (parse_content, h.0) refl

  pub parse_line-media :
      (m : Media) (session : Session) (count : ℕ)
      → MediaOk m
      → count < options.max_lines
      → length session.media < options.max_media
      → parse_line options (line_segment crlf (media_line m)) (session, count)
        ≡ ok (push_media (with_lines m []) session, count + 1)
  unfolding line_text media_line parse_content type_and_value parse_media media_of
  parse_line-media m session count h n k =
      let full : leb options.max_media (length session.media) ≡ false = ground arith in
      let long : ltb (suc (suc (suc (length m.formats)))) 3 ≡ false = ground arith in
      parse_line-print (line_text (media_line m)) session count refl (no_return m h) n
      ∙ rw (split_spaces-media m h) (rw (long, full) refl)

pub add_zero : (n : ℕ) → n + 0 ≡ n
add_zero n = omega arith

pub add_one : (n k : ℕ) → n + 1 + k ≡ n + suc k
add_one n k = omega arith

-- The lines in a row, behind what the session has.
abbrev pub with_session : Session → List Line → List Media → Session
with_session s lines media = record {
  lines = lines;
  media = media;
  crlf = s.crlf;
  trailing_newline = s.trailing_newline;
  warnings = s.warnings;
}

add_to_last-append :
    (l : Line) (media : List Media) (m : Media)
    → add_to_last l (media ++ m ∷ []) ≡ media ++ add_to_media l m ∷ []
unfolding add_to_last
add_to_last-append l [] m = refl
add_to_last-append l (k ∷ []) m = refl
add_to_last-append l (k ∷ n ∷ media) m = rw (add_to_last-append l (n ∷ media) m) refl

store_line-session :
    (l : Line) (s : Session) (lines : List Line)
    → store_line l (with_session s lines []) ≡ with_session s (lines ++ l ∷ []) []
unfolding store_line
store_line-session l s lines = refl

store_line-media :
    (l : Line) (s : Session) (lines : List Line) (media : List Media) (m : Media)
    → store_line l (with_session s lines (media ++ m ∷ []))
      ≡ with_session s lines (media ++ add_to_media l m ∷ [])
unfolding store_line
store_line-media l s lines [] m = rw (add_to_last-append l [] m) refl
store_line-media l s lines (k ∷ media) m = rw (sym (add_to_last-append l (k ∷ media) m)) refl

module _ (options : ParseOptions) (crlf : Bool) (fits : implies options.crlf_only crlf ≡ true)
    (s : Session) where
  pub read_session_lines :
      (new : List Line) (lines : List Line) (rest : List Text) (count : ℕ)
      → All LineOk new
      → count + length new ≤ options.max_lines
      → parse_lines options (map (line_segment crlf) new ++ rest) (with_session s lines [], count)
        ≡ parse_lines options rest (with_session s (lines ++ new) [], count + length new)
  unfolding parse_lines
  read_session_lines [] lines rest count h n = rw (append-nil lines, add_zero count) refl
  read_session_lines (l ∷ new) lines rest count h n =
      rw
        (
          parse_line-line options crlf fits l (with_session s lines []) count h.0 (omega arith),
          store_line-session l s lines,
          read_session_lines new (lines ++ l ∷ []) rest (count + 1) h.1 (omega arith),
          append_assoc lines (l ∷ []) new,
          add_one count (length new),
        )
        refl

  pub read_media_lines :
      (new : List Line) (lines : List Line) (media : List Media) (m : Media) (rest : List Text)
      (count : ℕ)
      → All LineOk new
      → count + length new ≤ options.max_lines
      → parse_lines options
          (map (line_segment crlf) new ++ rest)
          (with_session s lines (media ++ m ∷ []), count)
        ≡ parse_lines options rest
            (with_session s lines (media ++ with_lines m (m.lines ++ new) ∷ []), count + length new)
  unfolding parse_lines
  read_media_lines [] lines media m rest count h n = rw (append-nil m.lines, add_zero count) refl
  read_media_lines (l ∷ new) lines media m rest count h n =
      rw
        (
          parse_line-line options crlf fits l (with_session s lines (media ++ m ∷ [])) count h.0
              (omega arith),
          store_line-media l s lines media m,
          read_media_lines new lines media (add_to_media l m) rest (count + 1) h.1 (omega arith),
          append_assoc m.lines (l ∷ []) new,
          add_one count (length new),
        )
        refl
