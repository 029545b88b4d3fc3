-- ===== src/Sdp/Parse/Printed.antt =====
-- The lines that the builder of modules/wl2_sdp/src/sdp.cpp prints, as the parser meets them.
use winglib.Base.{
  ◌≡◌, refl, ap, ◌∙◌, ℕ, Bool, false, List, [], ◌∷◌, ◌++◌, map, append_assoc, Text, contains_char,
  contains_char-append, ◌==◌, arith, All, All-map,
}
use winglib.Sdp.Lines.{Line, Media, split_spaces}
use winglib.Sdp.Parse.{segments}
use winglib.Sdp.Parse.Segments.{
  TokenOk, return_of, segments-line, split_spaces-space, split_spaces-formats,
  contains_char-formats,
}
use winglib.Sdp.Build.{line_text, print_lines, separator, media_line}

-- A line that the parser stores: no m= line, and with no line break in it.
abbrev pub LineOk : Line → Type 0
LineOk l =
    ((l.type == b'm') ≡ false)
    × (contains_char 10 (line_text l) ≡ false)
    × (contains_char 13 (line_text l) ≡ false)

abbrev pub MediaOk : Media → Type 0
MediaOk m =
    TokenOk m.kind × TokenOk m.port × TokenOk m.proto × All TokenOk m.formats × All LineOk m.lines

abbrev pub line_segment : Bool → Line → Text
line_segment crlf l = line_text l ++ return_of crlf

pub segments-print_lines :
    (crlf : Bool) (lines : List Line) (r : Text)
    → All (λ l. contains_char 10 (line_text l) ≡ false) lines
    → segments (print_lines (separator crlf) lines ++ r)
      ≡ map (line_segment crlf) lines ++ segments r
unfolding print_lines
segments-print_lines crlf [] r h = refl
segments-print_lines crlf (l ∷ lines) r h =
    let rest = print_lines (separator crlf) lines in
    rw (append_assoc (line_text l) (separator crlf ++ rest) r, append_assoc (separator crlf) rest r)
      (segments-line crlf (line_text l) (rest ++ r) h.0
        ∙ ap (λ t. line_segment crlf l ∷ t) (segments-print_lines crlf lines r h.1))

abbrev pub with_lines : Media → List Line → Media
with_lines m lines = record {
  kind = m.kind;
  port = m.port;
  proto = m.proto;
  formats = m.formats;
  lines = lines;
}

pub split_spaces-media :
    (m : Media)
    → MediaOk m
    → split_spaces (media_line m).value ≡ m.kind ∷ m.port ∷ m.proto ∷ m.formats
unfolding media_line
split_spaces-media m h =
    split_spaces-space m.kind _ h.0
    ∙ ap (λ t. m.kind ∷ t)
        (split_spaces-space m.port _ h.1
          ∙ ap (λ t. m.port ∷ t) (split_spaces-formats m.proto m.formats h.2 h.3))

media_line-no_char :
    (c : ℕ) (m : Media)
    → (c == b' ') ≡ false
    → (c == b'm') ≡ false
    → (c == b'=') ≡ false
    → contains_char c m.kind ≡ false
    → contains_char c m.port ≡ false
    → contains_char c m.proto ≡ false
    → All (λ f. contains_char c f ≡ false) m.formats
    → contains_char c (line_text (media_line m)) ≡ false
unfolding media_line line_text contains_char
media_line-no_char c m space type equals k p r f =
    rw
      (
        contains_char-append c m.kind _,
        contains_char-append c m.port _,
        contains_char-append c m.proto _,
        k,
        p,
        r,
        contains_char-formats c m.formats space f,
      )
      (ground arith)

pub no_return : (m : Media) → MediaOk m → contains_char 13 (line_text (media_line m)) ≡ false
no_return m h =
    media_line-no_char 13 m refl refl refl h.0.3 h.1.3 h.2.3
      (All-map TokenOk (λ f. contains_char 13 f ≡ false) (λ f t. t.3) m.formats h.3)

pub no_newline : (m : Media) → MediaOk m → contains_char 10 (line_text (media_line m)) ≡ false
no_newline m h =
    media_line-no_char 10 m refl refl refl h.0.2 h.1.2 h.2.2
      (All-map TokenOk (λ f. contains_char 10 f ≡ false) (λ f t. t.2) m.formats h.3)
