-- ===== src/Sdp/Parse/Output.antt =====
-- The whole text that the builder of modules/wl2_sdp/src/sdp.cpp prints, as one list of lines.
use winglib.Base.{
  starts_with, starts_with_iff, ◌≡◌, refl, sym, ap, ◌∙◌, Bool, true, false, List, [], ◌∷◌, ◌++◌,
  append_assoc, Text, contains_char, contains_char-append, arith, All,
}
use winglib.Sdp.Lines.{Line, Media, Session}
use winglib.Sdp.Build.{line_text, print_lines, separator, media_line}
use winglib.Sdp.Parse.{crlf_text, is_some}
use winglib.Sdp.Parse.Segments.{drop_last-append}
use winglib.Sdp.Build.{build, print_media, wants_crlf, session_lines, media_lines}
use winglib.Sdp.Lines.{LineEnding, BuildOptions}
use winglib.Syntax.{contains_text, drop_last}

-- The lines of the media sections, with their m= lines.
abbrev pub section_lines : List Media → List Line
section_lines [] = []
section_lines (m ∷ media) = media_line m ∷ (m.lines ++ section_lines media)

abbrev pub all_lines : Session → List Line
all_lines s = s.lines ++ section_lines s.media

print_lines-append :
    (sep : Text) (xs ys : List Line)
    → print_lines sep (xs ++ ys) ≡ print_lines sep xs ++ print_lines sep ys
unfolding print_lines
print_lines-append sep [] ys = refl
print_lines-append sep (l ∷ xs) ys =
    rw
      (
        print_lines-append sep xs ys,
        append_assoc (line_text l) (sep ++ print_lines sep xs) (print_lines sep ys),
        append_assoc sep (print_lines sep xs) (print_lines sep ys),
      )
      refl

print_media-lines :
    (sep : Text) (media : List Media)
    → print_media sep false media ≡ print_lines sep (section_lines media)
unfolding print_media media_lines
print_media-lines sep [] = refl
print_media-lines sep (m ∷ media) =
    rw (print_media-lines sep media)
      (sym (print_lines-append sep (media_line m ∷ m.lines) (section_lines media)))

abbrev pub exact : LineEnding → BuildOptions
exact ending = record { canonical = false; ending = ending }

-- The text of a session that ends with a terminator, in the stored order.
pub build-all_lines :
    (s : Session) (ending : LineEnding)
    → s.trailing_newline ≡ true
    → build s (exact ending) ≡ print_lines (separator (wants_crlf s ending)) (all_lines s)
unfolding build session_lines
build-all_lines s ending h =
    let sep = separator (wants_crlf s ending) in
    rw (h, print_media-lines sep s.media)
      (sym (print_lines-append sep s.lines (section_lines s.media)))

contains_text-append : (p a r : Text) → contains_text p (a ++ (p ++ r)) ≡ true
unfolding contains_text
contains_text-append [] [] [] = refl
contains_text-append [] [] (c ∷ r) = rw ((starts_with_iff [] (c ∷ r)).1 (c ∷ r, refl)) refl
contains_text-append (d ∷ p) [] r =
    ground (arith, (starts_with_iff (d ∷ p) ((d ∷ p) ++ r)).1 (r, refl))
contains_text-append p (c ∷ a) r = ground (arith, contains_text-append p a r)

no_return-no_crlf : (w : Text) → contains_char 13 w ≡ false → contains_text crlf_text w ≡ false
unfolding contains_text contains_char crlf_text starts_with
no_return-no_crlf [] h = refl
no_return-no_crlf (c ∷ w) h = ground (arith, no_return-no_crlf w)

no_return-print_lines :
    (lines : List Line)
    → All (λ l. contains_char 13 (line_text l) ≡ false) lines
    → contains_char 13 (print_lines (separator false) lines) ≡ false
unfolding print_lines separator contains_char
no_return-print_lines [] h = refl
no_return-print_lines (l ∷ lines) h =
    rw (contains_char-append 13 (line_text l) _, h.0) (no_return-print_lines lines h.1)

-- The flag that the parser takes from the text.
pub crlf-print_lines :
    (crlf : Bool) (l : Line) (lines : List Line)
    → All (λ l. contains_char 13 (line_text l) ≡ false) (l ∷ lines)
    → contains_text crlf_text (print_lines (separator crlf) (l ∷ lines)) ≡ crlf
unfolding print_lines separator crlf_text
crlf-print_lines true l lines h = contains_text-append (13 ∷ 10 ∷ []) (line_text l) _
crlf-print_lines false l lines h = no_return-no_crlf _ (no_return-print_lines (l ∷ lines) h)

print_lines-end :
    (crlf : Bool) (l : Line) (lines : List Line)
    → (w : Text) × (print_lines (separator crlf) (l ∷ lines) ≡ w ++ 10 ∷ [])
unfolding print_lines separator
print_lines-end false l [] = (line_text l, refl)
print_lines-end true l [] =
    (line_text l ++ 13 ∷ [], sym (append_assoc (line_text l) (13 ∷ []) (10 ∷ [])))
print_lines-end crlf l (k ∷ lines) =
    let (w, e) = print_lines-end crlf k lines in
    (
      line_text l ++ (separator crlf ++ w),
      rw (e) (
          sym (
            append_assoc (line_text l) (separator crlf ++ w) (10 ∷ [])
            ∙ ap (λ t. line_text l ++ t) (append_assoc (separator crlf) w (10 ∷ [])))),
    )

pub newline-print_lines :
    (crlf : Bool) (l : Line) (lines : List Line)
    → is_some (drop_last 10 (print_lines (separator crlf) (l ∷ lines))) ≡ true
newline-print_lines crlf l lines =
    let (w, e) = print_lines-end crlf l lines in rw (e, drop_last-append 10 w) refl
