-- ===== src/Sdp/Build.antt =====
-- build of modules/wl2_sdp/src/sdp.cpp, with its canonical order.
pub mod Order
use winglib.Base.{
  ℕ, ◌+◌, ◌-◌, Bool, true, false, not, ◌&&◌, List, [], ◌∷◌, ◌++◌, Option, none, some, Text, codes,
  if◌then◌else◌, ◌==◌, leb, length, take,
}
use winglib.Sdp.Lines.{
  Line, Media, Session, LineEnding, auto, lf, crlf, BuildOptions, has_line_type,
}

-- `order.find(type)`, or its size.
unfoldable pub position : ℕ → Text → ℕ
position type [] = 0
position type (c ∷ order) = let rest = position type order in if c == type then 0 else rest + 1

unfoldable pub session_order : Text
session_order = codes "vosiuepcbtrzka"

unfoldable pub media_order : Text
media_order = codes "icbka"

unfoldable pub order_index : ℕ → Bool → ℕ
unfolding position session_order media_order
order_index type session_scope =
    position type (if session_scope then session_order else media_order)

-- A line in front of the first that is not before it: std::stable_sort, by insertion.
unfoldable pub insert_line : Bool → Line → List Line → List Line
unfolding order_index
insert_line scope line [] = line ∷ []
insert_line scope line (l ∷ lines) =
    if leb (order_index line.type scope) (order_index l.type scope)
    then line ∷ l ∷ lines
    else l ∷ insert_line scope line lines

unfoldable pub stable_sort_by_rfc_order : List Line → Bool → List Line
unfolding insert_line
stable_sort_by_rfc_order [] scope = []
stable_sort_by_rfc_order (line ∷ lines) scope =
    insert_line scope line (stable_sort_by_rfc_order lines scope)

unfoldable pub separator : Bool → Text
separator use_crlf = if use_crlf then 13 ∷ 10 ∷ [] else 10 ∷ []

unfoldable pub wants_crlf : Session → LineEnding → Bool
wants_crlf session auto = session.crlf
wants_crlf session lf = false
wants_crlf session crlf = true

-- A line's text without its terminator.
unfoldable pub line_text : Line → Text
line_text line = line.type ∷ b'=' ∷ line.value

unfoldable pub print_formats : List Text → Text
print_formats [] = []
print_formats (f ∷ formats) = (b' ' ∷ f) ++ print_formats formats

unfoldable pub media_line : Media → Line
unfolding print_formats
media_line media = record {
  type = b'm';
  value =
      media.kind ++ (b' ' ∷ (media.port ++ (b' ' ∷ (media.proto ++ print_formats media.formats))));
}

unfoldable pub print_lines : Text → List Line → Text
unfolding line_text
print_lines sep [] = []
print_lines sep (line ∷ lines) = line_text line ++ (sep ++ print_lines sep lines)

unfoldable pub add_required : List Line → List Line
unfolding has_line_type
add_required lines =
    let with_version =
      if has_line_type lines b'v'
      then lines
      else record { type = b'v'; value = codes "0" } ∷ lines in
    if has_line_type with_version b's'
    then with_version
    else with_version ++ record { type = b's'; value = codes "-" } ∷ []

unfoldable pub session_lines : Session → Bool → List Line
unfolding add_required stable_sort_by_rfc_order
session_lines session canonical =
    if canonical then stable_sort_by_rfc_order (add_required session.lines) true else session.lines

unfoldable pub media_lines : Media → Bool → List Line
unfolding stable_sort_by_rfc_order
media_lines media canonical =
    if canonical then stable_sort_by_rfc_order media.lines false else media.lines

unfoldable pub print_media : Text → Bool → List Media → Text
unfolding media_line print_lines media_lines
print_media sep canonical [] = []
print_media sep canonical (m ∷ media) =
    print_lines sep (media_line m ∷ media_lines m canonical) ++ print_media sep canonical media

unfoldable pub build : Session → BuildOptions → Text
unfolding separator wants_crlf print_lines session_lines print_media
build session options =
    let sep = separator (wants_crlf session options.ending) in
    let out =
      print_lines sep (session_lines session options.canonical)
      ++ print_media sep options.canonical session.media in
    if not options.canonical && (not session.trailing_newline && leb (length sep) (length out))
    then take (length out - length sep) out
    else out
