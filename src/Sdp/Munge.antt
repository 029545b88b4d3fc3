-- ===== src/Sdp/Munge.antt =====
-- The edits of modules/wl2_sdp/src/sdp.cpp: attributes and payload types.
pub mod Attributes
pub mod Payloads
pub mod Preference
use winglib.Base.{
  ℕ, ◌-◌, Bool, true, false, not, ◌&&◌, ◌||◌, List, [], ◌∷◌, ◌++◌, Option, none, some, Text, codes,
  text_eq, split_at, if◌then◌else◌, ◌==◌, length, keep, member, nat_eq, text_Eq,
}
use winglib.Sdp.Lines.{Line, Media, Session, split_attribute}
use winglib.Sdp.Numbers.{parse_int, to_int, to_string, is_negative, minus_one, minus_two}
use winglib.Sdp.Views.{attribute_key_is}

unfoldable pub rendered : Text → Text → Bool → Text
rendered key value flag = if flag then key else key ++ b':' ∷ value

-- The first line that has the key gets the text; with none, a line is added.
unfoldable pub replace_or_add : List Line → Text → Text → List Line
unfolding attribute_key_is
replace_or_add [] key text = record { type = b'a'; value = text } ∷ []
replace_or_add (line ∷ lines) key text =
    if attribute_key_is line key
    then record { type = line.type; value = text } ∷ lines
    else line ∷ replace_or_add lines key text

unfoldable pub set_attribute_lines : List Line → Text → Text → Bool → List Line
unfolding replace_or_add rendered
set_attribute_lines lines key value flag = replace_or_add lines key (rendered key value flag)

-- The lines that are left, and how many were removed.
unfoldable pub remove_attribute_lines : List Line → Text → List Line × ℕ
unfolding attribute_key_is
remove_attribute_lines lines key =
    let left = keep (λ line. not (attribute_key_is line key)) lines in
    (left, length lines - length left)

abbrev pub with_media_lines : List Line → Media → Media
with_media_lines lines m = record {
  kind = m.kind;
  port = m.port;
  proto = m.proto;
  formats = m.formats;
  lines = lines;
}

abbrev pub with_session_lines : List Line → Session → Session
with_session_lines lines s = record {
  lines = lines;
  media = s.media;
  crlf = s.crlf;
  trailing_newline = s.trailing_newline;
  warnings = s.warnings;
}

unfoldable pub set_media_attribute : Media → Text → Text → Media
unfolding set_attribute_lines
set_media_attribute m key value = with_media_lines (set_attribute_lines m.lines key value false) m

unfoldable pub set_session_attribute : Session → Text → Text → Session
unfolding set_attribute_lines
set_session_attribute s key value =
    with_session_lines (set_attribute_lines s.lines key value false) s

unfoldable pub set_media_flag : Media → Text → Media
unfolding set_attribute_lines
set_media_flag m key = with_media_lines (set_attribute_lines m.lines key [] true) m

unfoldable pub set_session_flag : Session → Text → Session
unfolding set_attribute_lines
set_session_flag s key = with_session_lines (set_attribute_lines s.lines key [] true) s

unfoldable pub add_media_attribute : Media → Text → Media
add_media_attribute m raw = with_media_lines (m.lines ++ record { type = b'a'; value = raw } ∷ []) m

unfoldable pub add_session_attribute : Session → Text → Session
add_session_attribute s raw =
    with_session_lines (s.lines ++ record { type = b'a'; value = raw } ∷ []) s

unfoldable pub remove_media_attribute : Media → Text → Media × ℕ
unfolding remove_attribute_lines
remove_media_attribute m key =
    let (left, removed) = remove_attribute_lines m.lines key in (with_media_lines left m, removed)

unfoldable pub remove_session_attribute : Session → Text → Session × ℕ
unfolding remove_attribute_lines
remove_session_attribute s key =
    let (left, removed) = remove_attribute_lines s.lines key in (with_session_lines left s, removed)

-- What stands before the first space.
unfoldable pub first_token : Text → Text
first_token value = elim (split_at b' ' value) [ none ↦ value | some (token, rest) ↦ token ]

-- The payload type of an attribute; an attribute that has none, and the wildcard, are negative.
unfoldable pub payload_of_attribute : Text → Text → ℕ
unfolding minus_one minus_two parse_int first_token
payload_of_attribute key value =
    if not (text_eq key (codes "rtpmap"))
      && (not (text_eq key (codes "fmtp")) && not (text_eq key (codes "rtcp-fb")))
    then minus_one
    else if text_eq (first_token value) (codes "*")
    then minus_two
    else elim (parse_int (first_token value)) [ none ↦ minus_one | some pt ↦ to_int pt ]

unfoldable pub keeps_format : List ℕ → Text → Bool
unfolding parse_int
keeps_format payloads format = elim (parse_int format) [
  | none ↦ false
  | some pt ↦ member (to_int pt) payloads
]

-- Whether a split attribute stays: one that is not payload-scoped, the wildcard, or a kept payload.
unfoldable pub keeps_attribute : List ℕ → Text × Text × Bool → Bool
unfolding payload_of_attribute
keeps_attribute payloads (key, value, has_colon) =
    let pt = payload_of_attribute key value in is_negative pt || member pt payloads

unfoldable pub keeps_line : List ℕ → Line → Bool
unfolding keeps_attribute split_attribute
keeps_line payloads line =
    not (line.type == b'a') || keeps_attribute payloads (split_attribute line.value)

unfoldable pub keep_payloads : Media → List ℕ → Media
unfolding keeps_format keeps_line
keep_payloads m payloads = record {
  kind = m.kind;
  port = m.port;
  proto = m.proto;
  formats = keep (keeps_format payloads) m.formats;
  lines = keep (keeps_line payloads) m.lines;
}

-- The formats that are wanted, in the wanted order, behind `result`.
unfoldable pub pick_wanted : List Text → List ℕ → List Text → List Text
unfolding to_string member
pick_wanted formats [] result = result
pick_wanted formats (pt ∷ order) result =
    let want = to_string pt in
    pick_wanted formats order
      (if member want formats && not (member want result) then result ++ want ∷ [] else result)

-- Those that `result` has not yet, behind it.
unfoldable pub pick_missing : List Text → List Text → List Text
unfolding member
pick_missing [] result = result
pick_missing (f ∷ formats) result =
    pick_missing formats (if member f result then result else result ++ f ∷ [])

unfoldable pub reorder_payloads : Media → List ℕ → Media
unfolding pick_wanted pick_missing
reorder_payloads m order = record {
  kind = m.kind;
  port = m.port;
  proto = m.proto;
  formats = pick_missing m.formats (pick_wanted m.formats order []);
  lines = m.lines;
}
