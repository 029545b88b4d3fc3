-- ===== src/Sdp/Parse.antt =====
-- parse of modules/wl2_sdp/src/sdp.cpp. The pointer `current` is the last media section, or null
-- while there is none.
pub mod Segments
pub mod Printed
pub mod Turns
pub mod Output
pub mod RoundTrip
pub mod Caps
use winglib.Base.{
  ℕ, ◌+◌, Bool, true, false, not, ◌&&◌, ◌||◌, List, [], ◌∷◌, ◌++◌, Option, none, some, Text, codes,
  is_empty, if◌then◌else◌, ◌==◌, leb, ltb, length, drop, Result, ok, err, ◌>>=◌, ◌>>◌, fail_if,
}
use winglib.Syntax.{drop_last, contains_text}
use winglib.Sdp.Lines.{
  Line, Media, Session, SdpError, parse_failed, too_large, no_session, ParseOptions,
  default_options, split_spaces, has_line_type,
}

-- A byte before the first of the segments.
unfoldable pub extend_first : ℕ → List Text → List Text
extend_first c [] = (c ∷ []) ∷ []
extend_first c (s ∷ segments) = (c ∷ s) ∷ segments

-- What stands between the '\n's; behind the last one only what is not empty.
unfoldable pub segments : Text → List Text
unfolding extend_first
segments [] = []
segments (c ∷ s) = if c == 10 then [] ∷ segments s else extend_first c (segments s)

-- The segment without a '\r' at its end, and whether it had one.
unfoldable pub strip_cr : Text → Text × Bool
unfolding drop_last
strip_cr segment = elim (drop_last 13 segment) [ none ↦ (segment, false) | some s ↦ (s, true) ]

unfoldable pub bare_lf_warning : Text → Text
bare_lf_warning line = codes "bare LF line: " ++ line

unfoldable pub malformed_warning : Text → Text
malformed_warning line = codes "malformed line: " ++ line

unfoldable pub short_media_warning : Text → Text
short_media_warning line = codes "short m= line: " ++ line

abbrev pub warn : Text → Session → Session
warn w session = record {
  lines = session.lines;
  media = session.media;
  crlf = session.crlf;
  trailing_newline = session.trailing_newline;
  warnings = session.warnings ++ w ∷ [];
}

unfoldable pub media_of : List Text → Media
media_of [] = record { kind = []; port = []; proto = []; formats = []; lines = [] }
media_of (kind ∷ []) = record { kind = kind; port = []; proto = []; formats = []; lines = [] }
media_of (kind ∷ port ∷ []) = record {
  kind = kind;
  port = port;
  proto = [];
  formats = [];
  lines = [];
}
media_of (kind ∷ port ∷ proto ∷ formats) = record {
  kind = kind;
  port = port;
  proto = proto;
  formats = formats;
  lines = [];
}

abbrev pub push_media : Media → Session → Session
push_media m session = record {
  lines = session.lines;
  media = session.media ++ m ∷ [];
  crlf = session.crlf;
  trailing_newline = session.trailing_newline;
  warnings = session.warnings;
}

abbrev pub add_to_media : Line → Media → Media
add_to_media line m = record {
  kind = m.kind;
  port = m.port;
  proto = m.proto;
  formats = m.formats;
  lines = m.lines ++ line ∷ [];
}

unfoldable pub add_to_last : Line → List Media → List Media
add_to_last line [] = []
add_to_last line (m ∷ []) = add_to_media line m ∷ []
add_to_last line (m ∷ n ∷ media) = m ∷ add_to_last line (n ∷ media)

unfoldable pub store_line : Line → Session → Session
unfolding add_to_last
store_line line session = elim session.media [
  | [] ↦ record {
    lines = session.lines ++ line ∷ [];
    media = [];
    crlf = session.crlf;
    trailing_newline = session.trailing_newline;
    warnings = session.warnings;
  }
  | m ∷ media ↦ record {
    lines = session.lines;
    media = add_to_last line (m ∷ media);
    crlf = session.crlf;
    trailing_newline = session.trailing_newline;
    warnings = session.warnings;
  }
]

-- An m= line, by the warning it gets when it is short and its tokens.
unfoldable pub parse_media : ParseOptions → Text → List Text → Session → Result SdpError Session
unfolding media_of short_media_warning
parse_media options line tokens session =
    let short = ltb (length tokens) 3 in
    let warned = if short then warn (short_media_warning line) session else session in
    (fail_if (short && not options.lenient) parse_failed
      >> fail_if (leb options.max_media (length session.media)) too_large
      >> ok (push_media (media_of tokens) warned))

-- A line of two bytes or more with a '=' behind the first.
unfoldable pub type_and_value : Text → Option (ℕ × Text)
type_and_value [] = none
type_and_value (type ∷ []) = none
type_and_value (type ∷ c ∷ value) = if c == b'=' then some (type, value) else none

unfoldable pub parse_content : ParseOptions → Text → Session → Result SdpError Session
unfolding type_and_value parse_media malformed_warning store_line
parse_content options line session = elim (type_and_value line) [
  | none ↦ if options.lenient then ok (warn (malformed_warning line) session) else err parse_failed
  | some (type, value) ↦
      if type == b'm'
      then parse_media options line (split_spaces value) session
      else ok (store_line (record { type = type; value = value }) session)
]

-- One turn of the loop, on the line, on whether it had a '\r', on the session and on the count of its
-- lines.
unfoldable pub parse_stripped :
    ParseOptions → Text × Bool → Session × ℕ → Result SdpError (Session × ℕ)
unfolding bare_lf_warning parse_content
parse_stripped options (line, had_cr) (session, count) =
    if is_empty line
    then ok (session, count)
    else if options.crlf_only && not had_cr
    then (if options.lenient
        then ok (warn (bare_lf_warning line) session, count)
        else err parse_failed)
    else if ltb options.max_lines (count + 1)
    then err too_large
    else parse_content options line session >>= λ s. ok (s, count + 1)

unfoldable pub parse_line : ParseOptions → Text → Session × ℕ → Result SdpError (Session × ℕ)
unfolding strip_cr parse_stripped
parse_line options segment state = parse_stripped options (strip_cr segment) state

unfoldable pub parse_lines : ParseOptions → List Text → Session × ℕ → Result SdpError (Session × ℕ)
unfolding parse_line
parse_lines options [] state = ok state
parse_lines options (segment ∷ rest) state =
    parse_line options segment state >>= parse_lines options rest

unfoldable pub crlf_text : Text
crlf_text = 13 ∷ 10 ∷ []

abbrev pub is_some {ℓ} : {A : Type ℓ} → Option A → Bool
is_some none = false
is_some (some a) = true

unfoldable pub empty_session : Text → Session
unfolding crlf_text contains_text drop_last
empty_session text = record {
  lines = [];
  media = [];
  crlf = contains_text crlf_text text;
  trailing_newline = is_some (drop_last 10 text);
  warnings = [];
}

unfoldable pub check_required : ParseOptions → Session → Result SdpError Session
check_required options session =
    if not options.lenient
      && (not (has_line_type session.lines b'v') || not (has_line_type session.lines b's'))
    then err no_session
    else ok session

unfoldable pub parse_with : Text → ParseOptions → Result SdpError Session
unfolding parse_lines empty_session check_required segments
parse_with text options =
    fail_if (ltb options.max_len (length text)) too_large
    >> (parse_lines options (segments text) (empty_session text, 0) >>= λ (session, count).
        check_required options session)

unfoldable pub parse : Text → Result SdpError Session
unfolding parse_with
parse text = parse_with text default_options
