-- ===== src/Sdp/Tests.antt =====
-- Runs and instances for the model of modules/wl2_sdp/src/sdp.cpp.
use mathlib.Core.List.{Permᴰ}
use winglib.Base.{
  ◌≡◌, ◌≢◌, ◌↔◌, ◌≤◌, refl, subst, ℕ, true, false, [], ◌∷◌, ◌++◌, none, some, Text, codes, length,
  arith, ok, err, is_empty, keep, contains_char, member, split_at, text_eq, starts_with, drop,
  text_lt, insert_sorted, sort, text_Eq,
}
use winglib.Sdp.Lines.{
  Line, Media, Session, ParseOptions, auto, parse_failed, no_session, split_spaces, split_attribute,
  has_line_type,
}
use winglib.Sdp.Numbers.{to_string, to_int_or}
use winglib.Sdp.Parse.{parse_with, parse_lines, parse_media, crlf_text}
use winglib.Sdp.Parse.Output.{all_lines, exact}
use winglib.Sdp.Parse.RoundTrip.{Printable, with_crlf, parse_with-build}
use winglib.Sdp.Parse.Caps.{parse_with-caps}
use winglib.Sdp.Build.{build, wants_crlf, line_text, session_lines}
use winglib.Sdp.Views.{rtpmaps, fmtps, value_of, attribute_in, attributes_in, media_fingerprint}
use winglib.Sdp.Munge.{keep_payloads, set_attribute_lines, first_token, reorder_payloads}
use winglib.Sdp.Munge.Attributes.{set_attribute_lines-attributes}
use winglib.Sdp.Munge.Payloads.{kept, FilledRtpmaps, keep_payloads-views}
use winglib.Sdp.Munge.Preference.{first_occurrences, wanted, reorder_payloads-formats}
use winglib.Sdp.Compare.{equal_normalized}
use winglib.Sdp.Compare.Perm.{SameMedia, equal_normalized_iff}

abbrev sdp_line : ℕ → Text → Line
sdp_line type value = record { type = type; value = value }

abbrev attribute_line : Text → Line
attribute_line = sdp_line b'a'

abbrev call_audio : Media
call_audio = record {
  kind = codes "audio";
  port = codes "9";
  proto = codes "RTP";
  formats = codes "0" ∷ codes "8" ∷ [];
  lines =
      attribute_line (codes "rtpmap:0 P/8")
      ∷ attribute_line (codes "fmtp:8 x")
      ∷ attribute_line (codes "mid:0")
      ∷ [];
}

abbrev call : Session
call = record {
  lines = sdp_line b'v' (codes "0") ∷ sdp_line b's' (codes "-") ∷ [];
  media = call_audio ∷ [];
  crlf = true;
  trailing_newline = true;
  warnings = [];
}

abbrev tight : ParseOptions
tight = record { lenient = false; crlf_only = true; max_len = 99; max_media = 1; max_lines = 9 }

abbrev call_text : Text
call_text = codes "v=0\ns=-\nm=audio 9 RTP 0 8\na=mid:0\n"

abbrev read_back : Session
read_back = record {
  lines = sdp_line b'v' (codes "0") ∷ sdp_line b's' (codes "-") ∷ [];
  media =
      record {
        kind = codes "audio";
        port = codes "9";
        proto = codes "RTP";
        formats = codes "0" ∷ codes "8" ∷ [];
        lines = attribute_line (codes "mid:0") ∷ [];
      }
      ∷ [];
  crlf = false;
  trailing_newline = true;
  warnings = [];
}

abbrev lax : ParseOptions
lax = record { lenient = true; crlf_only = false; max_len = 99; max_media = 1; max_lines = 9 }

abbrev plain : ParseOptions
plain = record { lenient = false; crlf_only = false; max_len = 99; max_media = 1; max_lines = 9 }

parse_with-call : parse_with call_text plain ≡ ok read_back
unfolding parse_with parse_lines parse_media split_spaces crlf_text starts_with has_line_type
parse_with-call = refl

-- The second '\n' in a row is lost.
blank_line : parse_with (codes "v=0\n\ns=-\n") plain ≡ parse_with (codes "v=0\ns=-\n") plain
unfolding parse_with parse_lines crlf_text starts_with
blank_line = refl

no_required : parse_with (codes "v=0\n") plain ≡ err no_session
unfolding parse_with has_line_type
no_required = refl

malformed : parse_with (codes "v=0\nxyz\n") plain ≡ err parse_failed
unfolding parse_with
malformed = refl

printed_minus : to_string 4294967295 ≡ codes "-1"
unfolding to_string
printed_minus = refl

-- The overflow of parse_int: 2 ^ 32 is cast to 0.
wrapped : to_int_or (codes "4294967296") 7 ≡ 0
unfolding to_int_or
wrapped = refl

call-Printable : Printable call
unfolding has_line_type contains_char line_text
call-Printable = (
  ((refl, refl, refl), ((refl, refl, refl), tt)),
  (
    (
      (refl, refl, refl, refl),
      (refl, refl, refl, refl),
      (refl, refl, refl, refl),
      ((refl, refl, refl, refl), ((refl, refl, refl, refl), tt)),
      ((refl, refl, refl), ((refl, refl, refl), ((refl, refl, refl), tt))),
    ),
    tt,
  ),
  refl,
  refl,
  refl,
  refl,
)

call-FilledRtpmaps : FilledRtpmaps call_audio
unfolding value_of text_eq first_token split_at split_attribute
call-FilledRtpmaps = (
  (λ v e. let q : codes "0 P/8" ≡ v = cc e in subst (λ w. is_empty (first_token w) ≡ false) q refl),
  ((λ v e. cc), ((λ v e. cc), tt)),
)

parse_with-build_example :
    parse_with (build call (exact auto)) tight ≡ ok (with_crlf (wants_crlf call auto) call)
unfolding build
parse_with-build_example =
    parse_with-build tight call auto call-Printable refl (omega arith) (omega arith) (omega arith)

parse_with-caps_example :
    (length call_text ≤ 99)
    × (length (all_lines read_back) ≤ 9)
    × (length read_back.media ≤ 1)
    × (false ≡ false
        → (read_back.warnings ≡ [])
          × (has_line_type read_back.lines b'v' ≡ true)
          × (has_line_type read_back.lines b's' ≡ true))
parse_with-caps_example = parse_with-caps call_text plain read_back parse_with-call

abbrev jumbled : Session
jumbled = record {
  lines =
      sdp_line b'a' (codes "x")
      ∷ sdp_line b't' (codes "0 0")
      ∷ sdp_line b's' (codes "q")
      ∷ sdp_line b'b' (codes "AS:9")
      ∷ sdp_line b'a' (codes "b")
      ∷ [];
  media = [];
  crlf = true;
  trailing_newline = false;
  warnings = [];
}

sorted_lines :
    session_lines jumbled true
    ≡ sdp_line b'v' (codes "0")
      ∷ sdp_line b's' (codes "q")
      ∷ sdp_line b'b' (codes "AS:9")
      ∷ sdp_line b't' (codes "0 0")
      ∷ sdp_line b'a' (codes "x")
      ∷ sdp_line b'a' (codes "b")
      ∷ []
unfolding session_lines has_line_type
sorted_lines = refl

first_value_replaced :
    (attributes_in
        (set_attribute_lines call_audio.lines (codes "mid") (codes "1") false)
        (codes "mid")
      ≡ codes "1" ∷ drop 1 (attributes_in call_audio.lines (codes "mid")))
    × (attribute_in
          (set_attribute_lines call_audio.lines (codes "mid") (codes "1") false)
          (codes "mid")
        ≡ some (codes "1"))
    × ((k : Text)
        → codes "mid" ≢ k
        → attributes_in (set_attribute_lines call_audio.lines (codes "mid") (codes "1") false) k
          ≡ attributes_in call_audio.lines k)
unfolding contains_char
first_value_replaced =
    set_attribute_lines-attributes (codes "mid") (codes "1") false call_audio.lines refl

keep_payloads-views_example :
    (fmtps (keep_payloads call_audio (8 ∷ []))
      ≡ keep (λ f. kept (8 ∷ []) f.payload) (fmtps call_audio))
    × (rtpmaps (keep_payloads call_audio (8 ∷ []))
        ≡ keep (λ r. kept (8 ∷ []) r.payload) (rtpmaps call_audio))
keep_payloads-views_example = keep_payloads-views call_audio (8 ∷ []) call-FilledRtpmaps

-- The rtpmap of the payload that goes is dropped.
dropped_rtpmap : rtpmaps (keep_payloads call_audio (8 ∷ [])) ≡ []
unfolding rtpmaps keep_payloads text_eq member split_at
dropped_rtpmap = refl

-- With a space behind the ':' it stays, although the view shows the payload 0.
abbrev spaced : Media
spaced = record {
  kind = [];
  port = [];
  proto = [];
  formats = [];
  lines = attribute_line (codes "rtpmap: 0 P/8") ∷ [];
}

orphan_stays :
    rtpmaps (keep_payloads spaced (8 ∷ []))
    ≡ record { payload = 0; codec = codes "P"; clock = 8; channels = 0 } ∷ []
unfolding rtpmaps keep_payloads text_eq member split_spaces split_at
orphan_stays = refl

wanted_first :
    ((reorder_payloads call_audio (8 ∷ 9 ∷ [])).formats
      ≡ first_occurrences (wanted call_audio.formats (8 ∷ 9 ∷ []) ++ call_audio.formats))
    × ((f : Text)
        → member f (reorder_payloads call_audio (8 ∷ 9 ∷ [])).formats ≡ member f call_audio.formats)
wanted_first = reorder_payloads-formats call_audio (8 ∷ 9 ∷ [])

eight_first : (reorder_payloads call_audio (8 ∷ 9 ∷ [])).formats ≡ codes "8" ∷ codes "0" ∷ []
unfolding reorder_payloads member text_eq
eight_first = refl

abbrev swapped : Session
swapped = record {
  lines = sdp_line b's' (codes "-") ∷ sdp_line b'v' (codes "0") ∷ [];
  media = call_audio ∷ [];
  crlf = false;
  trailing_newline = false;
  warnings = [];
}

equal_normalized_iff_example :
    (equal_normalized call swapped ≡ true)
    ↔ (Permᴰ call.lines swapped.lines × SameMedia call.media swapped.media)
equal_normalized_iff_example = equal_normalized_iff call swapped

equal_swapped : equal_normalized call swapped ≡ true
unfolding equal_normalized text_lt insert_sorted text_eq sort
equal_swapped = refl

unequal : equal_normalized call jumbled ≡ false
unfolding equal_normalized text_lt insert_sorted text_eq sort
unequal = refl

-- A media section does not fall back to the session's fingerprint.
no_fallback : media_fingerprint call_audio ≡ none
unfolding media_fingerprint text_eq split_at
no_fallback = refl
