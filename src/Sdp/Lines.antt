-- ===== src/Sdp/Lines.antt =====
-- The data of modules/wl2_sdp/include/wl2_sdp/sdp.h, and the string helpers of sdp.cpp.
use winglib.Base.{
  ℕ, Bool, true, false, ◌||◌, List, [], ◌∷◌, none, some, Text, split_at, if◌then◌else◌, ◌==◌,
}

-- `type` is the one byte before the '='.
pub record Line : Type 0 where
  pub type : ℕ
  pub value : Text

pub record Media : Type 0 where
  pub kind : Text
  pub port : Text
  pub proto : Text
  pub formats : List Text
  pub lines : List Line

pub record Session : Type 0 where
  pub lines : List Line
  pub media : List Media
  pub crlf : Bool
  pub trailing_newline : Bool
  pub warnings : List Text

-- Those of the codes that sdp.cpp returns.
pub data SdpError : Type 0 where
  parse_failed too_large no_session : SdpError

pub record ParseOptions : Type 0 where
  pub lenient : Bool
  pub crlf_only : Bool
  pub max_len : ℕ
  pub max_media : ℕ
  pub max_lines : ℕ

abbrev pub default_options : ParseOptions
default_options = record {
  lenient = false;
  crlf_only = false;
  max_len = 1048576;
  max_media = 512;
  max_lines = 100000;
}

pub data LineEnding : Type 0 where
  auto lf crlf : LineEnding

pub record BuildOptions : Type 0 where
  pub canonical : Bool
  pub ending : LineEnding

-- A token before others, if it is one.
unfoldable pub push_token : Text → List Text → List Text
push_token [] tokens = tokens
push_token (c ∷ s) tokens = (c ∷ s) ∷ tokens

-- The token at the front, which may be empty, and the tokens behind it.
unfoldable pub split_front : Text → Text × List Text
unfolding push_token
split_front [] = ([], [])
split_front (c ∷ s) =
    let (token, tokens) = split_front s in
    if c == b' ' then ([], push_token token tokens) else (c ∷ token, tokens)

unfoldable pub split_spaces : Text → List Text
unfolding push_token split_front
split_spaces s = let (token, tokens) = split_front s in push_token token tokens

-- The key, the value, and whether there was a ':'.
unfoldable pub split_attribute : Text → Text × Text × Bool
split_attribute line_value = elim (split_at b':' line_value) [
  | none ↦ (line_value, [], false)
  | some (key, value) ↦ (key, value, true)
]

unfoldable pub has_line_type : List Line → ℕ → Bool
has_line_type [] type = false
has_line_type (line ∷ lines) type = line.type == type || has_line_type lines type
