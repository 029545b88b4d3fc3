-- ===== src/Sdp/Views.antt =====
-- The typed views of modules/wl2_sdp/src/sdp.cpp. Each reads the lines of a scope, of a media section
-- or of the session.
use winglib.Base.{
  ℕ, Bool, ◌&&◌, List, [], ◌∷◌, Option, none, some, Text, codes, text_eq, split_at, if◌then◌else◌,
  ◌==◌, ◌%◌, ◌^◌,
}
use winglib.Sdp.Lines.{Line, Media, Session, split_attribute, split_spaces}
use winglib.Sdp.Numbers.{parse_int, to_int_or, minus_one}

pub record Rtpmap : Type 0 where
  pub payload : ℕ
  pub codec : Text
  pub clock : ℕ
  pub channels : ℕ

pub record Fmtp : Type 0 where
  pub payload : ℕ
  pub params : Text

pub record Candidate : Type 0 where
  pub foundation : Text
  pub component : ℕ
  pub proto : Text
  pub priority : ℕ
  pub ip : Text
  pub port : ℕ
  pub type : Text
  pub ext : List (Text × Text)

pub record Fingerprint : Type 0 where
  pub hash_func : Text
  pub value : Text

pub record ExtMap : Type 0 where
  pub id : ℕ
  pub direction : Text
  pub uri : Text

pub record Ssrc : Type 0 where
  pub id : ℕ
  pub attribute : Text
  pub value : Text

unfoldable pub attribute_key_is : Line → Text → Bool
unfolding split_attribute
attribute_key_is line key = line.type == b'a' && text_eq (split_attribute line.value).0 key

-- The value of an attribute line that has this key and a ':'.
unfoldable pub value_of : Text → Line → Option Text
unfolding split_attribute
value_of key line =
    let (k, value, has_colon) = split_attribute line.value in
    if line.type == b'a' && (has_colon && text_eq k key) then some value else none

-- The loop of a view over the lines: `continue` is none.
unfoldable pub collect {ℓ} : {A : Type ℓ} → (Text → Option A) → Text → List Line → List A
unfolding value_of
collect read key [] = []
collect read key (line ∷ lines) = elim (value_of key line) [
  | none ↦ collect read key lines
  | some value ↦ elim (read value) [
    | none ↦ collect read key lines
    | some a ↦ a ∷ collect read key lines
  ]
]

unfoldable pub read_encoding : ℕ → Text → Rtpmap
unfolding to_int_or
read_encoding payload enc = elim (split_at b'/' enc) [
  | none ↦ record { payload = payload; codec = enc; clock = 0; channels = 0 }
  | some (codec, rest) ↦ elim (split_at b'/' rest) [
    | none ↦ record { payload = payload; codec = codec; clock = to_int_or rest 0; channels = 0 }
    | some (clock, channels) ↦ record {
      payload = payload;
      codec = codec;
      clock = to_int_or clock 0;
      channels = to_int_or channels 0;
    }
  ]
]

unfoldable pub read_rtpmap : List Text → Option Rtpmap
unfolding read_encoding to_int_or minus_one
read_rtpmap [] = none
read_rtpmap (payload ∷ []) = none
read_rtpmap (payload ∷ enc ∷ tokens) = some (read_encoding (to_int_or payload minus_one) enc)

unfoldable pub rtpmaps : Media → List Rtpmap
unfolding collect read_rtpmap split_spaces
rtpmaps media = collect (λ value. read_rtpmap (split_spaces value)) (codes "rtpmap") media.lines

unfoldable pub read_fmtp : Text → Fmtp
unfolding to_int_or minus_one
read_fmtp value = elim (split_at b' ' value) [
  | none ↦ record { payload = to_int_or value minus_one; params = [] }
  | some (payload, params) ↦ record { payload = to_int_or payload minus_one; params = params }
]

unfoldable pub fmtps : Media → List Fmtp
unfolding collect read_fmtp
fmtps media = collect (λ value. some (read_fmtp value)) (codes "fmtp") media.lines

-- Key and value pairs; an odd token at the end is dropped.
unfoldable pub pairs : List Text → List (Text × Text)
pairs [] = []
pairs (k ∷ []) = []
pairs (k ∷ v ∷ tokens) = (k, v) ∷ pairs tokens

-- The candidate's type and what is left for the extensions.
unfoldable pub read_typ : List Text → Text × List Text
read_typ [] = ([], [])
read_typ (t ∷ []) = ([], t ∷ [])
read_typ (t ∷ type ∷ tokens) =
    if text_eq t (codes "typ") then (type, tokens) else ([], t ∷ type ∷ tokens)

abbrev pub value_or {ℓ} : {A : Type ℓ} → A → Option A → A
value_or a none = a
value_or a (some b) = b

unfoldable pub read_candidate : List Text → Option Candidate
unfolding to_int_or parse_int read_typ pairs
read_candidate (foundation ∷ component ∷ proto ∷ priority ∷ ip ∷ port ∷ tokens) =
    let (type, ext) = read_typ tokens in
    some record {
      foundation = foundation;
      component = to_int_or component 0;
      proto = proto;
      priority = value_or 0 (parse_int priority);
      ip = ip;
      port = to_int_or port 0;
      type = type;
      ext = pairs ext;
    }
read_candidate tokens = none

unfoldable pub candidates : Media → List Candidate
unfolding collect read_candidate split_spaces
candidates media =
    collect (λ value. read_candidate (split_spaces value)) (codes "candidate") media.lines

unfoldable pub read_ext_map : Text → Text → ExtMap
unfolding to_int_or
read_ext_map id_field uri = elim (split_at b'/' id_field) [
  | none ↦ record { id = to_int_or id_field 0; direction = []; uri = uri }
  | some (id, direction) ↦ record { id = to_int_or id 0; direction = direction; uri = uri }
]

unfoldable pub read_extmap : List Text → Option ExtMap
unfolding read_ext_map
read_extmap [] = none
read_extmap (id_field ∷ []) = some (read_ext_map id_field [])
read_extmap (id_field ∷ uri ∷ tokens) = some (read_ext_map id_field uri)

unfoldable pub extmaps : Media → List ExtMap
unfolding collect read_extmap split_spaces
extmaps media = collect (λ value. read_extmap (split_spaces value)) (codes "extmap") media.lines

unfoldable pub ssrc_id : Text → ℕ
unfolding parse_int
ssrc_id id_field = value_or 0 (parse_int id_field) % 2 ^ 32

unfoldable pub read_ssrc : Text → Ssrc
unfolding ssrc_id
read_ssrc value = elim (split_at b' ' value) [
  | none ↦ record { id = ssrc_id value; attribute = []; value = [] }
  | some (id_field, rest) ↦ elim (split_at b':' rest) [
    | none ↦ record { id = ssrc_id id_field; attribute = rest; value = [] }
    | some (name, behind) ↦ record { id = ssrc_id id_field; attribute = name; value = behind }
  ]
]

unfoldable pub ssrcs : Media → List Ssrc
unfolding collect read_ssrc
ssrcs media = collect (λ value. some (read_ssrc value)) (codes "ssrc") media.lines

unfoldable pub read_fingerprint : List Text → Option Fingerprint
read_fingerprint [] = none
read_fingerprint (hash_func ∷ []) = none
read_fingerprint (hash_func ∷ value ∷ tokens) = some record { hash_func = hash_func; value = value }

unfoldable pub fingerprint_in : List Line → Option Fingerprint
unfolding value_of read_fingerprint split_spaces
fingerprint_in [] = none
fingerprint_in (line ∷ lines) = elim (value_of (codes "fingerprint") line) [
  | none ↦ fingerprint_in lines
  | some value ↦ elim (read_fingerprint (split_spaces value)) [
    | none ↦ fingerprint_in lines
    | some f ↦ some f
  ]
]

unfoldable pub media_fingerprint : Media → Option Fingerprint
unfolding fingerprint_in
media_fingerprint media = fingerprint_in media.lines

unfoldable pub session_fingerprint : Session → Option Fingerprint
unfolding fingerprint_in
session_fingerprint session = fingerprint_in session.lines

unfoldable pub attribute_in : List Line → Text → Option Text
unfolding attribute_key_is split_attribute
attribute_in [] key = none
attribute_in (line ∷ lines) key =
    if attribute_key_is line key
    then some (split_attribute line.value).1
    else attribute_in lines key

unfoldable pub attributes_in : List Line → Text → List Text
unfolding attribute_key_is split_attribute
attributes_in [] key = []
attributes_in (line ∷ lines) key =
    if attribute_key_is line key
    then (split_attribute line.value).1 ∷ attributes_in lines key
    else attributes_in lines key

unfoldable pub media_attribute : Media → Text → Option Text
unfolding attribute_in
media_attribute media key = attribute_in media.lines key

unfoldable pub session_attribute : Session → Text → Option Text
unfolding attribute_in
session_attribute session key = attribute_in session.lines key

unfoldable pub media_attributes : Media → Text → List Text
unfolding attributes_in
media_attributes media key = attributes_in media.lines key

unfoldable pub session_attributes : Session → Text → List Text
unfolding attributes_in
session_attributes session key = attributes_in session.lines key
