-- ===== src/Sdp/Munge/Payloads.antt =====
-- keepPayloads and reorderPayloads of modules/wl2_sdp/src/sdp.cpp: the views of what is kept, and the
-- order of the formats.
use winglib.Base.{
  ◌≡◌, refl, sym, ap, ◌∙◌, ℕ, Bool, true, false, not, ◌&&◌, ◌||◌, List, [], ◌∷◌, Option, none, some,
  Text, codes, text_eq, text_eq_iff, split_at, split_at-some, is_empty, ◌==◌, arith, Bool-cases,
  Option-cases, inl, inr, keep, member, text_Eq, nat_eq, All, All-map, contains_char,
}
use winglib.Sdp.Lines.{Line, Media, split_attribute, split_spaces, split_front}
use winglib.Sdp.Parse.Segments.{split_front-space, split_front-end, push_token-some}
use winglib.Sdp.Numbers.{parse_int, to_int_or, minus_one, minus_two, is_negative}
use winglib.Sdp.Views.{
  value_of, collect, read_fmtp, fmtps, read_rtpmap, read_encoding, rtpmaps, Rtpmap,
}
use winglib.Sdp.Munge.{
  first_token, payload_of_attribute, keeps_line, keeps_attribute, keep_payloads,
}

-- A view of the lines that a test keeps is the view filtered, where the test says of a line what
-- `good` says of its entry.
collect-keep :
    {A : Type 0} (read : Text → Option A) (key : Text) (test : Line → Bool) (good : A → Bool)
    (lines : List Line)
    → All
        (λ l. (v : Text) (a : A) → value_of key l ≡ some v → read v ≡ some a → test l ≡ good a)
        lines
    → collect read key (keep test lines) ≡ keep good (collect read key lines)
unfolding collect
collect-keep read key test good [] h = refl
collect-keep read key test good (l ∷ lines) h =
    let ih = collect-keep read key test good lines h.1 in
    elim (Option-cases (value_of key l)) [
      | inl e ↦ ground (arith, e, ih)
      | inr (v, e) ↦ elim (Option-cases (read v)) [
        | inl r ↦ ground (arith, e, r, ih)
        | inr (a, r) ↦ ground (arith, e, r, ih, h.0 v a e r)
      ]
    ]

some_inj : {A : Type 0} {a b : A} → some a ≡ some b → a ≡ b
some_inj e = cc e

All-every {κ} : {A : Type 0} (P : A → Type κ) (xs : List A) → ((a : A) → P a) → All P xs
All-every P [] f = tt
All-every P (x ∷ xs) f = (f x, All-every P xs f)

-- What a payload-scoped line is kept by.
abbrev pub kept : List ℕ → ℕ → Bool
kept payloads payload = is_negative payload || member payload payloads

value_of-some :
    (key : Text) (l : Line) (v : Text)
    → value_of key l ≡ some v
    → ((l.type == b'a') ≡ true) × (split_attribute l.value ≡ (key, v, true))
unfolding value_of split_attribute
value_of-some key l v h = elim (Option-cases (split_at b':' l.value)) [
  | inl e ↦ ground (arith, e)
  | inr ((k, w), e) ↦
      let hit : text_eq k key ≡ true = ground (arith, e) in
      let here : (l.type == b'a') ≡ true = ground (arith, e) in
      let same : w ≡ v = ground (arith, e) in
      let key_same : k ≡ key = (text_eq_iff k key).0 hit in
      (here, rw (split_attribute, e) (λ i. (key_same i, same i, true)))
]

-- The keys whose attributes name a payload.
abbrev pub scoped : Text → Bool
scoped key = not (
    not (text_eq key (codes "rtpmap"))
    && (not (text_eq key (codes "fmtp")) && not (text_eq key (codes "rtcp-fb"))))

kept-payload_of_attribute :
    (payloads : List ℕ) (key v : Text)
    → scoped key ≡ true
    → kept payloads (payload_of_attribute key v)
      ≡ kept payloads (to_int_or (first_token v) minus_one)
unfolding payload_of_attribute to_int_or minus_one minus_two parse_int
kept-payload_of_attribute payloads key v s =
    let e : not (text_eq key (codes "rtpmap"))
          && (not (text_eq key (codes "fmtp")) && not (text_eq key (codes "rtcp-fb")))
        ≡ false =
      ground arith in
    elim (Bool-cases (text_eq (first_token v) (codes "*"))) [
      | inl star ↦
          rw (payload_of_attribute, e, star, (text_eq_iff (first_token v) (codes "*")).0 star) refl
      | inr n ↦ rw (payload_of_attribute, e, n) refl
    ]

-- The payload that a view reads from the first token of such an attribute.
keeps_line-value :
    (payloads : List ℕ) (key : Text) (l : Line) (v : Text)
    → scoped key ≡ true
    → value_of key l ≡ some v
    → keeps_line payloads l ≡ kept payloads (to_int_or (first_token v) minus_one)
unfolding keeps_line keeps_attribute
keeps_line-value payloads key l v s h =
    let (a, e) = value_of-some key l v h in
    rw (a) (ap (keeps_attribute payloads) e ∙ kept-payload_of_attribute payloads key v s)

read_fmtp-payload : (v : Text) → (read_fmtp v).payload ≡ to_int_or (first_token v) minus_one
unfolding read_fmtp first_token
read_fmtp-payload v = elim (Option-cases (split_at b' ' v)) [
  | inl e ↦ rw (read_fmtp, first_token, e) refl
  | inr (p, e) ↦ rw (read_fmtp, first_token, e) refl
]

fmtps-keep_payloads :
    (m : Media) (payloads : List ℕ)
    → fmtps (keep_payloads m payloads) ≡ keep (λ f. kept payloads f.payload) (fmtps m)
unfolding fmtps keep_payloads text_eq
fmtps-keep_payloads m payloads =
    collect-keep (λ v. some (read_fmtp v)) (codes "fmtp") (keeps_line payloads)
      (λ f. kept payloads f.payload) m.lines
      (All-every _ m.lines (λ l v a h r.
        keeps_line-value payloads (codes "fmtp") l v refl h
        ∙ ap (kept payloads) (sym (read_fmtp-payload v) ∙ ap (λ f. f.payload) (some_inj r))))

read_encoding-payload : (p : ℕ) (enc : Text) → (read_encoding p enc).payload ≡ p
unfolding read_encoding
read_encoding-payload p enc = elim (Option-cases (split_at b'/' enc)) [
  | inl e ↦ rw (read_encoding, e) refl
  | inr ((codec, rest), e) ↦ elim (Option-cases (split_at b'/' rest)) [
    | inl f ↦ rw (read_encoding, e, f) refl
    | inr (q, f) ↦ rw (read_encoding, e, f) refl
  ]
]

none-contains_char : (c : ℕ) (v : Text) → split_at c v ≡ none → contains_char c v ≡ false
unfolding split_at contains_char
none-contains_char c [] h = refl
none-contains_char c (d ∷ v) h = elim (Option-cases (split_at c v)) [
  | inl e ↦ ground (arith, e, none-contains_char c v e)
  | inr (p, e) ↦ ground (arith, e)
]

split_spaces-first :
    (v : Text)
    → is_empty (first_token v) ≡ false
    → (tokens : List Text) × (split_spaces v ≡ first_token v ∷ tokens)
unfolding first_token split_spaces
split_spaces-first v h = elim (Option-cases (split_at b' ' v)) [
  | inl e ↦
      let f = split_front-end v (none-contains_char b' ' v e) in
      let g : first_token v ≡ v = rw (first_token, e) refl in
      ([], rw (f) (push_token-some v [] (rw g at h) ∙ ap (λ t. t ∷ []) (sym g)))
  | inr ((w, r), e) ↦
      let (same, clean) = split_at-some b' ' v w r e in
      let f : split_front v ≡ (w, split_spaces r) =
        ap split_front same ∙ split_front-space w r clean in
      let g : first_token v ≡ w = rw (first_token, e) refl in
      (
        split_spaces r,
        rw (f)
            (push_token-some w (split_spaces r) (rw g at h) ∙ ap (λ t. t ∷ split_spaces r) (sym g)),
      )
]

read_rtpmap-first :
    (t : Text) (tokens : List Text) (a : Rtpmap)
    → read_rtpmap (t ∷ tokens) ≡ some a
    → a.payload ≡ to_int_or t minus_one
unfolding read_rtpmap
read_rtpmap-first t [] a r = cc
read_rtpmap-first t (enc ∷ tokens) a r =
    ap (λ x. x.payload) (sym (some_inj r)) ∙ read_encoding-payload (to_int_or t minus_one) enc

read_rtpmap-payload :
    (v : Text) (a : Rtpmap)
    → is_empty (first_token v) ≡ false
    → read_rtpmap (split_spaces v) ≡ some a
    → a.payload ≡ to_int_or (first_token v) minus_one
unfolding read_rtpmap
read_rtpmap-payload v a h r =
    let (tokens, e) = split_spaces-first v h in
    read_rtpmap-first (first_token v) tokens a (ap read_rtpmap (sym e) ∙ r)

-- No rtpmap value is empty or begins with a space.
abbrev pub FilledRtpmaps : Media → Type 0
FilledRtpmaps m =
    All (λ l. (v : Text) → value_of (codes "rtpmap") l ≡ some v → is_empty (first_token v) ≡ false)
      m.lines

rtpmaps-keep_payloads :
    (m : Media) (payloads : List ℕ)
    → FilledRtpmaps m
    → rtpmaps (keep_payloads m payloads) ≡ keep (λ r. kept payloads r.payload) (rtpmaps m)
unfolding rtpmaps keep_payloads text_eq
rtpmaps-keep_payloads m payloads filled =
    collect-keep (λ v. read_rtpmap (split_spaces v)) (codes "rtpmap") (keeps_line payloads)
      (λ r. kept payloads r.payload) m.lines
      (All-map _ _
        (λ l f v a h r.
          keeps_line-value payloads (codes "rtpmap") l v refl h
          ∙ ap (kept payloads) (sym (read_rtpmap-payload v a (f v h) r)))
        m.lines filled)

-- keepPayloads against the views: what the fmtp view and the rtpmap view show afterwards is what they
-- showed before, less the entries with a payload that is neither negative nor kept, where no rtpmap
-- value is empty or begins with a space.
pub keep_payloads-views :
    (m : Media) (payloads : List ℕ)
    → FilledRtpmaps m
    → (fmtps (keep_payloads m payloads) ≡ keep (λ f. kept payloads f.payload) (fmtps m))
      × (rtpmaps (keep_payloads m payloads) ≡ keep (λ r. kept payloads r.payload) (rtpmaps m))
keep_payloads-views m payloads filled =
    (fmtps-keep_payloads m payloads, rtpmaps-keep_payloads m payloads filled)
