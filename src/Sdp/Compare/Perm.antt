-- ===== src/Sdp/Compare/Perm.antt =====
-- equalNormalized of modules/wl2_sdp/src/sdp.cpp against sessions up to the order of their lines.
use mathlib.Core.List.{Permᴰ}
use mathlib.Core.List.Permᴰ
use winglib.Base.{
  ◌≡◌, ◌↔◌, refl, ap, subst, suc, true, List, [], ◌∷◌, map, Text, text_eq, text_eq_iff, arith,
  length, ◌==◌, ==_iff, text_lt, sort,
}
use winglib.Sdp.Lines.{Line, Media, Session}
use winglib.Sdp.Build.{line_text}
use winglib.Sdp.Compare.{texts_eq, sorted_line_keys, equal_lines, equal_media, equal_normalized}
use winglib.Sdp.Compare.TextOrder.{sort-Perm, Perm-sort}

texts_eq_iff : (xs ys : List Text) → (texts_eq xs ys ≡ true) ↔ (xs ≡ ys)
unfolding texts_eq
texts_eq_iff [] [] = (λ h. refl, λ h. refl)
texts_eq_iff [] (t ∷ ys) = (λ h. cc, λ h. cc)
texts_eq_iff (s ∷ xs) [] = (λ h. cc, λ h. cc)
texts_eq_iff (s ∷ xs) (t ∷ ys) = ground (arith, texts_eq_iff xs ys, text_eq_iff s t)

-- The line of a printed line.
line_of : Text → Line
line_of [] = record { type = 0; value = [] }
line_of (c ∷ []) = record { type = c; value = [] }
line_of (c ∷ d ∷ value) = record { type = c; value = value }

Perm-map : {A B : Type 0} (f : A → B) {xs ys : List A} → Permᴰ xs ys → Permᴰ (map f xs) (map f ys)
Perm-map f Permᴰ.nil = Permᴰ.nil
Perm-map f (Permᴰ.cons e p) = Permᴰ.cons (ap f e) (Perm-map f p)
Perm-map f (Permᴰ.swap e g) = Permᴰ.swap (ap f e) (ap f g)
Perm-map f (Permᴰ.trans p q) = Permᴰ.trans (Perm-map f p) (Perm-map f q)

map-line_of : (lines : List Line) → map line_of (map line_text lines) ≡ lines
unfolding line_of line_text
map-line_of [] = refl
map-line_of (l ∷ lines) = ap (λ t. l ∷ t) (map-line_of lines)

equal_lines_iff : (xs ys : List Line) → (equal_lines xs ys ≡ true) ↔ Permᴰ xs ys
unfolding equal_lines sorted_line_keys
equal_lines_iff xs ys = (
  (λ h.
      let e : sort text_lt (map line_text xs) ≡ sort text_lt (map line_text ys) =
        (texts_eq_iff (sorted_line_keys xs) (sorted_line_keys ys)).0 h in
      let there : Permᴰ (map line_text xs) (sort text_lt (map line_text ys)) =
        subst (Permᴰ (map line_text xs)) e (Permᴰ.symm (sort-Perm (map line_text xs))) in
      let p : Permᴰ (map line_text xs) (map line_text ys) =
        Permᴰ.trans there (sort-Perm (map line_text ys)) in
      subst (λ l. Permᴰ l ys) (map-line_of xs)
        (subst (λ l. Permᴰ (map line_of (map line_text xs)) l) (map-line_of ys)
          (Perm-map line_of p))),
  (λ p.
      (texts_eq_iff (sorted_line_keys xs) (sorted_line_keys ys)).1
        (Perm-sort (Perm-map line_text p))),
)

-- Sections in pairs, each with the same m= line and with the same lines in some order.
abbrev pub SameMedia : List Media → List Media → Type 0
SameMedia [] [] = Unit {0}
SameMedia [] (n ∷ ns) = ⊥
SameMedia (m ∷ ms) [] = ⊥
SameMedia (m ∷ ms) (n ∷ ns) =
    (m.kind ≡ n.kind)
    × (m.port ≡ n.port)
    × (m.proto ≡ n.proto)
    × (m.formats ≡ n.formats)
    × Permᴰ m.lines n.lines
    × SameMedia ms ns

equal_media_iff : (ms ns : List Media) → (equal_media ms ns ≡ true) ↔ SameMedia ms ns
unfolding equal_media
equal_media_iff [] [] = (λ h. tt, λ h. refl)
equal_media_iff [] (n ∷ ns) = (λ h. cc, λ h. elim h [ ])
equal_media_iff (m ∷ ms) [] = (λ h. cc, λ h. elim h [ ])
equal_media_iff (m ∷ ms) (n ∷ ns) = (
  (λ h.
      let q : (text_eq m.kind n.kind ≡ true)
          × (text_eq m.port n.port ≡ true)
          × (text_eq m.proto n.proto ≡ true)
          × (texts_eq m.formats n.formats ≡ true)
          × (equal_lines m.lines n.lines ≡ true)
          × (equal_media ms ns ≡ true) =
        ground arith in
      (
        (text_eq_iff m.kind n.kind).0 q.0,
        (text_eq_iff m.port n.port).0 q.1,
        (text_eq_iff m.proto n.proto).0 q.2,
        (texts_eq_iff m.formats n.formats).0 q.3,
        (equal_lines_iff m.lines n.lines).0 q.4,
        (equal_media_iff ms ns).0 q.5,
      )),
  (λ s.
      rw
        (
          (text_eq_iff m.kind n.kind).1 s.0,
          (text_eq_iff m.port n.port).1 s.1,
          (text_eq_iff m.proto n.proto).1 s.2,
          (texts_eq_iff m.formats n.formats).1 s.3,
          (equal_lines_iff m.lines n.lines).1 s.4,
          (equal_media_iff ms ns).1 s.5,
        )
        refl),
)

SameMedia-length : (ms ns : List Media) → SameMedia ms ns → length ms ≡ length ns
SameMedia-length [] [] s = refl
SameMedia-length [] (n ∷ ns) s = elim s [ ]
SameMedia-length (m ∷ ms) [] s = elim s [ ]
SameMedia-length (m ∷ ms) (n ∷ ns) s = ap suc (SameMedia-length ms ns s.5)

-- equalNormalized says yes exactly when the session lines of the one are a permutation of those of
-- the other and the media sections agree in pairs, with the same kind, port, protocol and formats
-- and with the lines of the one a permutation of those of the other.
pub equal_normalized_iff :
    (a b : Session)
    → (equal_normalized a b ≡ true) ↔ (Permᴰ a.lines b.lines × SameMedia a.media b.media)
unfolding equal_normalized
equal_normalized_iff a b = (
  (λ h.
      let q : (equal_lines a.lines b.lines ≡ true) × (equal_media a.media b.media ≡ true) =
        ground arith in
      ((equal_lines_iff a.lines b.lines).0 q.0, (equal_media_iff a.media b.media).0 q.1)),
  (λ s.
      let same : (length a.media == length b.media) ≡ true =
        (==_iff (length a.media) (length b.media)).1 (SameMedia-length a.media b.media s.1) in
      rw ((equal_lines_iff a.lines b.lines).1 s.0, same, (equal_media_iff a.media b.media).1 s.1)
        refl),
)
