-- ===== src/Sdp/Parse/Segments.antt =====
-- How the parser of modules/wl2_sdp/src/sdp.cpp cuts the text that the builder prints: segments,
-- strip_cr and split_spaces.
use winglib.Base.{
  ◌≡◌, refl, sym, ℕ, Bool, true, false, List, [], ◌∷◌, ◌++◌, append-nil, append_assoc, none, some,
  Text, is_empty, contains_char, contains_char-append, ◌==◌, ==_refl, if◌then◌else◌, arith, All,
}
use winglib.Syntax.{drop_last}
use winglib.Sdp.Lines.{split_spaces, split_front, push_token}
use winglib.Sdp.Parse.{segments, strip_cr}
use winglib.Sdp.Build.{separator, print_formats}

-- The carriage return of a terminator.
unfoldable pub return_of : Bool → Text
return_of use_crlf = if use_crlf then 13 ∷ [] else []

segments-newline :
    (w r : Text) → contains_char 10 w ≡ false → segments (w ++ 10 ∷ r) ≡ w ∷ segments r
unfolding segments contains_char
segments-newline [] r h = refl
segments-newline (c ∷ w) r h =
    let e : contains_char 10 w ≡ false = ground arith in
    let n : (c == 10) ≡ false = ground arith in rw (n, segments-newline w r e) refl

-- A printed line gives one segment.
pub segments-line :
    (crlf : Bool) (w r : Text)
    → contains_char 10 w ≡ false
    → segments (w ++ (separator crlf ++ r)) ≡ (w ++ return_of crlf) ∷ segments r
unfolding separator return_of contains_char
segments-line false w r h = rw (append-nil w) (segments-newline w r h)
segments-line true w r h =
    let e : contains_char 10 (w ++ 13 ∷ []) ≡ false =
      rw (contains_char-append 10 w (13 ∷ []), h) refl in
    rw (sym (append_assoc w (13 ∷ []) (10 ∷ r))) (segments-newline (w ++ 13 ∷ []) r e)

drop_last-none : (q : ℕ) (w : Text) → contains_char q w ≡ false → drop_last q w ≡ none
unfolding drop_last contains_char
drop_last-none q [] h = refl
drop_last-none q (c ∷ []) h = ground arith
drop_last-none q (c ∷ d ∷ w) h =
    let e : contains_char q (d ∷ w) ≡ false = ground arith in rw (drop_last-none q (d ∷ w) e) refl

pub drop_last-append : (q : ℕ) (w : Text) → drop_last q (w ++ q ∷ []) ≡ some w
unfolding drop_last
drop_last-append q [] = rw (==_refl q) refl
drop_last-append q (c ∷ []) = rw (drop_last, ==_refl q) refl
drop_last-append q (c ∷ d ∷ w) = rw (drop_last-append q (d ∷ w)) refl

pub strip_cr-append :
    (crlf : Bool) (w : Text)
    → contains_char 13 w ≡ false
    → strip_cr (w ++ return_of crlf) ≡ (w, crlf)
unfolding strip_cr return_of
strip_cr-append false w h = rw (append-nil w, strip_cr, drop_last-none 13 w h, append-nil w) refl
strip_cr-append true w h = rw (strip_cr, drop_last-append 13 w) refl

-- A token of an m= line: not empty, and with no space and no line break.
abbrev pub TokenOk : Text → Type 0
TokenOk w =
    (is_empty w ≡ false)
    × (contains_char b' ' w ≡ false)
    × (contains_char 10 w ≡ false)
    × (contains_char 13 w ≡ false)

pub split_front-space :
    (w r : Text) → contains_char b' ' w ≡ false → split_front (w ++ b' ' ∷ r) ≡ (w, split_spaces r)
unfolding split_front split_spaces contains_char
split_front-space [] r h = refl
split_front-space (c ∷ w) r h =
    let e : contains_char b' ' w ≡ false = ground arith in
    let n : (c == b' ') ≡ false = ground arith in rw (split_front-space w r e, n, split_spaces) refl

pub split_front-end : (w : Text) → contains_char b' ' w ≡ false → split_front w ≡ (w, [])
unfolding split_front contains_char
split_front-end [] h = refl
split_front-end (c ∷ w) h =
    let e : contains_char b' ' w ≡ false = ground arith in
    let n : (c == b' ') ≡ false = ground arith in rw (split_front-end w e, n) refl

pub push_token-some : (w : Text) (l : List Text) → is_empty w ≡ false → push_token w l ≡ w ∷ l
unfolding push_token
push_token-some [] l h = cc
push_token-some (c ∷ w) l h = refl

pub split_spaces-space :
    (w r : Text) → TokenOk w → split_spaces (w ++ b' ' ∷ r) ≡ w ∷ split_spaces r
unfolding split_spaces
split_spaces-space w r h =
    rw (split_spaces, split_front-space w r h.1) (push_token-some w (split_spaces r) h.0)

pub split_spaces-formats :
    (w : Text) (formats : List Text)
    → TokenOk w
    → All TokenOk formats
    → split_spaces (w ++ print_formats formats) ≡ w ∷ formats
unfolding print_formats split_spaces
split_spaces-formats w [] h hs =
    rw (append-nil w, split_spaces, split_front-end w h.1) (push_token-some w [] h.0)
split_spaces-formats w (f ∷ formats) h hs =
    rw
      (
        split_spaces-space w (f ++ print_formats formats) h,
        split_spaces-formats f formats hs.0 hs.1,
      )
      refl

pub contains_char-formats :
    (c : ℕ) (formats : List Text)
    → (c == b' ') ≡ false
    → All (λ f. contains_char c f ≡ false) formats
    → contains_char c (print_formats formats) ≡ false
unfolding print_formats contains_char
contains_char-formats c [] n h = refl
contains_char-formats c (f ∷ formats) n h =
    rw
      (contains_char-append c f (print_formats formats), h.0, contains_char-formats c formats n h.1)
      (ground arith)
