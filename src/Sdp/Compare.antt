-- ===== src/Sdp/Compare.antt =====
-- equalNormalized of modules/wl2_sdp/src/sdp.cpp.
pub mod TextOrder
pub mod Perm
use winglib.Base.{
  ℕ, Bool, true, false, ◌&&◌, List, [], ◌∷◌, map, Text, text_eq, ◌==◌, length, text_lt, sort,
}
use winglib.Sdp.Lines.{Line, Media, Session}
use winglib.Sdp.Build.{line_text}

unfoldable pub texts_eq : List Text → List Text → Bool
texts_eq [] [] = true
texts_eq [] (t ∷ ys) = false
texts_eq (s ∷ xs) [] = false
texts_eq (s ∷ xs) (t ∷ ys) = text_eq s t && texts_eq xs ys

-- The keys: the type, '=' and the value, as the builder prints a line.
unfoldable pub sorted_line_keys : List Line → List Text
unfolding line_text
sorted_line_keys lines = sort text_lt (map line_text lines)

unfoldable pub equal_lines : List Line → List Line → Bool
unfolding texts_eq sorted_line_keys
equal_lines xs ys = texts_eq (sorted_line_keys xs) (sorted_line_keys ys)

-- The loop over the sections of two lists of one length.
unfoldable pub equal_media : List Media → List Media → Bool
unfolding texts_eq equal_lines
equal_media [] [] = true
equal_media [] (n ∷ ns) = false
equal_media (m ∷ ms) [] = false
equal_media (m ∷ ms) (n ∷ ns) =
    text_eq m.kind n.kind
    && (text_eq m.port n.port
        && (text_eq m.proto n.proto
            && (texts_eq m.formats n.formats
                && (equal_lines m.lines n.lines && equal_media ms ns))))

unfoldable pub equal_normalized : Session → Session → Bool
unfolding equal_lines equal_media
equal_normalized a b =
    equal_lines a.lines b.lines && (length a.media == length b.media && equal_media a.media b.media)
