-- ===== src/Deps/LockText/Lines.antt =====
-- The lines that std::getline reads from a text that was written line by line.
use winglib.Base.{
  ◌≡◌, refl, sym, ap, ◌∙◌, false, List, [], ◌∷◌, ◌++◌, Text, contains_char, All, append-nil,
  append_assoc, arith, ◌==◌,
}
use winglib.Deps.Locking.{lines, lines_from}

abbrev pub Line : Text → Type 0
Line s = contains_char 10 s ≡ false

unfoldable pub written : List Text → Text
written [] = []
written (l ∷ ls) = l ++ 10 ∷ written ls

pub written-append : (xs ys : List Text) → written (xs ++ ys) ≡ written xs ++ written ys
unfolding written
written-append [] ys = refl
written-append (x ∷ xs) ys =
    ap (λ t. x ++ 10 ∷ t) (written-append xs ys)
    ∙ sym (append_assoc x (10 ∷ written xs) (written ys))

lines_from-append :
    (before s rest : Text)
    → Line s
    → lines_from before (s ++ 10 ∷ rest) ≡ (before ++ s) ∷ lines_from [] rest
unfolding lines_from contains_char
lines_from-append before [] rest h = ap (λ t. t ∷ lines_from [] rest) (sym (append-nil before))
lines_from-append before (c ∷ s) rest h =
    let n : (c == 10) ≡ false = ground arith in
    let k : Line s = ground arith in
    rw (lines_from, n)
      (lines_from-append (before ++ c ∷ []) s rest k
        ∙ ap (λ t. t ∷ lines_from [] rest) (append_assoc before (c ∷ []) s))

pub lines-written : (ls : List Text) → All Line ls → lines (written ls) ≡ ls
unfolding lines lines_from written
lines-written [] h = refl
lines-written (l ∷ ls) (h, k) =
    lines_from-append [] l (written ls) h ∙ ap (λ t. l ∷ t) (lines-written ls k)
