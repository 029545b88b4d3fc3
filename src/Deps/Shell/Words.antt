-- ===== src/Deps/Shell/Words.antt =====
-- What a POSIX shell makes of the command line of run_git.
use winglib.Base.{
  ℕ, ◌≡◌, refl, ap, ◌∙◌, Bool, false, ◌&&◌, ◌||◌, List, [], ◌∷◌, ◌++◌, Option, none, some, arith,
  Text, contains_char, contains_char-append, split_at-none, if◌then◌else◌, ◌==◌, ==_iff,
  Option-cases, leb, All, Bool-cases, inl, inr, append_assoc, append-nil,
}
use winglib.Deps.Shell.{escape_quotes, shell_quote, quoted_args, no_stderr, git, c_str, git_command}

-- Where the shell stands: between words, or in a word that has been read so far to this text, there
-- outside quotes, between single quotes, or behind a backslash.
pub data Mode : Type 0 where
  between : Mode
  unquoted quoted escaped : Text → Mode

-- Letters and digits stand for themselves; other characters may have a meaning to the shell.
abbrev pub is_plain : ℕ → Bool
is_plain c =
    (leb b'a' c && leb c b'z') || ((leb b'A' c && leb c b'Z') || (leb b'0' c && leb c b'9'))

-- The words that end with this character, and where the shell stands behind it.
unfoldable pub lex : Mode → ℕ → Option (List Text × Mode)
lex between c =
    if c == b' '
    then some ([], between)
    else if c == b'\''
    then some ([], quoted [])
    else if c == b'\\'
    then some ([], escaped [])
    else if is_plain c
    then some ([], unquoted (c ∷ []))
    else none
lex (unquoted w) c =
    if c == b' '
    then some (w ∷ [], between)
    else if c == b'\''
    then some ([], quoted w)
    else if c == b'\\'
    then some ([], escaped w)
    else if is_plain c
    then some ([], unquoted (w ++ c ∷ []))
    else none
lex (quoted w) c = if c == b'\'' then some ([], unquoted w) else some ([], quoted (w ++ c ∷ []))
lex (escaped w) c = some ([], unquoted (w ++ c ∷ []))

-- The words of a line, if it has only words, and its quotes are closed.
unfoldable pub shell_words : Mode → Text → Option (List Text)
unfolding lex
shell_words between [] = some []
shell_words (unquoted w) [] = some (w ∷ [])
shell_words (quoted w) [] = none
shell_words (escaped w) [] = none
shell_words m (c ∷ s) = elim (lex m c) [
  | none ↦ none
  | some (out, m') ↦ elim (shell_words m' s) [ none ↦ none | some ws ↦ some (out ++ ws) ]
]

same_words : (o : Option (List Text)) → elim o [ none ↦ none | some ws ↦ some ws ] ≡ o
same_words none = refl
same_words (some ws) = refl

skip_char :
    (c : ℕ) (w s : Text)
    → (c == b'\'') ≡ false
    → shell_words (quoted w) (c ∷ s) ≡ shell_words (quoted (w ++ c ∷ [])) s
unfolding shell_words lex
skip_char c w s e = rw (shell_words, e) (same_words (shell_words (quoted (w ++ c ∷ [])) s))

skip_quote :
    (w s : Text)
    → shell_words (quoted w) (b'\'' ∷ b'\\' ∷ b'\'' ∷ b'\'' ∷ s)
      ≡ shell_words (quoted (w ++ b'\'' ∷ [])) s
unfolding shell_words lex
skip_quote w s = elim (Option-cases (shell_words (quoted (w ++ b'\'' ∷ [])) s)) [
  | inl e ↦ rw e
  | inr (ws, e) ↦ rw e
]

grow :
    (w : Text) (c : ℕ) (v s : Text)
    → shell_words (unquoted ((w ++ c ∷ []) ++ v)) s ≡ shell_words (unquoted (w ++ c ∷ v)) s
grow w c v s = ap (λ u. shell_words (unquoted u) s) (append_assoc w (c ∷ []) v)

-- Between quotes the escaped text is read back.
words-escape_quotes :
    (w v s : Text)
    → shell_words (quoted w) (escape_quotes v ++ b'\'' ∷ s) ≡ shell_words (unquoted (w ++ v)) s
unfolding shell_words escape_quotes
words-escape_quotes w [] s = rw (append-nil w) (same_words (shell_words (unquoted w) s))
words-escape_quotes w (c ∷ v) s = elim (Bool-cases (c == b'\'')) [
  | inl e ↦ rw ((==_iff c b'\'').0 e) (
      skip_quote w (escape_quotes v ++ b'\'' ∷ s)
      ∙ words-escape_quotes (w ++ b'\'' ∷ []) v s
      ∙ grow w b'\'' v s)
  | inr e ↦ rw e (
      skip_char c w (escape_quotes v ++ b'\'' ∷ s) e
      ∙ words-escape_quotes (w ++ c ∷ []) v s
      ∙ grow w c v s)
]

words-quoted_args :
    (w : Text) (args : List Text) → shell_words (unquoted w) (quoted_args args) ≡ some (w ∷ args)
unfolding quoted_args shell_words shell_quote
words-quoted_args w [] = refl
words-quoted_args w (arg ∷ args) =
    let read : shell_words (quoted []) ((escape_quotes arg ++ b'\'' ∷ []) ++ quoted_args args)
        ≡ some (arg ∷ args) =
      ap (shell_words (quoted []))
        (append_assoc (escape_quotes arg) (b'\'' ∷ []) (quoted_args args))
      ∙ words-escape_quotes [] arg (quoted_args args)
      ∙ words-quoted_args arg args in
    rw (shell_words, read)

no_zero-escape_quotes :
    (v : Text) → contains_char 0 v ≡ false → contains_char 0 (escape_quotes v) ≡ false
unfolding escape_quotes contains_char
no_zero-escape_quotes [] h = refl
no_zero-escape_quotes (c ∷ v) h = ground (arith, no_zero-escape_quotes v)

no_zero-quoted_args :
    (args : List Text)
    → All (λ arg. contains_char 0 arg ≡ false) args
    → contains_char 0 (quoted_args args) ≡ false
unfolding quoted_args shell_quote contains_char
no_zero-quoted_args [] h = refl
no_zero-quoted_args (arg ∷ args) h =
    rw
      (
        contains_char-append 0 (escape_quotes arg ++ b'\'' ∷ []) (quoted_args args),
        contains_char-append 0 (escape_quotes arg) (b'\'' ∷ []),
        no_zero-escape_quotes arg h.0,
        no_zero-quoted_args args h.1,
      )
      refl

-- Whatever the arguments are, short of a zero byte, the shell reads the command line as the word git
-- and exactly these arguments, each unchanged, followed by the redirection: no argument can add a
-- word, start another command or be expanded.
pub git_command-words :
    (args : List Text)
    → All (λ arg. contains_char 0 arg ≡ false) args
    → (line : Text) × (git_command args ≡ line ++ no_stderr)
      × (shell_words between line ≡ some (git ∷ args))
unfolding git_command c_str contains_char no_stderr shell_words
git_command-words args h =
    let clean : contains_char 0 ((git ++ quoted_args args) ++ no_stderr) ≡ false =
      rw (contains_char-append 0 (quoted_args args) no_stderr, no_zero-quoted_args args h) refl in
    (
      git ++ quoted_args args,
      ap (λ o. elim o [ none ↦ (git ++ quoted_args args) ++ no_stderr | some (a, b) ↦ a ])
          (split_at-none 0 ((git ++ quoted_args args) ++ no_stderr) clean),
      rw (shell_words, words-quoted_args git args),
    )
