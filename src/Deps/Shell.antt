-- ===== src/Deps/Shell.antt =====
-- How run_git of src/core/module_deps.cpp puts its arguments on the command line of the shell, and
-- the tests of names and arguments beside it. The pipe and the exit status are not modelled.
pub mod Words
pub mod Names
use winglib.Base.{
  ℕ, Bool, true, false, ◌||◌, not, List, [], ◌∷◌, ◌++◌, Option, none, some, Text, codes, text_eq,
  split_at, contains_char, is_empty, if◌then◌else◌, ◌==◌,
}

unfoldable pub looks_like_option : Text → Bool
looks_like_option [] = false
looks_like_option (c ∷ s) = c == b'-'

unfoldable pub is_safe_dependency_name : Text → Bool
is_safe_dependency_name name =
    if is_empty name
      || (text_eq name (codes ".")
          || (text_eq name (codes "..")
              || (contains_char b'/' name || (contains_char b'\\' name || contains_char 0 name))))
    then false
    else true

-- The loop of shell_quote: a quote becomes a quote, a backslash and two quotes.
unfoldable pub escape_quotes : Text → Text
escape_quotes [] = []
escape_quotes (c ∷ s) =
    let rest = escape_quotes s in
    if c == b'\'' then b'\'' ∷ b'\\' ∷ b'\'' ∷ b'\'' ∷ rest else c ∷ rest

unfoldable pub shell_quote : Text → Text
unfolding escape_quotes
shell_quote value = b'\'' ∷ (escape_quotes value ++ b'\'' ∷ [])

unfoldable pub quoted_args : List Text → Text
unfolding shell_quote
quoted_args [] = []
quoted_args (arg ∷ args) = b' ' ∷ (shell_quote arg ++ quoted_args args)

unfoldable pub no_stderr : Text
no_stderr = codes " 2>/dev/null"

abbrev pub git : Text
git = codes "git"

-- `s.c_str()` as the C library reads it, up to the first zero byte.
unfoldable pub c_str : Text → Text
c_str s = elim (split_at 0 s) [ none ↦ s | some (a, b) ↦ a ]

unfoldable pub git_command : List Text → Text
unfolding quoted_args no_stderr c_str
git_command args = c_str ((git ++ quoted_args args) ++ no_stderr)
