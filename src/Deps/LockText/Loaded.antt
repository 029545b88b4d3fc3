-- ===== src/Deps/LockText/Loaded.antt =====
-- loadLockfile of src/core/module_deps.cpp on the lines of one module.
use winglib.Base.{
  ◌≡◌, refl, sym, ap, ◌∙◌, ℕ, true, false, List, [], ◌∷◌, ◌++◌, Text, codes, is_empty, text_eq,
  arith, contains_char, ◌==◌, if◌then◌else◌, starts_with, split_at, split_at-append, append_assoc,
}
use winglib.Syntax.{is_space, strip_left, strip_right, unquote, trim, indent_of}
use winglib.Deps.Lockfile.{LockedModule}
use winglib.Deps.LockText.Fields.{Plain, Opens, gap, trim-line, trim-space, trim-gap, trim_again}
use winglib.Deps.LockText.{
  no_module, set_key, set_in_last, Loading, key_line, module_line, load_line, load_lines,
}

-- The bytes of a key: the first begins the line, and there is no colon.
record IsKey (c : ℕ) (key : Text) : Type 0 where
  opens : Opens c
  no_dash : (b'-' == c) ≡ false
  no_colon : contains_char b':' (c ∷ key) ≡ false
  trimmed : trim (c ∷ key) ≡ c ∷ key

set_in_last-append :
    (key value : Text) (ms : List LockedModule) (m : LockedModule)
    → set_in_last key value (ms ++ m ∷ []) ≡ ms ++ set_key key value m ∷ []
unfolding set_in_last
set_in_last-append key value [] m = refl
set_in_last-append key value (a ∷ []) m = refl
set_in_last-append key value (a ∷ b ∷ ms) m =
    ap (λ t. a ∷ t) (set_in_last-append key value (b ∷ ms) m)

abbrev pub reading : Text → List LockedModule → Loading
reading schema ms = record { lock = record { schema = schema; modules = ms }; in_modules = true }

load_line-indented :
    (l : Loading) (s : Text) (c : ℕ) (text : Text)
    → l.in_modules ≡ true
    → trim s ≡ c ∷ text
    → load_line l (b' ' ∷ b' ' ∷ s) ≡ module_line (c ∷ text) l
unfolding load_line indent_of
load_line-indented l s c text m e =
    let f : trim (b' ' ∷ b' ' ∷ s) ≡ c ∷ text = trim-space (b' ' ∷ s) ∙ trim-space s ∙ e in
    rw (load_line, f, m) (ground arith)

module_line-key :
    (c : ℕ) (key value : Text) (l : Loading)
    → IsKey c key
    → module_line (c ∷ (key ++ b':' ∷ value)) l ≡ key_line (c ∷ (key ++ b':' ∷ value)) l
unfolding module_line starts_with
module_line-key c key value l k =
    rw (module_line, split_at-append b':' (c ∷ key) value k.no_colon, k.no_dash) refl

dash-Opens : Opens b'-'
unfolding is_space
dash-Opens = (refl, refl)

name-IsKey : IsKey b'n' (codes "ame")
unfolding contains_char trim strip_left strip_right unquote is_space
name-IsKey = record { opens = (refl, refl); no_dash = refl; no_colon = refl; trimmed = refl }

git-IsKey : IsKey b'g' (codes "it")
unfolding contains_char trim strip_left strip_right unquote is_space
git-IsKey = record { opens = (refl, refl); no_dash = refl; no_colon = refl; trimmed = refl }

tag-IsKey : IsKey b't' (codes "ag")
unfolding contains_char trim strip_left strip_right unquote is_space
tag-IsKey = record { opens = (refl, refl); no_dash = refl; no_colon = refl; trimmed = refl }

commit-IsKey : IsKey b'c' (codes "ommit")
unfolding contains_char trim strip_left strip_right unquote is_space
commit-IsKey = record { opens = (refl, refl); no_dash = refl; no_colon = refl; trimmed = refl }

tree-IsKey : IsKey b't' (codes "ree")
unfolding contains_char trim strip_left strip_right unquote is_space
tree-IsKey = record { opens = (refl, refl); no_dash = refl; no_colon = refl; trimmed = refl }

path-IsKey : IsKey b'p' (codes "ath")
unfolding contains_char trim strip_left strip_right unquote is_space
path-IsKey = record { opens = (refl, refl); no_dash = refl; no_colon = refl; trimmed = refl }

provides-IsKey : IsKey b'p' (codes "rovides")
unfolding contains_char trim strip_left strip_right unquote is_space
provides-IsKey = record { opens = (refl, refl); no_dash = refl; no_colon = refl; trimmed = refl }

-- A line that stands there only if its value is not empty.
unfoldable pub optional_lines : Text → Text → List Text
optional_lines key value =
    if is_empty value then [] else (codes "    " ++ key ++ codes ": " ++ value) ∷ []

unfoldable pub module_lines : LockedModule → List Text
module_lines m =
    (codes "  - name: " ++ m.name)
    ∷ (codes "    git: " ++ m.git)
    ∷ (optional_lines (codes "tag") m.tag
        ++ (codes "    commit: " ++ m.commit)
          ∷ (optional_lines (codes "tree") m.tree_checksum
              ++ (optional_lines (codes "path") m.path
                  ++ optional_lines (codes "provides") m.provides)))

pub load_lines-then :
    (l : Loading) (xs ys : List Text) {m n : Loading}
    → load_lines l xs ≡ m
    → load_lines m ys ≡ n
    → load_lines l (xs ++ ys) ≡ n
unfolding load_lines
load_lines-then l [] ys e f = ap (λ k. load_lines k ys) e ∙ f
load_lines-then l (x ∷ xs) ys e f = load_lines-then (load_line l x) xs ys e f

-- Every field of the module is read back as it was written.
pub record PlainModule (m : LockedModule) : Type 0 where
  pub name : Plain m.name
  pub git : Plain m.git
  pub tag : Plain m.tag
  pub commit : Plain m.commit
  pub tree_checksum : Plain m.tree_checksum
  pub path : Plain m.path
  pub provides : Plain m.provides

module _ (schema : Text) (ms : List LockedModule) where
  key_line-reading :
      (key value : Text) (m : LockedModule)
      → contains_char b':' key ≡ false
      → trim key ≡ key
      → Plain value
      → key_line (key ++ b':' ∷ gap value) (reading schema (ms ++ m ∷ []))
        ≡ reading schema (ms ++ set_key key value m ∷ [])
  unfolding key_line
  key_line-reading key value m n t p =
      rw (key_line, split_at-append b':' key (gap value) n, t, trim-gap value p)
        (ap (λ l. reading schema l) (set_in_last-append key value ms m))

  load_line-key :
      (c : ℕ) (key value : Text) (m : LockedModule)
      → IsKey c key
      → Plain value
      → load_line (reading schema (ms ++ m ∷ [])) (codes "    " ++ (c ∷ key) ++ codes ": " ++ value)
        ≡ reading schema (ms ++ set_key (c ∷ key) value m ∷ [])
  load_line-key c key value m k p = rw (append_assoc key (codes ": ") value) (
      load_line-indented (reading schema (ms ++ m ∷ []))
        (b' ' ∷ b' ' ∷ c ∷ (key ++ b':' ∷ b' ' ∷ value)) c (key ++ b':' ∷ gap value) refl
        (trim-space (b' ' ∷ c ∷ (key ++ b':' ∷ b' ' ∷ value))
          ∙ trim-space (c ∷ (key ++ b':' ∷ b' ' ∷ value))
          ∙ trim-line c key value k.opens p.right)
      ∙ module_line-key c key (gap value) (reading schema (ms ++ m ∷ [])) k
      ∙ key_line-reading (c ∷ key) value m k.no_colon k.trimmed p)

  -- The line that begins a module.
  load_line-name :
      (value : Text)
      → Plain value
      → load_line (reading schema ms) (codes "  - name: " ++ value)
        ≡ reading schema (ms ++ record no_module { name = value } ∷ [])
  unfolding module_line split_at starts_with set_key text_eq contains_char
  load_line-name value p =
      load_line-indented (reading schema ms) (codes "- name: " ++ value) b'-'
        (codes " name:" ++ gap value) refl (trim-line b'-' (codes " name") value dash-Opens p.right)
      ∙ ap (λ t. key_line t (reading schema (ms ++ no_module ∷ [])))
          (trim_again b'n' (codes "ame") value name-IsKey.opens p.right)
      ∙ key_line-reading (codes "name") value no_module refl name-IsKey.trimmed p

  load_lines-optional :
      (c : ℕ) (key value : Text) (m : LockedModule)
      → IsKey c key
      → Plain value
      → set_key (c ∷ key) [] m ≡ m
      → load_lines (reading schema (ms ++ m ∷ [])) (optional_lines (c ∷ key) value)
        ≡ reading schema (ms ++ set_key (c ∷ key) value m ∷ [])
  unfolding load_lines optional_lines
  load_lines-optional c key [] m k p e = ap (λ x. reading schema (ms ++ x ∷ [])) (sym e)
  load_lines-optional c key (d ∷ value) m k p e = load_line-key c key (d ∷ value) m k p

  pub load_lines-module :
      (m : LockedModule)
      → PlainModule m
      → load_lines (reading schema ms) (module_lines m) ≡ reading schema (ms ++ m ∷ [])
  unfolding load_lines set_key text_eq module_lines
  load_lines-module m p =
      let m1 : LockedModule = record no_module { name = m.name } in
      let m2 : LockedModule = record m1 { git = m.git } in
      let m3 : LockedModule = record m2 { tag = m.tag } in
      let m4 : LockedModule = record m3 { commit = m.commit } in
      let m5 : LockedModule = record m4 { tree_checksum = m.tree_checksum } in
      let m6 : LockedModule = record m5 { path = m.path } in
      let provides_line = optional_lines (codes "provides") m.provides in
      let from_path = optional_lines (codes "path") m.path ++ provides_line in
      let from_tree = optional_lines (codes "tree") m.tree_checksum ++ from_path in
      let commit_line = codes "    commit: " ++ m.commit in
      let from_tag = optional_lines (codes "tag") m.tag ++ commit_line ∷ from_tree in
      let git_line = codes "    git: " ++ m.git in
      let at = λ (k : LockedModule). reading schema (ms ++ k ∷ []) in
      load_lines-then (reading schema ms) ((codes "  - name: " ++ m.name) ∷ [])
        (git_line ∷ from_tag) (load_line-name m.name p.name)
        (load_lines-then (at m1) (git_line ∷ []) from_tag
          (load_line-key b'g' (codes "it") m.git m1 git-IsKey p.git)
          (load_lines-then (at m2) (optional_lines (codes "tag") m.tag) (commit_line ∷ from_tree)
            (load_lines-optional b't' (codes "ag") m.tag m2 tag-IsKey p.tag refl)
            (load_lines-then (at m3) (commit_line ∷ []) from_tree
              (load_line-key b'c' (codes "ommit") m.commit m3 commit-IsKey p.commit)
              (load_lines-then (at m4) (optional_lines (codes "tree") m.tree_checksum) from_path
                (load_lines-optional b't' (codes "ree") m.tree_checksum m4 tree-IsKey
                  p.tree_checksum refl)
                (load_lines-then (at m5) (optional_lines (codes "path") m.path) provides_line
                  (load_lines-optional b'p' (codes "ath") m.path m5 path-IsKey p.path refl)
                  (load_lines-optional b'p' (codes "rovides") m.provides m6 provides-IsKey
                    p.provides refl))))))
