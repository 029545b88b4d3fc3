-- ===== src/Deps/LockText/RoundTrip.antt =====
-- loadLockfile of src/core/module_deps.cpp on what writeLockfile writes.
use winglib.Base.{
  All-sort, append-nil, ◌≡◌, refl, sym, ap, subst, ◌∙◌, true, false, List, [], ◌∷◌, ◌++◌, Text,
  codes, text_eq, inl, inr, contains_char, contains_char-append, ◌||◌, ◌⊎◌, split_at, append_assoc,
  All, All-append, ok, some, sort,
}
use winglib.Syntax.{is_space, strip_left, strip_right, unquote, trim, indent_of}
use winglib.Deps.Lockfile.{LockedModule, Lockfile}
use winglib.Deps.Locking.{lines, name_lt, lock_v1}
use winglib.Deps.LockText.Lines.{Line, written, written-append, lines-written}
use winglib.Deps.LockText.{
  lock_v2, field_line, optional_line, module_text, modules_text, lockfile_text, Loading, top_line,
  load_line, load_lines, load_lockfile,
}
use winglib.Deps.LockText.Loaded.{
  PlainModule, reading, optional_lines, module_lines, load_lines-then, load_lines-module,
}

all_lines : List LockedModule → List Text
all_lines [] = []
all_lines (m ∷ ms) = module_lines m ++ all_lines ms

written-optional_lines :
    (key value : Text) → written (optional_lines key value) ≡ optional_line key value
unfolding written optional_line optional_lines field_line
written-optional_lines key [] = refl
written-optional_lines key (c ∷ value) = refl

written-module_lines : (m : LockedModule) → written (module_lines m) ≡ module_text m
unfolding written module_text module_lines field_line
written-module_lines m = simp (written-append, written-optional_lines, append_assoc)

written-all_lines : (ms : List LockedModule) → written (all_lines ms) ≡ modules_text ms
unfolding written modules_text all_lines
written-all_lines [] = refl
written-all_lines (m ∷ ms) =
    written-append (module_lines m) (all_lines ms)
    ∙ rw (written-module_lines m, written-all_lines ms) refl

key-Line :
    (key value : Text) → Line key → Line value → Line (codes "    " ++ key ++ codes ": " ++ value)
unfolding contains_char
key-Line key value h k =
    rw
      (append_assoc key (codes ": ") value, contains_char-append 10 key (codes ": " ++ value), h, k)
      refl

optional_lines-Line :
    (key value : Text) → Line key → Line value → All Line (optional_lines key value)
unfolding optional_lines
optional_lines-Line key [] h k = tt
optional_lines-Line key (c ∷ value) h k = (key-Line key (c ∷ value) h k, tt)

name-Line : (value : Text) → Line value → Line (codes "  - name: " ++ value)
unfolding contains_char
name-Line value h = h

module_lines-Line : (m : LockedModule) → PlainModule m → All Line (module_lines m)
unfolding module_lines contains_char
module_lines-Line m p =
    let provides = optional_lines-Line (codes "provides") m.provides refl p.provides.line in
    let from_path =
      All-append Line (optional_lines (codes "path") m.path)
        (optional_lines (codes "provides") m.provides)
        (optional_lines-Line (codes "path") m.path refl p.path.line) provides in
    let from_tree =
      All-append Line (optional_lines (codes "tree") m.tree_checksum)
        (optional_lines (codes "path") m.path ++ optional_lines (codes "provides") m.provides)
        (optional_lines-Line (codes "tree") m.tree_checksum refl p.tree_checksum.line) from_path in
    (
      name-Line m.name p.name.line,
      (
        key-Line (codes "git") m.git refl p.git.line,
        All-append Line (optional_lines (codes "tag") m.tag) _
            (optional_lines-Line (codes "tag") m.tag refl p.tag.line)
            (key-Line (codes "commit") m.commit refl p.commit.line, from_tree),
      ),
    )

all_lines-Line : (ms : List LockedModule) → All PlainModule ms → All Line (all_lines ms)
unfolding all_lines
all_lines-Line [] h = tt
all_lines-Line (m ∷ ms) (p, h) =
    All-append Line (module_lines m) (all_lines ms) (module_lines-Line m p) (all_lines-Line ms h)

load_lines-all_lines :
    (schema : Text) (before ms : List LockedModule)
    → All PlainModule ms
    → load_lines (reading schema before) (all_lines ms) ≡ reading schema (before ++ ms)
unfolding all_lines load_lines
load_lines-all_lines schema before [] h = ap (λ ms. reading schema ms) (sym (append-nil before))
load_lines-all_lines schema before (m ∷ ms) (p, h) =
    load_lines-then (reading schema before) (module_lines m) (all_lines ms)
      (load_lines-module schema before m p) (load_lines-all_lines schema (before ++ m ∷ []) ms h)
    ∙ ap (λ ns. reading schema ns) (append_assoc before (m ∷ []) ms)

-- A schema that loadLockfile takes.
abbrev pub Schema : Text → Type 0
Schema schema = (schema ≡ lock_v1) ⊎ (schema ≡ lock_v2)

abbrev start : Loading
start = record { lock = record { schema = []; modules = [] }; in_modules = false }

load_lines-head :
    (schema : Text)
    → Schema schema
    → load_lines start ((codes "schema: " ++ schema) ∷ codes "modules:" ∷ []) ≡ reading schema []
unfolding load_lines load_line top_line trim strip_left strip_right unquote is_space indent_of
    split_at text_eq
load_lines-head schema (inl e) =
    subst (λ s. load_lines start ((codes "schema: " ++ s) ∷ codes "modules:" ∷ []) ≡ reading s [])
      (sym e) refl
load_lines-head schema (inr e) =
    subst (λ s. load_lines start ((codes "schema: " ++ s) ∷ codes "modules:" ∷ []) ≡ reading s [])
      (sym e) refl

head-Line :
    (schema : Text)
    → Schema schema
    → All Line ((codes "schema: " ++ schema) ∷ codes "modules:" ∷ [])
unfolding contains_char
head-Line schema (inl e) = rw (e) (refl, (refl, tt))
head-Line schema (inr e) = rw (e) (refl, (refl, tt))

Schema-accepted :
    (schema : Text) → Schema schema → (text_eq schema lock_v1 || text_eq schema lock_v2) ≡ true
unfolding text_eq
Schema-accepted schema (inl e) = rw (e) refl
Schema-accepted schema (inr e) = rw (e) refl

-- A lock that is written is read back with its modules in the order of their names and with every field
-- as it was. (Where the schema is one that is taken, and no field has a space at an end, quotes round
-- it or a newline.)
pub load_lockfile-lockfile_text :
    (lock : Lockfile)
    → Schema lock.schema
    → All PlainModule lock.modules
    → load_lockfile (some (lockfile_text lock))
      ≡ ok (record { schema = lock.schema; modules = sort name_lt lock.modules })
unfolding load_lockfile lockfile_text written
load_lockfile-lockfile_text lock s h =
    let sorted = sort name_lt lock.modules in
    let head = (codes "schema: " ++ lock.schema) ∷ codes "modules:" ∷ [] in
    let p : All PlainModule sorted = All-sort name_lt PlainModule lock.modules h in
    let text : lockfile_text lock ≡ written (head ++ all_lines sorted) =
      rw (← written-all_lines sorted) (
        append_assoc (codes "schema: " ++ lock.schema) (10 ∷ codes "modules:")
          (10 ∷ written (all_lines sorted))) in
    let read : lines (lockfile_text lock) ≡ head ++ all_lines sorted =
      ap lines text
      ∙ lines-written (head ++ all_lines sorted) (
          All-append Line head (all_lines sorted) (head-Line lock.schema s)
            (all_lines-Line sorted p)) in
    let loaded : load_lines start (lines (lockfile_text lock)) ≡ reading lock.schema sorted =
      ap (load_lines start) read
      ∙ load_lines-then start head (all_lines sorted) (load_lines-head lock.schema s)
          (load_lines-all_lines lock.schema [] sorted p) in
    rw (loaded, Schema-accepted lock.schema s) refl
