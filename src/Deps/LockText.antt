-- ===== src/Deps/LockText.antt =====
-- The lock as text: writeLockfile and loadLockfile of src/core/module_deps.cpp.
pub mod Lines
pub mod Fields
pub mod Loaded
pub mod RoundTrip
use winglib.Base.{
  Bool, false, not, List, [], ◌∷◌, ◌++◌, Option, none, some, Text, codes, is_empty, text_eq,
  starts_with, split_at, if◌then◌else◌, ◌==◌, ◌||◌, drop, Result, ok, err, sort,
}
use winglib.Syntax.{trim, indent_of}
use winglib.Deps.Lockfile.{LockedModule, Lockfile}
use winglib.Deps.Locking.{lines, name_lt, lock_v1}

abbrev pub lock_v2 : Text
lock_v2 = codes "wl2.lock.v2"

unfoldable pub field_line : Text → Text → Text
field_line key value = codes "    " ++ key ++ codes ": " ++ value ++ 10 ∷ []

-- A field that is not written when it is empty.
unfoldable pub optional_line : Text → Text → Text
unfolding field_line
optional_line key value = if is_empty value then [] else field_line key value

unfoldable pub module_text : LockedModule → Text
unfolding optional_line
module_text m =
    codes "  - name: "
    ++ m.name
    ++ 10 ∷ field_line (codes "git") m.git
    ++ optional_line (codes "tag") m.tag
    ++ field_line (codes "commit") m.commit
    ++ optional_line (codes "tree") m.tree_checksum
    ++ optional_line (codes "path") m.path
    ++ optional_line (codes "provides") m.provides

unfoldable pub modules_text : List LockedModule → Text
unfolding module_text
modules_text [] = []
modules_text (m ∷ ms) = module_text m ++ modules_text ms

-- What writeLockfile writes.
unfoldable pub lockfile_text : Lockfile → Text
unfolding modules_text sort
lockfile_text lock =
    codes "schema: "
    ++ lock.schema
    ++ 10 ∷ codes "modules:"
    ++ 10 ∷ modules_text (sort name_lt lock.modules)

pub data LockfileError : Type 0 where
  lockfile_not_found lockfile_invalid_schema : LockfileError

abbrev pub no_module : LockedModule
no_module = record {
  name = [];
  git = [];
  tag = [];
  commit = [];
  tree_checksum = [];
  path = [];
  provides = [];
}

-- `if (key == "name") module.name = value; else if …`
unfoldable pub set_key : Text → Text → LockedModule → LockedModule
set_key key value m =
    if text_eq key (codes "name")
    then record m { name = value }
    else if text_eq key (codes "git")
    then record m { git = value }
    else if text_eq key (codes "tag")
    then record m { tag = value }
    else if text_eq key (codes "commit")
    then record m { commit = value }
    else if text_eq key (codes "tree")
    then record m { tree_checksum = value }
    else if text_eq key (codes "path")
    then record m { path = value }
    else if text_eq key (codes "provides")
    then record m { provides = value }
    else m

-- `modules.back()`, where there is one.
unfoldable pub set_in_last : Text → Text → List LockedModule → List LockedModule
unfolding set_key
set_in_last key value [] = []
set_in_last key value (m ∷ []) = set_key key value m ∷ []
set_in_last key value (m ∷ n ∷ ms) = m ∷ set_in_last key value (n ∷ ms)

pub record Loading : Type 0 where
  pub lock : Lockfile
  pub in_modules : Bool

abbrev pub with_modules : List LockedModule → Loading → Loading
with_modules ms l = record {
  lock = record { schema = l.lock.schema; modules = ms };
  in_modules = l.in_modules;
}

-- A line that is not indented.
unfoldable pub top_line : Text → Loading → Loading
top_line text l = elim (split_at b':' text) [
  | none ↦ l
  | some (key, value) ↦ record {
    lock = record {
      schema = if text_eq (trim key) (codes "schema") then trim value else l.lock.schema;
      modules = l.lock.modules;
    };
    in_modules = text_eq (trim key) (codes "modules");
  }
]

-- The key and the value of a line go to the module that is being read.
unfoldable pub key_line : Text → Loading → Loading
unfolding set_in_last
key_line text l = elim (split_at b':' text) [
  | none ↦ l
  | some (key, value) ↦ with_modules (set_in_last (trim key) (trim value) l.lock.modules) l
]

-- An indented line below "modules:"; without a colon it is passed over.
unfoldable pub module_line : Text → Loading → Loading
unfolding key_line
module_line text l = elim (split_at b':' text) [
  | none ↦ l
  | some found ↦
      if starts_with (codes "- ") text
      then key_line (trim (drop 2 text)) (with_modules (l.lock.modules ++ no_module ∷ []) l)
      else key_line text l
]

unfoldable pub load_line : Loading → Text → Loading
unfolding top_line module_line
load_line l line =
    let text = trim line in
    if is_empty text
    then l
    else if indent_of line == 0
    then top_line text l
    else if not l.in_modules
    then l
    else module_line text l

unfoldable pub load_lines : Loading → List Text → Loading
unfolding load_line
load_lines l [] = l
load_lines l (line ∷ rest) = load_lines (load_line l line) rest

-- loadLockfile, of the contents of the file.
unfoldable pub load_lockfile : Option Text → Result LockfileError Lockfile
unfolding load_lines lines
load_lockfile none = err lockfile_not_found
load_lockfile (some text) =
    let l =
      load_lines (record { lock = record { schema = []; modules = [] }; in_modules = false })
        (lines text) in
    if text_eq l.lock.schema lock_v1 || text_eq l.lock.schema lock_v2
    then ok l.lock
    else err lockfile_invalid_schema
