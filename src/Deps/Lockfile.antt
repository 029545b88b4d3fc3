-- ===== src/Deps/Lockfile.antt =====
-- The lock's data: LockedModule and Lockfile of include/wl2/module_deps.h.
use winglib.Base.{List, [], ◌∷◌, Option, none, some, Text, text_eq, if◌then◌else◌}

pub record LockedModule : Type 0 where
  pub name : Text
  pub git : Text
  pub tag : Text
  pub commit : Text
  pub tree_checksum : Text
  pub path : Text
  pub provides : Text

pub record Lockfile : Type 0 where
  pub schema : Text
  pub modules : List LockedModule

-- The first module of that name.
unfoldable pub find_in : Text → List LockedModule → Option LockedModule
find_in name [] = none
find_in name (m ∷ ms) = let rest = find_in name ms in if text_eq m.name name then some m else rest

unfoldable pub find : Text → Lockfile → Option LockedModule
unfolding find_in
find name lock = find_in name lock.modules
