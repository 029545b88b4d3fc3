-- ===== src/Resources/Tests.antt =====
-- Runs and instances for the model of src/core/resources.cpp.
use winglib.Base.{
  ◌≡◌, refl, true, false, [], ◌∷◌, none, some, codes, contains_char, text_eq, starts_with, ok,
}
use winglib.Resources.Glob.{run_glob, glob_match}
use winglib.Resources.Glob.Loop.{glob_match-matches}
use winglib.Resources.Glob.Spec.{matches}
use winglib.Resources.Mounts.{FileSystem, ResourceEntry, rle, contained_path}
use winglib.Resources.Paths.{normalize_dir, path_matches_prefix}
use winglib.Resources.Open.{open_resource, run, with_cache, do_add, do_open}
use winglib.Resources.Store.{empty_store}
use winglib.Resources.Cache.{open_resource-run}

glob_match-matches_example :
    (run_glob (codes "*.t?t") (codes "a.b.txt") ≡ some (matches (codes "*.t?t") (codes "a.b.txt")))
    × (glob_match (codes "*.t?t") (codes "a.b.txt") ≡ matches (codes "*.t?t") (codes "a.b.txt"))
unfolding contains_char
glob_match-matches_example = glob_match-matches (codes "*.t?t") (codes "a.b.txt") refl

matched : glob_match (codes "*.t?t") (codes "a.b.txt") ≡ true
unfolding glob_match
matched = refl

-- A '*' of the value is taken for the '*' of the pattern.
star_in_value : glob_match (codes "*x") (codes "*yx") ≡ false
unfolding glob_match
star_in_value = refl

trimmed : normalize_dir (codes "wl2:/a//") ≡ codes "wl2:/a"
unfolding normalize_dir text_eq
trimmed = refl

-- One directory, with one file in it.
abbrev one_file : FileSystem
one_file = record {
  resolve = λ root relative. some (codes "/host/f");
  is_directory = λ path. true;
  canonical = λ path. some path;
  file_size = λ path. some 2;
  is_regular_file = λ path. true;
  read_file_bytes = λ path. 7 ∷ 8 ∷ [];
}

dots_refused : contained_path one_file (codes "/host") (codes "a/../b") ≡ none
unfolding contained_path contains_char text_eq
dots_refused = refl

abbrev packed : ResourceEntry
packed = record {
  name = codes "wl2:/p";
  original_size = 3;
  stored_size = 2;
  compression = rle;
  content_hash = [];
  mime_type = codes "text/plain";
  flags = 1;
}

open_resource-run_example :
    (open_resource one_file
      (codes "wl2:/p")
      (run one_file (do_add packed (3 ∷ 9 ∷ []) ∷ do_open (codes "wl2:/p") ∷ []) empty_store)).0
    ≡ (open_resource one_file (codes "wl2:/p") (
        with_cache [] (
          run one_file (do_add packed (3 ∷ 9 ∷ []) ∷ do_open (codes "wl2:/p") ∷ []) empty_store))).0
open_resource-run_example =
    open_resource-run one_file (do_add packed (3 ∷ 9 ∷ []) ∷ do_open (codes "wl2:/p") ∷ [])
      (codes "wl2:/p")

unpacked :
    (open_resource one_file
      (codes "wl2:/p")
      (run one_file (do_add packed (3 ∷ 9 ∷ []) ∷ do_open (codes "wl2:/p") ∷ []) empty_store)).0
    ≡ ok (packed, 9 ∷ 9 ∷ 9 ∷ [])
unfolding open_resource run text_eq
unpacked = refl

-- A mount of "wl2:/" has no file under the name "wl2:/f".
root_mount : path_matches_prefix (codes "wl2:/f") (normalize_dir (codes "wl2:/")) ≡ false
unfolding path_matches_prefix normalize_dir text_eq starts_with
root_mount = refl
