-- ===== src/Resources/Mounts.antt =====
-- The files that a directory mount of src/core/resources.cpp has under a name. What the file system
-- says is an argument, and so is the canonical form of a path.
use winglib.Base.{
  ℕ, Bool, not, ◌||◌, List, [], ◌∷◌, Option, none, some, Text, text_eq, contains_char,
  if◌then◌else◌, any, text_Eq,
}
use winglib.Resources.Glob.{glob_match}
use winglib.Resources.Paths.{
  below, path_matches_prefix, basename, relative_resource_path, has_dots, is_absolute,
}

pub record ResourceDirectoryMount : Type 0 where
  pub root : Text
  pub prefix : Text
  pub exclude_patterns : List Text
  pub compressed_files : List Text
  pub compressed_directories : List Text

unfoldable pub is_excluded : ResourceDirectoryMount → Text → Bool
unfolding basename
is_excluded mount relative =
    any (λ pattern. glob_match pattern relative || glob_match pattern (basename relative))
      mount.exclude_patterns

unfoldable pub is_compressed_policy : ResourceDirectoryMount → Text → Bool
unfolding below
is_compressed_policy mount relative =
    any (λ file. text_eq relative file) mount.compressed_files
    || any (λ directory. text_eq relative directory || below relative directory)
        mount.compressed_directories

pub data ResourceCompression : Type 0 where
  stored rle : ResourceCompression

pub record ResourceEntry : Type 0 where
  pub name : Text
  pub original_size : ℕ
  pub stored_size : ℕ
  pub compression : ResourceCompression
  pub content_hash : Text
  pub mime_type : Text
  pub flags : ℕ

-- `resolve root relative` is the target below the canonical root, or none where it lies outside.
pub record FileSystem : Type 0 where
  pub resolve : Text → Text → Option Text
  pub is_directory : Text → Bool
  pub canonical : Text → Option Text
  pub file_size : Text → Option ℕ
  pub is_regular_file : Text → Bool
  pub read_file_bytes : Text → List ℕ

unfoldable pub contained_path : FileSystem → Text → Text → Option Text
unfolding has_dots
contained_path fs root relative =
    if contains_char 0 relative || (is_absolute relative || has_dots [] relative)
    then none
    else fs.resolve root relative

-- The file that one mount has for the name: its entry and its host path.
unfoldable pub entry_at :
    FileSystem → ResourceDirectoryMount → Text → Text → Option (ResourceEntry × Text)
unfolding is_compressed_policy
entry_at fs mount requested host_path = elim (fs.file_size host_path) [
  | none ↦ none
  | some size ↦ some (
    record {
      name = requested;
      original_size = size;
      stored_size = size;
      compression =
          if is_compressed_policy mount (relative_resource_path requested mount.prefix)
          then rle
          else stored;
      content_hash = [];
      mime_type = [];
      flags = 0;
    },
    host_path,
  )
]

unfoldable pub mapped_by :
    FileSystem → ResourceDirectoryMount → Text → Option (ResourceEntry × Text)
unfolding path_matches_prefix is_excluded contained_path entry_at relative_resource_path
mapped_by fs mount requested =
    let relative = relative_resource_path requested mount.prefix in
    if not (path_matches_prefix requested mount.prefix)
    then none
    else if is_excluded mount relative
    then none
    else elim (contained_path fs mount.root relative) [
      | none ↦ none
      | some host_path ↦
          if fs.is_regular_file host_path then entry_at fs mount requested host_path else none
    ]

-- The mounts from the last to the first.
unfoldable pub mapped_among :
    FileSystem → List ResourceDirectoryMount → Text → Option (ResourceEntry × Text)
unfolding mapped_by
mapped_among fs [] requested = none
mapped_among fs (mount ∷ mounts) requested = elim (mapped_among fs mounts requested) [
  | none ↦ mapped_by fs mount requested
  | some found ↦ some found
]
