-- ===== src/Resources/Store.antt =====
-- ResourceStore of src/core/resources.cpp: its state, what is added to it and what it answers.
use winglib.Base.{
  ℕ, Bool, true, false, not, ◌||◌, List, [], ◌∷◌, ◌++◌, Option, none, some, Text, starts_with,
  if◌then◌else◌, length, any, Result, ok, err, lookup, assign, erase, text_Eq,
}
use winglib.Resources.Paths.{
  normalize_dir, is_wl2_path, path_matches_prefix, relative_resource_path,
}
use winglib.Resources.Mounts.{
  ResourceDirectoryMount, ResourceEntry, FileSystem, contained_path, mapped_among, stored, rle,
}

pub record Record : Type 0 where
  pub entry : ResourceEntry
  pub stored_bytes : List ℕ

-- `decompressed_cache` has the copies that are still alive.
pub record ResourceStore : Type 0 where
  pub mounts : List ResourceDirectoryMount
  pub resources : List (Text × Record)
  pub decompressed_cache : List (Text × List ℕ)

unfoldable pub add_stored : ResourceEntry → List ℕ → ResourceStore → ResourceStore
unfolding assign erase
add_stored entry bytes store = record {
  mounts = store.mounts;
  resources =
      assign entry.name
        (record {
          entry = record entry {
            original_size = length bytes;
            stored_size = length bytes;
            compression = stored;
          };
          stored_bytes = bytes;
        })
        store.resources;
  decompressed_cache = erase entry.name store.decompressed_cache;
}

unfoldable pub add_compressed : ResourceEntry → List ℕ → ResourceStore → ResourceStore
unfolding assign erase
add_compressed entry bytes store = record {
  mounts = store.mounts;
  resources =
      assign entry.name
        (record { entry = record entry { stored_size = length bytes }; stored_bytes = bytes })
        store.resources;
  decompressed_cache = erase entry.name store.decompressed_cache;
}

unfoldable pub add_resource : ResourceEntry → List ℕ → ResourceStore → ResourceStore
unfolding add_stored add_compressed
add_resource entry bytes store = elim entry.compression [
  | stored ↦ add_stored entry bytes store
  | rle ↦ add_compressed entry bytes store
]

unfoldable pub add : Text → List ℕ → ResourceStore → ResourceStore
unfolding add_stored
add name bytes store =
    add_stored
      (record {
        name = name;
        original_size = length bytes;
        stored_size = length bytes;
        compression = stored;
        content_hash = [];
        mime_type = [];
        flags = 0;
      })
      bytes store

pub data ResourceError : Type 0 where
  resource_mount_invalid_prefix resource_mount_invalid_root : ResourceError
  resource_not_found resource_decompress_failed : ResourceError

abbrev pub push_mount : ResourceDirectoryMount → ResourceStore → ResourceStore
push_mount mount store = record {
  mounts = store.mounts ++ mount ∷ [];
  resources = store.resources;
  decompressed_cache = store.decompressed_cache;
}

-- The mount is given with the root and the prefix as they are asked for.
unfoldable pub mount_directory :
    FileSystem → ResourceDirectoryMount → ResourceStore → Result ResourceError ResourceStore
unfolding normalize_dir is_wl2_path
mount_directory fs mount store =
    let prefix = normalize_dir mount.prefix in
    if not (is_wl2_path prefix)
    then err resource_mount_invalid_prefix
    else elim (fs.canonical mount.root) [
      | none ↦ err resource_mount_invalid_root
      | some root ↦
          if not (fs.is_directory root)
          then err resource_mount_invalid_root
          else ok (
              push_mount
                (record {
                  root = root;
                  prefix = prefix;
                  exclude_patterns = mount.exclude_patterns;
                  compressed_files = mount.compressed_files;
                  compressed_directories = mount.compressed_directories;
                })
                store)
    ]

unfoldable pub mapped_entry : FileSystem → ResourceStore → Text → Option (ResourceEntry × Text)
unfolding mapped_among normalize_dir
mapped_entry fs store name = mapped_among fs store.mounts (normalize_dir name)

unfoldable pub entry_of : FileSystem → Text → ResourceStore → Option ResourceEntry
unfolding mapped_entry lookup
entry_of fs name store = elim (mapped_entry fs store name) [
  | some (entry, host_path) ↦ some entry
  | none ↦ elim (lookup name store.resources) [ none ↦ none | some r ↦ some r.entry ]
]

abbrev pub is_some {ℓ} : {A : Type ℓ} → Option A → Bool
is_some none = false
is_some (some a) = true

unfoldable pub contains : FileSystem → Text → ResourceStore → Bool
unfolding mapped_entry lookup
contains fs name store =
    is_some (mapped_entry fs store name) || is_some (lookup name store.resources)

-- A mount makes a directory of what is a directory below it, and of what leads to it.
unfoldable pub mount_is_directory : FileSystem → Text → ResourceDirectoryMount → Bool
unfolding path_matches_prefix contained_path relative_resource_path
mount_is_directory fs dir mount =
    if path_matches_prefix dir mount.prefix
    then elim (contained_path fs mount.root (relative_resource_path dir mount.prefix)) [
      | none ↦ false
      | some host_path ↦ fs.is_directory host_path
    ]
    else path_matches_prefix mount.prefix dir

unfoldable pub is_directory : FileSystem → Text → ResourceStore → Bool
unfolding mount_is_directory normalize_dir
is_directory fs path store =
    let dir = normalize_dir path in
    any (mount_is_directory fs dir) store.mounts
    || any (λ r. starts_with (dir ++ b'/' ∷ []) r.0) store.resources

unfoldable pub exists : FileSystem → Text → ResourceStore → Bool
unfolding contains is_directory
exists fs path store = contains fs path store || is_directory fs path store

abbrev pub empty_store : ResourceStore
empty_store = record { mounts = []; resources = []; decompressed_cache = [] }
