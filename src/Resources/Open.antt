-- ===== src/Resources/Open.antt =====
-- open of ResourceStore of src/core/resources.cpp, with its decompressed copies.
use winglib.Base.{
  ℕ, zero, suc, not, List, [], ◌∷◌, ◌++◌, none, some, Text, if◌then◌else◌, ◌==◌, length, Result, ok,
  err, lookup, assign, erase, text_Eq,
}
use winglib.Resources.Mounts.{ResourceDirectoryMount, ResourceEntry, FileSystem, stored, rle}
use winglib.Resources.Store.{
  Record, ResourceStore, add_resource, ResourceError, mount_directory, mapped_entry,
  resource_not_found, resource_decompress_failed,
}

unfoldable pub repeat : ℕ → ℕ → List ℕ
repeat zero value = []
repeat (suc count) value = value ∷ repeat count value

-- Pairs of a count and a value; a single byte at the end is dropped.
unfoldable pub decompress_rle : List ℕ → List ℕ
unfolding repeat
decompress_rle [] = []
decompress_rle (count ∷ []) = []
decompress_rle (count ∷ value ∷ input) = repeat count value ++ decompress_rle input

abbrev pub Opened : Type 0
Opened = Result ResourceError (ResourceEntry × List ℕ)

abbrev pub with_cache : List (Text × List ℕ) → ResourceStore → ResourceStore
with_cache cache store = record {
  mounts = store.mounts;
  resources = store.resources;
  decompressed_cache = cache;
}

unfoldable pub open_rle : Record → ResourceStore → Opened × ResourceStore
unfolding decompress_rle lookup assign
open_rle r store = elim (lookup r.entry.name store.decompressed_cache) [
  | some cached ↦ (ok (r.entry, cached), store)
  | none ↦
      let bytes = decompress_rle r.stored_bytes in
      if not (length bytes == r.entry.original_size)
      then (err resource_decompress_failed, store)
      else (
        ok (r.entry, bytes),
        with_cache (assign r.entry.name bytes store.decompressed_cache) store,
      )
]

unfoldable pub open_record : Record → ResourceStore → Opened × ResourceStore
unfolding open_rle
open_record r store = elim r.entry.compression [
  | stored ↦ (ok (r.entry, r.stored_bytes), store)
  | rle ↦ open_rle r store
]

-- open: a mapped file is read as it is; else the embedded resource of that very name.
unfoldable pub open_resource : FileSystem → Text → ResourceStore → Opened × ResourceStore
unfolding mapped_entry open_record lookup
open_resource fs name store = elim (mapped_entry fs store name) [
  | some (entry, host_path) ↦ (ok (entry, fs.read_file_bytes host_path), store)
  | none ↦ elim (lookup name store.resources) [
    | none ↦ (err resource_not_found, store)
    | some r ↦ open_record r store
  ]
]

-- The weak pointer of a copy expires when the last handle to it is gone.
unfoldable pub expire : Text → ResourceStore → ResourceStore
unfolding erase
expire name store = with_cache (erase name store.decompressed_cache) store

-- What a program does to a store.
pub data Op : Type 0 where
  do_add : ResourceEntry → List ℕ → Op
  do_mount : ResourceDirectoryMount → Op
  do_open : Text → Op
  do_expire : Text → Op

abbrev pub ok_or : ResourceStore → Result ResourceError ResourceStore → ResourceStore
ok_or store (ok s) = s
ok_or store (err e) = store

unfoldable pub step : FileSystem → Op → ResourceStore → ResourceStore
unfolding add_resource mount_directory open_resource expire
step fs (do_add entry bytes) store = add_resource entry bytes store
step fs (do_mount mount) store = ok_or store (mount_directory fs mount store)
step fs (do_open name) store = (open_resource fs name store).1
step fs (do_expire name) store = expire name store

unfoldable pub run : FileSystem → List Op → ResourceStore → ResourceStore
unfolding step
run fs [] store = store
run fs (op ∷ ops) store = run fs ops (step fs op store)
