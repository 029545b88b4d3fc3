-- ===== src/Resources/Cache.antt =====
-- The decompressed copies of src/core/resources.cpp: they change nothing but the work.
pub mod Coherence
use winglib.Base.{
  ◌≡◌, refl, sym, ap, subst, ◌∙◌, ◌⊎◌, ℕ, true, not, List, [], ◌∷◌, none, some, Text, text_eq,
  text_eq_iff, if◌then◌else◌, ◌==◌, ==_iff, Bool-cases, Option-cases, inl, inr, length, ok, err,
  lookup, assign, erase, lookup-assign, lookup-erase, text_Eq,
}
use winglib.Resources.Mounts.{
  ResourceCompression, ResourceEntry, stored, rle, FileSystem, ResourceDirectoryMount,
}
use winglib.Resources.Store.{
  Record, ResourceStore, add_stored, add_compressed, add_resource, mount_directory, push_mount,
  mapped_entry, resource_decompress_failed, empty_store,
}
use winglib.Resources.Paths.{normalize_dir, is_wl2_path}
use winglib.Resources.Open.{
  decompress_rle, open_rle, open_record, open_resource, with_cache, Opened, expire, Op, do_add,
  do_mount, do_open, do_expire, ok_or, step, run,
}
use winglib.Resources.Cache.Coherence.{
  CopyOf, Coherent, some_inj, compression-cases, run-Coherent, empty_store-Coherent,
}

-- What opening a compressed resource gives where there is no copy.
abbrev fresh : Record → Opened
fresh r =
    if not (length (decompress_rle r.stored_bytes) == r.entry.original_size)
    then err resource_decompress_failed
    else ok (r.entry, decompress_rle r.stored_bytes)

open_rle-fresh :
    (r : Record) (store : ResourceStore)
    → lookup r.entry.name store.decompressed_cache ≡ none
    → (open_rle r store).0 ≡ fresh r
unfolding open_rle
open_rle-fresh r store e =
    elim (Bool-cases (length (decompress_rle r.stored_bytes) == r.entry.original_size)) [
      | inl y ↦ rw (open_rle, e, y) refl
      | inr n ↦ rw (open_rle, e, n) refl
    ]

open_rle-copy :
    (name : Text) (r : Record) (store : ResourceStore) (bytes : List ℕ)
    → lookup name store.resources ≡ some r
    → Coherent store
    → lookup r.entry.name store.decompressed_cache ≡ some bytes
    → (open_rle r store).0 ≡ fresh r
unfolding open_rle
open_rle-copy name r store bytes h c e =
    let (q, f, g, l) = c.copies r.entry.name bytes e in
    let same : q ≡ r =
      some_inj
        (sym f ∙ subst (λ t. lookup t store.resources ≡ some r) (sym (c.named name r h)) h) in
    let b : decompress_rle r.stored_bytes ≡ bytes =
      subst (λ x. decompress_rle x.stored_bytes ≡ bytes) same g in
    let size : length bytes ≡ r.entry.original_size =
      subst (λ x. length bytes ≡ x.entry.original_size) same l in
    let full : (length bytes == r.entry.original_size) ≡ true =
      (==_iff (length bytes) r.entry.original_size).1 size in
    rw (open_rle, e, b, full) refl

open_rle-cache :
    (name : Text) (r : Record) (store : ResourceStore)
    → lookup name store.resources ≡ some r
    → Coherent store
    → (open_rle r store).0 ≡ (open_rle r (with_cache [] store)).0
unfolding lookup
open_rle-cache name r store h c =
    elim (Option-cases (lookup r.entry.name store.decompressed_cache)) [
      | inl e ↦ open_rle-fresh r store e ∙ sym (open_rle-fresh r (with_cache [] store) refl)
      | inr (bytes, e) ↦
          open_rle-copy name r store bytes h c e ∙ sym (open_rle-fresh r (with_cache [] store) refl)
    ]

open_record-cache :
    (name : Text) (r : Record) (store : ResourceStore)
    → lookup name store.resources ≡ some r
    → Coherent store
    → (open_record r store).0 ≡ (open_record r (with_cache [] store)).0
unfolding open_record
open_record-cache name r store h c = elim (compression-cases r.entry.compression) [
  | inl e ↦ rw (open_record, e) refl
  | inr e ↦ rw (open_record, e) (open_rle-cache name r store h c)
]

-- Opening what is in the store is the same, copies or none.
open_resource-cache :
    (fs : FileSystem) (name : Text) (store : ResourceStore)
    → Coherent store
    → (open_resource fs name store).0 ≡ (open_resource fs name (with_cache [] store)).0
unfolding open_resource mapped_entry
open_resource-cache fs name store c = elim (Option-cases (mapped_entry fs store name)) [
  | inr (found, e) ↦ rw (open_resource, e) refl
  | inl e ↦ elim (Option-cases (lookup name store.resources)) [
    | inl f ↦ rw (open_resource, e, f) refl
    | inr (r, f) ↦ rw (open_resource, e, f) (open_record-cache name r store f c)
  ]
]

-- Whatever was added, mounted and opened before and whichever copies have expired, a resource opens, or
-- fails to open, as it does in the same store without any decompressed copy.
pub open_resource-run :
    (fs : FileSystem) (ops : List Op) (name : Text)
    → (open_resource fs name (run fs ops empty_store)).0
      ≡ (open_resource fs name (with_cache [] (run fs ops empty_store))).0
open_resource-run fs ops name =
    open_resource-cache fs name (run fs ops empty_store)
      (run-Coherent fs ops empty_store empty_store-Coherent)
