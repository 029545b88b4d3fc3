-- ===== src/Resources/Cache/Coherence.antt =====
-- The copies of a store of src/core/resources.cpp fit its resources, whatever is done to it.
use winglib.Base.{
  ◌≡◌, refl, sym, ap, subst, ◌∙◌, ◌⊎◌, ℕ, List, [], ◌∷◌, some, Text, text_eq, text_eq_iff, ◌==◌,
  ==_iff, Bool-cases, Option-cases, inl, inr, length, lookup, assign, erase, lookup-assign,
  lookup-erase, text_Eq,
}
use winglib.Resources.Mounts.{
  ResourceCompression, ResourceEntry, stored, rle, FileSystem, ResourceDirectoryMount,
}
use winglib.Resources.Store.{
  Record, ResourceStore, add_stored, add_compressed, add_resource, mount_directory, mapped_entry,
  empty_store,
}
use winglib.Resources.Paths.{normalize_dir, is_wl2_path}
use winglib.Resources.Open.{
  decompress_rle, open_rle, open_record, open_resource, expire, Op, do_add, do_mount, do_open,
  do_expire, ok_or, step, run,
}

-- Every resource stands under its own name, and every copy is what the resource of its name gives.
abbrev pub CopyOf : ResourceStore → Text → List ℕ → Type 0
CopyOf store name bytes =
    (r : Record) × (lookup name store.resources ≡ some r)
    × (decompress_rle r.stored_bytes ≡ bytes)
    × (length bytes ≡ r.entry.original_size)

pub record Coherent (store : ResourceStore) : Type 0 where
  pub named :
      (name : Text) (r : Record) → lookup name store.resources ≡ some r → r.entry.name ≡ name
  pub copies :
      (name : Text) (bytes : List ℕ)
      → lookup name store.decompressed_cache ≡ some bytes
      → CopyOf store name bytes

pub some_inj : {A : Type 0} {a b : A} → some a ≡ some b → a ≡ b
some_inj e = cc e

-- A resource that is put in place of what was under its name, whose copy goes.
replaced-Coherent :
    (store : ResourceStore) (r : Record)
    → Coherent store
    → Coherent (record {
      mounts = store.mounts;
      resources = assign r.entry.name r store.resources;
      decompressed_cache = erase r.entry.name store.decompressed_cache;
    })
replaced-Coherent store r c = record {
  named = λ name q h. elim (Bool-cases (text_eq r.entry.name name)) [
    | inl e ↦
        let g = rw (lookup-assign r.entry.name name r store.resources, e) at h in
        sym (ap (λ x. x.entry.name) (some_inj g)) ∙ (text_eq_iff r.entry.name name).0 e
    | inr e ↦ c.named name q (rw (lookup-assign r.entry.name name r store.resources, e) at h)
  ];
  copies = λ name bytes h. elim (Bool-cases (text_eq r.entry.name name)) [
    | inl e ↦ cc (rw (lookup-erase r.entry.name name store.decompressed_cache, e) at h)
    | inr e ↦
        let (q, f, g, l) =
          c.copies name bytes
            (rw (lookup-erase r.entry.name name store.decompressed_cache, e) at h) in
        (q, rw (lookup-assign r.entry.name name r store.resources, e) f, g, l)
  ];
}

open_rle-Coherent :
    (name : Text) (r : Record) (store : ResourceStore)
    → lookup name store.resources ≡ some r
    → Coherent store
    → Coherent (open_rle r store).1
unfolding open_rle
open_rle-Coherent name r store h c =
    elim (Option-cases (lookup r.entry.name store.decompressed_cache)) [
      | inr (bytes, e) ↦ rw (open_rle, e) c
      | inl e ↦
          elim (Bool-cases (length (decompress_rle r.stored_bytes) == r.entry.original_size)) [
            | inr n ↦ rw (open_rle, e, n) c
            | inl y ↦
                rw (open_rle, e, y)
                  (record {
                    named = c.named;
                    copies = λ k bytes g. elim (Bool-cases (text_eq r.entry.name k)) [
                      | inl q ↦
                          let same : decompress_rle r.stored_bytes ≡ bytes = some_inj (
                            rw
                              (
                                lookup-assign r.entry.name k (decompress_rle r.stored_bytes)
                                    store.decompressed_cache,
                                q,
                              )
                              at g) in
                          let key : name ≡ k =
                            sym (c.named name r h) ∙ (text_eq_iff r.entry.name k).0 q in
                          (
                            r,
                            subst (λ t. lookup t store.resources ≡ some r) key h,
                            same,
                            ap length (sym same)
                                ∙ (==_iff (length (decompress_rle r.stored_bytes))
                                      r.entry.original_size).0
                                    y,
                          )
                      | inr q ↦ c.copies k bytes (
                          rw
                            (
                              lookup-assign r.entry.name k (decompress_rle r.stored_bytes)
                                  store.decompressed_cache,
                              q,
                            )
                            at g)
                    ];
                  })
          ]
    ]

pub compression-cases : (k : ResourceCompression) → (k ≡ stored) ⊎ (k ≡ rle)
compression-cases stored = inl refl
compression-cases rle = inr refl

open_record-Coherent :
    (name : Text) (r : Record) (store : ResourceStore)
    → lookup name store.resources ≡ some r
    → Coherent store
    → Coherent (open_record r store).1
unfolding open_record
open_record-Coherent name r store h c = elim (compression-cases r.entry.compression) [
  | inl e ↦ rw (open_record, e) c
  | inr e ↦ rw (open_record, e) (open_rle-Coherent name r store h c)
]

open_resource-Coherent :
    (fs : FileSystem) (name : Text) (store : ResourceStore)
    → Coherent store
    → Coherent (open_resource fs name store).1
unfolding open_resource
open_resource-Coherent fs name store c = elim (Option-cases (mapped_entry fs store name)) [
  | inr (found, e) ↦ rw (open_resource, e) c
  | inl e ↦ elim (Option-cases (lookup name store.resources)) [
    | inl f ↦ rw (open_resource, e, f) c
    | inr (r, f) ↦ rw (open_resource, e, f) (open_record-Coherent name r store f c)
  ]
]

add_resource-Coherent :
    (entry : ResourceEntry) (bytes : List ℕ) (store : ResourceStore)
    → Coherent store
    → Coherent (add_resource entry bytes store)
unfolding add_resource add_stored add_compressed
add_resource-Coherent entry bytes store c = elim (compression-cases entry.compression) [
  | inl e ↦
      rw (add_resource, e)
        (replaced-Coherent store
          (record {
            entry = record entry {
              original_size = length bytes;
              stored_size = length bytes;
              compression = stored;
            };
            stored_bytes = bytes;
          })
          c)
  | inr e ↦
      rw (add_resource, e)
        (replaced-Coherent store
          (record { entry = record entry { stored_size = length bytes }; stored_bytes = bytes }) c)
]

expire-Coherent :
    (name : Text) (store : ResourceStore) → Coherent store → Coherent (expire name store)
unfolding expire
expire-Coherent name store c = record {
  named = c.named;
  copies = λ k bytes h. elim (Bool-cases (text_eq name k)) [
    | inl e ↦ cc (rw (lookup-erase name k store.decompressed_cache, e) at h)
    | inr e ↦ c.copies k bytes (rw (lookup-erase name k store.decompressed_cache, e) at h)
  ];
}

mount_directory-Coherent :
    (fs : FileSystem) (mount : ResourceDirectoryMount) (store : ResourceStore)
    → Coherent store
    → Coherent (ok_or store (mount_directory fs mount store))
unfolding mount_directory
mount_directory-Coherent fs mount store c =
    elim (Bool-cases (is_wl2_path (normalize_dir mount.prefix))) [
      | inr e ↦ rw (mount_directory, e) c
      | inl e ↦ elim (Option-cases (fs.canonical mount.root)) [
        | inl f ↦ rw (mount_directory, e, f) c
        | inr (root, f) ↦ elim (Bool-cases (fs.is_directory root)) [
          | inr g ↦ rw (mount_directory, e, f, g) c
          | inl g ↦ rw (mount_directory, e, f, g) (record { named = c.named; copies = c.copies })
        ]
      ]
    ]

step-Coherent :
    (fs : FileSystem) (op : Op) (store : ResourceStore)
    → Coherent store
    → Coherent (step fs op store)
unfolding step
step-Coherent fs (do_add entry bytes) store c = add_resource-Coherent entry bytes store c
step-Coherent fs (do_mount mount) store c = mount_directory-Coherent fs mount store c
step-Coherent fs (do_open name) store c = open_resource-Coherent fs name store c
step-Coherent fs (do_expire name) store c = expire-Coherent name store c

pub run-Coherent :
    (fs : FileSystem) (ops : List Op) (store : ResourceStore)
    → Coherent store
    → Coherent (run fs ops store)
unfolding run
run-Coherent fs [] store c = c
run-Coherent fs (op ∷ ops) store c =
    run-Coherent fs ops (step fs op store) (step-Coherent fs op store c)

pub empty_store-Coherent : Coherent empty_store
unfolding lookup
empty_store-Coherent = record { named = λ name r h. cc h; copies = λ name bytes h. cc h }
