-- ===== src/Buffer.antt =====
-- The copy-on-write Buffer of include/wl2/buffer.h and src/core/buffer.cpp. The storages that the
-- shared pointers lead to stand in a list, and so do the Buffer objects of a program; one that has
-- been destroyed is none. The use count of a storage is the number of the objects that lead to it.
pub mod Storages
pub mod Detach
pub mod Isolation
pub mod Programs
pub mod Tests
use winglib.Base.{
  ℕ, zero, suc, ◌+◌, ◌-◌, min, Bool, true, false, not, ◌&&◌, ◌||◌, List, [], ◌∷◌, ◌++◌, Option,
  none, some, Text, if◌then◌else◌, ◌==◌, leb, ltb, length, get_elem?, set, take, drop,
}

pub record Buffer : Type 0 where
  pub storage : ℕ
  pub offset : ℕ
  pub size : ℕ

pub record Buffers : Type 0 where
  pub storages : List (List ℕ)
  pub objects : List (Option Buffer)

-- The Buffer object i, if it is there and not destroyed.
unfoldable pub object_at : List (Option Buffer) → ℕ → Option Buffer
object_at [] i = none
object_at (o ∷ objects) zero = o
object_at (o ∷ objects) (suc i) = object_at objects i

unfoldable pub bytes_of : List (List ℕ) → ℕ → List ℕ
bytes_of storages k = elim (get_elem? storages k) [ none ↦ [] | some bytes ↦ bytes ]

unfoldable pub leads_to : ℕ → Option Buffer → Bool
leads_to k none = false
leads_to k (some b) = b.storage == k

-- `use_count()`
unfoldable pub use_count : ℕ → List (Option Buffer) → ℕ
unfolding leads_to
use_count k [] = 0
use_count k (o ∷ objects) = let n = use_count k objects in if leads_to k o then n + 1 else n

-- The bytes that a Buffer shows.
unfoldable pub view : Buffers → Buffer → List ℕ
unfolding bytes_of
view s b = take b.size (drop b.offset (bytes_of s.storages b.storage))

unfoldable pub read : Buffers → ℕ → Option (List ℕ)
unfolding view object_at
read s i = elim (object_at s.objects i) [ none ↦ none | some b ↦ some (view s b) ]

-- A new object on a new storage: Buffer(), copy and fromString.
unfoldable pub copy : List ℕ → Buffers → Buffers
copy bytes s = record {
  storages = s.storages ++ bytes ∷ [];
  objects =
      s.objects
      ++ some (record { storage = length s.storages; offset = 0; size = length bytes }) ∷ [];
}

unfoldable pub new_buffer : Buffers → Buffers
unfolding copy
new_buffer s = copy [] s

-- The copy constructor, which shares the storage.
unfoldable pub share : Buffer → Buffers → Buffers
share b s = record { storages = s.storages; objects = s.objects ++ some b ∷ [] }

-- The destructor of object i.
unfoldable pub destroy : ℕ → Buffers → Buffers
destroy i s = record { storages = s.storages; objects = set s.objects i none }

-- The slice becomes a new object.
unfoldable pub slice : ℕ → ℕ → Buffer → Buffers → Buffers
unfolding new_buffer share
slice offset length b s =
    if leb b.size offset
    then new_buffer s
    else share
        (record {
          storage = b.storage;
          offset = b.offset + offset;
          size = min length (b.size - offset);
        })
        s

unfoldable pub must_detach : Buffers → Buffer → Bool
unfolding use_count bytes_of
must_detach s b =
    not (use_count b.storage s.objects == 1)
    || (not (b.offset == 0) || not (length (bytes_of s.storages b.storage) == b.size))

-- detach of object i, which is b, and what the object becomes.
unfoldable pub detach : ℕ → Buffer → Buffers → Buffers × Buffer
unfolding must_detach view
detach i b s =
    if must_detach s b
    then (
      record {
        storages = s.storages ++ view s b ∷ [];
        objects =
            set s.objects i
              (some (record { storage = length s.storages; offset = 0; size = b.size }));
      },
      record { storage = length s.storages; offset = 0; size = b.size },
    )
    else (s, b)

-- mutableView of object i, which is b, and one write through the view, at an index below size.
unfoldable pub write_at : ℕ → Buffer → ℕ → ℕ → Buffers → Buffers
unfolding detach bytes_of
write_at i b at byte s =
    let (t, c) = detach i b s in
    record {
      storages = set t.storages c.storage (set (bytes_of t.storages c.storage) at byte);
      objects = t.objects;
    }

-- One step of a program with Buffers. A step on an object that is not there does nothing, and so does
-- a write behind the end.
pub data Op : Type 0 where
  do_copy : List ℕ → Op
  do_share : ℕ → Op
  do_destroy : ℕ → Op
  do_slice : ℕ → ℕ → ℕ → Op
  do_write : ℕ → ℕ → ℕ → Op

unfoldable pub on_object : (ℕ → Buffer → Buffers → Buffers) → ℕ → Buffers → Buffers
unfolding object_at
on_object f i s = elim (object_at s.objects i) [ none ↦ s | some b ↦ f i b s ]

unfoldable pub step : Op → Buffers → Buffers
unfolding on_object copy share destroy slice write_at
step (do_copy bytes) s = copy bytes s
step (do_share i) s = on_object (λ i b s. share b s) i s
step (do_destroy i) s = destroy i s
step (do_slice i offset length) s = on_object (λ i b s. slice offset length b s) i s
step (do_write i at byte) s =
    on_object (λ i b s. if ltb at b.size then write_at i b at byte s else s) i s

unfoldable pub run : List Op → Buffers → Buffers
unfolding step
run [] s = s
run (op ∷ ops) s = run ops (step op s)

abbrev pub no_buffers : Buffers
no_buffers = record { storages = []; objects = [] }
