-- ===== src/Buffer/Storages.antt =====
-- The objects and the storages of src/core/buffer.cpp.
use winglib.Base.{
  ◌≡◌, ◌≢◌, refl, ap, ℕ, zero, suc, ◌+◌, ◌≤◌, ◌<◌, true, List, [], ◌∷◌, ◌++◌, Option, some, ==_iff,
  arith, length, get_elem?-set_self, get_elem?-set_ne, get_elem?-append_left,
  get_elem?-append_length, set,
}
use winglib.Buffer.{Buffer, Buffers, object_at, bytes_of, leads_to, use_count}

-- A Buffer leads to a storage that is there, and its range lies inside it.
abbrev pub InRange : List (List ℕ) → Buffer → Type 0
InRange storages b =
    (b.storage < length storages) × (b.offset + b.size ≤ length (bytes_of storages b.storage))

abbrev pub WellFormed : Buffers → Type 0
WellFormed s = (i : ℕ) (b : Buffer) → object_at s.objects i ≡ some b → InRange s.storages b

pub object_at-set_self :
    (objects : List (Option Buffer)) (i : ℕ) (b c : Buffer)
    → object_at objects i ≡ some b
    → object_at (set objects i (some c)) i ≡ some c
unfolding object_at
object_at-set_self [] i b c h = cc
object_at-set_self (o ∷ objects) zero b c h = refl
object_at-set_self (o ∷ objects) (suc i) b c h = object_at-set_self objects i b c h

pub object_at-set_ne :
    (objects : List (Option Buffer)) (i j : ℕ) (o : Option Buffer)
    → i ≢ j
    → object_at (set objects i o) j ≡ object_at objects j
unfolding object_at
object_at-set_ne [] i j o h = refl
object_at-set_ne (x ∷ objects) zero zero o h = absurd (h refl)
object_at-set_ne (x ∷ objects) zero (suc j) o h = refl
object_at-set_ne (x ∷ objects) (suc i) zero o h = refl
object_at-set_ne (x ∷ objects) (suc i) (suc j) o h =
    object_at-set_ne objects i j o (λ e. h (ap suc e))

-- Who leads to a storage is counted.
use_count-one :
    (k : ℕ) (objects : List (Option Buffer)) (i : ℕ) (b : Buffer)
    → object_at objects i ≡ some b
    → b.storage ≡ k
    → 1 ≤ use_count k objects
unfolding object_at use_count leads_to
use_count-one k [] i b h e = cc
use_count-one k (o ∷ objects) zero b h e =
    let hit : leads_to k o ≡ true = rw (h) ((==_iff b.storage k).1 e) in ground (arith, hit)
use_count-one k (o ∷ objects) (suc i) b h e = ground (arith, use_count-one k objects i b h e)

pub use_count-two :
    (k : ℕ) (objects : List (Option Buffer)) (i j : ℕ) (b c : Buffer)
    → i ≢ j
    → object_at objects i ≡ some b
    → b.storage ≡ k
    → object_at objects j ≡ some c
    → c.storage ≡ k
    → 2 ≤ use_count k objects
unfolding object_at use_count leads_to
use_count-two k [] i j b c n h e g f = cc
use_count-two k (o ∷ objects) zero zero b c n h e g f = absurd (n refl)
use_count-two k (o ∷ objects) zero (suc j) b c n h e g f =
    let hit : leads_to k o ≡ true = rw (h) ((==_iff b.storage k).1 e) in
    ground (arith, hit, use_count-one k objects j c g f)
use_count-two k (o ∷ objects) (suc i) zero b c n h e g f =
    let hit : leads_to k o ≡ true = rw (g) ((==_iff c.storage k).1 f) in
    ground (arith, hit, use_count-one k objects i b h e)
use_count-two k (o ∷ objects) (suc i) (suc j) b c n h e g f =
    ground (arith, use_count-two k objects i j b c (λ q. n (ap suc q)) h e g f)

pub bytes_of-set_ne :
    (storages : List (List ℕ)) (k j : ℕ) (bytes : List ℕ)
    → k ≢ j
    → bytes_of (set storages k bytes) j ≡ bytes_of storages j
unfolding bytes_of
bytes_of-set_ne storages k j bytes n = rw (bytes_of, get_elem?-set_ne storages k j bytes n) refl

pub bytes_of-set_self :
    (storages : List (List ℕ)) (k : ℕ) (bytes : List ℕ)
    → k < length storages
    → bytes_of (set storages k bytes) k ≡ bytes
unfolding bytes_of
bytes_of-set_self storages k bytes n = rw (bytes_of, get_elem?-set_self storages k bytes n) refl

pub bytes_of-append :
    (storages : List (List ℕ)) (k : ℕ) (bytes : List ℕ)
    → k < length storages
    → bytes_of (storages ++ bytes ∷ []) k ≡ bytes_of storages k
unfolding bytes_of
bytes_of-append storages k bytes n =
    rw (bytes_of, get_elem?-append_left storages (bytes ∷ []) k n) refl

pub bytes_of-last :
    (storages : List (List ℕ)) (bytes : List ℕ)
    → bytes_of (storages ++ bytes ∷ []) (length storages) ≡ bytes
unfolding bytes_of
bytes_of-last storages bytes = rw (bytes_of, get_elem?-append_length storages bytes) refl
