-- ===== src/Buffer/Programs.antt =====
-- Every program over the Buffers of src/core/buffer.cpp keeps their ranges inside their storages.
use winglib.Base.{
  ◌≡◌, ◌≢◌, ◌⊎◌, sym, ap, ◌∙◌, subst, ℕ, zero, suc, ◌<◌, List, [], ◌∷◌, ◌++◌, Option, none, some,
  if◌then◌else◌, ◌==◌, leb, ltb, ==_iff, arith, Bool-cases, Option-cases, inl, inr, length,
  length-append, length-set, set,
}
use winglib.Buffer.{
  Buffer, Buffers, object_at, bytes_of, view, read, copy, new_buffer, share, destroy, slice,
  on_object, step, run, no_buffers, Op, do_copy, do_share, do_destroy, do_slice, do_write, detach,
  write_at,
}
use winglib.Buffer.Storages.{
  InRange, WellFormed, bytes_of-set_ne, bytes_of-set_self, bytes_of-append, bytes_of-last,
}
use winglib.Buffer.Detach.{Detached, detach-Detached, length-view}
use winglib.Buffer.Isolation.{written, write_at-isolated}

some_inj : {A : Type 0} {a b : A} → some a ≡ some b → a ≡ b
some_inj e = cc e

object_at-snoc :
    (objects : List (Option Buffer)) (o : Option Buffer) (i : ℕ) (b : Buffer)
    → object_at (objects ++ o ∷ []) i ≡ some b
    → (object_at objects i ≡ some b) ⊎ (o ≡ some b)
unfolding object_at
object_at-snoc [] o zero b h = inr h
object_at-snoc [] o (suc i) b h = cc
object_at-snoc (x ∷ objects) o zero b h = inl h
object_at-snoc (x ∷ objects) o (suc i) b h = object_at-snoc objects o i b h

InRange-append :
    (storages : List (List ℕ)) (bytes : List ℕ) (b : Buffer)
    → InRange storages b
    → InRange (storages ++ bytes ∷ []) b
InRange-append storages bytes b r = (
  omega (arith, r.0, length-append storages (bytes ∷ [])),
  omega (arith, r.1, ap length (bytes_of-append storages b.storage bytes r.0)),
)

copy-WellFormed : (bytes : List ℕ) (s : Buffers) → WellFormed s → WellFormed (copy bytes s)
unfolding copy
copy-WellFormed bytes s w i b h = elim (object_at-snoc s.objects _ i b h) [
  | inl e ↦ InRange-append s.storages bytes b (w i b e)
  | inr e ↦ subst (InRange (s.storages ++ bytes ∷ [])) (some_inj e) (
    omega (arith, length-append s.storages (bytes ∷ [])),
    omega (arith, ap length (bytes_of-last s.storages bytes)),
  )
]

share-WellFormed :
    (c : Buffer) (s : Buffers) → InRange s.storages c → WellFormed s → WellFormed (share c s)
unfolding share
share-WellFormed c s r w i b h = elim (object_at-snoc s.objects (some c) i b h) [
  | inl e ↦ w i b e
  | inr e ↦ subst (InRange s.storages) (some_inj e) r
]

object_at-destroyed :
    (objects : List (Option Buffer)) (k i : ℕ) (b : Buffer)
    → object_at (set objects k none) i ≡ some b
    → object_at objects i ≡ some b
unfolding object_at
object_at-destroyed [] k i b h = h
object_at-destroyed (x ∷ objects) zero zero b h = cc
object_at-destroyed (x ∷ objects) zero (suc i) b h = h
object_at-destroyed (x ∷ objects) (suc k) zero b h = h
object_at-destroyed (x ∷ objects) (suc k) (suc i) b h = object_at-destroyed objects k i b h

slice-WellFormed :
    (offset len : ℕ) (c : Buffer) (s : Buffers)
    → InRange s.storages c
    → WellFormed s
    → WellFormed (slice offset len c s)
unfolding slice new_buffer
slice-WellFormed offset len c s r w = elim (Bool-cases (leb c.size offset)) [
  | inl e ↦ rw (e) (copy-WellFormed [] s w)
  | inr e ↦
      let below : offset < c.size = ground (arith, e) in
      rw (e) (share-WellFormed _ s (r.0, omega (arith, r.1, below)) w)
]

written-WellFormed :
    (s : Buffers) (i : ℕ) (b : Buffer) (t : Buffers) (c : Buffer) (at byte : ℕ)
    → WellFormed s
    → object_at s.objects i ≡ some b
    → Detached s i b t c
    → WellFormed (written t c at byte)
written-WellFormed s i b t c at byte w h d j o g =
    let new = set (bytes_of t.storages c.storage) at byte in
    let slots = length-set t.storages c.storage new in
    elim (Bool-cases (i == j)) [
      | inl q ↦
          let e : i ≡ j = (==_iff i j).0 q in
          let same : c ≡ o = some_inj (sym d.here ∙ ap (object_at t.objects) e ∙ g) in
          subst (InRange (written t c at byte).storages) same (
            omega (arith, slots, d.inside),
            omega (
              arith,
              ap length (bytes_of-set_self t.storages c.storage new d.inside),
              length-set (bytes_of t.storages c.storage) at byte,
              ap length d.bytes,
              length-view s b (w i b h),
              d.size,
              d.offset,
            ),
          )
      | inr q ↦
          let n : i ≢ j = ground (arith, q) in
          let old : object_at s.objects j ≡ some o = sym (d.others j n) ∙ g in
          let k = d.kept j o n old in
          let r = w j o old in
          (
            omega (arith, slots, d.room, r.0),
            omega (
              arith,
              r.1,
              ap length (bytes_of-set_ne t.storages c.storage o.storage new k.0 ∙ k.1),
            ),
          )
    ]

write_at-WellFormed :
    (i : ℕ) (b : Buffer) (at byte : ℕ) (s : Buffers)
    → WellFormed s
    → object_at s.objects i ≡ some b
    → WellFormed (write_at i b at byte s)
unfolding write_at
write_at-WellFormed i b at byte s w h =
    written-WellFormed s i b (detach i b s).0 (detach i b s).1 at byte w h
      (detach-Detached s i b w h)

on_object-WellFormed :
    (f : ℕ → Buffer → Buffers → Buffers) (i : ℕ) (s : Buffers)
    → WellFormed s
    → ((b : Buffer) → object_at s.objects i ≡ some b → WellFormed (f i b s))
    → WellFormed (on_object f i s)
unfolding on_object
on_object-WellFormed f i s w k = elim (Option-cases (object_at s.objects i)) [
  | inl e ↦ rw (on_object, e) w
  | inr (b, e) ↦ rw (on_object, e) (k b e)
]

write_inside-WellFormed :
    (i : ℕ) (b : Buffer) (at byte : ℕ) (s : Buffers)
    → WellFormed s
    → object_at s.objects i ≡ some b
    → WellFormed (if ltb at b.size then write_at i b at byte s else s)
write_inside-WellFormed i b at byte s w h = elim (Bool-cases (ltb at b.size)) [
  | inl e ↦ rw (e) (write_at-WellFormed i b at byte s w h)
  | inr e ↦ rw (e) w
]

step-WellFormed : (op : Op) (s : Buffers) → WellFormed s → WellFormed (step op s)
unfolding step destroy
step-WellFormed (do_copy bytes) s w = copy-WellFormed bytes s w
step-WellFormed (do_share i) s w =
    on_object-WellFormed (λ i b s. share b s) i s w (λ b e. share-WellFormed b s (w i b e) w)
step-WellFormed (do_destroy k) s w = λ i b h. w i b (object_at-destroyed s.objects k i b h)
step-WellFormed (do_slice i offset len) s w =
    on_object-WellFormed (λ i b s. slice offset len b s) i s w
      (λ b e. slice-WellFormed offset len b s (w i b e) w)
step-WellFormed (do_write i at byte) s w =
    on_object-WellFormed (λ i b s. if ltb at b.size then write_at i b at byte s else s) i s w
      (λ b e. write_inside-WellFormed i b at byte s w e)

-- Whatever a program does, each of its Buffers lies inside a storage that is there.
pub run-WellFormed : (ops : List Op) (s : Buffers) → WellFormed s → WellFormed (run ops s)
unfolding run
run-WellFormed [] s w = w
run-WellFormed (op ∷ ops) s w = run-WellFormed ops (step op s) (step-WellFormed op s w)

no_buffers-WellFormed : WellFormed no_buffers
unfolding object_at
no_buffers-WellFormed i b h = cc

-- Copy on write, in any program that starts with no Buffers: after any copies, slices, destructions
-- and writes, a write through one Buffer that is there changes that byte of what it shows and nothing
-- else of it, and no other Buffer shows a change.
pub run-isolated :
    (ops : List Op) (i : ℕ) (b : Buffer) (at byte : ℕ)
    → object_at (run ops no_buffers).objects i ≡ some b
    → (read (write_at i b at byte (run ops no_buffers)) i
        ≡ some (set (view (run ops no_buffers) b) at byte))
      × ((j : ℕ)
          → i ≢ j
          → read (write_at i b at byte (run ops no_buffers)) j ≡ read (run ops no_buffers) j)
run-isolated ops i b at byte h =
    write_at-isolated (run ops no_buffers) i b at byte
      (run-WellFormed ops no_buffers no_buffers-WellFormed) h
