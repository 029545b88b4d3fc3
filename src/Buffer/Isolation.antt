-- ===== src/Buffer/Isolation.antt =====
-- Copy on write of src/core/buffer.cpp: a write through one Buffer shows in no other.
use winglib.Base.{
  ◌≡◌, ◌≢◌, refl, sym, ap, ◌∙◌, ℕ, none, some, Option-cases, inl, inr, length, length-set, set,
  take, drop,
}
use winglib.Buffer.{Buffer, Buffers, object_at, bytes_of, view, read, detach, write_at}
use winglib.Buffer.Storages.{WellFormed, bytes_of-set_ne, bytes_of-set_self}
use winglib.Buffer.Detach.{Detached, detach-Detached, take-all, length-view}

abbrev pub written : Buffers → Buffer → ℕ → ℕ → Buffers
written t c at byte = record {
  storages = set t.storages c.storage (set (bytes_of t.storages c.storage) at byte);
  objects = t.objects;
}

read-some :
    (s : Buffers) (i : ℕ) (b : Buffer) → object_at s.objects i ≡ some b → read s i ≡ some (view s b)
unfolding read
read-some s i b h = rw (read, h) refl

read-none : (s : Buffers) (i : ℕ) → object_at s.objects i ≡ none → read s i ≡ none
unfolding read
read-none s i h = rw (read, h) refl

module _ (s : Buffers) (i : ℕ) (b : Buffer) (t : Buffers) (c : Buffer) (w : WellFormed s)
    (h : object_at s.objects i ≡ some b) (d : Detached s i b t c) (at byte : ℕ) where
  read-written_self : read (written t c at byte) i ≡ some (set (view s b) at byte)
  unfolding view
  read-written_self =
      let new = set (bytes_of t.storages c.storage) at byte in
      let size : length new ≡ c.size =
        length-set (bytes_of t.storages c.storage) at byte
        ∙ ap length d.bytes
        ∙ length-view s b (w i b h)
        ∙ sym d.size in
      read-some (written t c at byte) i c d.here
      ∙ ap (λ l. some (take c.size (drop c.offset l)))
          (bytes_of-set_self t.storages c.storage new d.inside)
      ∙ ap (λ n. some (take c.size (drop n new))) d.offset
      ∙ ap some (take-all new c.size size ∙ ap (λ l. set l at byte) d.bytes)

  read-written_other : (j : ℕ) → i ≢ j → read (written t c at byte) j ≡ read s j
  unfolding view
  read-written_other j n = elim (Option-cases (object_at s.objects j)) [
    | inl e ↦ read-none (written t c at byte) j (d.others j n ∙ e) ∙ sym (read-none s j e)
    | inr (o, e) ↦
        let k = d.kept j o n e in
        let new = set (bytes_of t.storages c.storage) at byte in
        read-some (written t c at byte) j o (d.others j n ∙ e)
        ∙ ap (λ l. some (take o.size (drop o.offset l)))
            (bytes_of-set_ne t.storages c.storage o.storage new k.0 ∙ k.1)
        ∙ sym (read-some s j o e)
  ]

-- Copy on write: a write through the mutable view of one Buffer changes that byte of what this
-- Buffer shows and nothing else of it, and no other Buffer shows a change, whatever storage they
-- shared, where every Buffer's range lies in a storage that is there.
pub write_at-isolated :
    (s : Buffers) (i : ℕ) (b : Buffer) (at byte : ℕ)
    → WellFormed s
    → object_at s.objects i ≡ some b
    → (read (write_at i b at byte s) i ≡ some (set (view s b) at byte))
      × ((j : ℕ) → i ≢ j → read (write_at i b at byte s) j ≡ read s j)
unfolding write_at
write_at-isolated s i b at byte w h =
    let d = detach-Detached s i b w h in
    (
      read-written_self s i b (detach i b s).0 (detach i b s).1 w h d at byte,
      read-written_other s i b (detach i b s).0 (detach i b s).1 w h d at byte,
    )
