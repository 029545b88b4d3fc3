-- ===== src/Buffer/Detach.antt =====
-- detach of src/core/buffer.cpp: what it gives the object, and what it leaves to the others.
use winglib.Base.{
  ◌≡◌, ◌≢◌, refl, sym, ap, ◌∙◌, ℕ, zero, suc, ◌-◌, ◌≤◌, ◌<◌, false, List, [], ◌∷◌, ◌++◌, some,
  arith, Bool-cases, inl, inr, length, length-append, set, take, drop,
}
use winglib.Buffer.{Buffer, Buffers, object_at, bytes_of, use_count, view, must_detach, detach}
use winglib.Buffer.Storages.{
  InRange, WellFormed, object_at-set_self, object_at-set_ne, use_count-two, bytes_of-append,
  bytes_of-last,
}

pub take-all : (xs : List ℕ) (n : ℕ) → length xs ≡ n → take n xs ≡ xs
take-all [] zero e = refl
take-all [] (suc n) e = refl
take-all (x ∷ xs) zero e = absurd (omega (arith, e))
take-all (x ∷ xs) (suc n) e = ap (λ t. x ∷ t) (take-all xs n (omega (arith, e)))

length-take : (n : ℕ) (xs : List ℕ) → n ≤ length xs → length (take n xs) ≡ n
length-take zero xs h = refl
length-take (suc n) [] h = elim h [ ]
length-take (suc n) (x ∷ xs) h = ap suc (length-take n xs (omega arith))

length-drop : (n : ℕ) (xs : List ℕ) → length (drop n xs) ≡ length xs - n
length-drop zero xs = omega arith
length-drop (suc n) [] = omega arith
length-drop (suc n) (x ∷ xs) = omega (arith, length-drop n xs)

pub length-view : (s : Buffers) (b : Buffer) → InRange s.storages b → length (view s b) ≡ b.size
unfolding view
length-view s b r =
    length-take b.size (drop b.offset (bytes_of s.storages b.storage))
      (omega (arith, r.1, length-drop b.offset (bytes_of s.storages b.storage)))

-- What detach gives: an object with a storage of its own that holds just what it showed, and all the
-- others as they were.
pub record Detached (s : Buffers) (i : ℕ) (b : Buffer) (t : Buffers) (c : Buffer) : Type 0 where
  pub here : object_at t.objects i ≡ some c
  pub offset : c.offset ≡ 0
  pub size : c.size ≡ b.size
  pub inside : c.storage < length t.storages
  pub room : length s.storages ≤ length t.storages
  pub bytes : bytes_of t.storages c.storage ≡ view s b
  pub others : (j : ℕ) → i ≢ j → object_at t.objects j ≡ object_at s.objects j
  pub kept :
      (j : ℕ) (d : Buffer)
      → i ≢ j
      → object_at s.objects j ≡ some d
      → (c.storage ≢ d.storage) × (bytes_of t.storages d.storage ≡ bytes_of s.storages d.storage)

lt-ne : (n m : ℕ) → n < m → m ≢ n
lt-ne n m h e = omega (arith, h, e)

moved-Detached :
    (s : Buffers) (i : ℕ) (b : Buffer)
    → WellFormed s
    → object_at s.objects i ≡ some b
    → let c : Buffer = record { storage = length s.storages; offset = 0; size = b.size } in
      Detached s i b
        (record { storages = s.storages ++ view s b ∷ []; objects = set s.objects i (some c) })
        c
moved-Detached s i b w h = record {
  here = object_at-set_self s.objects i b _ h;
  offset = refl;
  size = refl;
  inside = omega (arith, length-append s.storages (view s b ∷ []));
  room = omega (arith, length-append s.storages (view s b ∷ []));
  bytes = bytes_of-last s.storages (view s b);
  others = λ j n. object_at-set_ne s.objects i j _ n;
  kept = λ j d n g. (
    lt-ne d.storage (length s.storages) (w j d g).0,
    bytes_of-append s.storages d.storage (view s b) (w j d g).0,
  );
}

alone-Detached :
    (s : Buffers) (i : ℕ) (b : Buffer)
    → WellFormed s
    → object_at s.objects i ≡ some b
    → must_detach s b ≡ false
    → Detached s i b s b
unfolding must_detach view
alone-Detached s i b w h m =
    let one : use_count b.storage s.objects ≡ 1 = ground arith in
    let start : b.offset ≡ 0 = ground arith in
    let whole : length (bytes_of s.storages b.storage) ≡ b.size = ground arith in
    record {
      here = h;
      offset = start;
      size = refl;
      inside = (w i b h).0;
      room = omega arith;
      bytes = sym (
          ap (λ n. take b.size (drop n (bytes_of s.storages b.storage))) start
          ∙ take-all (bytes_of s.storages b.storage) b.size whole);
      others = λ j n. refl;
      kept = λ j d n g. (
        (λ e.
            absurd
              (omega (arith, one, use_count-two b.storage s.objects i j b d n h refl g (sym e)))),
        refl,
      );
    }

pub detach-Detached :
    (s : Buffers) (i : ℕ) (b : Buffer)
    → WellFormed s
    → object_at s.objects i ≡ some b
    → Detached s i b (detach i b s).0 (detach i b s).1
unfolding detach
detach-Detached s i b w h = elim (Bool-cases (must_detach s b)) [
  | inl e ↦ rw (e) (moved-Detached s i b w h)
  | inr e ↦ rw (e) (alone-Detached s i b w h e)
]
