-- ===== src/Hash/Stream.antt =====
-- The loop of update of src/core/hash.cpp, against taking in one byte at a time.
use winglib.Base.{
  ◌≡◌, refl, sym, ap, ◌∙◌, ℕ, zero, suc, ◌+◌, ◌-◌, ◌*◌, ◌%◌, ◌^◌, ◌≤◌, ◌<◌, min, false, List, [],
  ◌∷◌, ◌++◌, append_assoc, ◌==◌, arith, Bool-cases, inl, inr, length, length-append, take, drop,
  take-append-drop,
}
use winglib.Hash.{Sha256, flush, copy_in, absorb, count_bits, update}

unfoldable pub feed : ℕ → Sha256 → Sha256
unfolding flush
feed b h = flush (copy_in (b ∷ []) h)

abbrev pub feed_all : List ℕ → Sha256 → Sha256
feed_all [] h = h
feed_all (b ∷ bytes) h = feed_all bytes (feed b h)

pub feed_all-append :
    (xs ys : List ℕ) (h : Sha256) → feed_all (xs ++ ys) h ≡ feed_all ys (feed_all xs h)
feed_all-append [] ys h = refl
feed_all-append (x ∷ xs) ys h = feed_all-append xs ys (feed x h)

-- The buffer is not full between two turns.
abbrev pub Room : Sha256 → Type 0
Room h = length h.buffer < 64

pub length-flush :
    (h : Sha256) → length h.buffer ≤ 64 → length (flush h).buffer ≡ length h.buffer % 64
unfolding flush
length-flush h n = elim (Bool-cases (length h.buffer == 64)) [
  | inl e ↦ let s : length h.buffer ≡ 64 = ground arith in rw (flush, e) (omega (arith, s))
  | inr e ↦ let s : length h.buffer < 64 = ground arith in rw (flush, e) (omega (arith, s))
]

pub length-feed :
    (b : ℕ) (h : Sha256) → Room h → length (feed b h).buffer ≡ (length h.buffer + 1) % 64
unfolding feed
length-feed b h r =
    let e = length-append h.buffer (b ∷ []) in
    length-flush (copy_in (b ∷ []) h) (omega (arith, e)) ∙ ap (λ n. n % 64) (omega (arith, e))

pub length-feed_all :
    (xs : List ℕ) (h : Sha256)
    → Room h
    → length (feed_all xs h).buffer ≡ (length h.buffer + length xs) % 64
length-feed_all [] h r = omega arith
length-feed_all (x ∷ xs) h r =
    let e = length-feed x h r in omega (arith, e, length-feed_all xs (feed x h) (omega (arith, e)))

flush-short : (h : Sha256) → Room h → flush h ≡ h
unfolding flush
flush-short h r = let e : (length h.buffer == 64) ≡ false = ground arith in rw (flush, e) refl

-- A chunk that fits is taken in whole.
pub feed_all-fits :
    (x : ℕ) (xs : List ℕ) (h : Sha256)
    → length h.buffer + length (x ∷ xs) ≤ 64
    → feed_all (x ∷ xs) h ≡ flush (copy_in (x ∷ xs) h)
unfolding feed
feed_all-fits x [] h n = refl
feed_all-fits x (y ∷ xs) h n =
    let e = length-append h.buffer (x ∷ []) in
    ap (λ k. feed_all (y ∷ xs) k) (flush-short (copy_in (x ∷ []) h) (omega (arith, e)))
    ∙ feed_all-fits y xs (copy_in (x ∷ []) h) (omega (arith, e))
    ∙ ap (λ l. flush (record { state = h.state; buffer = l; bit_length = h.bit_length }))
        (append_assoc h.buffer (x ∷ []) (y ∷ xs))

length-take_le : (n : ℕ) (xs : List ℕ) → length (take n xs) ≤ n
length-take_le zero xs = omega arith
length-take_le (suc n) [] = omega arith
length-take_le (suc n) (x ∷ xs) = omega (arith, length-take_le n xs)

length-drop : (n : ℕ) (xs : List ℕ) → length (drop n xs) ≡ length xs - n
length-drop zero xs = omega arith
length-drop (suc n) [] = omega arith
length-drop (suc n) (x ∷ xs) = omega (arith, length-drop n xs)

-- One turn, for a number of bytes that is not zero and leaves the rest to the next turns.
absorb-turn :
    (fuel t : ℕ) (b : ℕ) (bytes : List ℕ) (h : Sha256)
    → min (64 - length h.buffer) (suc (length bytes)) ≡ suc t
    → absorb (suc fuel) (b ∷ bytes) h
      ≡ absorb fuel (drop t bytes) (flush (copy_in (b ∷ take t bytes) h))
unfolding absorb
absorb-turn fuel t b bytes h e = rw (absorb, e) refl

-- The loop ends with all bytes taken in, each as if it came alone.
pub absorb-feed_all :
    (fuel : ℕ) (bytes : List ℕ) (h : Sha256)
    → Room h
    → length bytes ≤ fuel
    → absorb fuel bytes h ≡ feed_all bytes h
unfolding absorb
absorb-feed_all zero [] h r n = refl
absorb-feed_all zero (b ∷ bytes) h r n = elim n [ ]
absorb-feed_all (suc fuel) [] h r n = refl
absorb-feed_all (suc fuel) (b ∷ bytes) h r n =
    let t = min (64 - length h.buffer) (suc (length bytes)) - 1 in
    let e : min (64 - length h.buffer) (suc (length bytes)) ≡ suc t = omega arith in
    let short = length-take_le t bytes in
    let fits : length h.buffer + length (b ∷ take t bytes) ≤ 64 = omega (arith, short) in
    let first = feed_all-fits b (take t bytes) h fits in
    let after = length-feed_all (b ∷ take t bytes) h r in
    let next : Sha256 = feed_all (b ∷ take t bytes) h in
    absorb-turn fuel t b bytes h e
    ∙ ap (absorb fuel (drop t bytes)) (sym first)
    ∙ absorb-feed_all fuel (drop t bytes) next (omega (arith, after))
        (omega (arith, length-drop t bytes))
    ∙ sym (feed_all-append (b ∷ take t bytes) (drop t bytes) h)
    ∙ ap (λ l. feed_all (b ∷ l) h) (take-append-drop t bytes)

abbrev pub with_bits : ℕ → Sha256 → Sha256
with_bits n h = record { state = h.state; buffer = h.buffer; bit_length = n }

feed-with_bits : (b n : ℕ) (h : Sha256) → feed b (with_bits n h) ≡ with_bits n (feed b h)
unfolding feed flush
feed-with_bits b n h = elim (Bool-cases (length (h.buffer ++ b ∷ []) == 64)) [
  | inl e ↦ rw (e) refl
  | inr e ↦ rw (e) refl
]

pub feed_all-with_bits :
    (xs : List ℕ) (n : ℕ) (h : Sha256) → feed_all xs (with_bits n h) ≡ with_bits n (feed_all xs h)
feed_all-with_bits [] n h = refl
feed_all-with_bits (x ∷ xs) n h =
    ap (feed_all xs) (feed-with_bits x n h) ∙ feed_all-with_bits xs n (feed x h)

feed-bits : (b : ℕ) (h : Sha256) → (feed b h).bit_length ≡ h.bit_length
unfolding feed flush
feed-bits b h = elim (Bool-cases (length (h.buffer ++ b ∷ []) == 64)) [
  | inl e ↦ rw (feed, flush, e) refl
  | inr e ↦ rw (feed, flush, e) refl
]

pub feed_all-bits : (xs : List ℕ) (h : Sha256) → (feed_all xs h).bit_length ≡ h.bit_length
feed_all-bits [] h = refl
feed_all-bits (x ∷ xs) h = feed_all-bits xs (feed x h) ∙ feed-bits x h

-- The count of the bits and the bytes do not see each other.
feed-count_bits : (b n : ℕ) (h : Sha256) → feed b (count_bits n h) ≡ count_bits n (feed b h)
unfolding feed flush
feed-count_bits b n h = elim (Bool-cases (length (h.buffer ++ b ∷ []) == 64)) [
  | inl e ↦ rw (e) refl
  | inr e ↦ rw (e) refl
]

pub feed_all-count_bits :
    (xs : List ℕ) (n : ℕ) (h : Sha256) → feed_all xs (count_bits n h) ≡ count_bits n (feed_all xs h)
feed_all-count_bits [] n h = refl
feed_all-count_bits (x ∷ xs) n h =
    ap (feed_all xs) (feed-count_bits x n h) ∙ feed_all-count_bits xs n (feed x h)

pub update-feed_all :
    (bytes : List ℕ) (h : Sha256)
    → Room h
    → update bytes h ≡ count_bits (length bytes) (feed_all bytes h)
unfolding update
update-feed_all bytes h r =
    absorb-feed_all (length bytes) bytes (count_bits (length bytes) h) r (omega arith)
    ∙ feed_all-count_bits bytes (length bytes) h

pub update-Room : (bytes : List ℕ) (h : Sha256) → Room h → Room (update bytes h)
update-Room bytes h r = rw (update-feed_all bytes h r) (omega (arith, length-feed_all bytes h r))

bits_add :
    (l m n : ℕ)
    → ((l + m % 2 ^ 64 * 8) % 2 ^ 64 + n % 2 ^ 64 * 8) % 2 ^ 64
      ≡ (l + (m + n) % 2 ^ 64 * 8) % 2 ^ 64
bits_add l m n = omega arith

count_bits_add : (m n : ℕ) (h : Sha256) → count_bits n (count_bits m h) ≡ count_bits (m + n) h
count_bits_add m n h i = record {
  state = h.state;
  buffer = h.buffer;
  bit_length = bits_add h.bit_length m n i;
}

pub update-append :
    (xs ys : List ℕ) (h : Sha256) → Room h → update ys (update xs h) ≡ update (xs ++ ys) h
update-append xs ys h r =
    update-feed_all ys (update xs h) (update-Room xs h r)
    ∙ ap (λ k. count_bits (length ys) (feed_all ys k)) (update-feed_all xs h r)
    ∙ ap (count_bits (length ys)) (feed_all-count_bits ys (length xs) (feed_all xs h))
    ∙ count_bits_add (length xs) (length ys) (feed_all ys (feed_all xs h))
    ∙ ap (count_bits (length xs + length ys)) (sym (feed_all-append xs ys h))
    ∙ ap (λ n. count_bits n (feed_all (xs ++ ys) h)) (sym (length-append xs ys))
    ∙ sym (update-feed_all (xs ++ ys) h r)
