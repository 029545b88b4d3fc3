-- ===== src/Hash/Padding.antt =====
-- The digest of src/core/hash.cpp against the definition of SHA-256 by the blocks of the padded text.
use winglib.Base.{
  ◌≡◌, refl, sym, ap, ◌∙◌, ℕ, zero, suc, ◌+◌, ◌-◌, ◌*◌, ◌/◌, ◌%◌, ◌^◌, ◌≤◌, true, false, List, [],
  ◌∷◌, ◌++◌, ◌==◌, arith, length, length-append, take, drop, take-append-drop, Text,
}
use winglib.Hash.Compress.{process_block, Words, initial_words}
use winglib.Hash.{
  Sha256, new_hasher, flush, update, pad_zeros, length_bytes, hex, state_hex, sha256_hex,
}
use winglib.Hash.Stream.{
  feed, feed_all, feed_all-append, feed_all-fits, feed_all-with_bits, with_bits, feed_all-bits,
  Room, length-feed, length-feed_all, update-feed_all, update-Room,
}

unfoldable pub zeros : ℕ → List ℕ
zeros zero = []
zeros (suc n) = 0 ∷ zeros n

-- The zeros that bring n bytes and the byte 0x80 to 8 bytes below a full block.
unfoldable pub pad_count : ℕ → ℕ
pad_count n = (119 - n % 64) % 64

unfoldable pub padded : List ℕ → List ℕ
padded bytes =
    bytes
    ++ (128
        ∷ (zeros (pad_count (length bytes)) ++ length_bytes (length bytes % 2 ^ 64 * 8 % 2 ^ 64)))

-- The blocks of 64 bytes, one after the other.
unfoldable pub run_blocks : ℕ → List ℕ → Words → Words
run_blocks zero bytes s = s
run_blocks (suc n) bytes s = run_blocks n (drop 64 bytes) (process_block (take 64 bytes) s)

unfoldable pub block_digest : List ℕ → Text
block_digest bytes =
    state_hex (run_blocks (length (padded bytes) / 64) (padded bytes) initial_words)

length-zeros : (n : ℕ) → length (zeros n) ≡ n
unfolding zeros
length-zeros zero = refl
length-zeros (suc n) = ap suc (length-zeros n)

length-take : (n : ℕ) (xs : List ℕ) → n ≤ length xs → length (take n xs) ≡ n
length-take zero xs h = refl
length-take (suc n) [] h = elim h [ ]
length-take (suc n) (x ∷ xs) h = ap suc (length-take n xs (omega arith))

length-drop_add : (n : ℕ) (xs : List ℕ) → n ≤ length xs → length (drop n xs) + n ≡ length xs
length-drop_add zero xs h = omega arith
length-drop_add (suc n) [] h = elim h [ ]
length-drop_add (suc n) (x ∷ xs) h = omega (arith, length-drop_add n xs)

-- A full block that comes to an empty buffer.
feed_all-block :
    (block : List ℕ) (s : Words) (bits : ℕ)
    → length block ≡ 64
    → feed_all block (record { state = s; buffer = []; bit_length = bits })
      ≡ record { state = process_block block s; buffer = []; bit_length = bits }
unfolding flush
feed_all-block [] s bits e = absurd (omega (arith, e))
feed_all-block (x ∷ xs) s bits e =
    let full : (length (x ∷ xs) == 64) ≡ true = ground (arith, e) in
    feed_all-fits x xs (record { state = s; buffer = []; bit_length = bits }) (omega (arith, e))
    ∙ rw (full) refl

feed_all-run_blocks :
    (n : ℕ) (bytes : List ℕ) (s : Words) (bits : ℕ)
    → length bytes ≡ n * 64
    → feed_all bytes (record { state = s; buffer = []; bit_length = bits })
      ≡ record { state = run_blocks n bytes s; buffer = []; bit_length = bits }
unfolding run_blocks
feed_all-run_blocks zero [] s bits e = refl
feed_all-run_blocks zero (b ∷ bytes) s bits e = absurd (omega (arith, e))
feed_all-run_blocks (suc n) bytes s bits e =
    let enough : 64 ≤ length bytes = omega (arith, e) in
    let rest : length (drop 64 bytes) ≡ n * 64 =
      omega (arith, e, length-drop_add 64 bytes enough) in
    ap (λ l. feed_all l (record { state = s; buffer = []; bit_length = bits }))
      (sym (take-append-drop 64 bytes))
    ∙ feed_all-append (take 64 bytes) (drop 64 bytes)
        (record { state = s; buffer = []; bit_length = bits })
    ∙ ap (feed_all (drop 64 bytes))
        (feed_all-block (take 64 bytes) s bits (length-take 64 bytes enough))
    ∙ feed_all-run_blocks n (drop 64 bytes) (process_block (take 64 bytes) s) bits rest

-- The loop of hex ends with the buffer 8 bytes below full.
pad_zeros-feed_all :
    (fuel z : ℕ) (h : Sha256)
    → Room h
    → z ≡ (120 - length h.buffer) % 64
    → z ≤ fuel
    → pad_zeros fuel h ≡ with_bits (pad_zeros fuel h).bit_length (feed_all (zeros z) h)
unfolding pad_zeros zeros
pad_zeros-feed_all zero zero h r e n = refl
pad_zeros-feed_all (suc fuel) zero h r e n =
    let done : (length h.buffer == 56) ≡ true = ground (arith, e) in rw (done) refl
pad_zeros-feed_all zero (suc z) h r e n = elim n [ ]
pad_zeros-feed_all (suc fuel) (suc z) h r e n =
    let more : (length h.buffer == 56) ≡ false = ground (arith, e) in
    let next : Sha256 = update (0 ∷ []) h in
    let q = update-feed_all (0 ∷ []) h r in
    let same : next ≡ with_bits next.bit_length (feed 0 h) =
      q ∙ ap (λ n. with_bits n (feed 0 h)) (sym (ap (λ k. k.bit_length) q)) in
    let size : length next.buffer ≡ (length h.buffer + 1) % 64 =
      ap (λ k. length k.buffer) same ∙ length-feed 0 h r in
    rw (more) (
      pad_zeros-feed_all fuel z next (omega (arith, size)) (omega (arith, size, e)) (omega arith)
      ∙ ap (with_bits (pad_zeros fuel next).bit_length)
          (ap (feed_all (zeros z)) same ∙ feed_all-with_bits (zeros z) next.bit_length (feed 0 h)))

-- What the padding feeds behind the bytes, up to the count of the bits.
abbrev finished : Sha256 → Sha256
finished h =
    feed_all (length_bytes h.bit_length)
      (feed_all (zeros (pad_count (length h.buffer))) (feed 128 h))

finish-feed_all :
    (fuel : ℕ) (h : Sha256)
    → Room h
    → 64 ≤ fuel
    → (update (length_bytes h.bit_length) (pad_zeros fuel (update (128 ∷ []) h))).state
      ≡ (finished h).state
unfolding pad_count
finish-feed_all fuel h r n =
    let z = (119 - length h.buffer % 64) % 64 in
    let k : Sha256 = update (128 ∷ []) h in
    let q = update-feed_all (128 ∷ []) h r in
    let one = length-feed 128 h r in
    let size : length k.buffer ≡ (length h.buffer + 1) % 64 = ap (λ k. length k.buffer) q ∙ one in
    let p = pad_zeros fuel k in
    let pads =
      pad_zeros-feed_all fuel z k (omega (arith, size)) (omega (arith, size)) (omega arith) in
    let fed = ap (feed_all (zeros z)) q ∙ feed_all-with_bits (zeros z) _ (feed 128 h) in
    let all : p ≡ with_bits p.bit_length (feed_all (zeros z) (feed 128 h)) =
      pads ∙ ap (with_bits p.bit_length) fed in
    let room : Room (feed 128 h) = omega (arith, one) in
    let free : Room p =
      omega (arith, ap (λ k. length k.buffer) all, length-feed_all (zeros z) (feed 128 h) room) in
    ap (λ s. s.state) (update-feed_all (length_bytes h.bit_length) p free)
    ∙ ap (λ t. (feed_all (length_bytes h.bit_length) t).state) all
    ∙ ap (λ s. s.state)
        (feed_all-with_bits (length_bytes h.bit_length) p.bit_length
          (feed_all (zeros z) (feed 128 h)))

hex-finished : (h : Sha256) → Room h → hex h ≡ state_hex (finished h).state
unfolding hex
hex-finished h r = ap state_hex (finish-feed_all 64 h r (omega arith))

feed-with : (b n : ℕ) (h : Sha256) → feed b (with_bits n h) ≡ with_bits n (feed b h)
feed-with b n h = feed_all-with_bits (b ∷ []) n h

-- The padding behind the bytes, fed as one text.
finished-with_bits :
    (n : ℕ) (h : Sha256)
    → (finished (with_bits n h)).state
      ≡ (feed_all (128 ∷ (zeros (pad_count (length h.buffer)) ++ length_bytes n)) h).state
finished-with_bits n h =
    let z = zeros (pad_count (length h.buffer)) in
    ap (λ k. (feed_all (length_bytes n) (feed_all z k)).state) (feed-with 128 n h)
    ∙ ap (λ k. (feed_all (length_bytes n) k).state) (feed_all-with_bits z n (feed 128 h))
    ∙ ap (λ k. k.state) (feed_all-with_bits (length_bytes n) n (feed_all z (feed 128 h)))
    ∙ ap (λ k. k.state) (sym (feed_all-append z (length_bytes n) (feed 128 h)))

length-length_bytes : (n : ℕ) → length (length_bytes n) ≡ 8
unfolding length_bytes
length-length_bytes n = refl

length-padded : (bytes : List ℕ) → length (padded bytes) ≡ length (padded bytes) / 64 * 64
unfolding padded pad_count
length-padded bytes =
    let n = length bytes in
    let z = (119 - n % 64) % 64 in
    let tail = zeros z ++ length_bytes (n % 2 ^ 64 * 8 % 2 ^ 64) in
    omega (
      arith,
      length-append bytes (128 ∷ tail),
      length-append (zeros z) (length_bytes (n % 2 ^ 64 * 8 % 2 ^ 64)),
      length-zeros z,
      length-length_bytes (n % 2 ^ 64 * 8 % 2 ^ 64),
    )

pub new-Room : Room new_hasher
unfolding new_hasher
new-Room = omega arith

taken-bytes :
    (bytes : List ℕ)
    → update bytes new_hasher
      ≡ with_bits (length bytes % 2 ^ 64 * 8 % 2 ^ 64) (feed_all bytes new_hasher)
unfolding new_hasher
taken-bytes bytes =
    update-feed_all bytes new_hasher (omega arith)
    ∙ ap (λ n. with_bits n (feed_all bytes new_hasher))
        (omega (arith, feed_all-bits bytes new_hasher))

pad_count-taken :
    (bytes : List ℕ)
    → pad_count (length (feed_all bytes new_hasher).buffer) ≡ pad_count (length bytes)
unfolding pad_count new_hasher
pad_count-taken bytes = omega (arith, length-feed_all bytes new_hasher (omega arith))

-- sha256Hex of any bytes is the digest by blocks: the bytes, the byte 0x80, zeros up to eight bytes
-- below a full block and the number of bits in eight bytes, cut into blocks of 64 bytes that
-- processBlock takes one after the other from the initial words, printed in hexadecimal.
pub sha256_hex-block_digest : (bytes : List ℕ) → sha256_hex bytes ≡ block_digest bytes
unfolding sha256_hex block_digest padded new_hasher
sha256_hex-block_digest bytes =
    let n = length bytes % 2 ^ 64 * 8 % 2 ^ 64 in
    hex-finished (update bytes new_hasher) (update-Room bytes new_hasher new-Room)
    ∙ ap (λ h. state_hex (finished h).state) (taken-bytes bytes)
    ∙ ap state_hex (finished-with_bits n (feed_all bytes new_hasher))
    ∙ ap
        (λ z.
          state_hex
            (feed_all (128 ∷ (zeros z ++ length_bytes n)) (feed_all bytes new_hasher)).state)
        (pad_count-taken bytes)
    ∙ ap (λ h. state_hex h.state)
        (sym (
          feed_all-append bytes (128 ∷ (zeros (pad_count (length bytes)) ++ length_bytes n))
            new_hasher))
    ∙ ap (λ h. state_hex h.state)
        (feed_all-run_blocks (length (padded bytes) / 64) (padded bytes) initial_words 0
          (length-padded bytes))
