-- ===== src/Hash.antt =====
-- The streaming SHA-256 of src/core/hash.cpp: update, hex, sha256Hex and sha256File.
pub mod Compress
pub mod Stream
pub mod Padding
pub mod Files
pub mod Tests
use Prim.Native.Nat.{bit_and}
use winglib.Base.{
  ℕ, zero, suc, ◌+◌, ◌-◌, ◌*◌, ◌/◌, ◌%◌, ◌^◌, min, Bool, true, false, List, [], ◌∷◌, ◌++◌, Text,
  codes, Option, none, some, if◌then◌else◌, ◌==◌, not, length, take, drop, get_elem?, Result, ok,
  err,
}
use winglib.Hash.Compress.{Words, process_block, initial_words}

-- `buffer` is the first bufferLength_ bytes of buffer_: those behind are never read.
pub record Sha256 : Type 0 where
  pub state : Words
  pub buffer : List ℕ
  pub bit_length : ℕ

unfoldable pub new_hasher : Sha256
unfolding initial_words
new_hasher = record { state = initial_words; buffer = []; bit_length = 0 }

-- What a full buffer becomes: its block is processed and it is empty again.
unfoldable pub flush : Sha256 → Sha256
flush h =
    if length h.buffer == 64
    then record { state = process_block h.buffer h.state; buffer = []; bit_length = h.bit_length }
    else h

-- The bytes that one turn of the loop copies go behind those that are there.
abbrev pub copy_in : List ℕ → Sha256 → Sha256
copy_in bytes h = record { state = h.state; buffer = h.buffer ++ bytes; bit_length = h.bit_length }

-- The loop of update, with one turn for each unit of fuel; each turn takes a byte at least.
unfoldable pub absorb : ℕ → List ℕ → Sha256 → Sha256
unfolding flush
absorb zero bytes h = h
absorb (suc fuel) [] h = h
absorb (suc fuel) (b ∷ bytes) h =
    let taken = min (64 - length h.buffer) (length (b ∷ bytes)) in
    absorb fuel (drop taken (b ∷ bytes)) (flush (copy_in (take taken (b ∷ bytes)) h))

abbrev pub count_bits : ℕ → Sha256 → Sha256
count_bits n h = record {
  state = h.state;
  buffer = h.buffer;
  bit_length = (h.bit_length + n % 2 ^ 64 * 8) % 2 ^ 64;
}

unfoldable pub update : List ℕ → Sha256 → Sha256
unfolding absorb
update bytes h = absorb (length bytes) bytes (count_bits (length bytes) h)

-- The loop of hex that adds zeros; 64 are always enough.
unfoldable pub pad_zeros : ℕ → Sha256 → Sha256
unfolding update
pad_zeros zero h = h
pad_zeros (suc fuel) h =
    let more = pad_zeros fuel (update (0 ∷ []) h) in if length h.buffer == 56 then h else more

-- The eight bytes of the length, the highest first.
unfoldable pub length_bytes : ℕ → List ℕ
length_bytes bits =
    bits / 2 ^ 56 % 256
    ∷ bits / 2 ^ 48 % 256
    ∷ bits / 2 ^ 40 % 256
    ∷ bits / 2 ^ 32 % 256
    ∷ bits / 2 ^ 24 % 256
    ∷ bits / 2 ^ 16 % 256
    ∷ bits / 2 ^ 8 % 256
    ∷ bits % 256
    ∷ []

unfoldable pub hex_digits : Text
hex_digits = codes "0123456789abcdef"

unfoldable pub hex_digit : ℕ → ℕ
unfolding hex_digits
hex_digit n = elim (get_elem? hex_digits n) [ none ↦ 0 | some c ↦ c ]

unfoldable pub byte_hex : ℕ → Text
unfolding hex_digit
byte_hex value = hex_digit (value / 16) ∷ hex_digit (value % 16) ∷ []

unfoldable pub word_hex : ℕ → Text
unfolding byte_hex
word_hex w =
    byte_hex (w / 2 ^ 24 % 256)
    ++ (byte_hex (w / 2 ^ 16 % 256) ++ (byte_hex (w / 2 ^ 8 % 256) ++ byte_hex (w % 256)))

unfoldable pub state_hex : Words → Text
unfolding word_hex
state_hex s =
    word_hex s.a
    ++ (word_hex s.b
        ++ (word_hex s.c
            ++ (word_hex s.d
                ++ (word_hex s.e ++ (word_hex s.f ++ (word_hex s.g ++ word_hex s.h))))))

unfoldable pub hex : Sha256 → Text
unfolding pad_zeros length_bytes state_hex
hex h = state_hex (update (length_bytes h.bit_length) (pad_zeros 64 (update (128 ∷ []) h))).state

unfoldable pub sha256_hex : List ℕ → Text
unfolding new_hasher hex
sha256_hex bytes = hex (update bytes new_hasher)

pub data HashError : Type 0 where
  hash_open_failed hash_read_failed : HashError

-- What std::ifstream gives: whether it opened, the chunks of the reads in their order, and whether
-- it was bad in the end.
pub record FileReads : Type 0 where
  pub opened : Bool
  pub chunks : List (List ℕ)
  pub bad : Bool

-- A read that got nothing is passed over.
unfoldable pub update_chunks : List (List ℕ) → Sha256 → Sha256
unfolding update
update_chunks [] h = h
update_chunks ([] ∷ chunks) h = update_chunks chunks h
update_chunks ((b ∷ bytes) ∷ chunks) h = update_chunks chunks (update (b ∷ bytes) h)

unfoldable pub sha256_file : FileReads → Result HashError Text
unfolding update_chunks hex new_hasher
sha256_file reads =
    if not reads.opened
    then err hash_open_failed
    else if reads.bad
    then err hash_read_failed
    else ok (hex (update_chunks reads.chunks new_hasher))
