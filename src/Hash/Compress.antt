-- ===== src/Hash/Compress.antt =====
-- Sha256::processBlock of src/core/hash.cpp. A std::uint32_t is a number below 2 ^ 32, and its
-- arithmetic wraps.
use Prim.Native.Nat.{bit_and, bit_or, bit_xor}
use winglib.Base.{
  ℕ, zero, suc, ◌+◌, ◌-◌, ◌*◌, ◌/◌, ◌%◌, ◌^◌, List, [], ◌∷◌, ◌++◌, none, some, length, get_elem?,
}

abbrev pub word : ℕ → ℕ
word n = n % 2 ^ 32

unfoldable pub rotr : ℕ → ℕ → ℕ
rotr value count = bit_or (value / 2 ^ count) (word (value * 2 ^ (32 - count)))

-- `~value`
unfoldable pub complement : ℕ → ℕ
complement value = 2 ^ 32 - 1 - value

-- An element of an array; the code stays within its bounds.
unfoldable pub at : List ℕ → ℕ → ℕ
at words i = elim (get_elem? words i) [ none ↦ 0 | some w ↦ w ]

unfoldable pub round_constants : List ℕ
round_constants =
    0x428a2f98 ∷ 0x71374491 ∷ 0xb5c0fbcf ∷ 0xe9b5dba5 ∷ 0x3956c25b ∷ 0x59f111f1 ∷ 0x923f82a4
    ∷ 0xab1c5ed5 ∷ 0xd807aa98 ∷ 0x12835b01 ∷ 0x243185be ∷ 0x550c7dc3 ∷ 0x72be5d74 ∷ 0x80deb1fe
    ∷ 0x9bdc06a7 ∷ 0xc19bf174 ∷ 0xe49b69c1 ∷ 0xefbe4786 ∷ 0x0fc19dc6 ∷ 0x240ca1cc ∷ 0x2de92c6f
    ∷ 0x4a7484aa ∷ 0x5cb0a9dc ∷ 0x76f988da ∷ 0x983e5152 ∷ 0xa831c66d ∷ 0xb00327c8 ∷ 0xbf597fc7
    ∷ 0xc6e00bf3 ∷ 0xd5a79147 ∷ 0x06ca6351 ∷ 0x14292967 ∷ 0x27b70a85 ∷ 0x2e1b2138 ∷ 0x4d2c6dfc
    ∷ 0x53380d13 ∷ 0x650a7354 ∷ 0x766a0abb ∷ 0x81c2c92e ∷ 0x92722c85 ∷ 0xa2bfe8a1 ∷ 0xa81a664b
    ∷ 0xc24b8b70 ∷ 0xc76c51a3 ∷ 0xd192e819 ∷ 0xd6990624 ∷ 0xf40e3585 ∷ 0x106aa070 ∷ 0x19a4c116
    ∷ 0x1e376c08 ∷ 0x2748774c ∷ 0x34b0bcb5 ∷ 0x391c0cb3 ∷ 0x4ed8aa4a ∷ 0x5b9cca4f ∷ 0x682e6ff3
    ∷ 0x748f82ee ∷ 0x78a5636f ∷ 0x84c87814 ∷ 0x8cc70208 ∷ 0x90befffa ∷ 0xa4506ceb ∷ 0xbef9a3f7
    ∷ 0xc67178f2 ∷ []

-- The first words of the schedule: four bytes each, the first the highest.
unfoldable pub block_words : List ℕ → List ℕ
block_words (a ∷ b ∷ c ∷ d ∷ block) =
    bit_or (bit_or (bit_or (a * 2 ^ 24) (b * 2 ^ 16)) (c * 2 ^ 8)) d ∷ block_words block
block_words block = []

unfoldable pub next_word : List ℕ → ℕ
unfolding rotr at
next_word w =
    let i = length w in
    let x = at w (i - 15) in
    let y = at w (i - 2) in
    let s0 = bit_xor (bit_xor (rotr x 7) (rotr x 18)) (x / 2 ^ 3) in
    let s1 = bit_xor (bit_xor (rotr y 17) (rotr y 19)) (y / 2 ^ 10) in
    word (at w (i - 16) + s0 + at w (i - 7) + s1)

unfoldable pub extend_schedule : ℕ → List ℕ → List ℕ
unfolding next_word
extend_schedule zero w = w
extend_schedule (suc n) w = extend_schedule n (w ++ next_word w ∷ [])

unfoldable pub schedule : List ℕ → List ℕ
unfolding block_words extend_schedule
schedule block = extend_schedule 48 (block_words block)

-- The eight words `state_`, and the eight working variables.
pub record Words : Type 0 where
  pub a : ℕ
  pub b : ℕ
  pub c : ℕ
  pub d : ℕ
  pub e : ℕ
  pub f : ℕ
  pub g : ℕ
  pub h : ℕ

unfoldable pub round : ℕ → ℕ → Words → Words
unfolding rotr complement
round k w s =
    let s1 = bit_xor (bit_xor (rotr s.e 6) (rotr s.e 11)) (rotr s.e 25) in
    let ch = bit_xor (bit_and s.e s.f) (bit_and (complement s.e) s.g) in
    let temp1 = word (s.h + s1 + ch + k + w) in
    let s0 = bit_xor (bit_xor (rotr s.a 2) (rotr s.a 13)) (rotr s.a 22) in
    let maj = bit_xor (bit_xor (bit_and s.a s.b) (bit_and s.a s.c)) (bit_and s.b s.c) in
    let temp2 = word (s0 + maj) in
    record {
      a = word (temp1 + temp2);
      b = s.a;
      c = s.b;
      d = s.c;
      e = word (s.d + temp1);
      f = s.e;
      g = s.f;
      h = s.g;
    }

unfoldable pub rounds : List ℕ → List ℕ → Words → Words
unfolding round
rounds [] ws s = s
rounds (k ∷ ks) [] s = s
rounds (k ∷ ks) (w ∷ ws) s = rounds ks ws (round k w s)

unfoldable pub process_block : List ℕ → Words → Words
unfolding schedule rounds round_constants
process_block block s =
    let t = rounds round_constants (schedule block) s in
    record {
      a = word (s.a + t.a);
      b = word (s.b + t.b);
      c = word (s.c + t.c);
      d = word (s.d + t.d);
      e = word (s.e + t.e);
      f = word (s.f + t.f);
      g = word (s.g + t.g);
      h = word (s.h + t.h);
    }

unfoldable pub initial_words : Words
initial_words = record {
  a = 0x6a09e667;
  b = 0xbb67ae85;
  c = 0x3c6ef372;
  d = 0xa54ff53a;
  e = 0x510e527f;
  f = 0x9b05688c;
  g = 0x1f83d9ab;
  h = 0x5be0cd19;
}
