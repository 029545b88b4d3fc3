-- ===== src/Hash/Files.antt =====
-- sha256File of src/core/hash.cpp over the chunks that are read, and the shape of a digest.
use winglib.Base.{
  ◌≡◌, refl, sym, ap, ◌∙◌, subst, ℕ, zero, suc, ◌/◌, ◌%◌, ◌^◌, ◌<◌, Bool, true, not, ◌&&◌, ◌||◌,
  List, [], ◌∷◌, ◌++◌, append-nil, append_assoc, if◌then◌else◌, leb, arith, length, get_elem?, some,
  ok, err, Text, all, All, All-append, lt-get_elem?,
}
use winglib.Hash.Compress.{Words}
use winglib.Hash.{
  Sha256, new_hasher, update, hex, sha256_hex, update_chunks, sha256_file, FileReads,
  hash_open_failed, hash_read_failed, hex_digit, hex_digits, byte_hex, word_hex, state_hex,
  length_bytes, pad_zeros,
}
use winglib.Hash.Stream.{Room, update-append}
use winglib.Hash.Padding.{new-Room}

abbrev pub concat : List (List ℕ) → List ℕ
concat [] = []
concat (chunk ∷ chunks) = chunk ++ concat chunks

-- The chunks one by one come to the same as their bytes at once, once something was taken in.
update_chunks-concat :
    (chunks : List (List ℕ)) (xs : List ℕ) (h : Sha256)
    → Room h
    → update_chunks chunks (update xs h) ≡ update (xs ++ concat chunks) h
unfolding update_chunks
update_chunks-concat [] xs h r = ap (λ l. update l h) (sym (append-nil xs))
update_chunks-concat ([] ∷ chunks) xs h r = update_chunks-concat chunks xs h r
update_chunks-concat ((b ∷ bytes) ∷ chunks) xs h r =
    ap (update_chunks chunks) (update-append xs (b ∷ bytes) h r)
    ∙ update_chunks-concat chunks (xs ++ (b ∷ bytes)) h r
    ∙ ap (λ l. update l h) (append_assoc xs (b ∷ bytes) (concat chunks))

update_chunks-new :
    (chunks : List (List ℕ)) → update_chunks chunks new_hasher ≡ update (concat chunks) new_hasher
unfolding update new_hasher
update_chunks-new chunks = update_chunks-concat chunks [] new_hasher new-Room

-- sha256File: it fails with hash_open_failed for a file that does not open and with hash_read_failed
-- for a stream that is bad in the end, and else gives the digest that sha256Hex gives for the bytes of
-- all the reads together, however the reads cut them.
pub sha256_file-concat :
    (reads : FileReads)
    → sha256_file reads ≡ (
        if not reads.opened
        then err hash_open_failed
        else if reads.bad
        then err hash_read_failed
        else ok (sha256_hex (concat reads.chunks)))
unfolding sha256_file sha256_hex
sha256_file-concat reads = rw (update_chunks-new reads.chunks) refl

unfoldable pub is_hex_digit : ℕ → Bool
is_hex_digit c = (leb b'0' c && leb c b'9') || (leb b'a' c && leb c b'f')

abbrev pub HexDigits : Text → Type 0
HexDigits = All (λ c. is_hex_digit c ≡ true)

All-get_elem? :
    (P : ℕ → Type 0) (xs : List ℕ) (i : ℕ) (a : ℕ) → All P xs → get_elem? xs i ≡ some a → P a
All-get_elem? P [] i a h e = cc
All-get_elem? P (x ∷ xs) zero a h e = let q : x ≡ a = cc e in subst P q h.0
All-get_elem? P (x ∷ xs) (suc i) a h e = All-get_elem? P xs i a h.1 e

all-All : (p : ℕ → Bool) (xs : List ℕ) → all p xs ≡ true → All (λ c. p c ≡ true) xs
all-All p [] h = tt
all-All p (x ∷ xs) h =
    let q : (p x ≡ true) × (all p xs ≡ true) = ground arith in (q.0, all-All p xs q.1)

hex_digit-HexDigits : (n : ℕ) → n < 16 → is_hex_digit (hex_digit n) ≡ true
unfolding hex_digit hex_digits is_hex_digit
hex_digit-HexDigits n h =
    let (c, e) = lt-get_elem? hex_digits n h in
    rw (hex_digit, e)
      (All-get_elem? (λ c. is_hex_digit c ≡ true) hex_digits n c
        (all-All is_hex_digit hex_digits refl) e)

byte_hex-HexDigits : (value : ℕ) → value < 256 → HexDigits (byte_hex value)
unfolding byte_hex
byte_hex-HexDigits value h = (
  hex_digit-HexDigits (value / 16) (omega arith),
  (hex_digit-HexDigits (value % 16) (omega arith), tt),
)

byte_hex-front :
    (value : ℕ) (rest : Text) → value < 256 → HexDigits rest → HexDigits (byte_hex value ++ rest)
byte_hex-front value rest h r =
    All-append (λ c. is_hex_digit c ≡ true) (byte_hex value) rest (byte_hex-HexDigits value h) r

word_hex-front : (w : ℕ) (rest : Text) → HexDigits rest → HexDigits (word_hex w ++ rest)
unfolding word_hex
word_hex-front w rest r =
    let last = byte_hex (w % 256) in
    let lower = byte_hex (w / 2 ^ 8 % 256) ++ last in
    let upper = byte_hex (w / 2 ^ 16 % 256) ++ lower in
    let h0 : HexDigits last = byte_hex-HexDigits (w % 256) (omega arith) in
    let h1 : HexDigits lower = byte_hex-front (w / 2 ^ 8 % 256) last (omega arith) h0 in
    let h2 : HexDigits upper = byte_hex-front (w / 2 ^ 16 % 256) lower (omega arith) h1 in
    All-append (λ c. is_hex_digit c ≡ true) (word_hex w) rest
      (byte_hex-front (w / 2 ^ 24 % 256) upper (omega arith) h2) r

words_hex : List ℕ → Text
words_hex [] = []
words_hex (w ∷ ws) = word_hex w ++ words_hex ws

words_hex-HexDigits : (ws : List ℕ) → HexDigits (words_hex ws)
unfolding words_hex
words_hex-HexDigits [] = tt
words_hex-HexDigits (w ∷ ws) = word_hex-front w (words_hex ws) (words_hex-HexDigits ws)

state_hex-words :
    (s : Words) → words_hex (s.a ∷ s.b ∷ s.c ∷ s.d ∷ s.e ∷ s.f ∷ s.g ∷ s.h ∷ []) ≡ state_hex s
unfolding words_hex state_hex word_hex byte_hex
state_hex-words s = refl

state_hex-HexDigits : (s : Words) → HexDigits (state_hex s)
state_hex-HexDigits s = subst HexDigits (state_hex-words s) (words_hex-HexDigits _)

length-state_hex : (s : Words) → length (state_hex s) ≡ 64
unfolding state_hex word_hex byte_hex
length-state_hex s = refl

-- Every digest is 64 digits of lower case hexadecimal.
pub sha256_hex-HexDigits :
    (bytes : List ℕ) → (length (sha256_hex bytes) ≡ 64) × HexDigits (sha256_hex bytes)
unfolding sha256_hex hex
sha256_hex-HexDigits bytes =
    let h = update bytes new_hasher in
    let s = (update (length_bytes h.bit_length) (pad_zeros 64 (update (128 ∷ []) h))).state in
    (length-state_hex s, state_hex-HexDigits s)
