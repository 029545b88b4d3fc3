-- ===== src/Hash/Tests.antt =====
-- Runs and instances for the model of src/core/hash.cpp.
use winglib.Base.{◌≡◌, refl, true, false, [], ◌∷◌, codes, ok, length}
use winglib.Hash.{sha256_hex, sha256_file, FileReads}
use winglib.Hash.Compress.{process_block}
use winglib.Hash.Padding.{block_digest, sha256_hex-block_digest}
use winglib.Hash.Files.{HexDigits, sha256_file-concat, sha256_hex-HexDigits}

-- The digests of FIPS 180.
abc :
    sha256_hex (codes "abc")
    ≡ codes "ba7816bf8f01cfea414140de5dae2223b00361a396177a9cb410ff61f20015ad"
unfolding sha256_hex process_block
abc = refl

nothing : sha256_hex [] ≡ codes "e3b0c44298fc1c149afbf4c8996fb92427ae41e4649b934ca495991b7852b855"
unfolding sha256_hex process_block
nothing = refl

two_blocks :
    sha256_hex (codes "abcdbcdecdefdefgefghfghighijhijkijkljklmklmnlmnomnopnopq")
    ≡ codes "248d6a61d20638b8e5c026930c3e6039a33ce45964ff2167f6ecedd419db06c1"
unfolding sha256_hex process_block
two_blocks = refl

sha256_hex-block_digest_example : sha256_hex (codes "abc") ≡ block_digest (codes "abc")
sha256_hex-block_digest_example = sha256_hex-block_digest (codes "abc")

abbrev three_reads : FileReads
three_reads = record { opened = true; chunks = codes "ab" ∷ [] ∷ codes "c" ∷ []; bad = false }

sha256_file-concat_example : sha256_file three_reads ≡ ok (sha256_hex (codes "abc"))
sha256_file-concat_example = sha256_file-concat three_reads

sha256_hex-HexDigits_example :
    (length (sha256_hex (codes "abc")) ≡ 64) × HexDigits (sha256_hex (codes "abc"))
sha256_hex-HexDigits_example = sha256_hex-HexDigits (codes "abc")
