-- ===== src/Des/Tests.antt =====
-- The runs of the test in src/security/des.rs, and the theorems on DES at concrete inputs.
use rust_vnc.Common.{ℕ, List, [], ◌∷◌, ◌++◌, ◌≡◌, refl, arith}
use rust_vnc.Des.Permute.Parity.{encrypt-parity}
use rust_vnc.Des.RoundTrip.{decrypt-encrypt}
use rust_vnc.Des.{encrypt, decrypt, des, compute_subkeys, key_to_u64, key_loop, next_key, pc1, pc2}
use rust_vnc.Des.{swap_bits, message_to_u64s, chunks, chunk_loop, to_key}
use rust_vnc.Des.{block_loop, des_block, to_u8_vec, ip, fp, rounds, feistel, s_loop, s, e, p}

-- Names the definitions that a run computes with.
algorithm : Unit {0}
unfolding des compute_subkeys key_to_u64 key_loop next_key pc1 pc2 swap_bits message_to_u64s chunks
    chunk_loop to_key block_loop des_block to_u8_vec ip fp rounds feistel s_loop s e p
algorithm = tt

abbrev test_key : List ℕ
test_key = 0x13 ∷ 0x34 ∷ 0x57 ∷ 0x79 ∷ 0x9B ∷ 0xBC ∷ 0xDF ∷ 0xF1 ∷ []

abbrev test_message : List ℕ
test_message = 0x01 ∷ 0x23 ∷ 0x45 ∷ 0x67 ∷ 0x89 ∷ 0xAB ∷ 0xCD ∷ 0xEF ∷ []

test_encrypt :
    encrypt test_message test_key ≡ 0x85 ∷ 0xE8 ∷ 0x13 ∷ 0x54 ∷ 0x0F ∷ 0x0A ∷ 0xB4 ∷ 0x05 ∷ []
unfolding encrypt algorithm
test_encrypt = refl

-- A message of eleven bytes comes back with five zeros behind it.
decrypt-encrypt_example :
    decrypt (encrypt (test_message ++ 1 ∷ 2 ∷ 3 ∷ []) test_key) test_key
    ≡ test_message ++ 1 ∷ 2 ∷ 3 ∷ 0 ∷ 0 ∷ 0 ∷ 0 ∷ 0 ∷ []
decrypt-encrypt_example = decrypt-encrypt (test_message ++ 1 ∷ 2 ∷ 3 ∷ []) test_key (omega arith)

abbrev odd_key : List ℕ
odd_key = 0x12 ∷ 0x35 ∷ 0x56 ∷ 0x78 ∷ 0x9A ∷ 0xBD ∷ 0xDE ∷ 0xF0 ∷ []

encrypt-parity_example : encrypt test_message test_key ≡ encrypt test_message odd_key
encrypt-parity_example =
    encrypt-parity test_message test_key odd_key (omega arith) (omega arith) refl refl refl
