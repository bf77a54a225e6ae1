-- ===== src/Client/Apple/Tests.antt =====
-- src/security/apple.rs at a concrete input, under a cipher that adds 1 to each byte.
use rust_vnc.Common.{
  ℕ, zero, suc, ◌-◌, List, [], ◌∷◌, ◌++◌, map, take, replicate, length, arith, ◌≡◌, refl, subst,
  length-append, length-replicate, length-take, length-map, take-append, ◌∙◌,
}
use rust_vnc.Protocol.Security.{AppleAuthHandshake}
use rust_vnc.Client.Apple.{Crypto, credentials, apple_auth}
use rust_vnc.Client.Apple.Recovered.{by_blocks, field, apple_auth-decrypts}

abbrev added : (secret block : List ℕ) → List ℕ
added secret block = map suc (take 16 (block ++ replicate 16 0))

abbrev taken : (secret block : List ℕ) → List ℕ
taken secret block = map (λ b. b - 1) block

length-added : (secret block : List ℕ) → length (added secret block) ≡ 16
length-added secret block = omega (
  arith,
  length-map (take 16 (block ++ replicate 16 0)) suc,
  length-take 16 (block ++ replicate 16 0),
  length-append block (replicate 16 0),
  length-replicate 16 zero,
)

taken-added_all : (bytes : List ℕ) → map (λ b. b - 1) (map suc bytes) ≡ bytes
taken-added_all [] = refl
taken-added_all (b ∷ bytes) =
    let back : suc b - 1 ≡ b = omega arith in rw (back, taken-added_all bytes) refl

taken-added :
    (secret block : List ℕ) → length block ≡ 16 → taken secret (added secret block) ≡ block
taken-added secret block h =
    taken-added_all (take 16 (block ++ replicate 16 0))
    ∙ subst (λ n. take n (block ++ replicate 16 0) ≡ block) h (take-append block (replicate 16 0))

abbrev toy : Crypto ℕ
toy = record {
  private_key = λ prime generator. 6;
  public_key = λ key. key ∷ [];
  exchange = λ key peer_key. key ∷ peer_key;
  digest = λ bytes. take 16 (bytes ++ replicate 16 0);
  encrypt_block = added;
}

abbrev greeted : AppleAuthHandshake
greeted = record { generator = 5; prime = 0 ∷ 23 ∷ []; peer_key = 0 ∷ 8 ∷ [] }

apple_auth-decrypts_example :
    by_blocks
      (taken (6 ∷ 0 ∷ 8 ∷ replicate 13 0))
      8
      (apple_auth toy (λ s. s) (98 ∷ 111 ∷ 98 ∷ []) (115 ∷ 51 ∷ []) greeted).ciphertext
    ≡ field (98 ∷ 111 ∷ 98 ∷ []) ++ field (115 ∷ 51 ∷ [])
apple_auth-decrypts_example =
    apple_auth-decrypts toy (λ s. s) taken (98 ∷ 111 ∷ 98 ∷ []) (115 ∷ 51 ∷ []) greeted length-added
      taken-added

-- The password starts behind the 64 bytes of the name.
starts :
    take 66 (credentials (98 ∷ 111 ∷ 98 ∷ []) (115 ∷ 51 ∷ []))
    ≡ 98 ∷ 111 ∷ 98 ∷ replicate 61 0 ++ 115 ∷ 51 ∷ []
unfolding credentials
starts = refl
