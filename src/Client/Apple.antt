-- ===== src/Client/Apple.antt =====
-- src/security/apple.rs and src/security/md5.rs: the response to Apple remote desktop.
use rust_vnc.Common.{ℕ, zero, suc, ◌+◌, ◌*◌, List, [], ◌∷◌, ◌++◌, take, drop, length, replicate}
use rust_vnc.Protocol.Security.{AppleAuthHandshake, AppleAuthResponse}
use Prim.Native.Nat.{min}
pub mod Recovered
mod Tests

-- What octavo, num-bigint and rust-crypto do: keys of Diffie-Hellman as big-endian bytes for a
-- prime and a generator, MD5, and AES-128 on a block of 16 bytes. `private_key` is drawn anew.
pub record Crypto (P : Type 0) : Type 0 where
  pub private_key : (prime : List ℕ) (generator : ℕ) → P
  pub public_key : P → List ℕ
  pub exchange : P → (peer_key : List ℕ) → List ℕ
  pub digest : List ℕ → List ℕ
  pub encrypt_block : (secret block : List ℕ) → List ℕ

-- `to[i..i + from.len()].copy_from_slice(from)`
abbrev pub copy_at : ℕ → List ℕ → List ℕ → List ℕ
copy_at i from to = take i to ++ (from ++ drop (i + length from) to)

-- The credentials, from the bytes of the two strings.
unfoldable pub credentials : (username password : List ℕ) → List ℕ
credentials username password =
    let ul = min 64 (length username) in
    let pl = min 64 (length password) in
    copy_at 64 (take pl password) (copy_at 0 (take ul username) (replicate 128 0))

-- `for i in 0..(credentials.len() / aes.block_size())`
unfoldable pub encrypt_blocks :
    (List ℕ → List ℕ) → (rounds i : ℕ) (credentials ciphertext : List ℕ) → List ℕ
encrypt_blocks encrypt_block zero i credentials ciphertext = ciphertext
encrypt_blocks encrypt_block (suc rounds) i credentials ciphertext =
    encrypt_blocks encrypt_block rounds (suc i) credentials
      (copy_at (i * 16) (encrypt_block (take 16 (drop (i * 16) credentials))) ciphertext)

-- `utf8` is `str::as_bytes` of std.
module _ {P : Type 0} (crypto : Crypto P) (utf8 : List ℕ → List ℕ) where
  -- The key of AES is the digest of the shared secret.
  abbrev pub secret_key : P → AppleAuthHandshake → List ℕ
  secret_key priv handshake = crypto.digest (crypto.exchange priv handshake.peer_key)

  unfoldable pub apple_auth : (username password : List ℕ) → AppleAuthHandshake → AppleAuthResponse
  unfolding credentials encrypt_blocks
  apple_auth username password handshake =
      let priv = crypto.private_key handshake.prime handshake.generator in
      record {
        ciphertext =
            encrypt_blocks (crypto.encrypt_block (secret_key priv handshake)) 8 0
              (credentials (utf8 username) (utf8 password)) (replicate 128 0);
        pub_key = crypto.public_key priv;
      }
