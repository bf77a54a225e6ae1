-- ===== src/Protocol/Security.antt =====
-- src/protocol.rs: `SecurityType`, `SecurityTypes`, `SecurityResult` and the Apple messages.
use rust_vnc.Common.{ℕ, ◌%◌, ◌^◌, ◌<◌, List, ◌++◌, ◌≡◌, ◌≢◌, refl, arith}
use rust_vnc.Common.{length, All, if◌then◌else◌, ◌==◌}
use rust_vnc.Wire.{Reader, Input, ok, unexpected, pure, fail, ◌>>=◌, read_u8, read_exact}
use rust_vnc.Wire.{read_many, write_many, feed, feed-append}
use rust_vnc.Wire.Ints.{IsU8, read_u16, read_u32, write_u8, write_u32}
use rust_vnc.Wire.RoundTrip.{Reads, read_many-write_many, read_u8-write_u8, read_u32-write_u32}

pub data SecurityType : Type 0 where
  unknown : ℕ → SecurityType
  invalid none vnc_authentication apple_remote_desktop : SecurityType

unfoldable pub type_of_u8 : ℕ → SecurityType
type_of_u8 n =
    if n == 0
    then invalid
    else if n == 1
    then none
    else if n == 2
    then vnc_authentication
    else if n == 30
    then apple_remote_desktop
    else unknown n

unfoldable pub type_to_u8 : SecurityType → ℕ
type_to_u8 invalid = 0
type_to_u8 none = 1
type_to_u8 vnc_authentication = 2
type_to_u8 apple_remote_desktop = 30
type_to_u8 (unknown n) = n

unfoldable pub read_type : Reader SecurityType
unfolding type_of_u8
read_type = do n ← read_u8; pure (type_of_u8 n)

unfoldable pub write_type : SecurityType → List ℕ
unfolding type_to_u8
write_type t = write_u8 (type_to_u8 t)

-- An `unknown` type that no other constructor stands for.
abbrev pub IsCanonicalType : SecurityType → Type 0
IsCanonicalType (unknown n) = IsU8 n × (n ≢ 0) × (n ≢ 1) × (n ≢ 2) × (n ≢ 30)
IsCanonicalType _ = Unit {0}

pub record SecurityTypes : Type 0 where
  pub types : List SecurityType

unfoldable pub read_types : Reader SecurityTypes
unfolding read_type
read_types = do count ← read_u8; types ← read_many read_type count; pure (record { types = types })

-- `as u8` keeps the low eight bits of the count.
unfoldable pub write_types : SecurityTypes → List ℕ
unfolding write_type
write_types ts = write_u8 (length ts.types % 2 ^ 8) ++ write_many write_type ts.types

pub data SecurityResult : Type 0 where
  succeeded failed : SecurityResult

unfoldable pub result_of_u32 : ℕ → Reader SecurityResult
result_of_u32 n =
    if n == 0
    then pure succeeded
    else if n == 1
    then pure failed
    else fail (unexpected "security result")

unfoldable pub read_result : Reader SecurityResult
unfolding result_of_u32
read_result = do n ← read_u32; result_of_u32 n

unfoldable pub write_result : SecurityResult → List ℕ
write_result succeeded = write_u32 0
write_result failed = write_u32 1

pub record AppleAuthHandshake : Type 0 where
  pub generator : ℕ
  pub prime : List ℕ
  pub peer_key : List ℕ

unfoldable pub read_apple_handshake : Reader AppleAuthHandshake
read_apple_handshake = do
  generator ← read_u16
  key_length ← read_u16
  prime ← read_exact key_length
  peer_key ← read_exact key_length
  pure (record { generator = generator; prime = prime; peer_key = peer_key })

pub record AppleAuthResponse : Type 0 where
  pub ciphertext : List ℕ
  pub pub_key : List ℕ

unfoldable pub write_apple_response : AppleAuthResponse → List ℕ
write_apple_response r = r.ciphertext ++ r.pub_key

pub read_type-write_type : (t : SecurityType) → IsCanonicalType t → Reads read_type (write_type t) t
unfolding read_u8 write_u8 read_type write_type
read_type-write_type (unknown n) h rest = ground arith
read_type-write_type invalid h rest = refl
read_type-write_type _ h rest = refl

-- A list of at most 255 security types is read back as it was written.
pub read_types-write_types :
    (ts : SecurityTypes)
    → All IsCanonicalType ts.types
    → length ts.types < 256
    → (rest : Input) → read_types (feed (write_types ts) rest) ≡ ok (ts, rest)
unfolding read_types write_types
read_types-write_types ts canonical fits rest = simp (
  feed-append,
  mod_id,
  read_u8-write_u8 _ fits,
  read_many-write_many read_type write_type read_type-write_type ts.types canonical,
)
  where
    mod_id : length ts.types % 2 ^ 8 ≡ length ts.types
    mod_id = omega arith

pub read_result-write_result : (r : SecurityResult) → Reads read_result (write_result r) r
unfolding read_result write_result
read_result-write_result succeeded rest = rw (read_u32-write_u32 0 (omega arith))
read_result-write_result failed rest = rw (read_u32-write_u32 1 (omega arith))
