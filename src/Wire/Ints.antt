-- ===== src/Wire/Ints.antt =====
-- The big-endian integers of the byteorder crate's ReadBytesExt and WriteBytesExt.
use rust_vnc.Common.{ℕ, ◌+◌, ◌*◌, ◌/◌, ◌%◌, ◌^◌, ◌<◌, List, [], ◌∷◌, if◌then◌else◌, Bool}
use rust_vnc.Common.{not, ◌==◌}
use rust_vnc.Common.Int.{ℤ, signed32, pattern32}
use rust_vnc.Wire.{Reader, pure, ◌>>=◌, read_u8}

abbrev pub IsU8 : ℕ → Type 0
IsU8 n = n < 2 ^ 8

abbrev pub IsU16 : ℕ → Type 0
IsU16 n = n < 2 ^ 16

abbrev pub IsU32 : ℕ → Type 0
IsU32 n = n < 2 ^ 32

unfoldable pub read_u16 : Reader ℕ
read_u16 = do b1 ← read_u8; b0 ← read_u8; pure (b1 * 256 + b0)

unfoldable pub read_u32 : Reader ℕ
unfolding read_u16
read_u32 = do hi ← read_u16; lo ← read_u16; pure (hi * 2 ^ 16 + lo)

unfoldable pub read_i32 : Reader ℤ
unfolding read_u32
read_i32 = do n ← read_u32; pure (signed32 n)

-- `reader.read_u8()? != 0`
unfoldable pub read_flag : Reader Bool
unfolding read_u8
read_flag = do n ← read_u8; pure (not (n == 0))

unfoldable pub write_u8 : ℕ → List ℕ
write_u8 n = (n % 256) ∷ []

unfoldable pub write_u16 : ℕ → List ℕ
write_u16 n = (n / 256 % 256) ∷ (n % 256) ∷ []

unfoldable pub write_u32 : ℕ → List ℕ
write_u32 n = (n / 2 ^ 24 % 256) ∷ (n / 2 ^ 16 % 256) ∷ (n / 256 % 256) ∷ (n % 256) ∷ []

unfoldable pub write_i32 : ℤ → List ℕ
unfolding write_u32
write_i32 z = write_u32 (pattern32 z)

-- `writer.write_u8(if b { 1 } else { 0 })`
unfoldable pub write_flag : Bool → List ℕ
write_flag b = (if b then 1 else 0) ∷ []
