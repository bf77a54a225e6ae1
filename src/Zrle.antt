-- ===== src/Zrle.antt =====
-- src/zrle.rs: the bits and the run lengths of ZRLE, and the size of a tile. The inflated bytes,
-- which flate2 gives, are an `Input`.
use rust_vnc.Common.{ℕ, ◌+◌, ◌-◌, ◌/◌, ◌%◌, ◌^◌}
use rust_vnc.Common.{Bool, not, ◌&&◌, if◌then◌else◌, ltb, leb, ◌==◌}
use rust_vnc.Wire.{Input, ends, byte, Result, ok, err, panic, bind, io, invalid_data, Reader}
use rust_vnc.Wire.{read_u8}
pub mod Bits
pub mod Covers
pub mod Decode
pub mod Inflate
pub mod Palette
pub mod Pixels
pub mod Runs
pub mod Sizes
pub mod Tiles
mod Tests

pub record BitReader : Type 0 where
  pub reader : Input
  pub buffer : ℕ
  pub position : ℕ

-- A method of BitReader.
abbrev pub Bits : Type 0 → Type 0
Bits A = BitReader → Result (A × BitReader)

abbrev pub aligned : Input → BitReader
aligned i = record { reader = i; buffer = 0; position = 8 }

-- A used-up buffer is filled with the next byte.
unfoldable pub refill : BitReader → Result BitReader
refill r =
    if r.position == 8
    then (bind (read_u8 r.reader)
        λ (b, rest). ok (record { reader = rest; buffer = b; position = 0 }))
    else ok r

unfoldable pub take_bits : ℕ → Bits ℕ
take_bits count r =
    if leb (r.position + count) 8
    then ok (
      r.buffer / 2 ^ (8 - (count + r.position)) % 2 ^ count,
      record { reader = r.reader; buffer = r.buffer; position = r.position + count },
    )
    else err (io invalid_data)

unfoldable pub read_bits : ℕ → Bits ℕ
read_bits count r = if ltb 0 count && leb count 8 then bind (refill r) (take_bits count) else panic

unfoldable pub read_bit : Bits Bool
read_bit r = bind (read_bits 1 r) λ (n, s). ok (not (n == 0), s)

unfoldable pub align : BitReader → BitReader
align r = record { reader = r.reader; buffer = r.buffer; position = 8 }

-- The `while` reads a byte, adds it, and goes on as long as it was 255.
unfoldable pub run_length_loop : ℕ → Reader ℕ
run_length_loop run_length (ends e) = err (io e)
run_length_loop run_length (byte part rest) =
    if part == 255 then run_length_loop (run_length + part) rest else ok (run_length + part, rest)

unfoldable pub read_run_length : Reader ℕ
read_run_length = run_length_loop 1

-- The height of the tile at row `y`, or the width of the one at column `x`: the sum is a u16, and
-- an overflow panics, as in a build that checks for it.
unfoldable pub tile_extent : ℕ → ℕ → Result ℕ
tile_extent size position =
    if ltb (position + 64) (2 ^ 16)
    then ok (if ltb size (position + 64) then size - position else 64)
    else panic
