-- ===== src/Protocol/PixelFormat.antt =====
-- src/protocol.rs: `PixelFormat`.
use rust_vnc.Common.{ℕ, List, [], ◌∷◌, ◌++◌, Bool}
use rust_vnc.Wire.{Reader, pure, ◌>>=◌, ◌>>◌, read_u8, read_exact}
use rust_vnc.Wire.Ints.{IsU8, IsU16, read_u16, read_flag, write_u8, write_u16, write_flag}
use rust_vnc.Wire.RoundTrip.{Reads, reads}

pub record PixelFormat : Type 0 where
  pub bits_per_pixel : ℕ
  pub depth : ℕ
  pub big_endian : Bool
  pub true_colour : Bool
  pub red_max : ℕ
  pub green_max : ℕ
  pub blue_max : ℕ
  pub red_shift : ℕ
  pub green_shift : ℕ
  pub blue_shift : ℕ

-- The fields fit their Rust types.
pub record IsValid (f : PixelFormat) : Type 0 where
  pub bits_per_pixel_fits : IsU8 f.bits_per_pixel
  pub depth_fits : IsU8 f.depth
  pub red_max_fits : IsU16 f.red_max
  pub green_max_fits : IsU16 f.green_max
  pub blue_max_fits : IsU16 f.blue_max
  pub red_shift_fits : IsU8 f.red_shift
  pub green_shift_fits : IsU8 f.green_shift
  pub blue_shift_fits : IsU8 f.blue_shift

unfoldable pub read_from : Reader PixelFormat
unfolding read_exact
read_from = do
  bits_per_pixel ← read_u8
  depth ← read_u8
  big_endian ← read_flag
  true_colour ← read_flag
  red_max ← read_u16
  green_max ← read_u16
  blue_max ← read_u16
  red_shift ← read_u8
  green_shift ← read_u8
  blue_shift ← read_u8
  read_exact 3
  pure (record {
    bits_per_pixel = bits_per_pixel;
    depth = depth;
    big_endian = big_endian;
    true_colour = true_colour;
    red_max = red_max;
    green_max = green_max;
    blue_max = blue_max;
    red_shift = red_shift;
    green_shift = green_shift;
    blue_shift = blue_shift;
  })

unfoldable pub write_to : PixelFormat → List ℕ
write_to f =
    write_u8 f.bits_per_pixel
    ++ write_u8 f.depth
    ++ write_flag f.big_endian
    ++ write_flag f.true_colour
    ++ write_u16 f.red_max
    ++ write_u16 f.green_max
    ++ write_u16 f.blue_max
    ++ write_u8 f.red_shift
    ++ write_u8 f.green_shift
    ++ write_u8 f.blue_shift
    ++ 0 ∷ 0 ∷ 0 ∷ []

pub read_from-write_to : (f : PixelFormat) → IsValid f → Reads read_from (write_to f) f
unfolding read_from write_to
read_from-write_to f v rest = simp (
  reads, v.bits_per_pixel_fits, v.depth_fits, v.red_max_fits, v.green_max_fits, v.blue_max_fits,
  v.red_shift_fits, v.green_shift_fits, v.blue_shift_fits,
)
