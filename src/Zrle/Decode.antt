-- ===== src/Zrle/Decode.antt =====
-- src/zrle.rs: `Decoder::decode`.
use rust_vnc.Common.{ℕ, zero, suc, ◌+◌, ◌^◌, List, [], Bool, true, false, ◌&&◌, if◌then◌else◌, ltb}
use rust_vnc.Common.{◌==◌, Option, none, some}
use rust_vnc.Wire.{Input, Result, ok, err, panic, unexpected, Rect}
use rust_vnc.Wire.Session.{Action, ◌>>=◌, return}
use rust_vnc.Protocol.PixelFormat.{PixelFormat}
use rust_vnc.Zrle.{BitReader, Bits, aligned, read_bit, read_bits, tile_extent}
use rust_vnc.Zrle.Palette.{read_palette}
use rust_vnc.Zrle.Pixels.{Layout, pixel_layout, through, tile_pixels}

-- flate2, as ZlibReader uses it: `inflated d data` is what reading from the reader delivers for the
-- compressed `data`, and `used_up d data rest` is the decompressor left behind when `rest` of that
-- is not read, if no compressed byte is left over.
pub record Zlib (D : Type 0) : Type 0 where
  pub fresh : D
  pub inflated : D → List ℕ → Input
  pub used_up : D → List ℕ → Input → Option D

-- The reader, and what the callback has captured.
pub record Decoding (C : Type 0) : Type 0 where
  pub bits : BitReader
  pub captured : C

abbrev pub after_bits : {C A : Type 0} → Result (A × BitReader) → Decoding C → Result A × Decoding C
after_bits (ok (a, r)) d = (ok a, record d { bits = r })
after_bits (err e) d = (err e, d)
after_bits panic d = (panic, d)

abbrev pub take : {C A : Type 0} → Bits A → Action (Decoding C) A
take m d = after_bits (m d.bits) d

abbrev pub attempt : {S A : Type 0} → Result A → Action S A
attempt r s = (r, s)

-- The tile's place in the framebuffer: the sums are u16.
unfoldable pub tile_rect : Rect → (x y width height : ℕ) → Result Rect
tile_rect rect x y width height =
    if ltb (rect.top + y) (2 ^ 16) && ltb (rect.left + x) (2 ^ 16)
    then ok (record { left = rect.left + x; top = rect.top + y; width = width; height = height })
    else panic

module _ {C : Type 0} (callback : Rect → List ℕ → Action C Bool) (l : Layout) (rect : Rect) where
  abbrev pub call : Rect → List ℕ → Action (Decoding C) Bool
  call tile pixels d =
      let (result, c) = callback tile pixels d.captured in (result, record d { captured = c })

  unfoldable pub decode_tile : (x y width height : ℕ) → Action (Decoding C) Bool
  unfolding tile_rect
  decode_tile x y width height = do
    is_rle ← take read_bit
    palette_size ← take (read_bits 7)
    palette ← take (through (read_palette l.pad l.compressed_bpp l.bpp palette_size []))
    pixels ← take (tile_pixels l width height is_rle palette_size palette)
    tile ← attempt (tile_rect rect x y width height)
    call tile pixels

  -- `while x < rect.width`, of which the width bounds the rounds; `false` is an early return.
  unfoldable pub decode_columns : (fuel x y height : ℕ) → Action (Decoding C) Bool
  unfolding decode_tile
  decode_columns zero x y height = return true
  decode_columns (suc fuel) x y height =
      if ltb x rect.width
      then (do
        width ← attempt (tile_extent rect.width x)
        more ← decode_tile x y width height
        elim more [ true ↦ decode_columns fuel (x + width) y height | false ↦ return false ])
      else return true

  unfoldable pub decode_rows : (fuel y : ℕ) → Action (Decoding C) Bool
  unfolding decode_columns
  decode_rows zero y = return true
  decode_rows (suc fuel) y =
      if ltb y rect.height
      then (do
        height ← attempt (tile_extent rect.height y)
        more ← decode_columns rect.width 0 y height
        elim more [ true ↦ decode_rows fuel (y + height) | false ↦ return false ])
      else return true

module _ {D : Type 0} (zlib : Zlib D) where
  -- `into_inner` of both readers: neither a bit nor a byte may be left over.
  unfoldable pub into_inner : D → List ℕ → BitReader → Result D
  into_inner d input r =
      if r.position == 8
      then elim (zlib.used_up d input r.reader) [
        | none ↦ err (unexpected "leftover ZRLE byte data")
        | some d' ↦ ok d'
      ]
      else err (unexpected "leftover ZRLE bit data")

module _ {D C : Type 0} (zlib : Zlib D) where
  -- `self.decompressor` is taken, and put back where all tiles were decoded.
  abbrev pub put_back : D → List ℕ → Result Bool × Decoding C → Result Bool × (Option D × C)
  put_back d input (ok true, s) = elim (into_inner zlib d input s.bits) [
    | ok d' ↦ (ok true, (some d', s.captured))
    | err e ↦ (err e, (none, s.captured))
    | panic ↦ (panic, (none, s.captured))
  ]
  put_back d input (ok false, s) = (ok false, (none, s.captured))
  put_back d input (err e, s) = (err e, (none, s.captured))
  put_back d input (panic, s) = (panic, (none, s.captured))

  unfoldable pub decode :
      (Rect → List ℕ → Action C Bool) → PixelFormat → Rect → List ℕ → Action (Option D × C) Bool
  unfolding decode_rows into_inner
  decode callback format rect input (none, c) = (panic, (none, c))
  decode callback format rect input (some d, c) = elim (pixel_layout format) [
    | ok l ↦ put_back d input (
        decode_rows callback l rect rect.height 0
          (record { bits = aligned (zlib.inflated d input); captured = c }))
    | err e ↦ (err e, (some d, c))
    | panic ↦ (panic, (some d, c))
  ]
