-- ===== src/Viewer/Cursor.antt =====
-- client/main.rs: `mask_cursor`, which gives a cursor's pixels the alpha of its mask.
use rust_vnc.Common.{
  ℕ, zero, suc, ◌+◌, ◌*◌, ◌/◌, ◌%◌, ◌^◌, List, [], ◌∷◌, ◌++◌, if◌then◌else◌, ltb, leb, ◌==◌, ◌&&◌,
  ◌||◌, not, length, bit_and, bit_or, Option, none, some,
}
use rust_vnc.Wire.{Result, ok, err, panic, bind, Input, ends, feed, unexpected_eof, io, read_exact}
use rust_vnc.Protocol.PixelFormat.{PixelFormat}
use rust_vnc.Viewer.{Sdl, pixel_format_vnc_to_sdl}
pub mod Alpha

pub record Masks : Type 0 where
  pub rmask : ℕ
  pub gmask : ℕ
  pub bmask : ℕ
  pub amask : ℕ

-- The other formats of SDL that are named here, the size of a pixel and the masks of its colours.
pub record AlphaSdl (S : Type 0) : Type 0 where
  pub table : Sdl S
  pub rgb444 : S
  pub rgb555 : S
  pub bgr555 : S
  pub rgb24 : S
  pub bgr24 : S
  pub rgbx8888 : S
  pub bgrx8888 : S
  pub argb4444 : S
  pub argb1555 : S
  pub abgr1555 : S
  pub argb8888 : S
  pub abgr8888 : S
  pub byte_size_per_pixel : S → ℕ
  pub into_masks : S → Option Masks

-- byteorder's NativeEndian: the number of some bytes, and the bytes of a number.
pub record NativeEndian : Type 0 where
  pub number : List ℕ → ℕ
  pub bytes : (size n : ℕ) → List ℕ

-- `u32::trailing_zeros`
unfoldable pub zeros_from : (rounds n : ℕ) → ℕ
zeros_from zero n = 0
zeros_from (suc rounds) n =
    let more = zeros_from rounds (n / 2) in if n % 2 == 0 then suc more else 0

unfoldable pub trailing_zeros : ℕ → ℕ
unfolding zeros_from
trailing_zeros n = zeros_from 32 n

-- `((packed & mask) >> mask.trailing_zeros()) as u8`; a shift by 32 panics.
unfoldable pub component : (packed mask : ℕ) → Result ℕ
unfolding trailing_zeros
component packed mask =
    if ltb (trailing_zeros mask) 32
    then ok (bit_and packed mask / 2 ^ trailing_zeros mask % 2 ^ 8)
    else panic

-- `((c as u32) << mask.trailing_zeros()) & mask`
unfoldable pub placed : (c mask : ℕ) → Result ℕ
unfolding trailing_zeros
placed c mask =
    if ltb (trailing_zeros mask) 32
    then ok (bit_and (c * 2 ^ trailing_zeros mask % 2 ^ 32) mask)
    else panic

pub record Colour : Type 0 where
  pub r : ℕ
  pub g : ℕ
  pub b : ℕ
  pub a : ℕ

-- `None.unwrap()` panics.
abbrev pub unwrap : {A : Type 0} → Option A → Result A
unwrap none = panic
unwrap (some a) = ok a

module _ (native : NativeEndian) where
  -- `read_uint` takes one to eight bytes.
  unfoldable pub read_uint : (size : ℕ) → Input → Result (ℕ × Input)
  read_uint size i =
      if leb 1 size && leb size 8
      then bind (read_exact size i) (λ (bytes, rest). ok (native.number bytes, rest))
      else panic

  unfoldable pub read_color : (size : ℕ) → Masks → Input → Result (Colour × Input)
  unfolding read_uint component
  read_color size masks i = bind (read_uint size i) λ (packed, rest).
      bind (component (packed % 2 ^ 32) masks.rmask) λ r.
        bind (component (packed % 2 ^ 32) masks.gmask) λ g.
          bind (component (packed % 2 ^ 32) masks.bmask)
            λ b. ok (record { r = r; g = g; b = b; a = 255 }, rest)

  -- `write_uint` panics where the number does not fit.
  unfoldable pub write_color : (size : ℕ) → Masks → Colour → Result (List ℕ)
  unfolding placed
  write_color size masks c = bind (placed c.r masks.rmask) λ r. bind (placed c.g masks.gmask) λ g.
      bind (placed c.b masks.bmask) λ b. bind (placed c.a masks.amask) λ a.
        let packed = bit_or (bit_or (bit_or r g) b) a in
        if leb 1 size && leb size 8 && ltb packed (256 ^ size)
        then ok (native.bytes size packed)
        else panic

  abbrev pub with_alpha : Colour → ℕ → Colour
  with_alpha c mask = record c { a = if not (mask == 0) then 255 else 0 }

  -- `mask_cursor.read_u8().unwrap()`
  abbrev pub next_mask : List ℕ → Result (ℕ × List ℕ)
  next_mask [] = panic
  next_mask (m ∷ mask_pixels) = ok (m, mask_pixels)

  abbrev pub or_break :
      Result (Colour × Input) → List ℕ → (Colour → Input → Result (List ℕ)) → Result (List ℕ)
  or_break (ok (c, rest)) out next = next c rest
  or_break (err (io unexpected_eof)) out next = ok out
  or_break (err e) out next = panic
  or_break panic out next = panic

  -- The `loop`: each round takes a byte at least.
  unfoldable pub recolour :
      (fuel in_size : ℕ) (in_masks : Masks) (out_size : ℕ) (out_masks : Masks)
      → Input
      → (mask_pixels out_pixels : List ℕ) → Result (List ℕ)
  unfolding read_color write_color
  recolour zero in_size in_masks out_size out_masks i mask_pixels out = ok out
  recolour (suc fuel) in_size in_masks out_size out_masks i mask_pixels out =
      or_break (read_color in_size in_masks i) out λ c rest.
        bind (next_mask mask_pixels) λ (m, masks).
          bind (write_color out_size out_masks (with_alpha c m))
            λ pixel. recolour fuel in_size in_masks out_size out_masks rest masks (out ++ pixel)

  module _ {S : Type 0} (sdl : AlphaSdl S) where
    -- The match that finds a format with alpha.
    unfoldable pub alpha_format : S → Result S
    alpha_format f =
        let is = sdl.table.same f in
        if is sdl.table.rgb332 || is sdl.rgb444
        then ok sdl.argb4444
        else if is sdl.rgb555 || is sdl.table.rgb565
        then ok sdl.argb1555
        else if is sdl.bgr555 || is sdl.table.bgr565
        then ok sdl.abgr1555
        else if is sdl.rgb24 || is sdl.table.rgb888 || is sdl.rgbx8888
        then ok sdl.argb8888
        else if is sdl.bgr24 || is sdl.table.bgr888 || is sdl.bgrx8888
        then ok sdl.abgr8888
        else panic

    unfoldable pub mask_cursor :
        PixelFormat → (in_pixels mask_pixels : List ℕ) → Result (S × List ℕ)
    unfolding alpha_format recolour pixel_format_vnc_to_sdl
    mask_cursor vnc_in_format in_pixels mask_pixels =
        bind (unwrap (pixel_format_vnc_to_sdl sdl.table vnc_in_format)) λ in_format.
          bind (alpha_format in_format) λ out_format.
            bind (unwrap (sdl.into_masks in_format)) λ in_masks.
              bind (unwrap (sdl.into_masks out_format)) λ out_masks.
                bind
                  (recolour (suc (length in_pixels)) (sdl.byte_size_per_pixel in_format) in_masks
                    (sdl.byte_size_per_pixel out_format) out_masks
                    (feed in_pixels (ends unexpected_eof)) mask_pixels [])
                  λ out_pixels. ok (out_format, out_pixels)
