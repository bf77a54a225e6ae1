-- ===== src/Client/Events/Sound.antt =====
-- src/client.rs and src/zrle.rs: the sizes of an event's buffers, and that decoding a rectangle
-- keeps to them.
use rust_vnc.Common.{ℕ, zero, suc, ◌+◌, ◌*◌, ◌/◌, ◌≤◌, ◌^◌, List, [], ◌∷◌, ◌≡◌, refl, ap₂, ◌∙◌, sym}
use rust_vnc.Common.{Bool, true, false, length, arith, All, All-append, inl, inr, Bool-cases}
use rust_vnc.Common.{ltb, ◌==◌, ◌&&◌}
use native.Mathlib.Nat.{mul_comm}
use rust_vnc.Wire.{Result, ok, err, panic, Rect}
use rust_vnc.Wire.Outcome.{
  Gives, bind-Gives, if-Gives, anything, Always, bind-Always, if-Always, elim-Always,
}
use rust_vnc.Wire.Session.{return}
use rust_vnc.Protocol.PixelFormat.{PixelFormat}
use rust_vnc.Zrle.{BitReader, Bits, read_bit, read_bits, tile_extent}
use rust_vnc.Zrle.Palette.{read_palette}
use rust_vnc.Zrle.Pixels.{Layout, pixel_layout, pixel_mask, through, tile_pixels}
use rust_vnc.Zrle.Covers.{Covers, tile_pixels-Covers}
use rust_vnc.Zrle.Decode
use rust_vnc.Zrle.Decode.{
  Zlib, Decoding, take, attempt, tile_rect, call, decode_tile, decode_columns, decode_rows,
}
use rust_vnc.Zrle.Decode.{decode, put_back}
use rust_vnc.Client.Events.{Event, Channel, push, on_tile}
use rust_vnc.Client.Events.{
  put_pixels, copy_pixels, set_cursor, resize, end_of_frame, set_colour_map,
}
use rust_vnc.Client.Events.{clipboard, bell, disconnected}

-- Pixels come in a buffer that is large enough for their rectangle, and those of a cursor, with its
-- mask, in buffers of exactly its size.
abbrev pub Fits : PixelFormat → Event → Type 0
Fits f (put_pixels r pixels) = r.width * r.height * (f.bits_per_pixel / 8) ≤ length pixels
Fits f (set_cursor size hotspot pixels mask_bits) =
    (length pixels ≡ size.0 * size.1 * (f.bits_per_pixel / 8))
    × (length mask_bits ≡ (size.0 + 7) / 8 * size.1)
Fits f (disconnected e) = Unit {0}
Fits f (resize width height) = Unit {0}
Fits f (set_colour_map first_colour colours) = Unit {0}
Fits f (copy_pixels src dst) = Unit {0}
Fits f end_of_frame = Unit {0}
Fits f (clipboard text) = Unit {0}
Fits f bell = Unit {0}

pub layout-bpp : (f : PixelFormat) → Gives (pixel_layout f) (λ l. l.bpp ≡ f.bits_per_pixel / 8)
unfolding pixel_layout
layout-bpp f =
    bind-Gives (pixel_mask f) _ (λ m. Unit {0}) (λ l. l.bpp ≡ f.bits_per_pixel / 8)
      (anything (pixel_mask f)) λ mask u. ground arith

module _ (formats : ℕ → PixelFormat) where
  -- The format is one that the mutex held at some message.
  abbrev pub IsSound : Event → Type 0
  IsSound e = (k : ℕ) × Fits (formats k) e

  abbrev pub Sound : Channel → Type 0
  Sound c = All IsSound c.sent

  pub push-Sound : (e : Event) (c : Channel) → IsSound e → Sound c → Sound (push e c).1
  unfolding push
  push-Sound e c h v = elim (Bool-cases (c.room == 0)) [
    | inl full ↦ rw full v
    | inr room ↦ rw room (All-append IsSound c.sent (e ∷ []) v (h, tt))
  ]

  -- The tiles of a rectangle.
  abbrev pub Kept : Decoding Channel → Type 0
  Kept d = Sound d.captured

  take-Always :
      {A : Type 0} (m : Bits A) (Q : A → Type 0)
      → ((r : BitReader) → Gives (m r) (λ x. Q x.0))
      → Always Kept (take m) Q
  take-Always {A} m Q h d v = after (m d.bits) (h d.bits)
    where
      after :
          (r : Result (A × BitReader))
          → Gives r (λ x. Q x.0)
          → Kept (Decode.after_bits r d).1 × Gives (Decode.after_bits r d).0 Q
      after (ok x) q = (v, q)
      after (err e) q = (v, tt)
      after panic q = (v, tt)

  attempt-Always :
      {A : Type 0} (r : Result A) (Q : A → Type 0) → Gives r Q → Always Kept (attempt r) Q
  attempt-Always r Q q d v = (v, q)

  tile_rect-Gives :
      (rect : Rect) (x y width height : ℕ)
      → Gives (tile_rect rect x y width height) (λ t. (t.width ≡ width) × (t.height ≡ height))
  unfolding tile_rect
  tile_rect-Gives rect x y width height =
      if-Gives (ltb (rect.top + y) (2 ^ 16) && ltb (rect.left + x) (2 ^ 16)) _ panic _
        (λ h. (refl, refl)) λ h. tt

  module _ (k : ℕ) (l : Layout) (same : l.bpp ≡ (formats k).bits_per_pixel / 8) (rect : Rect) where
    covered :
        (width height : ℕ) (is_rle : Bool) (pixels : List ℕ) (t : Rect)
        → Covers l width height is_rle pixels
        → t.width ≡ width
        → t.height ≡ height
        → Fits (formats k) (put_pixels t pixels)
    covered width height is_rle pixels t h ew eh =
        let area : t.width * t.height ≡ height * width =
          ap₂ (λ a b. a * b) ew eh ∙ mul_comm width height in
        let bytes : t.width * t.height * ((formats k).bits_per_pixel / 8) ≡ height * width * l.bpp =
          ap₂ (λ a b. a * b) area (sym same) in
        enough is_rle h bytes
      where
        enough :
            (b : Bool)
            → Covers l width height b pixels
            → t.width * t.height * ((formats k).bits_per_pixel / 8) ≡ height * width * l.bpp
            → t.width * t.height * ((formats k).bits_per_pixel / 8) ≤ length pixels
        enough true c e = omega arith
        enough false c e = omega arith

    abbrev pub Anyhow : Bool → Type 0
    Anyhow b = Unit {0}

    call-Always :
        (tile : Rect) (pixels : List ℕ)
        → Fits (formats k) (put_pixels tile pixels)
        → Always Kept (call on_tile l rect tile pixels) Anyhow
    unfolding on_tile
    call-Always tile pixels h d v = (push-Sound (put_pixels tile pixels) d.captured (k, h) v, tt)

    decode_tile-Always :
        (x y width height : ℕ) → Always Kept (decode_tile on_tile l rect x y width height) Anyhow
    unfolding decode_tile
    decode_tile-Always x y width height =
        bind-Always Kept (take read_bit) _ (λ b. Unit {0}) Anyhow
          (take-Always read_bit _ λ r. anything (read_bit r))
          λ is_rle u.
            bind-Always Kept (take (read_bits 7)) _ (λ n. Unit {0}) Anyhow
              (take-Always (read_bits 7) _ λ r. anything (read_bits 7 r))
              λ n u.
                bind-Always Kept (take (through (read_palette l.pad l.compressed_bpp l.bpp n []))) _
                  (λ p. Unit {0}) Anyhow
                  (take-Always (through (read_palette l.pad l.compressed_bpp l.bpp n [])) _
                    λ r. anything (through (read_palette l.pad l.compressed_bpp l.bpp n []) r))
                  λ palette u.
                    bind-Always Kept (take (tile_pixels l width height is_rle n palette)) _
                      (Covers l width height is_rle) Anyhow
                      (take-Always (tile_pixels l width height is_rle n palette) _
                        λ r. tile_pixels-Covers l width height is_rle n palette r)
                      λ pixels c.
                        bind-Always Kept (attempt (tile_rect rect x y width height)) _
                          (λ t. (t.width ≡ width) × (t.height ≡ height)) Anyhow
                          (attempt-Always (tile_rect rect x y width height) _
                            (tile_rect-Gives rect x y width height))
                          λ t e.
                            call-Always t pixels (covered width height is_rle pixels t c e.0 e.1)

    decode_columns-Always :
        (fuel x y height : ℕ) → Always Kept (decode_columns on_tile l rect fuel x y height) Anyhow
    unfolding decode_columns
    decode_columns-Always zero x y height = λ d v. (v, tt)
    decode_columns-Always (suc fuel) x y height =
        if-Always Kept (ltb x rect.width) _ (return true) Anyhow
          (bind-Always Kept (attempt (tile_extent rect.width x)) _ (λ w. Unit {0}) Anyhow
            (attempt-Always (tile_extent rect.width x) _ (anything (tile_extent rect.width x)))
            λ width u.
              bind-Always Kept (decode_tile on_tile l rect x y width height) _ Anyhow Anyhow
                (decode_tile-Always x y width height)
                λ more u.
                  elim-Always Kept more (decode_columns on_tile l rect fuel (x + width) y height)
                    (return false) Anyhow (decode_columns-Always fuel (x + width) y height)
                    λ d v. (v, tt))
          λ d v. (v, tt)

    pub decode_rows-Always : (fuel y : ℕ) → Always Kept (decode_rows on_tile l rect fuel y) Anyhow
    unfolding decode_rows
    decode_rows-Always zero y = λ d v. (v, tt)
    decode_rows-Always (suc fuel) y =
        if-Always Kept (ltb y rect.height) _ (return true) Anyhow
          (bind-Always Kept (attempt (tile_extent rect.height y)) _ (λ h. Unit {0}) Anyhow
            (attempt-Always (tile_extent rect.height y) _ (anything (tile_extent rect.height y)))
            λ height u.
              bind-Always Kept (decode_columns on_tile l rect rect.width 0 y height) _ Anyhow Anyhow
                (decode_columns-Always rect.width 0 y height)
                λ more u.
                  elim-Always Kept more (decode_rows on_tile l rect fuel (y + height))
                    (return false) Anyhow (decode_rows-Always fuel (y + height)) λ d v. (v, tt))
          λ d v. (v, tt)
