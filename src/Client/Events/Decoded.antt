-- ===== src/Client/Events/Decoded.antt =====
-- src/client.rs and src/zrle.rs: decoding a rectangle for the channel of events.
use rust_vnc.Common.{ℕ, ◌/◌, List, ◌≡◌}
use rust_vnc.Common.{Bool, true, false, Option, none, some}
use rust_vnc.Wire.{Result, ok, err, panic, Rect}
use rust_vnc.Wire.Outcome.{Gives}
use rust_vnc.Protocol.PixelFormat.{PixelFormat}
use rust_vnc.Zrle.{aligned}
use rust_vnc.Zrle.Pixels.{Layout, pixel_layout}
use rust_vnc.Zrle.Decode
use rust_vnc.Zrle.Decode.{
  Zlib, Decoding, take, attempt, tile_rect, call, decode_tile, decode_columns, decode_rows,
}
use rust_vnc.Zrle.Decode.{decode, put_back}
use rust_vnc.Client.Events.{Channel, on_tile}
use rust_vnc.Client.Events.{}
use rust_vnc.Client.Events.{}
use rust_vnc.Client.Events.Sound.{Sound, layout-bpp, decode_rows-Always}

module _ (formats : ℕ → PixelFormat) where
  module _ {D : Type 0} (zlib : Zlib D) (d : D) (input : List ℕ) where
    put_back-Sound :
        (r : Result Bool × Decoding Channel)
        → Sound formats r.1.captured
        → Sound formats (put_back zlib d input r).1.1
    put_back-Sound (ok true, s) v = after (Decode.into_inner zlib d input s.bits)
      where
        after :
            (r : Result D)
            → Sound formats
                (elim r as (λ _. Result Bool × (Option D × Channel)) [
                  | ok d' ↦ (ok true, (some d', s.captured))
                  | err e ↦ (err e, (none, s.captured))
                  | panic ↦ (panic, (none, s.captured))
                ]).1.1
        after (ok d') = v
        after (err e) = v
        after panic = v
    put_back-Sound (ok false, s) v = v
    put_back-Sound (err e, s) v = v
    put_back-Sound (panic, s) v = v

  pub decode-Sound :
      {D : Type 0} (zlib : Zlib D) (k : ℕ) (dst : Rect) (input : List ℕ) (d : Option D)
      (c : Channel)
      → Sound formats c
      → Sound formats (decode zlib on_tile (formats k) dst input (d, c)).1.1
  unfolding decode
  decode-Sound zlib k dst input none c v = v
  decode-Sound {D} zlib k dst input (some d) c v =
      after (pixel_layout (formats k)) (layout-bpp (formats k))
    where
      after :
          (r : Result Layout)
          → Gives r (λ l. l.bpp ≡ (formats k).bits_per_pixel / 8)
          → Sound formats
              (elim r as (λ _. Result Bool × (Option D × Channel)) [
                | ok l ↦ put_back zlib d input (
                    decode_rows on_tile l dst dst.height 0
                      (record { bits = aligned (zlib.inflated d input); captured = c }))
                | err e ↦ (err e, (some d, c))
                | panic ↦ (panic, (some d, c))
              ]).1.1
      after (ok l) same =
          put_back-Sound zlib d input
            (decode_rows on_tile l dst dst.height 0
              (record { bits = aligned (zlib.inflated d input); captured = c }))
            (decode_rows-Always formats k l same dst dst.height 0
              (record { bits = aligned (zlib.inflated d input); captured = c }) v).0
      after (err e) same = v
      after panic same = v
