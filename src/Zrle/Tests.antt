-- ===== src/Zrle/Tests.antt =====
-- Runs of the readers of src/zrle.rs, and its theorems at concrete inputs.
use rust_vnc.Common.{List, ℕ, [], ◌∷◌, ◌≡◌, refl, arith, All, true}
use rust_vnc.Wire.{
  Input, ends, byte, ok, err, panic, unexpected_eof, invalid_data, io, bind, feed, read_u8,
}
use rust_vnc.Zrle.{
  BitReader, aligned, refill, take_bits, read_bit, read_bits, align, run_length_loop,
  read_run_length,
}
use rust_vnc.Zrle.Palette.{expand, read_palette, copy_indexed, copy_indexed-read_palette}
use rust_vnc.Wire.Outcome.{Gives}
use rust_vnc.Zrle.Pixels.{Layout, tile_pixels}
use rust_vnc.Zrle.Covers.{Covers, tile_pixels-Covers}
use rust_vnc.Wire
use rust_vnc.Common.{zero, suc, length, drop, ◌≤◌}
use rust_vnc.Zrle.Inflate.{Decompress, status_ok, buf_error}
use rust_vnc.Zrle.Inflate.Delivers.{Inflates, Shows, seen, read_sizes, read_sizes-stream}
use rust_vnc.Zrle.Runs.{run_length_bytes, read_run_length_lem}
use rust_vnc.Zrle.Tiles.{sum, IsExtent, extents, each, decode_rows-each}
use rust_vnc.Zrle.Decode.{Decoding, decode_rows, decode_tile}
use rust_vnc.Zrle.Pixels.{Layout}
use rust_vnc.Zrle.{aligned}
use rust_vnc.Wire.{Rect}
use rust_vnc.Wire.Session.{Action}
use rust_vnc.Common.{Bool}

abbrev closed : Input
closed = ends unexpected_eof

abbrev half_read : BitReader
half_read = record { reader = closed; buffer = 0xb4; position = 2 }

reads_bit :
    read_bit (aligned (byte 0xb4 closed))
    ≡ ok (true, record { reader = closed; buffer = 0xb4; position = 1 })
unfolding read_bit read_bits refill take_bits read_u8
reads_bit = refl

refuses_unaligned : read_bits 7 half_read ≡ err (io invalid_data)
unfolding read_bits refill take_bits
refuses_unaligned = refl

refuses_nine : read_bits 9 half_read ≡ panic
unfolding read_bits refill take_bits
refuses_nine = refl

aligns : bind (ok (align half_read)) (read_bits 1) ≡ err (io unexpected_eof)
unfolding align read_bits refill read_u8
aligns = refl

reads_long_run : read_run_length (byte 255 (byte 4 closed)) ≡ ok (260, closed)
unfolding read_run_length run_length_loop
reads_long_run = refl

read_run_length_lem_example :
    read_run_length (feed (run_length_bytes 600) closed) ≡ ok (600, closed)
read_run_length_lem_example = read_run_length_lem 600 (omega arith) closed

abbrev tall : Rect
tall = record { left = 0; top = 0; width = 100; height = 150 }

-- Every tile is wanted, and its place is kept.
abbrev keep_places : Rect → List ℕ → Action (List Rect) Bool
keep_places tile pixels places = (ok true, tile ∷ places)

abbrev one_solid : Decoding (List Rect)
one_solid = record { bits = aligned (byte 1 (byte 9 closed)); captured = [] }

abbrev grey_layout : Layout
grey_layout = record { bpp = 1; compressed_bpp = 1; pad = 0 }

decode_rows-each_example :
    (decode_rows keep_places grey_layout tall 150 0 one_solid
      ≡ each
          (λ y height.
            each
              (λ x width. decode_tile keep_places grey_layout tall x y width height)
              0
              (extents 100))
          0
          (extents 150)
          one_solid)
    × ((sum (extents 100) ≡ 100) × (All IsExtent (extents 100)))
    × ((sum (extents 150) ≡ 150) × (All IsExtent (extents 150)))
decode_rows-each_example =
    decode_rows-each keep_places grey_layout tall one_solid (omega arith) (omega arith)

cut : extents 150 ≡ 64 ∷ 64 ∷ 22 ∷ []
cut = refl

abbrev too_tall : Rect
too_tall = record { left = 0; top = 0; width = 100; height = 65535 }

-- Two 24-bit colours padded to 32 bits; the second is looked up.
copy_indexed-read_palette_example :
    (bind {B = List ℕ × Input}
      (read_palette 1 3 4 2 [] (byte 1 (byte 2 (byte 3 (byte 4 (byte 5 (byte 6 closed)))))))
      λ (palette, behind).
        bind {B = List ℕ × Input} (copy_indexed palette 4 1 (9 ∷ [])) λ more. ok (more, behind))
    ≡ ok (9 ∷ 0 ∷ 4 ∷ 5 ∷ 6 ∷ [], closed)
unfolding expand
copy_indexed-read_palette_example =
    copy_indexed-read_palette 1 3 4 (omega arith) (omega arith)
      ((1 ∷ 2 ∷ 3 ∷ []) ∷ (4 ∷ 5 ∷ 6 ∷ []) ∷ []) closed 1 (9 ∷ []) (refl, (refl, tt)) (omega arith)

panics_behind_palette : copy_indexed (1 ∷ 2 ∷ []) 2 1 [] ≡ panic
unfolding copy_indexed
panics_behind_palette = refl

-- Two pixels of a byte each, as a run of two of the second colour.
abbrev byte_layout : Layout
byte_layout = record { bpp = 1; compressed_bpp = 1; pad = 0 }

tile_pixels-Covers_example :
    Gives
      (tile_pixels byte_layout 2 1 true 2 (7 ∷ 8 ∷ []) (aligned (byte 0x81 (byte 1 closed))))
      (λ x. Covers byte_layout 2 1 true x.0)
tile_pixels-Covers_example =
    tile_pixels-Covers byte_layout 2 1 true 2 (7 ∷ 8 ∷ []) (aligned (byte 0x81 (byte 1 closed)))

-- A decompressor of data that is not compressed, which yields one byte for each call.
abbrev one_byte : Decompress (Unit {0})
one_byte d [] room = record { status = buf_error; consumed = 0; produced = []; decompressor = d }
one_byte d (b ∷ input) zero = record {
  status = buf_error;
  consumed = 0;
  produced = [];
  decompressor = d;
}
one_byte d (b ∷ input) (suc room) = record {
  status = status_ok;
  consumed = 1;
  produced = b ∷ [];
  decompressor = d;
}

abbrev one_byte_plain : Unit {0} → List ℕ → List ℕ
one_byte_plain d input = input

-- All data is whole.
abbrev AnyData : Unit {0} → List ℕ → Type 0
AnyData d input = Unit {0}

one_byte_uses :
    (d : Unit {0}) (input : List ℕ) (room : ℕ)
    → AnyData d input
    → (one_byte d input room).consumed ≤ length input
one_byte_uses d [] room w = omega arith
one_byte_uses d (b ∷ input) zero w = omega arith
one_byte_uses d (b ∷ input) (suc room) w = omega arith

one_byte_fits :
    (d : Unit {0}) (input : List ℕ) (room : ℕ) → length (one_byte d input room).produced ≤ room
one_byte_fits d [] room = omega arith
one_byte_fits d (b ∷ input) zero = omega arith
one_byte_fits d (b ∷ input) (suc room) = omega arith

one_byte-Shows :
    (d : Unit {0}) (input : List ℕ) (room : ℕ)
    → AnyData d input
    → let o = one_byte d input (suc room) in
      Shows one_byte one_byte_plain AnyData o.status
        (one_byte_plain d input)
        o.produced
        (one_byte_plain o.decompressor (drop o.consumed input))
one_byte-Shows d [] room w = refl
one_byte-Shows d (b ∷ input) room w = (refl, λ e. cc)

one_byte-Inflates : Inflates one_byte one_byte_plain AnyData
one_byte-Inflates = record {
  uses = one_byte_uses;
  fits = one_byte_fits;
  shows = one_byte-Shows;
  leaves = λ d input room w. tt;
}

read_sizes-stream_example :
    seen one_byte one_byte_plain AnyData
      (read_sizes one_byte (2 ∷ 1 ∷ []) (record { decompressor = tt; input = 7 ∷ 8 ∷ 9 ∷ 10 ∷ [] }))
    ≡ Wire.read_exact 3 (feed (7 ∷ 8 ∷ 9 ∷ 10 ∷ []) closed)
read_sizes-stream_example =
    read_sizes-stream one_byte one_byte_plain AnyData one_byte-Inflates (2 ∷ 1 ∷ [])
      (record { decompressor = tt; input = 7 ∷ 8 ∷ 9 ∷ 10 ∷ [] }) tt
