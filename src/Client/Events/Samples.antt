-- ===== src/Client/Events/Samples.antt =====
-- Data for the tests of src/client.rs and src/proxy.rs.
use rust_vnc.Common.{List, [], ◌∷◌, true, false, none, some}
use rust_vnc.Wire.{Input, ends, byte, feed, unexpected_eof}
use rust_vnc.Protocol.PixelFormat.{PixelFormat}
use rust_vnc.Protocol.Frame.{Frame, update, ring, pixels, copied}
use rust_vnc.Zrle.Decode.{Zlib}

-- An inflater for data that is not compressed.
abbrev pub stored : Zlib (Unit {0})
stored = record {
  fresh = tt;
  inflated = λ d compressed. feed compressed (ends unexpected_eof);
  used_up = λ d compressed rest. elim rest [ ends e ↦ some tt | byte b i ↦ none ];
}

abbrev pub grey : PixelFormat
grey = record {
  bits_per_pixel = 8;
  depth = 8;
  big_endian = false;
  true_colour = true;
  red_max = 7;
  green_max = 7;
  blue_max = 3;
  red_shift = 0;
  green_shift = 3;
  blue_shift = 6;
}

abbrev pub two_pieces : Frame
two_pieces = update (
    record { x = 1; y = 2; width = 2; height = 1; content = pixels (7 ∷ 8 ∷ []) }
    ∷ record {
      x = 0;
      y = 0;
      width = 3;
      height = 3;
      content = copied (record { src_x_position = 5; src_y_position = 6 });
    }
    ∷ [])

abbrev pub short_session : List Frame
short_session = ring ∷ two_pieces ∷ []

-- An update with a rectangle of two pixels in ZRLE, one tile of a single colour, and then the first
-- byte of another message.
abbrev pub solid_update : Input
solid_update =
    feed
      (0 ∷ 0 ∷ 0 ∷ 1 ∷ 0 ∷ 3 ∷ 0 ∷ 4 ∷ 0 ∷ 2 ∷ 0 ∷ 1 ∷ 0 ∷ 0 ∷ 0 ∷ 16 ∷ 0 ∷ 0 ∷ 0 ∷ 2 ∷ 1 ∷ 9 ∷ 0
        ∷ [])
      (ends unexpected_eof)
