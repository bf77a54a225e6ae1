-- ===== src/Protocol/Tests.antt =====
-- Runs of the readers and writers of src/protocol.rs, and its theorems at concrete inputs.
use rust_vnc.Common.{[], ◌∷◌, ◌++◌, true, false, ◌≡◌, refl, arith, ◌↔◌, ◌⊎◌}
use rust_vnc.Wire.{Input, ends, byte, ok, err, unexpected_eof, other, io, unexpected, disconnected}
use rust_vnc.Wire.{feed, bind, read_many, write_many, read_exact}
use rust_vnc.Wire.Ints.{write_u16, write_i32}
use rust_vnc.Protocol.PixelFormat
use rust_vnc.Protocol.PixelFormat.{PixelFormat}
use rust_vnc.Protocol.Text.{utf8_len, read_string, write_string, String-read_overrun}
use rust_vnc.Protocol.Version
use rust_vnc.Protocol.Version.{rfb33, rfb37, rfb38, banner, Version-read_from_iff}
use rust_vnc.Protocol.Encoding
use rust_vnc.Protocol.Encoding.{zrle, cursor}
use rust_vnc.Protocol.Rectangle.{Rectangle, Colour, write_rectangle}
use rust_vnc.Protocol.Rectangle.{read_colour, write_colour}
use rust_vnc.Protocol.ClientMessage
use rust_vnc.Protocol.ClientMessage.{set_pixel_format, set_encodings, key_event}
use rust_vnc.Protocol.ClientMessage.RoundTrip.{C2s-read_from-write_to, cut_text_misread}
use rust_vnc.Protocol.ServerMessage
use rust_vnc.Protocol.ServerMessage.{set_colour_map_entries, cut_text}
use rust_vnc.Protocol.ServerMessage.RoundTrip.{S2c-read_from-write_to, colour_map_miscount}

abbrev closed : Input
closed = ends unexpected_eof

abbrev rgb888 : PixelFormat
rgb888 = record {
  bits_per_pixel = 32;
  depth = 24;
  big_endian = false;
  true_colour = true;
  red_max = 255;
  green_max = 255;
  blue_max = 255;
  red_shift = 16;
  green_shift = 8;
  blue_shift = 0;
}

rgb888-IsValid : PixelFormat.IsValid rgb888
rgb888-IsValid = omega arith

abbrev cursor_header : Rectangle
cursor_header = record {
  x_position = 1;
  y_position = 2;
  width = 16;
  height = 300;
  encoding = cursor;
}

abbrev grey : Colour
grey = record { red = 1; green = 2; blue = 3 }

cursor_bytes :
    write_rectangle cursor_header ≡ 0 ∷ 1 ∷ 0 ∷ 2 ∷ 0 ∷ 16 ∷ 1 ∷ 44 ∷ 0xff ∷ 0xff ∷ 0xff ∷ 0x11 ∷ []
unfolding write_rectangle Encoding.write_to write_u16 write_i32
cursor_bytes = refl

apple_banner : Version.read_from (feed (banner b'8' b'8' b'9') closed) ≡ ok (rfb38, closed)
unfolding Version.read_from
apple_banner = refl

unknown_banner :
    Version.read_from (feed (banner b'0' b'0' b'5') closed) ≡ err (unexpected "protocol version")
unfolding Version.read_from
unknown_banner = refl

-- A stream that ends between two messages has disconnected; inside one it is an error.
end_between : ServerMessage.read_from closed ≡ err disconnected
unfolding ServerMessage.read_from
end_between = refl

end_inside : ServerMessage.read_from (byte 3 (byte 0 closed)) ≡ err (io unexpected_eof)
unfolding ServerMessage.read_from ServerMessage.read_cut_text read_exact
end_inside = refl

reset_between : ClientMessage.read_from (ends other) ≡ err (io other)
unfolding ClientMessage.read_from
reset_between = refl

C2s-read_from-write_to_example :
    ClientMessage.read_from
      (feed (ClientMessage.write_to (set_encodings (zrle ∷ cursor ∷ []))) closed)
    ≡ ok (set_encodings (zrle ∷ cursor ∷ []), closed)
C2s-read_from-write_to_example =
    C2s-read_from-write_to (set_encodings (zrle ∷ cursor ∷ [])) closed (omega arith)

S2c-read_from-write_to_example :
    ServerMessage.read_from
      (feed (ServerMessage.write_to (cut_text (104 ∷ 105 ∷ []))) (byte 2 closed))
    ≡ ok (cut_text (104 ∷ 105 ∷ []), byte 2 closed)
S2c-read_from-write_to_example =
    S2c-read_from-write_to (cut_text (104 ∷ 105 ∷ [])) (byte 2 closed) (omega arith)

cut_text_misread_example :
    ClientMessage.read_from
      (feed (ClientMessage.write_to (ClientMessage.cut_text (104 ∷ 105 ∷ []))) closed)
    ≡ bind
        (PixelFormat.read_from (feed (104 ∷ 105 ∷ []) closed))
        λ (format, behind). ok (set_pixel_format format, behind)
cut_text_misread_example = cut_text_misread (104 ∷ 105 ∷ []) closed (unfold utf8_len in omega arith)

colour_map_miscount_example :
    ServerMessage.read_from
      (feed (ServerMessage.write_to (set_colour_map_entries 7 (grey ∷ []))) closed)
    ≡ bind
        (read_many read_colour 1
          (feed (write_u16 2 ++ write_u16 3 ++ write_many write_colour []) closed))
        λ (taken, behind). ok (set_colour_map_entries 7 taken, behind)
colour_map_miscount_example = colour_map_miscount 7 grey [] closed (omega arith) (omega arith)

-- The name "é" is announced as two bytes and sent as one.
String-read_overrun_example :
    read_string (feed (write_string (0xe9 ∷ [])) (feed (0x55 ∷ []) closed))
    ≡ ok (0xe9 ∷ 0x55 ∷ [], closed)
String-read_overrun_example =
    String-read_overrun (0xe9 ∷ []) (0x55 ∷ []) closed (omega arith)
      (unfold utf8_len in omega arith) (unfold utf8_len in omega arith)

Version-read_from_iff_example :
    (Version.read_from (feed (banner b'8' b'8' b'9') closed) ≡ ok (rfb38, closed)) ↔ (
      (banner b'8' b'8' b'9' ≡ Version.write_to rfb38)
      ⊎ ((rfb38 ≡ rfb38) × (banner b'8' b'8' b'9' ≡ banner b'8' b'8' b'9')))
Version-read_from_iff_example =
    Version-read_from_iff (banner b'8' b'8' b'9') closed rfb38 (omega arith)
