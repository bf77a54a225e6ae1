-- ===== src/Protocol/Frame.antt =====
-- What a server sends after the handshake, as bytes: an independent description of the stream that
-- src/client.rs and src/proxy.rs read with the messages of src/protocol.rs.
use rust_vnc.Common.{ℕ, ◌+◌, ◌*◌, ◌/◌, ◌^◌, ◌<◌, List, [], ◌∷◌, ◌++◌, ◌≡◌}
use rust_vnc.Common.{length, All}
use rust_vnc.Wire.{feed-append, read_u8, read_exact, write_many}
use rust_vnc.Wire.Ints.{IsU16, write_u8, write_u16}
use rust_vnc.Wire.RoundTrip.{Reads, read_many-write_many, read_u16-write_u16}
use rust_vnc.Protocol.PixelFormat.{PixelFormat}
use rust_vnc.Protocol.Encoding.{Encoding, IsCanonical, raw, copy_rect, zrle, cursor, desktop_size}
use rust_vnc.Protocol.Rectangle.{Rectangle, CopyRect, Colour, IsValidColour, write_rectangle}
use rust_vnc.Protocol.Rectangle.{
  write_copy_rect, read_colour, write_colour, read_colour-write_colour,
}
use rust_vnc.Protocol.Rectangle
use rust_vnc.Protocol.Text.{IsAscii, write_bytes}
use rust_vnc.Protocol.ServerMessage.{
  S2c, framebuffer_update, set_colour_map_entries, bell, cut_text,
}
use rust_vnc.Protocol.ServerMessage.{read_from, write_to, read_set_colour_map_entries}
use rust_vnc.Protocol.ServerMessage.RoundTrip.{S2c-read_from-write_to}

-- What stands behind the header of a rectangle.
pub data Content : Type 0 where
  pixels : List ℕ → Content
  copied : CopyRect → Content
  compressed : List ℕ → Content
  pointer : (pixels mask : List ℕ) → Content
  resized : Content

pub record Piece : Type 0 where
  pub x : ℕ
  pub y : ℕ
  pub width : ℕ
  pub height : ℕ
  pub content : Content

abbrev pub encoding_of : Content → Encoding
encoding_of (pixels p) = raw
encoding_of (copied c) = copy_rect
encoding_of (compressed z) = zrle
encoding_of (pointer p m) = cursor
encoding_of resized = desktop_size

abbrev pub header : Piece → Rectangle
header p = record {
  x_position = p.x;
  y_position = p.y;
  width = p.width;
  height = p.height;
  encoding = encoding_of p.content;
}

abbrev pub content_bytes : Content → List ℕ
content_bytes (pixels p) = p
content_bytes (copied c) = write_copy_rect c
content_bytes (compressed z) = write_bytes z
content_bytes (pointer p m) = p ++ m
content_bytes resized = []

abbrev pub piece_bytes : Piece → List ℕ
piece_bytes p = write_rectangle (header p) ++ content_bytes p.content

-- One message of the server with all that belongs to it.
pub data Frame : Type 0 where
  update : List Piece → Frame
  colour_map : (first_colour : ℕ) (colours : List Colour) → Frame
  ring : Frame
  clip : List ℕ → Frame

abbrev pub packet : Frame → S2c
packet (update pieces) = framebuffer_update (length pieces)
packet (colour_map first_colour colours) = set_colour_map_entries first_colour colours
packet ring = bell
packet (clip text) = cut_text text

-- The bytes of the message itself. A colour map has its count, which `S2C::write_to` leaves out.
abbrev pub packet_bytes : Frame → List ℕ
packet_bytes (colour_map first_colour colours) =
    write_u8 1
    ++ (0 ∷ [])
    ++ write_u16 first_colour
    ++ write_u16 (length colours)
    ++ write_many write_colour colours
packet_bytes (update pieces) = write_to (framebuffer_update (length pieces))
packet_bytes ring = write_to bell
packet_bytes (clip text) = write_to (cut_text text)

-- The bytes of the rectangles behind it.
abbrev pub pieces_bytes : Frame → List ℕ
pieces_bytes (update pieces) = write_many piece_bytes pieces
pieces_bytes (colour_map first_colour colours) = []
pieces_bytes ring = []
pieces_bytes (clip text) = []

abbrev pub frame_bytes : Frame → List ℕ
frame_bytes f = packet_bytes f ++ pieces_bytes f

-- Contents have the sizes that the header and the pixel format give them.
abbrev pub IsContent : PixelFormat → (width height : ℕ) → Content → Type 0
IsContent f w h (pixels p) = length p ≡ w * h * (f.bits_per_pixel / 8)
IsContent f w h (copied c) = IsU16 c.src_x_position × IsU16 c.src_y_position
IsContent f w h (compressed z) = length z < 2 ^ 32
IsContent f w h (pointer p m) =
    (length p ≡ w * h * (f.bits_per_pixel / 8)) × (length m ≡ (w + 7) / 8 * h)
IsContent f w h resized = Unit {0}

abbrev pub IsPiece : PixelFormat → Piece → Type 0
IsPiece f p =
    IsU16 p.x × IsU16 p.y × IsU16 p.width × IsU16 p.height × IsContent f p.width p.height p.content

abbrev pub IsFrame : PixelFormat → Frame → Type 0
IsFrame f (update pieces) = IsU16 (length pieces) × All (IsPiece f) pieces
IsFrame f (colour_map first_colour colours) =
    IsU16 first_colour × IsU16 (length colours) × All IsValidColour colours
IsFrame f ring = Unit {0}
IsFrame f (clip text) = IsAscii text × (length text < 2 ^ 32)

header-IsValid : (f : PixelFormat) (p : Piece) → IsPiece f p → Rectangle.IsValid (header p)
header-IsValid f p (hx, hy, hw, hh, hc) = record {
  x_fits = hx;
  y_fits = hy;
  width_fits = hw;
  height_fits = hh;
  encoding_canonical = known p.content;
}
  where
    known : (c : Content) → IsCanonical (encoding_of c)
    known (pixels q) = tt
    known (copied c) = tt
    known (compressed z) = tt
    known (pointer q m) = tt
    known resized = tt

pub read_header :
    (f : PixelFormat) (p : Piece)
    → IsPiece f p
    → Reads Rectangle.read_rectangle (write_rectangle (header p)) (header p)
read_header f p h = Rectangle.read_rectangle-write_rectangle (header p) (header-IsValid f p h)

-- The message of a frame is read as it was sent.
pub read_packet :
    (f : PixelFormat) (frame : Frame)
    → IsFrame f frame
    → Reads read_from (packet_bytes frame) (packet frame)
unfolding read_u8 write_u8 read_exact read_from
read_packet f (update pieces) (count, h) rest = S2c-read_from-write_to _ rest count
read_packet f (colour_map first_colour colours) (hf, hc, hv) rest =
    unfold read_set_colour_map_entries in
    simp (
      feed-append,
      read_u16-write_u16 _ hf,
      read_u16-write_u16 _ hc,
      read_many-write_many read_colour write_colour read_colour-write_colour colours hv,
    )
read_packet f ring h rest = S2c-read_from-write_to bell rest tt
read_packet f (clip text) h rest = S2c-read_from-write_to _ rest h
