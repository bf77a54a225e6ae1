-- ===== src/Protocol/Rectangle.antt =====
-- src/protocol.rs: `CopyRect`, `Rectangle` and `Colour`.
use rust_vnc.Common.{ℕ, List, ◌++◌, ◌≡◌}
use rust_vnc.Wire.{Reader, Input, pure, ◌>>=◌, ok, feed, feed-append}
use rust_vnc.Wire.Ints.{IsU16, read_u16, write_u16}
use rust_vnc.Wire.RoundTrip.{Reads, read_u16-write_u16}
use rust_vnc.Protocol.Encoding
use rust_vnc.Protocol.Encoding.{Encoding}

pub record CopyRect : Type 0 where
  pub src_x_position : ℕ
  pub src_y_position : ℕ

unfoldable pub read_copy_rect : Reader CopyRect
read_copy_rect = do
  x ← read_u16
  y ← read_u16
  pure (record { src_x_position = x; src_y_position = y })

unfoldable pub write_copy_rect : CopyRect → List ℕ
write_copy_rect c = write_u16 c.src_x_position ++ write_u16 c.src_y_position

pub record Rectangle : Type 0 where
  pub x_position : ℕ
  pub y_position : ℕ
  pub width : ℕ
  pub height : ℕ
  pub encoding : Encoding

pub record IsValid (r : Rectangle) : Type 0 where
  pub x_fits : IsU16 r.x_position
  pub y_fits : IsU16 r.y_position
  pub width_fits : IsU16 r.width
  pub height_fits : IsU16 r.height
  pub encoding_canonical : Encoding.IsCanonical r.encoding

unfoldable pub read_rectangle : Reader Rectangle
read_rectangle = do
  x ← read_u16
  y ← read_u16
  width ← read_u16
  height ← read_u16
  encoding ← Encoding.read_from
  pure (record {
    x_position = x;
    y_position = y;
    width = width;
    height = height;
    encoding = encoding;
  })

unfoldable pub write_rectangle : Rectangle → List ℕ
write_rectangle r =
    write_u16 r.x_position
    ++ write_u16 r.y_position
    ++ write_u16 r.width
    ++ write_u16 r.height
    ++ Encoding.write_to r.encoding

pub record Colour : Type 0 where
  pub red : ℕ
  pub green : ℕ
  pub blue : ℕ

abbrev pub IsValidColour : Colour → Type 0
IsValidColour c = IsU16 c.red × IsU16 c.green × IsU16 c.blue

unfoldable pub read_colour : Reader Colour
read_colour = do
  red ← read_u16
  green ← read_u16
  blue ← read_u16
  pure (record { red = red; green = green; blue = blue })

unfoldable pub write_colour : Colour → List ℕ
write_colour c = write_u16 c.red ++ write_u16 c.green ++ write_u16 c.blue

pub read_copy_rect-write_copy_rect :
    (c : CopyRect)
    → IsU16 c.src_x_position
    → IsU16 c.src_y_position
    → Reads read_copy_rect (write_copy_rect c) c
unfolding read_copy_rect write_copy_rect
read_copy_rect-write_copy_rect c hx hy rest =
    simp (feed-append, read_u16-write_u16 _ hx, read_u16-write_u16 _ hy)

-- A rectangle's header is read back as it was written, its encoding known or not.
pub read_rectangle-write_rectangle :
    (r : Rectangle)
    → IsValid r
    → (rest : Input) → read_rectangle (feed (write_rectangle r) rest) ≡ ok (r, rest)
unfolding read_rectangle write_rectangle
read_rectangle-write_rectangle r v rest = simp (
  feed-append,
  read_u16-write_u16 _ v.x_fits,
  read_u16-write_u16 _ v.y_fits,
  read_u16-write_u16 _ v.width_fits,
  read_u16-write_u16 _ v.height_fits,
  Encoding.read_from-write_to _ v.encoding_canonical,
)

pub read_colour-write_colour : (c : Colour) → IsValidColour c → Reads read_colour (write_colour c) c
unfolding read_colour write_colour
read_colour-write_colour c v rest =
    simp (feed-append, read_u16-write_u16 _ v.0, read_u16-write_u16 _ v.1, read_u16-write_u16 _ v.2)
