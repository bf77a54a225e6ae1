-- ===== src/Protocol/ServerMessage/RoundTrip.antt =====
-- src/protocol.rs: what `S2C::write_to` writes, as `S2C::read_from` reads it.
use rust_vnc.Common.{ℕ, ◌^◌, ◌<◌, List, ◌∷◌, ◌++◌, ◌≡◌, refl}
use rust_vnc.Common.{length}
use rust_vnc.Wire.{Input, ok, feed, feed-append, read_u8, read_many, write_many, read_exact}
use rust_vnc.Wire.{bind}
use rust_vnc.Wire.Ints.{IsU16, write_u8, write_u16}
use rust_vnc.Wire.RoundTrip.{read_u16-write_u16}
use rust_vnc.Protocol.Text.{IsAscii, read_string-write_string}
use rust_vnc.Protocol.Rectangle.{Colour, read_colour, write_colour}
use rust_vnc.Protocol.ServerMessage.{
  S2c, framebuffer_update, set_colour_map_entries, bell, cut_text,
}
use rust_vnc.Protocol.ServerMessage.{read_from, write_to, read_framebuffer_update}
use rust_vnc.Protocol.ServerMessage.{read_set_colour_map_entries, read_cut_text}

-- Every field fits its Rust type, and text is ASCII with a length that fits a u32. Colour maps are
-- left out.
abbrev pub IsValid : S2c → Type 0
IsValid (framebuffer_update count) = IsU16 count
IsValid (set_colour_map_entries first_colour colours) = ⊥
IsValid bell = Unit {0}
IsValid (cut_text text) = IsAscii text × (length text < 2 ^ 32)

-- Every message but a colour map is read back as it was written, and nothing behind it is read.
pub S2c-read_from-write_to :
    (m : S2c) (rest : Input) → IsValid m → read_from (feed (write_to m) rest) ≡ ok (m, rest)
unfolding read_u8 write_u8 read_exact read_from write_to
S2c-read_from-write_to (framebuffer_update count) rest v =
    unfold read_framebuffer_update in simp (read_u16-write_u16 count v)
S2c-read_from-write_to (set_colour_map_entries first_colour colours) rest v = absurd v
S2c-read_from-write_to bell rest v = refl
S2c-read_from-write_to (cut_text text) rest (ascii, fits) =
    unfold read_cut_text in simp (read_string-write_string text ascii fits)

-- A colour map with at least one colour is not read back: the red part of its first colour is taken
-- for the count.
pub colour_map_miscount :
    (first_colour : ℕ) (c : Colour) (colours : List Colour) (rest : Input)
    → IsU16 first_colour
    → IsU16 c.red
    → read_from (feed (write_to (set_colour_map_entries first_colour (c ∷ colours))) rest)
      ≡ bind
          (read_many read_colour c.red
            (feed (write_u16 c.green ++ write_u16 c.blue ++ write_many write_colour colours) rest))
          λ (taken, behind). ok (set_colour_map_entries first_colour taken, behind)
unfolding read_u8 write_u8 read_exact read_from write_to read_set_colour_map_entries write_many
    write_colour
colour_map_miscount first_colour c colours rest hf hr =
    simp (feed-append, read_u16-write_u16 _ hf, read_u16-write_u16 _ hr)
