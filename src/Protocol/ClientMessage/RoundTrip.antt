-- ===== src/Protocol/ClientMessage/RoundTrip.antt =====
-- src/protocol.rs: what `C2S::write_to` writes, as `C2S::read_from` reads it.
use rust_vnc.Common.{ℕ, ◌/◌, ◌%◌, ◌^◌, ◌<◌, List, ◌≡◌, arith}
use rust_vnc.Common.{length, All, map}
use rust_vnc.Wire.{Input, bind, ok, feed, feed-append, read_u8, read_exact}
use rust_vnc.Wire.Ints.{IsU8, IsU16, IsU32, write_u8, write_u32}
use rust_vnc.Wire.RoundTrip.{read_many-write_many, read_u16-write_u16, read_u32-write_u32}
use rust_vnc.Wire.RoundTrip.{read_flag-write_flag}
use rust_vnc.Protocol.PixelFormat
use rust_vnc.Protocol.Encoding
use rust_vnc.Protocol.Text.{utf8_len, write_string}
use rust_vnc.Protocol.ClientMessage.{C2s, set_pixel_format, set_encodings, cut_text}
use rust_vnc.Protocol.ClientMessage.{framebuffer_update_request, key_event, pointer_event}
use rust_vnc.Protocol.ClientMessage.{read_from, write_to}
use rust_vnc.Protocol.ClientMessage.{read_set_pixel_format, read_set_encodings, read_update_request}
use rust_vnc.Protocol.ClientMessage.{read_key_event, read_pointer_event}

-- Every field fits its Rust type, and the encodings can be counted by a u16. Clipboard text is
-- left out.
abbrev pub IsValid : C2s → Type 0
IsValid (set_pixel_format format) = PixelFormat.IsValid format
IsValid (set_encodings encodings) = All Encoding.IsCanonical encodings × (length encodings < 2 ^ 16)
IsValid (framebuffer_update_request incremental x y width height) =
    IsU16 x × IsU16 y × IsU16 width × IsU16 height
IsValid (key_event down key) = IsU32 key
IsValid (pointer_event button_mask x y) = IsU8 button_mask × IsU16 x × IsU16 y
IsValid (cut_text text) = ⊥

-- Every message but clipboard text is read back as it was written, and nothing behind it is read.
pub C2s-read_from-write_to :
    (m : C2s) (rest : Input) → IsValid m → read_from (feed (write_to m) rest) ≡ ok (m, rest)
unfolding read_u8 write_u8 read_exact read_from write_to
C2s-read_from-write_to (set_pixel_format format) rest v =
    unfold read_set_pixel_format in simp (PixelFormat.read_from-write_to format v)
C2s-read_from-write_to (set_encodings encodings) rest (canonical, fits) =
    unfold read_set_encodings in
    simp (
      feed-append,
      mod_id,
      read_u16-write_u16 _ fits,
      read_many-write_many Encoding.read_from Encoding.write_to Encoding.read_from-write_to
          encodings canonical,
    )
  where
    mod_id : length encodings % 2 ^ 16 ≡ length encodings
    mod_id = omega arith
C2s-read_from-write_to (framebuffer_update_request incremental x y width height) rest
      (hx, hy, hw, hh) =
    unfold read_update_request in
    simp (
      feed-append,
      read_flag-write_flag,
      read_u16-write_u16 _ hx,
      read_u16-write_u16 _ hy,
      read_u16-write_u16 _ hw,
      read_u16-write_u16 _ hh,
    )
C2s-read_from-write_to (key_event down key) rest v =
    unfold read_key_event in simp (feed-append, read_flag-write_flag, read_u32-write_u32 key v)
C2s-read_from-write_to (pointer_event button_mask x y) rest (hb, hx, hy) =
    unfold read_pointer_event in
    simp (feed-append, mod_id, read_u16-write_u16 _ hx, read_u16-write_u16 _ hy)
  where
    mod_id : button_mask % 256 ≡ button_mask
    mod_id = omega arith
C2s-read_from-write_to (cut_text text) rest v = absurd v

-- A server takes clipboard text shorter than 16 MiB for a pixel format: the first byte of the text's
-- length, 0, is the type byte, the other three are the padding, and the text itself is the format.
pub cut_text_misread :
    (text : List ℕ) (rest : Input)
    → utf8_len text < 2 ^ 24
    → read_from (feed (write_to (cut_text text)) rest)
      ≡ bind
          (PixelFormat.read_from (feed (map (λ c. c % 256) text) rest))
          λ (format, behind). ok (set_pixel_format format, behind)
unfolding read_u8 write_u32 read_exact read_from write_to write_string
cut_text_misread text rest h = unfold read_set_pixel_format in rw first
  where
    first : utf8_len text % 2 ^ 32 / 2 ^ 24 % 256 ≡ 0
    first = omega arith
