-- ===== src/Protocol/ServerMessage.antt =====
-- src/protocol.rs: `S2C`, the messages from the server to the client.
use rust_vnc.Common.{ℕ, ◌+◌, List, [], ◌∷◌, ◌++◌}
use rust_vnc.Common.{if◌then◌else◌, ◌==◌}
use rust_vnc.Wire.{Reader, unexpected, pure, fail, ◌>>=◌, ◌>>◌, bind, read_exact}
use rust_vnc.Wire.{read_many, write_many}
use rust_vnc.Wire.Ints.{read_u16, write_u8, write_u16}
use rust_vnc.Protocol.Rectangle.{Colour, read_colour, write_colour}
use rust_vnc.Protocol.Text.{read_string, write_string}
use rust_vnc.Protocol.ClientMessage.{read_message_type}
pub mod RoundTrip

pub data S2c : Type 0 where
  framebuffer_update : (count : ℕ) → S2c
  set_colour_map_entries : (first_colour : ℕ) (colours : List Colour) → S2c
  bell : S2c
  cut_text : List ℕ → S2c

unfoldable pub read_framebuffer_update : Reader S2c
read_framebuffer_update = do read_exact 1; count ← read_u16; pure (framebuffer_update count)

unfoldable pub read_set_colour_map_entries : Reader S2c
read_set_colour_map_entries = do
  read_exact 1
  first_colour ← read_u16
  count ← read_u16
  colours ← read_many read_colour count
  pure (set_colour_map_entries first_colour colours)

unfoldable pub read_cut_text : Reader S2c
read_cut_text = do read_exact 3; text ← read_string; pure (cut_text text)

-- The arms of the match on the type byte.
unfoldable pub read_body : ℕ → Reader S2c
read_body n =
    if n == 0
    then read_framebuffer_update
    else if n == 1
    then read_set_colour_map_entries
    else if n == 2
    then pure bell
    else if n == 3
    then read_cut_text
    else fail (unexpected "server to client message type")

unfoldable pub read_from : Reader S2c
unfolding read_message_type read_body
read_from = do n ← read_message_type; read_body n

-- The colours of a colour map are written without their count.
unfoldable pub write_to : S2c → List ℕ
write_to (framebuffer_update count) = write_u8 0 ++ (0 ∷ []) ++ write_u16 count
write_to (set_colour_map_entries first_colour colours) =
    write_u8 1 ++ (0 ∷ []) ++ write_u16 first_colour ++ write_many write_colour colours
write_to bell = write_u8 2
write_to (cut_text text) = write_u8 3 ++ (0 ∷ 0 ∷ 0 ∷ []) ++ write_string text
