-- ===== src/Protocol/ClientMessage.antt =====
-- src/protocol.rs: `C2S`, the messages from the client to the server.
use rust_vnc.Common.{ℕ, ◌+◌, ◌%◌, ◌^◌, List, [], ◌∷◌, ◌++◌, Bool}
use rust_vnc.Common.{length, if◌then◌else◌, ◌==◌}
use rust_vnc.Wire.{Reader, Result, ok, err, panic, io, unexpected, disconnected, unexpected_eof}
use rust_vnc.Wire.{pure, fail, ◌>>=◌, ◌>>◌, bind, read_u8, read_exact}
use rust_vnc.Wire.{read_many, write_many}
use rust_vnc.Wire.Ints.{read_u16, read_u32, read_flag, write_u8, write_u16, write_u32, write_flag}
use rust_vnc.Protocol.PixelFormat
use rust_vnc.Protocol.PixelFormat.{PixelFormat}
use rust_vnc.Protocol.Encoding
use rust_vnc.Protocol.Encoding.{Encoding}
use rust_vnc.Protocol.Text.{read_string, write_string}
pub mod RoundTrip

pub data C2s : Type 0 where
  set_pixel_format : PixelFormat → C2s
  set_encodings : List Encoding → C2s
  framebuffer_update_request : (incremental : Bool) (x_position y_position width height : ℕ) → C2s
  key_event : (down : Bool) (key : ℕ) → C2s
  pointer_event : (button_mask x_position y_position : ℕ) → C2s
  cut_text : List ℕ → C2s

-- The type byte of a message: a stream that ends here has disconnected.
abbrev on_eof {ℓ} : {A : Type ℓ} → Result A → Result A
on_eof (ok a) = ok a
on_eof (err (io unexpected_eof)) = err disconnected
on_eof (err e) = err e
on_eof panic = panic

unfoldable pub read_message_type : Reader ℕ
unfolding read_u8
read_message_type i = on_eof (read_u8 i)

unfoldable pub read_set_pixel_format : Reader C2s
read_set_pixel_format = do
  read_exact 3
  format ← PixelFormat.read_from
  pure (set_pixel_format format)

unfoldable pub read_set_encodings : Reader C2s
read_set_encodings = do
  read_exact 1
  count ← read_u16
  encodings ← read_many Encoding.read_from count
  pure (set_encodings encodings)

unfoldable pub read_update_request : Reader C2s
read_update_request = do
  incremental ← read_flag
  x ← read_u16
  y ← read_u16
  width ← read_u16
  height ← read_u16
  pure (framebuffer_update_request incremental x y width height)

unfoldable pub read_key_event : Reader C2s
read_key_event = do down ← read_flag; read_exact 2; key ← read_u32; pure (key_event down key)

unfoldable pub read_pointer_event : Reader C2s
read_pointer_event = do
  button_mask ← read_u8
  x ← read_u16
  y ← read_u16
  pure (pointer_event button_mask x y)

unfoldable pub read_cut_text : Reader C2s
read_cut_text = do read_exact 3; text ← read_string; pure (cut_text text)

-- The arms of the match on the type byte.
unfoldable pub read_body : ℕ → Reader C2s
read_body n =
    if n == 0
    then read_set_pixel_format
    else if n == 2
    then read_set_encodings
    else if n == 3
    then read_update_request
    else if n == 4
    then read_key_event
    else if n == 5
    then read_pointer_event
    else if n == 6
    then read_cut_text
    else fail (unexpected "client to server message type")

unfoldable pub read_from : Reader C2s
unfolding read_message_type read_body
read_from = do n ← read_message_type; read_body n

-- The last arm writes neither a type byte nor padding.
unfoldable pub write_to : C2s → List ℕ
write_to (set_pixel_format format) = write_u8 0 ++ (0 ∷ 0 ∷ 0 ∷ []) ++ PixelFormat.write_to format
write_to (set_encodings encodings) =
    write_u8 2
    ++ (0 ∷ [])
    ++ write_u16 (length encodings % 2 ^ 16)
    ++ write_many Encoding.write_to encodings
write_to (framebuffer_update_request incremental x y width height) =
    write_u8 3
    ++ write_flag incremental
    ++ write_u16 x
    ++ write_u16 y
    ++ write_u16 width
    ++ write_u16 height
write_to (key_event down key) = write_u8 4 ++ write_flag down ++ (0 ∷ 0 ∷ []) ++ write_u32 key
write_to (pointer_event button_mask x y) =
    write_u8 5 ++ write_u8 button_mask ++ write_u16 x ++ write_u16 y
write_to (cut_text text) = write_string text
