-- ===== src/Viewer/Start.antt =====
-- client/main.rs: the program from its connection to the loop.
use rust_vnc.Common.{ℕ, ◌+◌, ◌/◌, List, [], ◌∷◌, Bool, true, false, Option, none, some}
use rust_vnc.Wire.{Result, ok, err, panic, bind}
use rust_vnc.Protocol.Encoding
use rust_vnc.Protocol.Encoding.{Encoding}
use rust_vnc.Protocol.PixelFormat.{PixelFormat}
use rust_vnc.Client.Requests.{Session, framebuffer, set_encodings, request_update}
use rust_vnc.Viewer.{pixel_format_vnc_to_sdl, pixel_format_sdl_to_vnc, render_format}
use rust_vnc.Viewer.Cursor.{NativeEndian, AlphaSdl, unwrap}
use rust_vnc.Viewer.Screen.{create_window, create_screen, clear, u32}
use rust_vnc.Viewer.Running.{Program}
pub mod Begun
mod Tests

-- With QEMU, fewer encodings are asked for.
abbrev pub encodings : Bool → List Encoding
encodings true = Encoding.zrle ∷ Encoding.desktop_size ∷ []
encodings false =
    Encoding.zrle ∷ Encoding.copy_rect ∷ Encoding.raw ∷ Encoding.cursor ∷ Encoding.desktop_size ∷ []

module _ {S : Type 0} (native : NativeEndian) (sdl : AlphaSdl S) (qemu_hacks : Bool) (now : ℕ) where
  -- The variable `vnc_format` behind the match on the format that SDL has for the server's.
  abbrev pub vnc_format : Option S → PixelFormat → Result PixelFormat
  vnc_format (some format) server_format = ok server_format
  vnc_format none server_format = unwrap (pixel_format_sdl_to_vnc sdl.table sdl.table.rgb888)

  -- The variables of the loop, for the size that was read at the start. The clock is at `now`.
  unfoldable pub first_program : ℕ × ℕ → (qemu_next_update : ℕ) → Session → Program S
  unfolding set_encodings request_update
  first_program (width, height) qemu_next_update vnc = record {
    screen = record {
      width = width;
      height = height;
      incremental = true;
      hotspot = (0, 0);
      cursor = none;
      cursor_rect = none;
      qemu_network_rtt = 1000;
      qemu_prev_update = now;
      qemu_next_update = qemu_next_update;
      drawn = create_window width height ∷ create_screen width height ∷ clear ∷ [];
    };
    controls = record {
      mouse_buttons = 0;
      mouse_x = 0;
      mouse_y = 0;
      key_ctrl = false;
      vnc =
          request_update (framebuffer (width, height)) false
            (set_encodings (encodings qemu_hacks) vnc);
    };
  }

  abbrev pub behind_format :
      ℕ × ℕ
      → Result PixelFormat
      → Option (Result S × Session)
      → Option (Result (PixelFormat × Program S))
  behind_format size format none = none
  behind_format size format (some (ok sdl_format, vnc)) =
      some
        (bind format λ f. bind (u32 (now + 1000 / 2)) λ next. ok (f, first_program size next vnc))
  behind_format size format (some (err e, vnc)) = some (err e)
  behind_format size format (some (panic, vnc)) = some panic

  -- `none`: `set_format` still runs after `fuel` rounds.
  unfoldable pub start : (fuel : ℕ) → Session → Option (Result (PixelFormat × Program S))
  unfolding render_format first_program
  start fuel vnc =
      behind_format vnc.client.size
        (vnc_format (pixel_format_vnc_to_sdl sdl.table vnc.client.format) vnc.client.format)
        (render_format sdl.table fuel vnc)
