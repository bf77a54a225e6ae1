-- ===== src/Protocol/Init.antt =====
-- src/protocol.rs: `ClientInit` and `ServerInit`.
use rust_vnc.Common.{ℕ, ◌^◌, ◌<◌, List, ◌++◌, Bool, length, ◌≡◌}
use rust_vnc.Wire.{Reader, Input, pure, ◌>>=◌, ok, feed, feed-append}
use rust_vnc.Wire.Ints.{IsU16, read_u16, read_flag, write_u16, write_flag}
use rust_vnc.Wire.RoundTrip.{Reads, read_u16-write_u16, read_flag-write_flag}
use rust_vnc.Protocol.PixelFormat
use rust_vnc.Protocol.PixelFormat.{PixelFormat}
use rust_vnc.Protocol.Text.{IsAscii, read_string, write_string, read_string-write_string}

pub record ClientInit : Type 0 where
  pub shared : Bool

unfoldable pub read_client_init : Reader ClientInit
read_client_init = do shared ← read_flag; pure (record { shared = shared })

unfoldable pub write_client_init : ClientInit → List ℕ
write_client_init c = write_flag c.shared

pub record ServerInit : Type 0 where
  pub framebuffer_width : ℕ
  pub framebuffer_height : ℕ
  pub pixel_format : PixelFormat
  pub name : List ℕ

pub record IsValid (s : ServerInit) : Type 0 where
  pub width_fits : IsU16 s.framebuffer_width
  pub height_fits : IsU16 s.framebuffer_height
  pub format_valid : PixelFormat.IsValid s.pixel_format
  pub name_ascii : IsAscii s.name
  pub name_fits : length s.name < 2 ^ 32

unfoldable pub read_server_init : Reader ServerInit
read_server_init = do
  width ← read_u16
  height ← read_u16
  format ← PixelFormat.read_from
  name ← read_string
  pure (record {
    framebuffer_width = width;
    framebuffer_height = height;
    pixel_format = format;
    name = name;
  })

unfoldable pub write_server_init : ServerInit → List ℕ
write_server_init s =
    write_u16 s.framebuffer_width
    ++ write_u16 s.framebuffer_height
    ++ PixelFormat.write_to s.pixel_format
    ++ write_string s.name

pub read_client_init-write_client_init :
    (c : ClientInit) → Reads read_client_init (write_client_init c) c
unfolding read_client_init write_client_init
read_client_init-write_client_init c rest = rw read_flag-write_flag

-- A server's greeting with an ASCII name is read back as it was written.
pub read_server_init-write_server_init :
    (s : ServerInit)
    → IsValid s
    → (rest : Input) → read_server_init (feed (write_server_init s) rest) ≡ ok (s, rest)
unfolding read_server_init write_server_init
read_server_init-write_server_init s v rest = simp (
  feed-append,
  read_u16-write_u16 _ v.width_fits,
  read_u16-write_u16 _ v.height_fits,
  PixelFormat.read_from-write_to _ v.format_valid,
  read_string-write_string _ v.name_ascii v.name_fits,
)
