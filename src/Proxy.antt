-- ===== src/Proxy.antt =====
-- src/proxy.rs: `Proxy::from_tcp_streams`, the loops of its threads, and `join`.
use rust_vnc.Common.{ℕ, zero, suc, ◌+◌, ◌*◌, ◌/◌, List, [], ◌∷◌, ◌++◌, Bool, true, false}
use rust_vnc.Common.{if◌then◌else◌}
use rust_vnc.Wire.{Error, Result, ok, err, panic, Reader, read_exact, available, unexpected, server}
use rust_vnc.Wire.{authentication_failure}
use rust_vnc.Wire.Session
use rust_vnc.Wire.Session.{Stream, Action, continue, ◌>>=◌, ◌>>◌, return, throw}
use rust_vnc.Protocol.PixelFormat.{PixelFormat}
use rust_vnc.Protocol.Version
use rust_vnc.Protocol.Version.{Version, rfb33, rfb37, rfb38}
use rust_vnc.Protocol.Security.{
  SecurityType, SecurityResult, read_type, write_type, read_types, write_types,
}
use rust_vnc.Protocol.Security.{read_result, write_result, succeeded, failed}
use rust_vnc.Protocol.Text.{read_string, write_string, read_bytes, write_bytes}
use rust_vnc.Protocol.Init.{read_client_init, write_client_init}
use rust_vnc.Protocol.Init.{read_server_init, write_server_init}
use rust_vnc.Protocol.Encoding
use rust_vnc.Protocol.Encoding.{Encoding}
use rust_vnc.Protocol.Rectangle.{Rectangle, read_rectangle, write_rectangle}
use rust_vnc.Protocol.Rectangle.{read_copy_rect, write_copy_rect}
use rust_vnc.Protocol.ClientMessage
use rust_vnc.Protocol.ClientMessage.{C2s}
use rust_vnc.Protocol.ServerMessage
use rust_vnc.Protocol.ServerMessage.{S2c}
pub mod Relay
pub mod Serving
pub mod Threads
pub mod Unsupported
pub mod Untouched
pub mod Behind
pub mod Handshake
mod Tests

-- The two streams between which the proxy stands.
pub record Link : Type 0 where
  pub server : Stream
  pub client : Stream

abbrev pub with_server {ℓ} : {A : Type ℓ} → Link → Result A × Stream → Result A × Link
with_server l (r, s) = (r, record l { server = s })

abbrev pub with_client {ℓ} : {A : Type ℓ} → Link → Result A × Stream → Result A × Link
with_client l (r, s) = (r, record l { client = s })

unfoldable pub from_server {ℓ} : {A : Type ℓ} → Reader A → Action Link A
from_server read l = with_server l (Session.receive read l.server)

unfoldable pub from_client {ℓ} : {A : Type ℓ} → Reader A → Action Link A
from_client read l = with_client l (Session.receive read l.client)

unfoldable pub to_server : List ℕ → Action Link (Unit {0})
to_server bytes l = with_server l (Session.send bytes l.server)

unfoldable pub to_client : List ℕ → Action Link (Unit {0})
to_client bytes l = with_client l (Session.send bytes l.client)

unfoldable pub security_type_supported : SecurityType → Bool
security_type_supported SecurityType.none = true
security_type_supported (SecurityType.unknown n) = false
security_type_supported SecurityType.invalid = false
security_type_supported SecurityType.vnc_authentication = false
security_type_supported SecurityType.apple_remote_desktop = false

-- `Vec::retain`
unfoldable pub retain : {A : Type 0} → (A → Bool) → List A → List A
retain keep [] = []
retain keep (a ∷ items) = if keep a then a ∷ retain keep items else retain keep items

abbrev pub filtered : SecurityType → SecurityType
filtered t = if security_type_supported t then t else SecurityType.invalid

abbrev pub listed : SecurityType → List SecurityType
listed SecurityType.invalid = []
listed (SecurityType.unknown n) = SecurityType.unknown n ∷ []
listed SecurityType.none = SecurityType.none ∷ []
listed SecurityType.vnc_authentication = SecurityType.vnc_authentication ∷ []
listed SecurityType.apple_remote_desktop = SecurityType.apple_remote_desktop ∷ []

unfoldable pub offer_filtered : Action Link (List SecurityType)
unfolding security_type_supported retain
offer_filtered = do
  types ← from_server read_types
  let kept = retain security_type_supported types.types
  to_client (write_types (record { types = kept }))
  return kept

unfoldable pub relay_types : Version → Action Link (List SecurityType)
unfolding security_type_supported offer_filtered
relay_types rfb33 = do
  t ← from_server read_type
  to_client (write_type (filtered t))
  return (listed (filtered t))
relay_types rfb37 = offer_filtered
relay_types rfb38 = offer_filtered

-- An empty list is followed by the server's reason.
unfoldable pub relay_refusal : List SecurityType → Action Link (Unit {0})
relay_refusal [] = do
  reason ← from_server read_string
  to_client (write_string reason)
  throw (server reason)
relay_refusal (t ∷ types) = return tt

unfoldable pub relay_choice : Action Link SecurityType
relay_choice = do t ← from_client read_type; to_server (write_type t); return t

-- `security_types[0]`, which panics on an empty list.
abbrev pub first : List SecurityType → Action Link SecurityType
first [] l = (panic, l)
first (t ∷ types) l = (ok t, l)

unfoldable pub used_security_type : Version → List SecurityType → Action Link SecurityType
unfolding relay_choice
used_security_type rfb33 types = first types
used_security_type rfb37 types = relay_choice
used_security_type rfb38 types = relay_choice

unfoldable pub skip_security_result : SecurityType → Version → Bool
skip_security_result SecurityType.none rfb33 = true
skip_security_result SecurityType.none rfb37 = true
skip_security_result _ _ = false

unfoldable pub settle : Version → SecurityResult → Action Link (Unit {0})
settle version succeeded = return tt
settle rfb33 failed = throw (authentication_failure [])
settle rfb37 failed = throw (authentication_failure [])
settle rfb38 failed = do
  reason ← from_server read_string
  to_client (write_string reason)
  throw (authentication_failure reason)

unfoldable pub relay_result : Version → Bool → Action Link (Unit {0})
unfolding settle
relay_result version true = return tt
relay_result version false = do
  result ← from_server read_result
  to_client (write_result result)
  settle version result

-- The handshake; its result is what the threads are given of it.
unfoldable pub from_tcp_streams : Action Link PixelFormat
unfolding relay_types relay_refusal used_security_type skip_security_result relay_result
from_tcp_streams = do
  server_version ← from_server Version.read_from
  to_client (Version.write_to server_version)
  client_version ← from_client Version.read_from
  to_server (Version.write_to client_version)
  security_types ← relay_types client_version
  relay_refusal security_types
  used ← used_security_type client_version security_types
  relay_result client_version (skip_security_result used client_version)
  client_init ← from_client read_client_init
  to_server (write_client_init client_init)
  server_init ← from_server read_server_init
  to_client (write_server_init server_init)
  return server_init.pixel_format

unfoldable pub encoding_supported : Encoding → Bool
encoding_supported Encoding.raw = true
encoding_supported Encoding.copy_rect = true
encoding_supported Encoding.zrle = true
encoding_supported Encoding.cursor = true
encoding_supported Encoding.desktop_size = true
encoding_supported Encoding.rre = false
encoding_supported Encoding.hextile = false
encoding_supported (Encoding.unknown n) = false

-- The match in `forward_c2s`.
unfoldable pub admit : C2s → Result C2s
unfolding encoding_supported retain
admit (C2s.set_encodings encodings) = ok (C2s.set_encodings (retain encoding_supported encodings))
admit (C2s.set_pixel_format format) = panic
admit (C2s.framebuffer_update_request incremental x y width height) =
    ok (C2s.framebuffer_update_request incremental x y width height)
admit (C2s.key_event down key) = ok (C2s.key_event down key)
admit (C2s.pointer_event button_mask x y) = ok (C2s.pointer_event button_mask x y)
admit (C2s.cut_text text) = ok (C2s.cut_text text)

abbrev pub attempt : {A : Type 0} → Result A → Action Link A
attempt r l = (r, l)

-- One round of the loop of `forward_c2s`.
unfoldable pub forward_c2s_round : Action Link (Unit {0})
unfolding admit
forward_c2s_round = do
  message ← from_client ClientMessage.read_from
  admitted ← attempt (admit message)
  to_server (ClientMessage.write_to admitted)

abbrev pub pixel_bytes : PixelFormat → Rectangle → ℕ
pixel_bytes f r = r.width * r.height * (f.bits_per_pixel / 8)

abbrev pub mask_bytes : Rectangle → ℕ
mask_bytes r = (r.width + 7) / 8 * r.height

-- The arms of the match on the encoding: the bytes that go behind the rectangle's header.
unfoldable pub relay_content : PixelFormat → Rectangle → Encoding → Action Link (List ℕ)
relay_content format r Encoding.raw = from_server (read_exact (pixel_bytes format r))
relay_content format r Encoding.copy_rect = do
  c ← from_server read_copy_rect
  return (write_copy_rect c)
relay_content format r Encoding.zrle = do
  compressed ← from_server read_bytes
  return (write_bytes compressed)
relay_content format r Encoding.cursor = do
  pixels ← from_server (read_exact (pixel_bytes format r))
  mask_bits ← from_server (read_exact (mask_bytes r))
  return (pixels ++ mask_bits)
relay_content format r Encoding.desktop_size = return []
relay_content format r Encoding.rre = throw (unexpected "encoding")
relay_content format r Encoding.hextile = throw (unexpected "encoding")
relay_content format r (Encoding.unknown n) = throw (unexpected "encoding")

-- `for _ in 0..count`, on the buffer.
unfoldable pub relay_rectangles : PixelFormat → ℕ → List ℕ → Action Link (List ℕ)
unfolding relay_content
relay_rectangles format zero buffer = return buffer
relay_rectangles format (suc count) buffer = do
  rectangle ← from_server read_rectangle
  content ← relay_content format rectangle rectangle.encoding
  relay_rectangles format count (buffer ++ write_rectangle rectangle ++ content)

unfoldable pub relay_body : PixelFormat → S2c → List ℕ → Action Link (List ℕ)
unfolding relay_rectangles
relay_body format (S2c.framebuffer_update count) buffer = relay_rectangles format count buffer
relay_body format (S2c.set_colour_map_entries first_colour colours) buffer = return buffer
relay_body format S2c.bell buffer = return buffer
relay_body format (S2c.cut_text text) buffer = return buffer

-- One round of the loop of `forward_s2c`: a whole message is buffered, then written.
unfoldable pub forward_s2c_round : PixelFormat → Action Link (Unit {0})
unfolding relay_body
forward_s2c_round format = do
  message ← from_server ServerMessage.read_from
  buffer ← relay_body format message (ServerMessage.write_to message)
  to_client buffer

-- `loop`: only an error or a panic ends it, and a bound on the rounds that is not met.
unfoldable pub repeat_round : Action Link (Unit {0}) → ℕ → Action Link (Unit {0})
repeat_round round zero = return tt
repeat_round round (suc fuel) = do round; repeat_round round fuel

-- Each round takes a byte at least.
unfoldable pub forward_c2s : Action Link (Unit {0})
forward_c2s l = repeat_round forward_c2s_round (suc (available l.client.incoming)) l

unfoldable pub forward_s2c : PixelFormat → Action Link (Unit {0})
forward_s2c format l = repeat_round (forward_s2c_round format) (suc (available l.server.incoming)) l

-- `Result::and`, on the results of the two threads; a thread that panicked panics here.
unfoldable pub join : Result (Unit {0}) → Result (Unit {0}) → Result (Unit {0})
join panic s2c = panic
join (ok u) panic = panic
join (err e) panic = panic
join (err Error.disconnected) (ok u) = ok tt
join (err Error.disconnected) (err e) = ok tt
join (err e) (ok u) = err e
join (err e) (err e') = err e
join (ok u) (err Error.disconnected) = ok tt
join (ok u) (err e) = err e
join (ok u) (ok v) = ok v
