-- ===== src/Client/Tests.antt =====
-- Handshakes of src/client.rs at concrete inputs.
use rust_vnc.Client.Auth.{used_security_type}
use rust_vnc.Common.{ℕ, ◌+◌, List, [], ◌∷◌, ◌++◌, Bool, true, false, ◌≡◌, refl, arith}
use rust_vnc.Common
use rust_vnc.Wire.{Input, ends, err, unexpected_eof, feed, server, authentication_unavailable}
use rust_vnc.Wire.{authentication_failure}
use rust_vnc.Protocol.PixelFormat.{PixelFormat}
use rust_vnc.Protocol.Text.{write_string}
use rust_vnc.Protocol.Version
use rust_vnc.Protocol.Version.{rfb33, rfb37, rfb38}
use rust_vnc.Protocol.Security.{SecurityType, unknown, vnc_authentication, write_result, failed}
use rust_vnc.Protocol.Init.{ServerInit}
use rust_vnc.Client.Auth.{AuthMethod, AuthChoice, auth_methods}
use rust_vnc.Client.Handshake.{AppleAuth, from_tcp_stream, authenticate}
use rust_vnc.Client.Handshake.Dialogue.{stream, offer}
use rust_vnc.Client.Handshake.Laws.{server_part, client_part, empty_offer, report}
use rust_vnc.Client.Handshake.Laws.{from_tcp_stream_failed}
use rust_vnc.Client.Handshake.Laws.{from_tcp_stream_unavailable, from_tcp_stream_refused}
use rust_vnc.Client.Password.{authenticate-ascii}

abbrev no_apple : AppleAuth
no_apple = Common.none

-- "secret12", and the same with the top bit of its first byte set.
abbrev secret : List ℕ
secret = 115 ∷ 101 ∷ 99 ∷ 114 ∷ 101 ∷ 116 ∷ 49 ∷ 50 ∷ []

abbrev secret_top : List ℕ
secret_top = 243 ∷ 101 ∷ 99 ∷ 114 ∷ 101 ∷ 116 ∷ 49 ∷ 50 ∷ []

-- A caller that has a password, and one that has nothing.
abbrev with_password : List AuthMethod → Common.Option AuthChoice
with_password [] = Common.none
with_password (AuthMethod.password ∷ methods) = Common.some (AuthChoice.password secret)
with_password (AuthMethod.none ∷ methods) = with_password methods
with_password (AuthMethod.apple_remote_desktop ∷ methods) = with_password methods

abbrev with_nothing : List AuthMethod → Common.Option AuthChoice
with_nothing methods = Common.none

abbrev offered : List SecurityType
offered = unknown 19 ∷ vnc_authentication ∷ []

abbrev challenge : List ℕ
challenge = 0 ∷ 1 ∷ 2 ∷ 3 ∷ 4 ∷ 5 ∷ 6 ∷ 7 ∷ 8 ∷ 9 ∷ 10 ∷ 11 ∷ 12 ∷ 13 ∷ 14 ∷ 15 ∷ []

abbrev grey8 : PixelFormat
grey8 = record {
  bits_per_pixel = 8;
  depth = 8;
  big_endian = false;
  true_colour = true;
  red_max = 7;
  green_max = 7;
  blue_max = 3;
  red_shift = 5;
  green_shift = 2;
  blue_shift = 0;
}

abbrev greeting : ServerInit
greeting = record {
  framebuffer_width = 640;
  framebuffer_height = 480;
  pixel_format = grey8;
  name = 120 ∷ [];
}

abbrev closed : Input
closed = ends unexpected_eof

chosen : with_password (auth_methods offered) ≡ Common.some (AuthChoice.password secret)
unfolding auth_methods
chosen = refl

from_tcp_stream_failed_example :
    from_tcp_stream no_apple true with_password (
      stream
        (feed
          (server_part rfb37 offered (AuthChoice.password secret) challenge
            ++ (write_result failed ++ report rfb37 []))
          closed)
        [])
    ≡ (
      err (authentication_failure []),
      stream closed (client_part rfb37 (AuthChoice.password secret) challenge),
    )
from_tcp_stream_failed_example =
    from_tcp_stream_failed no_apple true with_password rfb37 offered (AuthChoice.password secret)
      challenge [] closed (omega arith) chosen tt refl (unfold used_security_type in refl) tt
      (omega arith)

from_tcp_stream_unavailable_example :
    from_tcp_stream no_apple false with_nothing
      (stream (feed (Version.write_to rfb33 ++ offer rfb33 (vnc_authentication ∷ [])) closed) [])
    ≡ (err authentication_unavailable, stream closed (Version.write_to rfb33))
from_tcp_stream_unavailable_example =
    from_tcp_stream_unavailable no_apple false with_nothing rfb33 (vnc_authentication ∷ []) closed
      (tt, refl) refl

-- "no"
from_tcp_stream_refused_example :
    from_tcp_stream no_apple false with_nothing (
      stream
        (feed (Version.write_to rfb38 ++ empty_offer rfb38 ++ write_string (110 ∷ 111 ∷ [])) closed)
        [])
    ≡ (err (server (110 ∷ 111 ∷ [])), stream closed (Version.write_to rfb38))
from_tcp_stream_refused_example =
    from_tcp_stream_refused no_apple false with_nothing rfb38 (110 ∷ 111 ∷ []) closed (omega arith)
      (omega arith)

authenticate-ascii_example :
    authenticate no_apple (AuthChoice.password secret) (stream (feed challenge closed) [])
    ≡ authenticate no_apple (AuthChoice.password secret_top) (stream (feed challenge closed) [])
authenticate-ascii_example =
    authenticate-ascii no_apple secret secret_top (stream (feed challenge closed) []) (omega arith)
      (omega arith) refl refl refl
