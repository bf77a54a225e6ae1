-- ===== src/Proxy/Serving/Tests.antt =====
-- proxy/main.rs at concrete inputs.
use rust_vnc.Common.{List, [], ◌∷◌, ◌≡◌, refl, some, none, true, arith}
use rust_vnc.Wire.{Result, ok, panic, feed}
use rust_vnc.Protocol.PixelFormat
use rust_vnc.Protocol.Version.{rfb38}
use rust_vnc.Protocol.Security.{SecurityType}
use rust_vnc.Protocol.Init.{ServerInit}
use rust_vnc.Client.Events.Samples.{grey}
use rust_vnc.Proxy.{Link, retain, security_type_supported}
use rust_vnc.Proxy.Behind.{closed}
use rust_vnc.Proxy.Handshake.{client_part, server_part}
use rust_vnc.Proxy.Relay.{between}
use rust_vnc.Proxy.Unsupported.{request}
use rust_vnc.Proxy.Serving.{Report, Visit, ports}

abbrev greeting : ServerInit
greeting = record {
  framebuffer_width = 4;
  framebuffer_height = 3;
  pixel_format = grey;
  name = 97 ∷ [];
}

abbrev offered : List SecurityType
offered = SecurityType.none ∷ []

grey-IsValid : PixelFormat.IsValid grey
grey-IsValid = omega arith

abbrev visit : Visit
visit = record {
  client = some (
      feed (client_part rfb38 rfb38 offered SecurityType.none (record { shared = true }))
        (request grey grey grey-IsValid closed));
  server = some (feed (server_part rfb38 rfb38 offered SecurityType.none offered greeting) closed);
}

-- The streams behind the handshake, and behind the request.
abbrev behind_handshake : Link
behind_handshake =
    between closed (client_part rfb38 rfb38 offered SecurityType.none (record { shared = true }))
      (request grey grey grey-IsValid closed)
      (server_part rfb38 rfb38 offered SecurityType.none (retain security_type_supported offered)
        greeting)

abbrev behind_request : Link
behind_request = record behind_handshake {
  client = record behind_handshake.client { incoming = closed };
}

abbrev outcome : Result Report
outcome = panic

-- The last port has no next one, even where none is asked for.
no_next_port : ports (some 65535) (some 5901) ≡ panic
unfolding ports
no_next_port = refl

usual_ports : ports none none ≡ ok (5900, 5901)
unfolding ports
usual_ports = refl
