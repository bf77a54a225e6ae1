-- ===== src/Client/Handshake.antt =====
-- src/client.rs: `Client::from_tcp_stream`, up to the start of the event thread.
use rust_vnc.Common.{ℕ, List, [], ◌∷◌, Bool, true, false, if◌then◌else◌}
use rust_vnc.Common
use rust_vnc.Wire.{server, authentication_unavailable, authentication_failure, read_exact}
use rust_vnc.Wire.Session.{Action, Stream, ◌>>=◌, ◌>>◌, continue, return, throw, receive, send}
use rust_vnc.Protocol.Version
use rust_vnc.Protocol.Version.{Version, rfb33, rfb37, rfb38}
use rust_vnc.Protocol.Security.{SecurityType, unknown, invalid, none, vnc_authentication}
use rust_vnc.Protocol.Security.{apple_remote_desktop, SecurityResult, succeeded, failed}
use rust_vnc.Protocol.Security.{read_type, write_type, read_types, read_result}
use rust_vnc.Protocol.Security.{AppleAuthHandshake, AppleAuthResponse, read_apple_handshake}
use rust_vnc.Protocol.Security.{write_apple_response}
use rust_vnc.Protocol.Text.{read_string}
use rust_vnc.Protocol.PixelFormat.{PixelFormat}
use rust_vnc.Protocol.Init.{write_client_init, read_server_init}
use rust_vnc.Client.Auth.{AuthMethod, AuthChoice, auth_methods, used_security_type, password_key}
use rust_vnc.Des.{encrypt}
pub mod Dialogue
pub mod Laws

-- The fields of `Client` that the handshake sets, beside the stream and the event channel.
pub record Client : Type 0 where
  pub name : List ℕ
  pub size : ℕ × ℕ
  pub format : PixelFormat

abbrev pub is_invalid : SecurityType → Bool
is_invalid invalid = true
is_invalid (unknown n) = false
is_invalid none = false
is_invalid vnc_authentication = false
is_invalid apple_remote_desktop = false

-- A version 3.3 server names one type, any other a list.
unfoldable pub offered_types : Version → Action Stream (List SecurityType)
offered_types rfb33 = do
  security_type ← receive read_type
  return (if is_invalid security_type then [] else (security_type ∷ []))
offered_types rfb37 = do types ← receive read_types; return types.types
offered_types rfb38 = do types ← receive read_types; return types.types

-- An empty list is followed by the server's reason.
unfoldable pub refuse_if_empty : List SecurityType → Action Stream (Unit {0})
refuse_if_empty [] = do reason ← receive read_string; throw (server reason)
refuse_if_empty (t ∷ types) = return tt

unfoldable pub ok_or_unavailable : Common.Option AuthChoice → Action Stream AuthChoice
ok_or_unavailable Common.none = throw authentication_unavailable
ok_or_unavailable (Common.some choice) = return choice

-- A version 3.3 client does not answer the server's type.
unfoldable pub announce : Version → AuthChoice → Action Stream (Unit {0})
announce rfb33 choice = return tt
announce rfb37 choice = send (write_type (used_security_type choice))
announce rfb38 choice = send (write_type (used_security_type choice))

-- `AppleAuth` is `security::apple_auth`, which rests on foreign cryptography; `none` stands for a
-- build without the feature apple-auth.
abbrev pub AppleAuth : Type 0
AppleAuth = Common.Option (List ℕ → List ℕ → AppleAuthHandshake → AppleAuthResponse)

unfoldable pub apple_authenticate : AppleAuth → List ℕ → List ℕ → Action Stream (Unit {0})
apple_authenticate Common.none username password = return tt
apple_authenticate (Common.some apple_auth) username password = do
  handshake ← receive read_apple_handshake
  send (write_apple_response (apple_auth username password handshake))

unfoldable pub authenticate : AppleAuth → AuthChoice → Action Stream (Unit {0})
authenticate apple (AuthChoice.password password) = do
  challenge ← receive (read_exact 16)
  send (encrypt challenge (password_key password))
authenticate apple (AuthChoice.apple_remote_desktop username password) =
    apple_authenticate apple username password
authenticate apple AuthChoice.none = return tt

unfoldable pub skip_security_result : AuthChoice → Version → Bool
skip_security_result AuthChoice.none rfb33 = true
skip_security_result AuthChoice.none rfb37 = true
skip_security_result _ _ = false

-- What follows a result: a failure carries a reason from version 3.8 on.
unfoldable pub settle : Version → SecurityResult → Action Stream (Unit {0})
settle version succeeded = return tt
settle rfb33 failed = throw (authentication_failure [])
settle rfb37 failed = throw (authentication_failure [])
settle rfb38 failed = do reason ← receive read_string; throw (authentication_failure reason)

unfoldable pub await_result : Version → Bool → Action Stream (Unit {0})
await_result version true = return tt
await_result version false = do result ← receive read_result; settle version result

unfoldable pub initialise : Bool → Action Stream Client
initialise shared = do
  send (write_client_init (record { shared = shared }))
  server_init ← receive read_server_init
  return (record {
    name = server_init.name;
    size = (server_init.framebuffer_width, server_init.framebuffer_height);
    format = server_init.pixel_format;
  })

-- `auth` is the caller's closure.
module _ (apple : AppleAuth) (shared : Bool)
    (auth : List AuthMethod → Common.Option AuthChoice) where
  unfoldable pub from_tcp_stream : Action Stream Client
  from_tcp_stream = do
    version ← receive Version.read_from
    send (Version.write_to version)
    security_types ← offered_types version
    refuse_if_empty security_types
    auth_choice ← ok_or_unavailable (auth (auth_methods security_types))
    announce version auth_choice
    authenticate apple auth_choice
    await_result version (skip_security_result auth_choice version)
    initialise shared
