-- ===== src/Proxy/Handshake.antt =====
-- src/proxy.rs: the handshake between a server and a client that keep to the protocol.
use rust_vnc.Client.Handshake.Dialogue.{result_for}
use rust_vnc.Common.{ℕ, List, [], ◌++◌, ◌≡◌}
use rust_vnc.Protocol.Version
use rust_vnc.Protocol.Version.{Version, rfb33, rfb37, rfb38}
use rust_vnc.Protocol.Security.{SecurityType, IsCanonicalType}
use rust_vnc.Protocol.Security.{write_type}
use rust_vnc.Protocol.Init.{ClientInit, ServerInit, write_client_init}
use rust_vnc.Protocol.Init.{write_server_init}
use rust_vnc.Client.Handshake.Dialogue.{offer}
use rust_vnc.Proxy.{retain}
use rust_vnc.Proxy.{security_type_supported}

abbrev supported : List SecurityType → List SecurityType
supported types = retain security_type_supported types

-- The client's choice: version 3.3 sends none, and there the server's only type is used.
abbrev pub choice : Version → SecurityType → List ℕ
choice rfb33 used = []
choice rfb37 used = write_type used
choice rfb38 used = write_type used

abbrev pub IsChoice : Version → SecurityType → Type 0
IsChoice rfb33 used = used ≡ SecurityType.none
IsChoice rfb37 used = IsCanonicalType used
IsChoice rfb38 used = IsCanonicalType used

module _ (server_version v : Version) (types : List SecurityType) (used : SecurityType) where
  -- What each side sends, up to the end of the handshake.
  abbrev pub server_part : List SecurityType → ServerInit → List ℕ
  server_part offered init =
      Version.write_to server_version
      ++ offer v offered
      ++ result_for v used
      ++ write_server_init init

  abbrev pub client_part : ClientInit → List ℕ
  client_part init = Version.write_to v ++ choice v used ++ write_client_init init
