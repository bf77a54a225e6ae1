-- ===== src/Client/Handshake/Dialogue.antt =====
-- src/client.rs: the bytes that a server and the client exchange in a handshake, and each stage of
-- `from_tcp_stream` on them.
use rust_vnc.Client.Handshake.{skip_security_result}
use rust_vnc.Common.{not}
use rust_vnc.Common.{ℕ, ◌+◌, ◌%◌, ◌^◌, ◌<◌, List, [], ◌∷◌, ◌++◌, Bool, true, false, if◌then◌else◌}
use rust_vnc.Common.{◌≡◌, refl, ap, ap₂, sym, ◌∙◌, arith, length, All}
use rust_vnc.Common
use rust_vnc.Wire.{Input, ok, feed, Reader, read_exact}
use rust_vnc.Wire.RoundTrip.{Reads, read_exact_lem}
use rust_vnc.Wire.Session.{Stream, receive, send}
use rust_vnc.Protocol.Version.{Version, rfb33, rfb37, rfb38}
use rust_vnc.Protocol.Security.{SecurityType, succeeded, IsCanonicalType}
use rust_vnc.Protocol.Security.{write_type, write_types, write_result, read_type-write_type}
use rust_vnc.Protocol.Security.{read_types-write_types, read_result-write_result}
use rust_vnc.Protocol.Init.{ServerInit, IsValid, write_client_init, write_server_init}
use rust_vnc.Protocol.Init.{read_server_init-write_server_init}
use rust_vnc.Client.Auth.{AuthChoice, used_security_type, password_key}
use rust_vnc.Client.Handshake.{Client, AppleAuth, is_invalid, offered_types, announce, authenticate}
use rust_vnc.Client.Handshake.{await_result, settle, initialise}
use rust_vnc.Des.{encrypt}

-- A stream that still delivers `i` and has been sent `out`.
abbrev pub stream : Input → List ℕ → Stream
stream i out = record { incoming = i; outgoing = out }

-- The server's offer: one type in version 3.3, otherwise a list.
abbrev pub offer : Version → List SecurityType → List ℕ
offer rfb33 [] = []
offer rfb33 (t ∷ types) = write_type t
offer rfb37 types = write_types (record { types = types })
offer rfb38 types = write_types (record { types = types })

-- An offer that is not empty and can be written.
abbrev pub IsOffer : Version → List SecurityType → Type 0
IsOffer rfb33 (t ∷ []) = IsCanonicalType t × (is_invalid t ≡ false)
IsOffer rfb33 _ = ⊥
IsOffer rfb37 types = All IsCanonicalType types × (length types < 256) × (0 < length types)
IsOffer rfb38 types = All IsCanonicalType types × (length types < 256) × (0 < length types)

-- The client's answer to the offer.
abbrev pub selection : Version → AuthChoice → List ℕ
selection rfb33 choice = []
selection rfb37 choice = write_type (used_security_type choice)
selection rfb38 choice = write_type (used_security_type choice)

-- What the server sends and the client answers for a choice that is not Apple's.
abbrev pub challenge_for : AuthChoice → List ℕ → List ℕ
challenge_for (AuthChoice.password key) challenge = challenge
challenge_for AuthChoice.none challenge = []
challenge_for (AuthChoice.apple_remote_desktop username secret) challenge = []

abbrev pub response_to : AuthChoice → List ℕ → List ℕ
response_to (AuthChoice.password key) challenge = encrypt challenge (password_key key)
response_to AuthChoice.none challenge = []
response_to (AuthChoice.apple_remote_desktop username secret) challenge = []

abbrev pub IsPlain : AuthChoice → Type 0
IsPlain (AuthChoice.apple_remote_desktop username secret) = ⊥
IsPlain AuthChoice.none = Unit {0}
IsPlain (AuthChoice.password key) = Unit {0}

-- The server's verdict, which versions below 3.8 leave out where nothing is authenticated.
abbrev pub verdict : Bool → List ℕ
verdict skipped = if skipped then [] else write_result succeeded

-- Which security types are no authentication.
abbrev pub is_none : SecurityType → Bool
is_none SecurityType.none = true
is_none SecurityType.invalid = false
is_none SecurityType.vnc_authentication = false
is_none SecurityType.apple_remote_desktop = false
is_none (SecurityType.unknown n) = false

-- RFC 6143, 7.1.2 and A: a result is due for each type but None, and in version 3.8 for None too.
abbrev pub is_due : Version → SecurityType → Bool
is_due rfb33 used = not (is_none used)
is_due rfb37 used = not (is_none used)
is_due rfb38 used = true

-- The result of a server that accepts the client, where one is due.
abbrev pub result_for : Version → SecurityType → List ℕ
result_for v used = if is_due v used then write_result succeeded else []

module _ {ℓ} {A : Type ℓ} where
  pub receive_lem :
      (read : Reader A) (bytes : List ℕ) (a : A)
      → Reads read bytes a
      → (rest : Input) (out : List ℕ)
      → receive read (stream (feed bytes rest) out) ≡ (ok a, stream rest out)
  unfolding receive
  receive_lem read bytes a h rest out = rw (h rest)

pub send_lem :
    (bytes : List ℕ) (i : Input) (out : List ℕ)
    → send bytes (stream i out) ≡ (ok tt, stream i (out ++ bytes))
unfolding send
send_lem bytes i out = refl

pub offered_types_lem :
    (v : Version) (types : List SecurityType)
    → IsOffer v types
    → (rest : Input) (out : List ℕ)
    → offered_types v (stream (feed (offer v types) rest) out) ≡ (ok types, stream rest out)
unfolding offered_types
offered_types_lem rfb33 (t ∷ []) h rest out =
    rw (receive_lem _ (write_type t) t (read_type-write_type t h.0) rest out, h.1)
offered_types_lem rfb33 (t ∷ u ∷ types) h rest out = absurd h
offered_types_lem rfb33 [] h rest out = absurd h
offered_types_lem rfb37 types h rest out =
    rw (receive_lem _ _ _ (read_types-write_types (record { types = types }) h.0 h.1) rest out)
offered_types_lem rfb38 types h rest out =
    rw (receive_lem _ _ _ (read_types-write_types (record { types = types }) h.0 h.1) rest out)

pub announce_lem :
    (v : Version) (choice : AuthChoice) (i : Input) (out : List ℕ)
    → announce v choice (stream i out) ≡ (ok tt, stream i (out ++ selection v choice))
unfolding announce send
announce_lem rfb33 choice i out = ap (λ o. (ok tt, stream i o)) (sym (Common.append-nil out))
announce_lem rfb37 choice i out = refl
announce_lem rfb38 choice i out = refl

pub authenticate_lem :
    (apple : AppleAuth) (choice : AuthChoice) (challenge : List ℕ)
    → IsPlain choice
    → length challenge ≡ 16
    → (rest : Input) (out : List ℕ)
    → authenticate apple choice (stream (feed (challenge_for choice challenge) rest) out)
      ≡ (ok tt, stream rest (out ++ response_to choice challenge))
unfolding authenticate
authenticate_lem apple AuthChoice.none challenge plain len rest out =
    ap (λ o. (ok tt, stream rest o)) (sym (Common.append-nil out))
authenticate_lem apple (AuthChoice.password key) challenge plain len rest out =
    rw (receive_lem (read_exact 16) challenge challenge whole rest out, send_lem)
  where
    whole : Reads (read_exact 16) challenge challenge
    whole = rw (← len) (read_exact_lem challenge)
authenticate_lem apple (AuthChoice.apple_remote_desktop u s) challenge plain len rest out =
    absurd plain

pub await_result_lem :
    (v : Version) (skipped : Bool) (rest : Input) (out : List ℕ)
    → await_result v skipped (stream (feed (verdict skipped) rest) out) ≡ (ok tt, stream rest out)
unfolding await_result settle
await_result_lem v true rest out = refl
await_result_lem v false rest out =
    rw (receive_lem _ _ _ (read_result-write_result succeeded) rest out)

-- The client that a greeting gives.
abbrev pub client_of : ServerInit → Client
client_of init = record {
  name = init.name;
  size = (init.framebuffer_width, init.framebuffer_height);
  format = init.pixel_format;
}

pub initialise_lem :
    (shared : Bool) (init : ServerInit)
    → IsValid init
    → (rest : Input) (out : List ℕ)
    → initialise shared (stream (feed (write_server_init init) rest) out)
      ≡ (ok (client_of init), stream rest (out ++ write_client_init (record { shared = shared })))
unfolding initialise send
initialise_lem shared init valid rest out =
    rw (receive_lem _ _ _ (read_server_init-write_server_init init valid) rest _)

pub skip_security_result_lem :
    (choice : AuthChoice) (v : Version)
    → skip_security_result choice v ≡ not (is_due v (used_security_type choice))
unfolding skip_security_result used_security_type
skip_security_result_lem AuthChoice.none rfb33 = refl
skip_security_result_lem AuthChoice.none rfb37 = refl
skip_security_result_lem AuthChoice.none rfb38 = refl
skip_security_result_lem (AuthChoice.password key) rfb33 = refl
skip_security_result_lem (AuthChoice.password key) rfb37 = refl
skip_security_result_lem (AuthChoice.password key) rfb38 = refl
skip_security_result_lem (AuthChoice.apple_remote_desktop username secret) rfb33 = refl
skip_security_result_lem (AuthChoice.apple_remote_desktop username secret) rfb37 = refl
skip_security_result_lem (AuthChoice.apple_remote_desktop username secret) rfb38 = refl

pub verdict-not : (due : Bool) → verdict (not due) ≡ (if due then write_result succeeded else [])
verdict-not true = refl
verdict-not false = refl

-- A client waits for a result exactly where one is due.
pub verdict-skip :
    (choice : AuthChoice) (v : Version)
    → verdict (skip_security_result choice v) ≡ result_for v (used_security_type choice)
verdict-skip choice v =
    ap verdict (skip_security_result_lem choice v)
    ∙ verdict-not (is_due v (used_security_type choice))
