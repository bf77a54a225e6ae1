-- ===== src/Client/Handshake/Laws.antt =====
-- src/client.rs: `Client::from_tcp_stream` as a whole, against a server that keeps to the protocol.
use rust_vnc.Client.Handshake.Dialogue.{is_due, skip_security_result_lem}
use rust_vnc.Client.Auth.{used_security_type}
use rust_vnc.Common.{not}
use rust_vnc.Common.{
  ℕ, arith, ◌+◌, ◌^◌, ◌<◌, List, [], ◌∷◌, ◌++◌, Bool, true, false, ◌≡◌, refl, ap, sym, ◌∙◌, length,
}
use rust_vnc.Common
use rust_vnc.Wire.{Input, ok, err, feed, feed-append, server, authentication_unavailable}
use rust_vnc.Wire.{authentication_failure}
use rust_vnc.Wire.Session.{Stream, receive}
use rust_vnc.Protocol.Version
use rust_vnc.Protocol.Version.{Version, rfb33, rfb37, rfb38}
use rust_vnc.Protocol.Security.{SecurityType, SecurityTypes, failed, invalid}
use rust_vnc.Protocol.Security.{
  read_result, read_type, read_types, write_result, write_type, write_types,
  read_result-write_result,
}
use rust_vnc.Protocol.Security.{read_types-write_types, read_type-write_type}
use rust_vnc.Protocol.Text.{IsAscii, read_string, write_string, read_string-write_string}
use rust_vnc.Client.Auth.{AuthMethod, AuthChoice, auth_methods}
use rust_vnc.Client.Handshake.{AppleAuth, from_tcp_stream, refuse_if_empty, ok_or_unavailable}
use rust_vnc.Client.Handshake.{await_result, settle, offered_types}
use rust_vnc.Client.Handshake.Dialogue.{
  stream, offer, IsOffer, selection, challenge_for, response_to,
}
use rust_vnc.Client.Handshake.Dialogue.{IsPlain, receive_lem, send_lem}
use rust_vnc.Client.Handshake.Dialogue.{offered_types_lem, announce_lem, authenticate_lem}

refuse_if_empty_lem :
    (v : Version) (types : List SecurityType)
    → IsOffer v types
    → (s : Stream) → refuse_if_empty types s ≡ (ok tt, s)
unfolding refuse_if_empty
refuse_if_empty_lem v (t ∷ types) h s = refl
refuse_if_empty_lem rfb33 [] h s = absurd h
refuse_if_empty_lem rfb37 [] h s = elim h.2 [ ]
refuse_if_empty_lem rfb38 [] h s = elim h.2 [ ]

ok_or_unavailable_lem :
    (o : Common.Option AuthChoice) (choice : AuthChoice)
    → o ≡ Common.some choice
    → (s : Stream) → ok_or_unavailable o s ≡ (ok choice, s)
unfolding ok_or_unavailable
ok_or_unavailable_lem o choice e s = rw e

unavailable_lem :
    (o : Common.Option AuthChoice)
    → o ≡ Common.none
    → (s : Stream) → ok_or_unavailable o s ≡ (err authentication_unavailable, s)
unfolding ok_or_unavailable
unavailable_lem o e s = rw e

-- The verdict's bytes are kept together.
feed_thrice :
    (a b c d : List ℕ) (i : Input) → feed (a ++ b ++ c ++ d) i ≡ feed a (feed b (feed c (feed d i)))
feed_thrice a b c d i = simp feed-append

read_version_lem :
    (v : Version) (rest : Input) (out : List ℕ)
    → receive Version.read_from (stream (feed (Version.write_to v) rest) out)
      ≡ (ok v, stream rest out)
read_version_lem v rest out = receive_lem _ _ v (Version.read_from-write_to v) rest out

-- What the server sends up to its verdict, and what the client sends by then.
abbrev pub server_part : Version → List SecurityType → AuthChoice → List ℕ → List ℕ
server_part v types choice challenge =
    Version.write_to v ++ offer v types ++ challenge_for choice challenge

abbrev pub client_part : Version → AuthChoice → List ℕ → List ℕ
client_part v choice challenge =
    Version.write_to v ++ selection v choice ++ response_to choice challenge

-- What follows a verdict of failure, and what the caller is told.
abbrev pub report : Version → List ℕ → List ℕ
report rfb38 reason = write_string reason
report rfb37 reason = []
report rfb33 reason = []

abbrev pub reported : Version → List ℕ → List ℕ
reported rfb38 reason = reason
reported rfb37 reason = []
reported rfb33 reason = []

await_result_failed :
    (v : Version) (reason : List ℕ) (rest : Input) (out : List ℕ)
    → IsAscii reason
    → length reason < 2 ^ 32
    → await_result v false (stream (feed (write_result failed ++ report v reason) rest) out)
      ≡ (err (authentication_failure (reported v reason)), stream rest out)
unfolding await_result settle
await_result_failed rfb33 reason rest out ascii fits = simp (
  feed-append,
  receive_lem read_result (write_result failed) failed (read_result-write_result failed),
)
await_result_failed rfb37 reason rest out ascii fits = simp (
  feed-append,
  receive_lem read_result (write_result failed) failed (read_result-write_result failed),
)
await_result_failed rfb38 reason rest out ascii fits = simp (
  feed-append,
  receive_lem read_result (write_result failed) failed (read_result-write_result failed),
  receive_lem read_string (write_string reason) reason (read_string-write_string reason ascii fits),
)

-- An offer of no type, with the server's reason.
abbrev pub empty_offer : Version → List ℕ
empty_offer rfb33 = write_type invalid
empty_offer rfb37 = write_types (record { types = [] })
empty_offer rfb38 = write_types (record { types = [] })

offered_types_empty :
    (v : Version) (rest : Input) (out : List ℕ)
    → offered_types v (stream (feed (empty_offer v) rest) out) ≡ (ok [], stream rest out)
unfolding offered_types
offered_types_empty rfb33 rest out =
    rw (
      receive_lem read_type (write_type invalid) invalid (read_type-write_type invalid tt) rest out)
offered_types_empty rfb37 rest out =
    let none : SecurityTypes = record { types = [] } in
    rw (
      receive_lem read_types (write_types none) none (read_types-write_types none tt (omega arith))
        rest out)
offered_types_empty rfb38 rest out =
    let none : SecurityTypes = record { types = [] } in
    rw (
      receive_lem read_types (write_types none) none (read_types-write_types none tt (omega arith))
        rest out)

module _ (apple : AppleAuth) (shared : Bool) (auth : List AuthMethod → Common.Option AuthChoice)
    (v : Version) (types : List SecurityType) where
  -- Where the protocol has a result, which is for each type but None and in version 3.8 for None
  -- too, and the server reports a failure, a version 3.8 handshake ends with an authentication
  -- failure with the ASCII reason that follows, an earlier one with an empty reason; the client has
  -- not sent its initialisation. The choice is not Apple's.
  pub from_tcp_stream_failed :
      (choice : AuthChoice) (challenge reason : List ℕ) (rest : Input)
      → IsOffer v types
      → auth (auth_methods types) ≡ Common.some choice
      → IsPlain choice
      → length challenge ≡ 16
      → is_due v (used_security_type choice) ≡ true
      → IsAscii reason
      → length reason < 2 ^ 32
      → from_tcp_stream apple shared auth (
          stream
            (feed
              (server_part v types choice challenge ++ (write_result failed ++ report v reason))
              rest)
            [])
        ≡ (
          err (authentication_failure (reported v reason)),
          stream rest (client_part v choice challenge),
        )
  unfolding from_tcp_stream
  from_tcp_stream_failed choice challenge reason rest offered chosen plain len due ascii fits =
      (simp (
        feed_thrice,
        read_version_lem,
        send_lem,
        offered_types_lem v types offered,
        refuse_if_empty_lem v types offered,
        ok_or_unavailable_lem _ choice chosen,
        announce_lem,
        authenticate_lem apple choice challenge plain len,
        skip_security_result_lem choice v ∙ ap not due,
        await_result_failed v reason rest _ ascii fits,
      ))

  -- Where the caller makes no choice from the methods offered, the handshake ends with
  -- AuthenticationUnavailable, and only the version was sent.
  pub from_tcp_stream_unavailable :
      (rest : Input)
      → IsOffer v types
      → auth (auth_methods types) ≡ Common.none
      → from_tcp_stream apple shared auth
          (stream (feed (Version.write_to v ++ offer v types) rest) [])
        ≡ (err authentication_unavailable, stream rest (Version.write_to v))
  unfolding from_tcp_stream
  from_tcp_stream_unavailable rest offered none_chosen = simp (
    feed-append,
    read_version_lem,
    send_lem,
    offered_types_lem v types offered,
    refuse_if_empty_lem v types offered,
    unavailable_lem _ none_chosen,
  )

-- A server that offers no type ends the handshake with its reason, and only the version was sent.
pub from_tcp_stream_refused :
    (apple : AppleAuth) (shared : Bool) (auth : List AuthMethod → Common.Option AuthChoice)
    (v : Version) (reason : List ℕ) (rest : Input)
    → IsAscii reason
    → length reason < 2 ^ 32
    → from_tcp_stream apple shared auth
        (stream (feed (Version.write_to v ++ empty_offer v ++ write_string reason) rest) [])
      ≡ (err (server reason), stream rest (Version.write_to v))
unfolding from_tcp_stream refuse_if_empty
from_tcp_stream_refused apple shared auth v reason rest ascii fits = simp (
  feed-append,
  read_version_lem,
  send_lem,
  offered_types_empty,
  receive_lem read_string (write_string reason) reason (read_string-write_string reason ascii fits),
)
