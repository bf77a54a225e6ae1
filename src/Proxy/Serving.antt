-- ===== src/Proxy/Serving.antt =====
-- proxy/main.rs: the ports, and the clients that are served one after the other.
use rust_vnc.Common.{ℕ, ◌+◌, ◌^◌, List, [], ◌∷◌, ltb, if◌then◌else◌, Option, none, some, ◌≡◌}
use rust_vnc.Wire.{Error, Result, ok, err, panic, bind, Input}
use rust_vnc.Protocol.PixelFormat.{PixelFormat}
use rust_vnc.Proxy.{Link, from_tcp_streams, join}
use rust_vnc.Proxy.Relay.{between}
use rust_vnc.Proxy.Threads.{Running, Reach}
pub mod Ended
mod Tests

abbrev pub unwrap_or : ℕ → Option ℕ → ℕ
unwrap_or default none = default
unwrap_or default (some port) = port

-- The ports, from the arguments that clap reads as u16, `none` where it does not. The sum is made
-- also where it is not needed.
unfoldable pub ports : (connect_port listen_port : Option ℕ) → Result (ℕ × ℕ)
ports connect_port listen_port =
    let connect = unwrap_or 5900 connect_port in
    if ltb (connect + 1) (2 ^ 16) then ok (connect, unwrap_or (connect + 1) listen_port) else panic

-- What the program logs of a client.
pub data Report : Type 0 where
  incoming_failed cannot_connect session_ended : Report
  handshake_failed session_failed : Error → Report

-- What an incoming connection and the connection to the server bring, where they succeed.
pub record Visit : Type 0 where
  pub client : Option Input
  pub server : Option Input

-- The match on `proxy.join()`
abbrev pub session_report : Result (Unit {0}) → Result Report
session_report (ok u) = ok session_ended
session_report (err e) = ok (session_failed e)
session_report panic = panic

-- A round of the loop, in which the threads of a session run in some order until both have ended, or
-- until the one that `join` waits for first, which relays from the client, has panicked.
pub data Serves (v : Visit) : Result Report → Type 0 where
  no_client : v.client ≡ none → Serves v (ok incoming_failed)
  no_server : (ci : Input) → v.client ≡ some ci → v.server ≡ none → Serves v (ok cannot_connect)
  no_handshake :
      (ci si : Input) (e : Error) (l : Link)
      → v.client ≡ some ci
      → v.server ≡ some si
      → from_tcp_streams (between si [] ci []) ≡ (err e, l)
      → Serves v (ok (handshake_failed e))
  handshake_panics :
      (ci si : Input) (l : Link)
      → v.client ≡ some ci
      → v.server ≡ some si
      → from_tcp_streams (between si [] ci []) ≡ (panic, l)
      → Serves v panic
  session :
      (ci si : Input) (f : PixelFormat) (l : Link) (p : Running) (c s : Result (Unit {0}))
      → v.client ≡ some ci
      → v.server ≡ some si
      → from_tcp_streams (between si [] ci []) ≡ (ok f, l)
      → Reach f l p
      → p.c2s ≡ some c
      → p.s2c ≡ some s
      → Serves v (session_report (join c s))
  session_panics :
      (ci si : Input) (f : PixelFormat) (l : Link) (p : Running)
      → v.client ≡ some ci
      → v.server ≡ some si
      → from_tcp_streams (between si [] ci []) ≡ (ok f, l)
      → Reach f l p
      → p.c2s ≡ some panic
      → Serves v panic

-- `for incoming_stream in listener.incoming()`: the reports so far; `panic` ends the program.
pub data Serving : List Visit → Result (List Report) → Type 0 where
  waiting : Serving [] (ok [])
  served :
      {v : Visit} {visits : List Visit} {r : Report} {reports : Result (List Report)}
      → Serves v (ok r)
      → Serving visits reports
      → Serving (v ∷ visits) (bind reports λ rs. ok (r ∷ rs))
  died : {v : Visit} {visits : List Visit} → Serves v panic → Serving (v ∷ visits) panic
