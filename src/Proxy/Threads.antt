-- ===== src/Proxy/Threads.antt =====
-- src/proxy.rs: the two threads in any interleaving of their rounds. A round is one step, whole or
-- broken off where a read or a write of it fails; a thread that returns shuts both streams down,
-- after which nothing more arrives on either.
use rust_vnc.Common.{ℕ, List, ◌++◌, ◌≡◌, Option, none, some}
use rust_vnc.Wire.{Error, IoErrorKind, Result, ok, err, panic, io, ends, unexpected_eof}
use rust_vnc.Protocol.PixelFormat.{PixelFormat}
use rust_vnc.Proxy.{Link, forward_c2s_round, forward_s2c_round}
pub mod Half
pub mod Rounds
pub mod Whole

pub record Running : Type 0 where
  pub link : Link
  pub c2s : Option (Result (Unit {0}))
  pub s2c : Option (Result (Unit {0}))

-- `shutdown(Shutdown::Both)` on both streams
unfoldable pub shut : Link → Link
shut l = record {
  server = record { incoming = ends unexpected_eof; outgoing = l.server.outgoing };
  client = record { incoming = ends unexpected_eof; outgoing = l.client.outgoing };
}

-- What was sent to a side.
abbrev pub client_sent : List ℕ → Link → Link
client_sent bytes l = record l { client = record l.client { outgoing = bytes } }

abbrev pub server_sent : List ℕ → Link → Link
server_sent bytes l = record l { server = record l.server { outgoing = bytes } }

-- A thread that is not done takes a round; an error ends it and shuts the streams down, a panic
-- ends it without that. A connection may also break at any time, as it does where the other thread
-- shuts it down in the middle of a round: in a read, where nothing of the round is written, or in
-- the write, of which a beginning is sent. The shutdown behind that is a step of its own, since the
-- other thread may go on meanwhile.
pub data Step (f : PixelFormat) (p q : Running) : Type 0 where
  c2s_relays :
      (l : Link)
      → p.c2s ≡ none
      → forward_c2s_round p.link ≡ (ok tt, l)
      → q ≡ record p { link = l }
      → Step f p q
  c2s_stops :
      (l : Link) (e : Error)
      → p.c2s ≡ none
      → forward_c2s_round p.link ≡ (err e, l)
      → q ≡ record p { link = shut l; c2s = some (err e) }
      → Step f p q
  c2s_panics :
      (l : Link)
      → p.c2s ≡ none
      → forward_c2s_round p.link ≡ (panic, l)
      → q ≡ record p { link = l; c2s = some panic }
      → Step f p q
  s2c_relays :
      (l : Link)
      → p.s2c ≡ none
      → forward_s2c_round f p.link ≡ (ok tt, l)
      → q ≡ record p { link = l }
      → Step f p q
  s2c_stops :
      (l : Link) (e : Error)
      → p.s2c ≡ none
      → forward_s2c_round f p.link ≡ (err e, l)
      → q ≡ record p { link = shut l; s2c = some (err e) }
      → Step f p q
  s2c_panics :
      (l : Link)
      → p.s2c ≡ none
      → forward_s2c_round f p.link ≡ (panic, l)
      → q ≡ record p { link = l; s2c = some panic }
      → Step f p q
  c2s_read_breaks :
      (k : IoErrorKind) → p.c2s ≡ none → q ≡ record p { c2s = some (err (io k)) } → Step f p q
  c2s_write_breaks :
      (l : Link) (k : IoErrorKind) (front back : List ℕ)
      → p.c2s ≡ none
      → forward_c2s_round p.link ≡ (ok tt, l)
      → l.server.outgoing ≡ p.link.server.outgoing ++ (front ++ back)
      → q ≡ record p {
        link = server_sent (p.link.server.outgoing ++ front) p.link;
        c2s = some (err (io k));
      }
      → Step f p q
  s2c_read_breaks :
      (k : IoErrorKind) → p.s2c ≡ none → q ≡ record p { s2c = some (err (io k)) } → Step f p q
  s2c_write_breaks :
      (l : Link) (k : IoErrorKind) (front back : List ℕ)
      → p.s2c ≡ none
      → forward_s2c_round f p.link ≡ (ok tt, l)
      → l.client.outgoing ≡ p.link.client.outgoing ++ (front ++ back)
      → q ≡ record p {
        link = client_sent (p.link.client.outgoing ++ front) p.link;
        s2c = some (err (io k));
      }
      → Step f p q
  c2s_shuts : (e : Error) → p.c2s ≡ some (err e) → q ≡ record p { link = shut p.link } → Step f p q
  s2c_shuts : (e : Error) → p.s2c ≡ some (err e) → q ≡ record p { link = shut p.link } → Step f p q

pub data Reach (f : PixelFormat) (l : Link) : Running → Type 0 where
  start : Reach f l (record { link = l; c2s = none; s2c = none })
  later : {p q : Running} → Reach f l p → Step f p q → Reach f l q
