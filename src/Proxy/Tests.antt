-- ===== src/Proxy/Tests.antt =====
-- Runs of src/proxy.rs, and its theorems at concrete inputs.
use rust_vnc.Proxy.Threads.{Running, client_sent, s2c_write_breaks}
use rust_vnc.Proxy.Threads.Rounds.{IsBeginning}
use rust_vnc.Proxy.Threads.Whole.{Reach-relays_whole}
use rust_vnc.Wire.{io, other}
use rust_vnc.Common.{ℕ, ◌⊎◌}
use rust_vnc.Common.{List, [], ◌∷◌, ◌++◌, ◌≡◌, ◌≢◌, refl, arith, true, none, some}
use rust_vnc.Wire.{ok, err, panic, feed, disconnected, write_many, unexpected}
use rust_vnc.Protocol.Security.{SecurityType}
use rust_vnc.Protocol.Init.{ServerInit}
use rust_vnc.Protocol.Encoding
use rust_vnc.Protocol.Frame.{Frame, ring, frame_bytes}
use rust_vnc.Protocol.ServerMessage
use rust_vnc.Wire.Ints.{write_u8, write_u16, write_i32}
use rust_vnc.Protocol.Rectangle.{write_rectangle, write_copy_rect}
use rust_vnc.Protocol.ClientMessage
use rust_vnc.Protocol.ClientMessage.{C2s}
use rust_vnc.Client.Events.Samples.{grey, two_pieces, short_session}
use rust_vnc.Proxy.{Link, retain, encoding_supported, join}
use rust_vnc.Proxy.{forward_s2c, forward_c2s, forward_s2c_round}
use rust_vnc.Proxy.Relay.{between, forward_s2c_round_lem}
use rust_vnc.Proxy.Threads.{Reach, start, later, s2c_relays}
use rust_vnc.Proxy.Behind.{closed, forward_s2c-relays, forward_c2s-relays}

abbrev greeting : ServerInit
greeting = record {
  framebuffer_width = 640;
  framebuffer_height = 480;
  pixel_format = grey;
  name = 97 ∷ [];
}

abbrev offered : List SecurityType
offered = SecurityType.vnc_authentication ∷ SecurityType.none ∷ []

forward_s2c-relays_example :
    forward_s2c grey (between (feed (write_many frame_bytes short_session) closed) [] closed [])
    ≡ (err disconnected, between closed [] closed (write_many frame_bytes short_session))
forward_s2c-relays_example = forward_s2c-relays grey short_session closed [] [] (omega arith)

abbrev requests : List C2s
requests = C2s.set_encodings (Encoding.hextile ∷ Encoding.raw ∷ []) ∷ C2s.key_event true 65 ∷ []

forward_c2s-relays_example :
    forward_c2s (between closed [] (feed (write_many ClientMessage.write_to requests) closed) [])
    ≡ (
      err disconnected,
      between closed
          (write_many ClientMessage.write_to
            (C2s.set_encodings (Encoding.raw ∷ []) ∷ C2s.key_event true 65 ∷ []))
          closed
          [],
    )
unfolding retain encoding_supported
forward_c2s-relays_example = forward_c2s-relays requests closed [] [] (omega arith)

abbrev before : Link
before = between (feed (write_many frame_bytes short_session) closed) [] closed []

abbrev after : Link
after = between (feed (write_many frame_bytes (two_pieces ∷ [])) closed) [] closed (2 ∷ [])

first_round : forward_s2c_round grey before ≡ (ok tt, after)
unfolding write_many ServerMessage.write_to write_u8
first_round =
    forward_s2c_round_lem grey ring (feed (write_many frame_bytes (two_pieces ∷ [])) closed) closed
      [] [] tt tt

one_step : Reach grey before (record { link = after; c2s = none; s2c = none })
one_step = later start (s2c_relays after refl first_round refl)

-- The second message is broken off behind its first byte.
abbrev broken : Running
broken = record { link = client_sent (2 ∷ 0 ∷ []) after; c2s = none; s2c = some (err (io other)) }

whole_round :
    forward_s2c_round grey after ≡ (ok tt, between closed [] closed (2 ∷ frame_bytes two_pieces))
unfolding write_many ServerMessage.write_to write_rectangle write_u8 write_u16 Encoding.write_to
    write_i32 write_copy_rect
whole_round =
    forward_s2c_round_lem grey two_pieces closed closed [] (2 ∷ []) (omega arith) (omega arith)

breaks : Reach grey before broken
unfolding write_many ServerMessage.write_to write_rectangle write_u8 write_u16 Encoding.write_to
    write_i32 write_copy_rect
breaks = later one_step (
    s2c_write_breaks (between closed [] closed (2 ∷ frame_bytes two_pieces)) other (0 ∷ [])
      (0 ∷ 0 ∷ 2 ∷ 0 ∷ 1 ∷ 0 ∷ 2 ∷ 0 ∷ 2 ∷ 0 ∷ 1 ∷ 0 ∷ 0 ∷ 0 ∷ 0 ∷ 7 ∷ 8 ∷ 0 ∷ 0 ∷ 0 ∷ 0 ∷ 0 ∷ 3 ∷ 0
        ∷ 3 ∷ 0 ∷ 0 ∷ 0 ∷ 1 ∷ 0 ∷ 5 ∷ 0 ∷ 6 ∷ [])
      refl whole_round refl refl)

Reach-relays_whole_example :
    (done rest : List Frame) × ((front : List ℕ) × (done ++ rest ≡ short_session)
      × (2 ∷ 0 ∷ [] ≡ write_many frame_bytes done ++ front)
      × IsBeginning grey short_session [] front rest
      × ((front ≡ []) ⊎ (broken.s2c ≢ none))
      × (broken.s2c ≢ some panic))
Reach-relays_whole_example =
    Reach-relays_whole grey short_session before broken (omega arith) refl breaks

joins_errors : join (err disconnected) (err (unexpected "encoding")) ≡ ok tt
unfolding join
joins_errors = refl
