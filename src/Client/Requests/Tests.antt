-- ===== src/Client/Requests/Tests.antt =====
-- Calls of the methods of `Client` in src/client.rs, and the theorems on them at concrete inputs.
use rust_vnc.Common.{List, [], ◌∷◌, ◌++◌, true, ◌≡◌, refl, arith, Option, none, some, map}
use rust_vnc.Wire.{ends, ok, feed, unexpected_eof, read_many}
use rust_vnc.Protocol.ClientMessage
use rust_vnc.Protocol.ClientMessage.{C2s}
use rust_vnc.Protocol.Encoding
use rust_vnc.Client.Handshake.{Client}
use rust_vnc.Client.Events.{Event, put_pixels, resize, bell, disconnected}
use rust_vnc.Client.Events.Samples.{grey}
use rust_vnc.Client.Requests.{set_format, is_frame, rect_eq, resized}
use rust_vnc.Client.Requests.Waiting.{session, whole, asked, set_format-completes, set_format_hangs}
use rust_vnc.Client.Requests.Sent.{Call, encodings, update, key, pointer, meaning, perform_all}
use rust_vnc.Client.Requests.Sent.{perform_all-read_many}

abbrev screen : Client
screen = record { name = 88 ∷ []; size = (4, 3); format = grey }

-- The framebuffer has grown before the call, and shrinks again while it waits.
abbrev quiet : List Event
quiet = bell ∷ resize 8 6 ∷ []

abbrev waiting : List (Option Event)
waiting =
    some (put_pixels (record { left = 0; top = 0; width = 4; height = 3 }) [])
    ∷ none
    ∷ some (resize 2 2)
    ∷ []

set_format-completes_example :
    set_format 4 grey (
      session screen [] (
        map some quiet
        ++ none
          ∷ (waiting
              ++ some (put_pixels (whole quiet waiting screen [] grey) (1 ∷ [])) ∷ some bell ∷ [])))
    ≡ some (
        session
          (record { name = 88 ∷ []; size = (2, 2); format = grey })
          (asked quiet waiting screen [] grey ++ ClientMessage.write_to (C2s.set_pixel_format grey))
          (some bell ∷ []))
unfolding is_frame rect_eq resized
set_format-completes_example =
    set_format-completes quiet waiting screen [] grey (1 ∷ []) (some bell ∷ []) 4
      (refl, (tt, (refl, tt))) (omega arith)

-- The connection ends while the call waits.
set_format_hangs_example :
    set_format 1000 grey
      (session screen [] (map some quiet ++ none ∷ some (disconnected none) ∷ []))
    ≡ none
unfolding is_frame resized
set_format_hangs_example =
    set_format_hangs quiet (some (disconnected none) ∷ []) screen [] grey 1000 (refl, tt)

abbrev calls : List Call
calls =
    encodings (Encoding.zrle ∷ Encoding.raw ∷ [])
    ∷ update (record { left = 1; top = 2; width = 30; height = 40 }) true
    ∷ key true 0xff0d
    ∷ pointer 1 640 480
    ∷ []

perform_all-read_many_example :
    read_many ClientMessage.read_from 4 (
      feed
        (perform_all calls (record { client = screen; outgoing = []; polls = [] })).outgoing
        (ends unexpected_eof))
    ≡ ok (map (meaning grey) calls, ends unexpected_eof)
perform_all-read_many_example = perform_all-read_many calls screen [] (ends unexpected_eof) (
  ((tt, (tt, tt)), omega arith),
  (
    (omega arith, omega arith, omega arith, omega arith),
    (omega arith, ((omega arith, omega arith, omega arith), tt)),
  ),
)
