-- ===== src/Client/Events/Pumped.antt =====
-- src/client.rs: `Event::pump` on the messages of a server.
use rust_vnc.Common.{ℕ, zero, suc, ◌≤◌, ◌<◌, List, [], ◌∷◌, ◌++◌, Bool, true, false}
use rust_vnc.Common.{◌≡◌, refl, ap, sym, ◌∙◌, arith, leb, Option, none, some, inl, inr}
use rust_vnc.Common.{length, take, length-append}
use rust_vnc.Wire.{
  Result, Input, ends, ok, feed, feed-append, available, available-feed, write_many,
}
use rust_vnc.Wire.{unexpected_eof}
use rust_vnc.Wire.Session.{continue, return}
use rust_vnc.Protocol.PixelFormat.{PixelFormat}
use rust_vnc.Protocol.Frame.{Frame, update, colour_map, ring, clip}
use rust_vnc.Protocol.Frame.{packet, packet_bytes, pieces_bytes, frame_bytes, IsFrame}
use rust_vnc.Protocol.Frame.{read_packet}
use rust_vnc.Zrle.Decode.{Zlib}
use rust_vnc.Client.Events.{
  Event, Channel, push, Pump, receive, emit, rectangles, handle, end_of_frame,
}
use rust_vnc.Client.Events.{next_packet, pump_loop, pump, event_thread}
use rust_vnc.Client.Events
use rust_vnc.Protocol.ServerMessage
use rust_vnc.Wire.{read_u8}
use rust_vnc.Wire.Ints.{write_u8}
use rust_vnc.Common.{Bool-cases, leb→le}
use rust_vnc.Client.Events.Delivery.{
  deliver, deliver_full, deliver-append, deliver_room, deliver_sent, at, events, IsPlainFrame,
}
use rust_vnc.Client.Events.Handled.{handle_lem}

-- `send!` and the end of the loop.
emit_any :
    {D : Type 0} (e : Event) (i : Input) (c : Channel) (d : Option D)
    → continue (emit e (at i c d)) (λ b. return {A = Unit {0}} tt) ≡ (ok tt, at i (push e c).1 d)
unfolding emit
emit_any e i c d = refl

-- Every message is a byte at least.
some_byte : (fr : Frame) → 1 ≤ length (frame_bytes fr)
unfolding write_u8 ServerMessage.write_to
some_byte (update pieces) = omega arith
some_byte (colour_map first_colour colours) = omega arith
some_byte ring = omega arith
some_byte (clip text) = omega arith

pub length-frames : (frames : List Frame) → length frames ≤ length (write_many frame_bytes frames)
unfolding write_many
length-frames [] = omega arith
length-frames (fr ∷ frames) = omega (
  arith,
  length-append (frame_bytes fr) (write_many frame_bytes frames),
  some_byte fr,
  length-frames frames,
)

module _ {D : Type 0} (zlib : Zlib D) (formats : ℕ → PixelFormat) where
  -- A server's messages from number `k` on, each with rectangles that fit the format of the time,
  -- none of them compressed.
  abbrev pub AreFrames : ℕ → List Frame → Type 0
  AreFrames k [] = Unit {0}
  AreFrames k (fr ∷ frames) = IsFrame (formats k) fr × IsPlainFrame fr × AreFrames (suc k) frames

  -- What they give, up to the end of the stream.
  abbrev pub session_events : List Frame → List Event
  session_events [] = Events.disconnected none ∷ []
  session_events (fr ∷ frames) = events fr ++ session_events frames

  next_packet_lem :
      (fr : Frame) (f : PixelFormat) (i : Input) (c : Channel) (d : Option D)
      → IsFrame f fr
      → next_packet zlib (at (feed (frame_bytes fr) i) c d)
        ≡ (ok (some (packet fr)), at (feed (pieces_bytes fr) i) c d)
  unfolding next_packet
  next_packet_lem fr f i c d h =
      rw
        (
          feed-append (packet_bytes fr) (pieces_bytes fr) i,
          read_packet f fr h (feed (pieces_bytes fr) i),
        )
        refl

  at_the_end :
      (c : Channel) (d : Option D)
      → next_packet zlib (at (ends unexpected_eof) c d) ≡ (ok none, at (ends unexpected_eof) c d)
  unfolding next_packet ServerMessage.read_from read_u8
  at_the_end c d = refl

  abbrev Pumped : Result (Unit {0}) × Pump D → List Event → Channel → Option D → Type 0
  Pumped outcome es c d = (j : Input) × (outcome ≡ (ok tt, at j (deliver es c) d))

  -- Where the receiver was dropped, nothing more arrives.
  nothing_more :
      (es more : List Event) (c : Channel)
      → leb (length es) c.room ≡ false
      → deliver (es ++ more) c ≡ deliver es c
  nothing_more es more c h =
      deliver-append es more c
      ∙ deliver_full more (deliver es c) (ground (arith, deliver_room es c))

  abbrev go_on : Bool → (fuel k : ℕ) → Pump D → Result (Unit {0}) × Pump D
  go_on true fuel k s = pump_loop zlib formats fuel (suc k) s
  go_on false fuel k s = (ok tt, s)

  -- One round of the `loop`.
  pump_round :
      (fr : Frame) (rest : List ℕ) (fuel k : ℕ) (i : Input) (c : Channel) (d : Option D)
      → IsFrame (formats k) fr
      → IsPlainFrame fr
      → (j : Input) × (pump_loop zlib formats
            (suc fuel)
            k
            (at (feed (frame_bytes fr ++ rest) i) c d)
          ≡ go_on (leb (length (events fr)) c.room) fuel k (at j (deliver (events fr) c) d))
        × (length (events fr) ≤ c.room → j ≡ feed rest i)
  unfolding pump_loop
  pump_round fr rest fuel k i c d h plain =
      let (j, handled, whole) = handle_lem zlib (formats k) fr (feed rest i) c d h plain in
      (
        j,
        rw
            (
              feed-append (frame_bytes fr) rest i,
              next_packet_lem fr (formats k) (feed rest i) c d h,
              handled,
            )
            (same (leb (length (events fr)) c.room) (at j (deliver (events fr) c) d)),
        whole,
      )
    where
      same :
          (b : Bool) (s : Pump D)
          → (elim b as (λ _. Pump D → Result (Unit {0}) × Pump D) [
            | true ↦ pump_loop zlib formats fuel (suc k)
            | false ↦ return tt
          ])
              s
            ≡ go_on b fuel k s
      same true s = refl
      same false s = refl

  pump_ends :
      (fuel k : ℕ) (c : Channel) (d : Option D)
      → pump_loop zlib formats (suc fuel) k (at (ends unexpected_eof) c d)
        ≡ (ok tt, at (ends unexpected_eof) (push (Events.disconnected none) c).1 d)
  unfolding pump_loop
  pump_ends fuel k c d =
      rw (at_the_end c d) (emit_any (Events.disconnected none) (ends unexpected_eof) c d)

  pump_loop_lem :
      (frames : List Frame) (fuel k : ℕ) (c : Channel) (d : Option D)
      → length frames < fuel
      → AreFrames k frames
      → Pumped
          (pump_loop zlib formats fuel k
            (at (feed (write_many frame_bytes frames) (ends unexpected_eof)) c d))
          (session_events frames)
          c
          d
  unfolding write_many
  pump_loop_lem frames zero k c d enough valid = absurd (omega arith)
  pump_loop_lem [] (suc fuel) k c d enough valid = (ends unexpected_eof, pump_ends fuel k c d)
  pump_loop_lem (fr ∷ frames) (suc fuel) k c d enough (h, plain, valid) =
      let more = session_events frames in
      let (j, round, whole) =
        pump_round fr (write_many frame_bytes frames) fuel k (ends unexpected_eof) c d h plain in
      let later = pump_loop_lem frames fuel (suc k) (deliver (events fr) c) d (omega arith) valid in
      elim (Bool-cases (leb (length (events fr)) c.room)) [
        | inl all ↦ (
          later.0,
          round
              ∙ rw (all, whole (leb→le _ _ all))
                  (later.1
                    ∙ ap (λ c'. (ok tt, at later.0 c' d))
                        (sym (deliver-append (events fr) more c))),
        )
        | inr few ↦ (
          j,
          round
              ∙ (rw few
                  (ap (λ c'. (ok tt, at j c' d)) (sym (nothing_more (events fr) more c few)))),
        )
      ]

  -- The thread sends the events of all messages in order, then that the connection has ended, which
  -- the loop and the thread both report; of these the receiver gets as many as it takes, whenever it
  -- is dropped. The fields of the messages fit their types, the rectangles fit the pixel format of
  -- the time, none is compressed, and clipboard text is ASCII.
  pub event_thread-frames :
      (frames : List Frame) (c : Channel)
      → AreFrames 0 frames
      → (event_thread zlib formats
          (feed (write_many frame_bytes frames) (ends unexpected_eof))
          c).sent
        ≡ c.sent ++ take c.room (session_events frames ++ Events.disconnected none ∷ [])
  unfolding event_thread pump
  event_thread-frames frames c valid =
      let bytes = write_many frame_bytes frames in
      let size = available-feed bytes (ends unexpected_eof) in
      let (j, pumped) =
        pump_loop_lem frames (suc (available (feed bytes (ends unexpected_eof)))) 0 c
          (some zlib.fresh) (omega (arith, size, length-frames frames)) valid in
      let es = session_events frames in
      ap (λ r. (Events.finish zlib formats r).sent) pumped
      ∙ ap (λ (c' : Channel). c'.sent) (sym (deliver-append es (Events.disconnected none ∷ []) c))
      ∙ deliver_sent (es ++ Events.disconnected none ∷ []) c
