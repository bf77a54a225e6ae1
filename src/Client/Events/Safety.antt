-- ===== src/Client/Events/Safety.antt =====
-- src/client.rs: what holds of every event, whatever a server sends.
use rust_vnc.Common.{ℕ, zero, suc, List, ◌≡◌}
use rust_vnc.Common.{true, false, length, arith, All, Option, none, some}
use rust_vnc.Wire.{Error, Input, Result, ok, err, panic, Reader, Rect, available, read_exact}
use rust_vnc.Wire.Ints.{read_u32}
use rust_vnc.Wire.Outcome.{Gives, read_exact-Gives, anything, Always, bind-Always, elim-Always}
use rust_vnc.Wire.Session.{Action, return, ◌>>=◌, ◌>>◌}
use rust_vnc.Protocol.PixelFormat.{PixelFormat}
use rust_vnc.Protocol.Encoding.{Encoding}
use rust_vnc.Protocol.Rectangle.{Rectangle, read_rectangle, read_copy_rect}
use rust_vnc.Protocol.ServerMessage
use rust_vnc.Protocol.ServerMessage.{S2c}
use rust_vnc.Zrle.Decode.{Zlib}
use rust_vnc.Zrle.Decode.{decode}
use rust_vnc.Client.Events.{Event, Channel, push, Pump, receive, emit, on_tile, decode_into, show}
use rust_vnc.Client.Events.{
  rectangles, handle, next_packet, pump_loop, pump, event_thread, finish, place,
}
use rust_vnc.Client.Events.{
  put_pixels, copy_pixels, set_cursor, resize, end_of_frame, set_colour_map,
}
use rust_vnc.Client.Events.{clipboard, bell, disconnected}
use rust_vnc.Client.Events
use rust_vnc.Client.Events.Sound.{IsSound, Sound, push-Sound}
use rust_vnc.Client.Events.Decoded.{decode-Sound}

module _ (formats : ℕ → PixelFormat) where
  -- The loop over the server's messages.
  module _ {D : Type 0} (zlib : Zlib D) where
    abbrev Upheld : Pump D → Type 0
    Upheld s = Sound formats s.channel

    abbrev Anything : {A : Type 0} → A → Type 0
    Anything a = Unit {0}

    receive-Always :
        {A : Type 0} (read : Reader A) (Q : A → Type 0)
        → ((i : Input) → Gives (read i) (λ x. Q x.0))
        → Always Upheld (receive {D = D} read) Q
    unfolding receive
    receive-Always {A} read Q h s v = after (read s.incoming) (h s.incoming)
      where
        after :
            (r : Result (A × Input))
            → Gives r (λ x. Q x.0)
            → Upheld (Events.received r s).1 × Gives (Events.received r s).0 Q
        after (ok x) q = (v, q)
        after (err e) q = (v, tt)
        after panic q = (v, tt)

    receive_any-Always :
        {A : Type 0} (read : Reader A) → Always Upheld (receive {D = D} read) Anything
    receive_any-Always read = receive-Always read Anything λ i. anything (read i)

    emit-Always : (e : Event) → IsSound formats e → Always Upheld (emit {D = D} e) Anything
    unfolding emit
    emit-Always e h s v = (push-Sound formats e s.channel h v, tt)

    -- Buffers that are read in full have the length that was asked for.
    buffer-Always :
        {A : Type 0} (n : ℕ) (next : List ℕ → Action (Pump D) A)
        → ((bytes : List ℕ) → length bytes ≡ n → Always Upheld (next bytes) Anything)
        → Always Upheld (receive (read_exact n) >>= next) Anything
    buffer-Always n next h =
        bind-Always Upheld (receive (read_exact n)) next (λ bytes. length bytes ≡ n) Anything
          (receive-Always (read_exact n) (λ bytes. length bytes ≡ n) (read_exact-Gives n)) h

    value-Always :
        {A B : Type 0} (read : Reader A) (next : A → Action (Pump D) B)
        → ((a : A) → Always Upheld (next a) Anything)
        → Always Upheld (receive read >>= next) Anything
    value-Always read next h =
        bind-Always Upheld (receive read) next Anything Anything (receive_any-Always read)
          λ a u. h a

    decode_into-Always :
        (k : ℕ) (dst : Rect) (bytes : List ℕ)
        → Always Upheld (decode_into zlib (formats k) dst bytes) Anything
    unfolding decode_into
    decode_into-Always k dst bytes s v = (
      decode-Sound formats zlib k dst bytes s.decompressor s.channel v,
      anything (decode zlib on_tile (formats k) dst bytes (s.decompressor, s.channel)).0,
    )

    show-Always :
        (k : ℕ) (r : Rectangle) (e : Encoding) → Always Upheld (show zlib (formats k) r e) Anything
    unfolding show
    show-Always k r Encoding.raw =
        buffer-Always (Events.pixel_bytes (formats k) r) _
          λ pixels e. emit-Always (put_pixels (place r) pixels) (k, omega arith)
    show-Always k r Encoding.copy_rect = value-Always read_copy_rect _ λ c. emit-Always _ (k, tt)
    show-Always k r Encoding.zrle =
        value-Always read_u32 _
          λ n. value-Always (read_exact n) _ λ bytes. decode_into-Always k (place r) bytes
    show-Always k r Encoding.cursor =
        buffer-Always (Events.pixel_bytes (formats k) r) _ λ pixels e.
          buffer-Always (Events.mask_bytes r) _ λ mask_bits e'. emit-Always _ (k, (e, e'))
    show-Always k r Encoding.desktop_size = emit-Always _ (k, tt)
    show-Always k r Encoding.rre = λ s v. (v, tt)
    show-Always k r Encoding.hextile = λ s v. (v, tt)
    show-Always k r (Encoding.unknown n) = λ s v. (v, tt)

    next_packet-Always : Always Upheld (next_packet zlib) Anything
    unfolding next_packet
    next_packet-Always s v = after (ServerMessage.read_from s.incoming)
      where
        after :
            (r : Result (S2c × Input))
            → Upheld (Events.on_packet zlib r s).1 × Gives (Events.on_packet zlib r s).0 Anything
        after (ok x) = (v, tt)
        after (err Error.disconnected) = (v, tt)
        after (err (Error.io k)) = (v, tt)
        after (err (Error.unexpected w)) = (v, tt)
        after (err (Error.server w)) = (v, tt)
        after (err Error.authentication_unavailable) = (v, tt)
        after (err (Error.authentication_failure w)) = (v, tt)
        after panic = (v, tt)

    rectangles-Always : (k count : ℕ) → Always Upheld (rectangles zlib (formats k) count) Anything
    unfolding rectangles
    rectangles-Always k zero = λ s v. (v, tt)
    rectangles-Always k (suc count) = value-Always read_rectangle _ λ r.
        bind-Always Upheld (show zlib (formats k) r r.encoding) _ Anything Anything
          (show-Always k r r.encoding)
          λ more u.
            elim-Always Upheld more (rectangles zlib (formats k) count) (return tt) Anything
              (rectangles-Always k count) λ s v. (v, tt)

    handle-Always : (k : ℕ) (packet : S2c) → Always Upheld (handle zlib (formats k) packet) Anything
    unfolding handle
    handle-Always k (S2c.set_colour_map_entries first_colour colours) = emit-Always _ (k, tt)
    handle-Always k (S2c.framebuffer_update count) =
        bind-Always Upheld (rectangles zlib (formats k) count) _ Anything Anything
          (rectangles-Always k count) λ a u. emit-Always end_of_frame (k, tt)
    handle-Always k S2c.bell = emit-Always _ (k, tt)
    handle-Always k (S2c.cut_text text) = emit-Always _ (k, tt)

    pump_loop-Always : (fuel k : ℕ) → Always Upheld (pump_loop zlib formats fuel k) Anything
    unfolding pump_loop emit
    pump_loop-Always zero k = λ s v. (v, tt)
    pump_loop-Always (suc fuel) k =
        bind-Always Upheld (next_packet zlib) _ Anything Anything next_packet-Always
          λ arrived u. arrival arrived (pump_loop-Always fuel (suc k))
      where
        arrival :
            (a : Option S2c)
            → Always Upheld (pump_loop zlib formats fuel (suc k)) Anything
            → Always Upheld
                (elim a as (λ _. Action (Pump D) (Unit {0})) [
                  | none ↦ (do emit (disconnected none); return tt)
                  | some packet ↦ (do
                    more ← handle zlib (formats k) packet
                    elim more [ true ↦ pump_loop zlib formats fuel (suc k) | false ↦ return tt ])
                ])
                Anything
        arrival none later = λ s v. (push-Sound formats (disconnected none) s.channel (k, tt) v, tt)
        arrival (some packet) later =
            bind-Always Upheld (handle zlib (formats k) packet) _ Anything Anything
              (handle-Always k packet)
              λ more u.
                elim-Always Upheld more (pump_loop zlib formats fuel (suc k)) (return tt) Anything
                  later λ s v. (v, tt)

    finish-Sound :
        (r : Result (Unit {0})) (s : Pump D)
        → Sound formats s.channel
        → Sound formats (finish zlib formats (r, s))
    finish-Sound (ok u) s v = push-Sound formats (disconnected none) s.channel (0, tt) v
    finish-Sound (err e) s v = push-Sound formats (disconnected (some e)) s.channel (0, tt) v
    finish-Sound panic s v = v

-- Whatever the server sends and wherever its stream ends, and whatever zlib makes of the data of
-- ZRLE rectangles, the channel is left with events that fit: with the bytes per pixel of a format
-- that the mutex held at a message, a PutPixels has at least as many bytes as its rectangle takes,
-- and a SetCursor has exactly the bytes of its size for its pixels, and for its mask a bit for each
-- pixel of rows that are rounded up to bytes; if what the channel held at the start does so too.
pub event_thread-Sound :
    {D : Type 0} (zlib : Zlib D) (formats : ℕ → PixelFormat) (incoming : Input) (c : Channel)
    → All (IsSound formats) c.sent
    → All (IsSound formats) (event_thread zlib formats incoming c).sent
unfolding event_thread pump
event_thread-Sound {D} zlib formats incoming c v =
    let start : Pump D = record {
      incoming = incoming;
      channel = c;
      decompressor = some zlib.fresh;
    } in
    let ended : Result (Unit {0}) × Pump D =
      pump_loop zlib formats (suc (available incoming)) 0 start in
    finish-Sound formats zlib ended.0 ended.1
      (pump_loop-Always formats zlib (suc (available incoming)) 0 start v).0
