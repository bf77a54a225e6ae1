-- ===== src/Client/Events.antt =====
-- src/client.rs: `Event`, `Event::pump` and the thread that runs it.
use rust_vnc.Common.{ℕ, zero, suc, ◌+◌, ◌-◌, ◌*◌, ◌/◌, List, [], ◌∷◌, ◌++◌, Bool, true, false}
use rust_vnc.Common.{if◌then◌else◌, ◌==◌, Option, none, some}
use rust_vnc.Wire.{Input, Error, Result, ok, err, panic, Reader, Rect, read_exact, available}
use rust_vnc.Wire.{unexpected}
use rust_vnc.Wire.Ints.{read_u32}
use rust_vnc.Wire.Session.{Action, continue, ◌>>=◌, ◌>>◌, return, throw}
use rust_vnc.Protocol.PixelFormat.{PixelFormat}
use rust_vnc.Protocol.Encoding
use rust_vnc.Protocol.Encoding.{Encoding}
use rust_vnc.Protocol.Rectangle.{Rectangle, Colour, read_copy_rect, read_rectangle}
use rust_vnc.Protocol.ServerMessage
use rust_vnc.Protocol.ServerMessage.{S2c}
use rust_vnc.Zrle.Decode.{Zlib, decode}
pub mod Decoded
pub mod Delivery
pub mod Handled
pub mod Pumped
pub mod Safety
pub mod Samples
pub mod Sound
mod Tests

pub data Event : Type 0 where
  disconnected : Option Error → Event
  resize : (width height : ℕ) → Event
  set_colour_map : (first_colour : ℕ) (colours : List Colour) → Event
  put_pixels : Rect → List ℕ → Event
  copy_pixels : (src dst : Rect) → Event
  end_of_frame : Event
  set_cursor : (size hotspot : ℕ × ℕ) (pixels mask_bits : List ℕ) → Event
  clipboard : List ℕ → Event
  bell : Event

-- std's mpsc channel: its receiver takes `room` more events and is dropped then, after which every
-- `send` is refused.
pub record Channel : Type 0 where
  pub sent : List Event
  pub room : ℕ

unfoldable pub push : Event → Channel → Bool × Channel
push event c =
    if c.room == 0
    then (false, c)
    else (true, record { sent = c.sent ++ event ∷ []; room = c.room - 1 })

-- The state of the thread: what its stream still delivers, the channel, and the ZRLE decoder.
pub record Pump (D : Type 0) : Type 0 where
  pub incoming : Input
  pub channel : Channel
  pub decompressor : Option D

module _ {D : Type 0} where
  abbrev pub received : {A : Type 0} → Result (A × Input) → Pump D → Result A × Pump D
  received (ok (a, rest)) s = (ok a, record s { incoming = rest })
  received (err e) s = (err e, s)
  received panic s = (panic, s)

  unfoldable pub receive : {A : Type 0} → Reader A → Action (Pump D) A
  receive read s = received (read s.incoming) s

  -- The macro `send!`: `false` is its `break`.
  unfoldable pub emit : Event → Action (Pump D) Bool
  unfolding push
  emit event s = let (alive, c) = push event s.channel in (ok alive, record s { channel = c })

-- The closure that takes the tiles of a ZRLE rectangle.
unfoldable pub on_tile : Rect → List ℕ → Action Channel Bool
unfolding push
on_tile tile pixels c = let (alive, c') = push (put_pixels tile pixels) c in (ok alive, c')

abbrev pub place : Rectangle → Rect
place r = record { left = r.x_position; top = r.y_position; width = r.width; height = r.height }

-- The bytes of a rectangle's pixels, and of a cursor's mask.
abbrev pub pixel_bytes : PixelFormat → Rectangle → ℕ
pixel_bytes f r = r.width * r.height * (f.bits_per_pixel / 8)

abbrev pub mask_bytes : Rectangle → ℕ
mask_bytes r = (r.width + 7) / 8 * r.height

module _ {D : Type 0} (zlib : Zlib D) where
  unfoldable pub decode_into : PixelFormat → Rect → List ℕ → Action (Pump D) Bool
  unfolding decode on_tile
  decode_into format dst data_bytes s =
      let (result, state) = decode zlib on_tile format dst data_bytes (s.decompressor, s.channel) in
      let (d, c) = state in (result, record s { channel = c; decompressor = d })

  -- The arms of the match on the encoding; `false` is a `break` out of the `for`.
  unfoldable pub show : PixelFormat → Rectangle → Encoding → Action (Pump D) Bool
  unfolding decode_into
  show format r Encoding.raw = do
    pixels ← receive (read_exact (pixel_bytes format r))
    emit (put_pixels (place r) pixels)
  show format r Encoding.copy_rect = do
    c ← receive read_copy_rect
    emit (
        copy_pixels
          (record {
            left = c.src_x_position;
            top = c.src_y_position;
            width = r.width;
            height = r.height;
          })
          (place r))
  show format r Encoding.zrle = do
    length ← receive read_u32
    compressed ← receive (read_exact length)
    decode_into format (place r) compressed
  show format r Encoding.cursor = do
    pixels ← receive (read_exact (pixel_bytes format r))
    mask_bits ← receive (read_exact (mask_bytes r))
    emit (set_cursor (r.width, r.height) (r.x_position, r.y_position) pixels mask_bits)
  show format r Encoding.desktop_size = emit (resize r.width r.height)
  show format r Encoding.rre = throw (unexpected "encoding")
  show format r Encoding.hextile = throw (unexpected "encoding")
  show format r (Encoding.unknown n) = throw (unexpected "encoding")

  -- `for _ in 0..count`
  unfoldable pub rectangles : PixelFormat → ℕ → Action (Pump D) (Unit {0})
  unfolding show
  rectangles format zero = return tt
  rectangles format (suc count) = do
    rectangle ← receive read_rectangle
    more ← show format rectangle rectangle.encoding
    elim more [ true ↦ rectangles format count | false ↦ return tt ]

  -- The arms of the match on the packet; `false` is a `break` out of the `loop`.
  unfoldable pub handle : PixelFormat → S2c → Action (Pump D) Bool
  unfolding rectangles
  handle format (S2c.set_colour_map_entries first_colour colours) =
      emit (set_colour_map first_colour colours)
  handle format (S2c.framebuffer_update count) = do rectangles format count; emit end_of_frame
  handle format S2c.bell = emit bell
  handle format (S2c.cut_text text) = emit (clipboard text)

  abbrev pub on_packet : Result (S2c × Input) → Pump D → Result (Option S2c) × Pump D
  on_packet (ok (packet, rest)) s = (ok (some packet), record s { incoming = rest })
  on_packet (err Error.disconnected) s = (ok none, s)
  on_packet (err e) s = (err e, s)
  on_packet panic s = (panic, s)

  -- `none` is the end of the stream between two messages.
  unfoldable pub next_packet : Action (Pump D) (Option S2c)
  next_packet s = on_packet (ServerMessage.read_from s.incoming) s

  -- `formats k` is what the mutex holds when the packet of number `k` has arrived.
  module _ (formats : ℕ → PixelFormat) where
    unfoldable pub pump_loop : (fuel k : ℕ) → Action (Pump D) (Unit {0})
    unfolding next_packet handle
    pump_loop zero k = return tt
    pump_loop (suc fuel) k = do
      arrived ← next_packet
      elim arrived [
        | none ↦ (do emit (disconnected none); return tt)
        | some packet ↦ do
          more ← handle (formats k) packet
          elim more [ true ↦ pump_loop fuel (suc k) | false ↦ return tt ]
      ]

    -- Every packet takes a byte at least.
    unfoldable pub pump : Action (Pump D) (Unit {0})
    pump s = pump_loop (suc (available s.incoming)) 0 s

    abbrev pub finish : Result (Unit {0}) × Pump D → Channel
    finish (ok u, s) = (push (disconnected none) s.channel).1
    finish (err e, s) = (push (disconnected (some e)) s.channel).1
    finish (panic, s) = s.channel

    -- The body of the thread: the channel that it leaves behind. A panic ends the thread.
    unfoldable pub event_thread : Input → Channel → Channel
    event_thread incoming c =
        finish (pump (record { incoming = incoming; channel = c; decompressor = some zlib.fresh }))
