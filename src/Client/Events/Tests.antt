-- ===== src/Client/Events/Tests.antt =====
-- Runs of the event thread of src/client.rs, and its theorems at concrete inputs.
use rust_vnc.Common.{ℕ, some, refl, All, [], ◌∷◌, ◌≡◌, arith}
use rust_vnc.Wire.{ends, feed, unexpected_eof, write_many}
use rust_vnc.Protocol.Frame.{frame_bytes}
use rust_vnc.Wire.{io, read_exact}
use rust_vnc.Wire.Ints
use rust_vnc.Protocol.ServerMessage
use rust_vnc.Protocol.Rectangle.{read_rectangle}
use rust_vnc.Protocol.Encoding
use rust_vnc.Zrle
use rust_vnc.Zrle.Decode
use rust_vnc.Zrle.Pixels
use rust_vnc.Zrle.Palette
use rust_vnc.Client.Events.{
  Channel, event_thread, put_pixels, copy_pixels, bell, end_of_frame, disconnected,
}
use rust_vnc.Client.Events.{
  pump, pump_loop, next_packet, handle, rectangles, show, receive, emit, push,
}
use rust_vnc.Client.Events.{decode_into, on_tile}
use rust_vnc.Client.Events.Samples.{stored, grey, short_session, solid_update}
use rust_vnc.Client.Events.Pumped.{event_thread-frames}
use rust_vnc.Client.Events.Sound.{IsSound}
use rust_vnc.Client.Events.Safety.{event_thread-Sound}

abbrev open_channel : ℕ → Channel
open_channel room = record { sent = []; room = room }

-- The receiver is dropped after three of the six events.
event_thread-frames_example :
    (event_thread stored
      (λ k. grey)
      (feed (write_many frame_bytes short_session) (ends unexpected_eof))
      (open_channel 3)).sent
    ≡ bell
      ∷ put_pixels (record { left = 1; top = 2; width = 2; height = 1 }) (7 ∷ 8 ∷ [])
      ∷ copy_pixels
          (record { left = 5; top = 6; width = 3; height = 3 })
          (record { left = 0; top = 0; width = 3; height = 3 })
      ∷ []
event_thread-frames_example =
    event_thread-frames stored (λ k. grey) short_session (open_channel 3) (omega arith)

-- The tile, the end of the update, and the error in the next message.
solid_events :
    (event_thread stored (λ k. grey) solid_update (open_channel 9)).sent
    ≡ put_pixels (record { left = 3; top = 4; width = 2; height = 1 }) (9 ∷ 9 ∷ [])
      ∷ end_of_frame
      ∷ disconnected (some (io unexpected_eof))
      ∷ []
unfolding event_thread pump pump_loop next_packet handle rectangles show receive emit push
    decode_into on_tile ServerMessage.read_from ServerMessage.read_body
    ServerMessage.read_framebuffer_update Ints.read_u16 Ints.read_u32 Ints.read_i32 read_exact
    read_rectangle Encoding.read_from Encoding.of_i32 Decode.decode Decode.decode_rows
    Decode.decode_columns Decode.decode_tile Decode.tile_rect Decode.into_inner Pixels.pixel_layout
    Pixels.layout_of Pixels.pixel_mask Pixels.shifted Pixels.through Pixels.tile_pixels
    Pixels.copy_indexed_times Palette.copy_indexed Palette.read_palette Palette.copy_true_color
    Palette.expand Zrle.tile_extent Zrle.read_bit Zrle.read_bits Zrle.refill Zrle.take_bits
    Zrle.align
solid_events = refl

event_thread-Sound_example :
    All (IsSound (λ k. grey)) (event_thread stored (λ k. grey) solid_update (open_channel 9)).sent
event_thread-Sound_example = event_thread-Sound stored (λ k. grey) solid_update (open_channel 9) tt
