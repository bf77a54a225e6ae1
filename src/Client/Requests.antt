-- ===== src/Client/Requests.antt =====
-- src/client.rs: the methods of `Client` on a connection.
use rust_vnc.Common.{ℕ, zero, suc, List, [], ◌∷◌, ◌++◌, Bool, true, false, length, ◌==◌, ◌&&◌}
use rust_vnc.Common.{if◌then◌else◌, Option, none, some}
use rust_vnc.Wire.{Rect}
use rust_vnc.Protocol.PixelFormat.{PixelFormat}
use rust_vnc.Protocol.Encoding.{Encoding}
use rust_vnc.Protocol.ClientMessage
use rust_vnc.Protocol.ClientMessage.{C2s}
use rust_vnc.Client.Handshake.{Client}
use rust_vnc.Client.Events.{Event, put_pixels, resize, disconnected, set_colour_map, copy_pixels}
use rust_vnc.Client.Events.{end_of_frame, set_cursor, clipboard, bell}
pub mod Waiting
pub mod Sent
mod Tests

-- The client, what it has sent, and what each of the calls of `try_recv` will find in turn: `none`
-- where the channel is empty at that time. Behind the last one nothing arrives.
pub record Session : Type 0 where
  pub client : Client
  pub outgoing : List ℕ
  pub polls : List (Option Event)

unfoldable pub write : C2s → Session → Session
write message s = record s { outgoing = s.outgoing ++ ClientMessage.write_to message }

unfoldable pub set_encodings : List Encoding → Session → Session
unfolding write
set_encodings encodings = write (C2s.set_encodings encodings)

unfoldable pub request_update : Rect → Bool → Session → Session
unfolding write
request_update rect incremental =
    write (C2s.framebuffer_update_request incremental rect.left rect.top rect.width rect.height)

unfoldable pub send_key_event : Bool → ℕ → Session → Session
unfolding write
send_key_event down key = write (C2s.key_event down key)

unfoldable pub send_pointer_event : (buttons x y : ℕ) → Session → Session
unfolding write
send_pointer_event buttons x y = write (C2s.pointer_event buttons x y)

unfoldable pub update_clipboard : List ℕ → Session → Session
unfolding write
update_clipboard text = write (C2s.cut_text text)

unfoldable pub poke_qemu : Session → Session
unfolding write
poke_qemu s = write (C2s.set_pixel_format s.client.format) s

-- A resize that is taken off the channel is the client's size from then on.
unfoldable pub resized : Event → Client → Client
resized (resize width height) c = record c { size = (width, height) }
resized (disconnected e) c = c
resized (set_colour_map first_colour colours) c = c
resized (put_pixels rect pixels) c = c
resized (copy_pixels src dst) c = c
resized end_of_frame c = c
resized (set_cursor size hotspot pixels mask_bits) c = c
resized (clipboard text) c = c
resized bell c = c

abbrev pub polled : List (Option Event) → Session → Option Event × Session
polled [] s = (none, s)
polled (none ∷ polls) s = (none, record s { polls = polls })
polled (some event ∷ polls) s =
    (some event, record s { client = resized event s.client; polls = polls })

unfoldable pub poll_event : Session → Option Event × Session
unfolding resized
poll_event s = polled s.polls s

-- `poll_iter().count()`: each event of the count takes one of the polls.
unfoldable pub count_events : ℕ → Session → ℕ × Session
unfolding poll_event
count_events zero s = (0, s)
count_events (suc fuel) s =
    let (event, s') = poll_event s in
    let (count, after) = count_events fuel s' in
    elim event [ none ↦ (0, s') | some e ↦ (suc count, after) ]

unfoldable pub drain : Session → ℕ × Session
unfolding count_events
drain s = count_events (suc (length s.polls)) s

unfoldable pub rect_eq : Rect → Rect → Bool
rect_eq r q = r.left == q.left && r.top == q.top && r.width == q.width && r.height == q.height

-- The guard of the match in `set_format`.
unfoldable pub is_frame : Rect → Event → Bool
unfolding rect_eq
is_frame framebuffer_rect (put_pixels rect pixels) = rect_eq rect framebuffer_rect
is_frame framebuffer_rect (disconnected e) = false
is_frame framebuffer_rect (resize width height) = false
is_frame framebuffer_rect (set_colour_map first_colour colours) = false
is_frame framebuffer_rect (copy_pixels src dst) = false
is_frame framebuffer_rect end_of_frame = false
is_frame framebuffer_rect (set_cursor size hotspot pixels mask_bits) = false
is_frame framebuffer_rect (clipboard text) = false
is_frame framebuffer_rect bell = false

-- The inner `for`: whether it was left by `break 'outer`.
unfoldable pub scan : ℕ → Rect → Session → Bool × Session
unfolding poll_event is_frame
scan zero framebuffer_rect s = (false, s)
scan (suc fuel) framebuffer_rect s =
    let (event, s') = poll_event s in
    let later = scan fuel framebuffer_rect s' in
    elim event [
      | none ↦ (false, s')
      | some e ↦ if is_frame framebuffer_rect e then (true, s') else later
    ]

-- The loop `'outer` for at most `fuel` rounds: `none` where it still runs then.
unfoldable pub await_frame : ℕ → Rect → Session → Option Session
unfolding scan
await_frame zero framebuffer_rect s = none
await_frame (suc fuel) framebuffer_rect s =
    let (found, s') = scan (suc (length s.polls)) framebuffer_rect s in
    let later = await_frame fuel framebuffer_rect s' in if found then some s' else later

abbrev pub framebuffer : ℕ × ℕ → Rect
framebuffer size = record { left = 0; top = 0; width = size.0; height = size.1 }

unfoldable pub adopt : PixelFormat → Session → Session
unfolding write
adopt format s =
    let sent = write (C2s.set_pixel_format format) s in
    record sent { client = record sent.client { format = format } }

abbrev pub adopted : PixelFormat → Option Session → Option Session
adopted format none = none
adopted format (some s) = some (adopt format s)

-- What follows the draining.
unfoldable pub switch : ℕ → PixelFormat → ℕ × Session → Option Session
unfolding request_update await_frame adopt
switch fuel format (count, s) =
    let framebuffer_rect = framebuffer s.client.size in
    adopted format (await_frame fuel framebuffer_rect (request_update framebuffer_rect false s))

unfoldable pub set_format : ℕ → PixelFormat → Session → Option Session
unfolding drain switch
set_format fuel format s = switch fuel format (drain s)
