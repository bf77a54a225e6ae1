-- ===== src/Viewer/Screen.antt =====
-- client/main.rs: what the program does with the events of the client, and its requests.
use rust_vnc.Common.{
  ℕ, ◌+◌, ◌-◌, ◌*◌, ◌/◌, ◌^◌, List, [], ◌∷◌, ◌++◌, Bool, false, if◌then◌else◌, ltb, leb, ◌&&◌, ◌||◌,
  not, ◌==◌, Option, none, some,
}
use rust_vnc.Common.Int.{ℤ, pos}
use rust_vnc.Wire.{Result, ok, panic, Rect}
use rust_vnc.Wire.Session.{Action, continue, ◌>>=◌, ◌>>◌, return}
use rust_vnc.Protocol.PixelFormat.{PixelFormat}
use rust_vnc.Client.Handshake.{Client}
use rust_vnc.Client.Events.{Event}
use rust_vnc.Client.Events
use rust_vnc.Client.Requests.{Session, rect_eq, framebuffer}
use rust_vnc.Viewer.Cursor.{NativeEndian, AlphaSdl, mask_cursor}
use rust_vnc.Viewer.Mask.{mask_pixels}
pub mod Size

-- `sdl2::rect::Rect`, with the place in i32.
pub record SdlRect : Type 0 where
  pub x : ℤ
  pub y : ℤ
  pub width : ℕ
  pub height : ℕ

abbrev pub sdl_rect : Rect → SdlRect
sdl_rect r = record { x = pos r.left; y = pos r.top; width = r.width; height = r.height }

-- The calls of SDL that show something.
pub data Draw : Type 0 where
  set_size : (width height : ℕ) → Draw
  create_screen : (width height : ℕ) → Draw
  update : SdlRect → (pixels : List ℕ) (pitch : ℕ) → Draw
  copy : SdlRect → Draw
  copy_cursor : (source place : SdlRect) → Draw
  show_cursor : Bool → Draw
  create_window : (width height : ℕ) → Draw
  clear present : Draw
  set_clipboard_text : List ℕ → Draw

pub record Picture (S : Type 0) : Type 0 where
  pub format : S
  pub size : ℕ × ℕ
  pub pixels : List ℕ

-- The variables of `main` that the events change, and what was drawn.
pub record Screen (S : Type 0) : Type 0 where
  pub width : ℕ
  pub height : ℕ
  pub incremental : Bool
  pub hotspot : ℕ × ℕ
  pub cursor : Option (Picture S)
  pub cursor_rect : Option SdlRect
  pub qemu_network_rtt : ℕ
  pub qemu_prev_update : ℕ
  pub qemu_next_update : ℕ
  pub drawn : List Draw

-- `quit` is the `break` out of the program's loop.
pub data Flow : Type 0 where
  next quit : Flow

-- What SDL does: which rectangles `Rect::new_unwrap` accepts, the pixels that `read_pixels` finds
-- where some calls were made before, the bytes in a row of so many pixels, and `&` on rectangles.
pub record Renderer : Type 0 where
  pub accepts : SdlRect → Bool
  pub read_pixels : List Draw → SdlRect → List ℕ
  pub byte_size_of_pixels : ℕ → ℕ
  pub intersection : SdlRect → SdlRect → Option SdlRect

-- A difference or a sum of u32 panics out of range.
abbrev pub u32_sub : ℕ → ℕ → Result ℕ
u32_sub a b = if leb b a then ok (a - b) else panic

abbrev pub u32 : ℕ → Result ℕ
u32 n = if ltb n (2 ^ 32) then ok n else panic

module _ {S : Type 0} where
  abbrev pub draw : List Draw → Action (Screen S) Flow
  draw calls s = (ok next, record s { drawn = s.drawn ++ calls })

  abbrev pub lift : {A : Type 0} → Result A → Action (Screen S) A
  lift r s = (r, s)

  abbrev pub resize_to : (w h : ℕ) → Action (Screen S) (Unit {0})
  resize_to w h s = (ok tt, record s { width = w; height = h; incremental = false })

  abbrev pub set_hotspot : ℕ × ℕ → Action (Screen S) (Unit {0})
  set_hotspot place s = (ok tt, record s { hotspot = place })

  abbrev pub set_picture : Option (Picture S) → Action (Screen S) Flow
  set_picture picture s = (ok next, record s { cursor = picture })

  -- `incremental |= vnc_rect == Rect { left: 0, top: 0, width, height }`
  abbrev pub note_full : Rect → Action (Screen S) Flow
  note_full r s = (
    ok next,
    record s { incremental = s.incremental || rect_eq r (framebuffer (s.width, s.height)) },
  )

  -- With QEMU, the average of the time between updates; `now` is the clock.
  unfoldable pub measure : ℕ → Action (Screen S) Flow
  measure now s =
      (do
        network_rtt ← lift (u32_sub now s.qemu_prev_update)
        old ← lift (u32 (s.qemu_network_rtt * 80))
        new ← lift (u32 (network_rtt * 20))
        rtt ← lift (u32 (old / 100 + new / 100))
        next_update ← lift (u32 (now + rtt / 2))
        λ t. (
          ok next,
          record t {
            qemu_network_rtt = rtt;
            qemu_prev_update = now;
            qemu_next_update = next_update;
          },
        ))
        s

module _ {S : Type 0} (native : NativeEndian) (sdl : AlphaSdl S) (renderer : Renderer) where
  -- `SdlRect::new_unwrap`
  abbrev pub new_unwrap : SdlRect → Action (Screen S) (Unit {0})
  new_unwrap r s = (if renderer.accepts r then ok tt else panic, s)

  unfoldable pub put : SdlRect → List ℕ → Action (Screen S) Flow
  put r pixels = draw (update r pixels (renderer.byte_size_of_pixels r.width) ∷ copy r ∷ [])

  unfoldable pub set_cursor :
      PixelFormat → (size : ℕ × ℕ) (pixels mask_bits : List ℕ) → Action (Screen S) Flow
  unfolding mask_pixels mask_cursor
  set_cursor vnc_format (width, height) pixels mask_bits =
      if not (width == 0) && not (height == 0)
      then (do
        mask ← lift (mask_pixels width height mask_bits)
        masked ← lift (mask_cursor native sdl vnc_format pixels mask)
        set_picture
            (some (record { format = masked.0; size = (width, height); pixels = masked.1 })))
      else set_picture none

  -- The match on an event of the client, at the time `now`.
  unfoldable pub on_event :
      (qemu_hacks : Bool) → PixelFormat → (now : ℕ) → Event → Action (Screen S) Flow
  unfolding measure put set_cursor
  on_event qemu_hacks vnc_format now (Event.disconnected e) = return quit
  on_event qemu_hacks vnc_format now (Event.resize w h) = do
    resize_to w h
    draw (set_size w h ∷ create_screen w h ∷ [])
  on_event qemu_hacks vnc_format now (Event.put_pixels r pixels) = do
    new_unwrap (sdl_rect r)
    put (sdl_rect r) pixels
    note_full r
  on_event qemu_hacks vnc_format now (Event.copy_pixels src dst) = do
    new_unwrap (sdl_rect src)
    new_unwrap (sdl_rect dst)
    λ s. put (sdl_rect dst) (renderer.read_pixels s.drawn (sdl_rect src)) s
  on_event qemu_hacks vnc_format now Event.end_of_frame =
      if qemu_hacks then measure now else return next
  on_event qemu_hacks vnc_format now (Event.clipboard text) = draw (set_clipboard_text text ∷ [])
  on_event qemu_hacks vnc_format now (Event.set_cursor size hotspot pixels mask_bits) = do
    set_hotspot hotspot
    set_cursor vnc_format size pixels mask_bits
  on_event qemu_hacks vnc_format now (Event.set_colour_map first_colour colours) = return next
  on_event qemu_hacks vnc_format now Event.bell = return next
