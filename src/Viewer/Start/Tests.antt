-- ===== src/Viewer/Start/Tests.antt =====
-- The start of client/main.rs at concrete inputs.
use rust_vnc.Common.{ℕ, List, [], ◌∷◌, ◌≡◌, refl, false, Option, none, some}
use rust_vnc.Wire.{Result, ok, err, panic}
use rust_vnc.Protocol.PixelFormat.{PixelFormat}
use rust_vnc.Client.Events
use rust_vnc.Client.Events.{put_pixels}
use rust_vnc.Client.Requests.{set_format}
use rust_vnc.Client.Requests.Waiting.{session}
use rust_vnc.Viewer.{
  render_format, pixel_format_vnc_to_sdl, pixel_format_sdl_to_vnc, find_sdl, find_vnc, format_eq,
}
use rust_vnc.Viewer.Running.{Program, Round, quit_event}
use rust_vnc.Viewer.Samples.{little, sdl, small}
use rust_vnc.Viewer.Start.{start}

-- A server's size changes behind the start.
abbrev rounds : List Round
rounds =
    record { clock = (1, false) ∷ (2, false) ∷ []; events = quit_event ∷ []; end_ticks = 3 } ∷ []

-- The size of the screen and that of the client.
abbrev sizes : Option (Result (PixelFormat × Program ℕ)) → List ((ℕ × ℕ) × (ℕ × ℕ))
sizes none = []
sizes (some (ok (f, p))) = ((p.screen.width, p.screen.height), p.controls.vnc.client.size) ∷ []
sizes (some (err e)) = []
sizes (some panic) = []

-- A resize among the events that are drained leaves the screen at the old size.
resized_before :
    sizes (
      start little sdl false 7 3 (
        session small [] (
          some (Events.Event.resize 8 6)
          ∷ none
          ∷ some (put_pixels (record { left = 0; top = 0; width = 8; height = 6 }) [])
          ∷ [])))
    ≡ ((4, 3), (8, 6)) ∷ []
unfolding start render_format pixel_format_vnc_to_sdl pixel_format_sdl_to_vnc find_sdl find_vnc
    format_eq set_format
resized_before = refl
