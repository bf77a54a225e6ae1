-- ===== src/Viewer/Running.antt =====
-- client/main.rs: the loop of the program.
use rust_vnc.Common.{
  ℕ, ◌+◌, ◌/◌, List, [], ◌∷◌, ◌++◌, Bool, true, false, ltb, ◌&&◌, if◌then◌else◌, Option, none, some,
}
use rust_vnc.Wire.{Result, ok, panic, bind, Rect}
use rust_vnc.Wire.Session.{Action, continue, ◌>>=◌, ◌>>◌, return}
use rust_vnc.Protocol.PixelFormat.{PixelFormat}
use rust_vnc.Client.Events.{Event}
use rust_vnc.Client.Requests.{Session, poll_event, framebuffer, request_update, poke_qemu}
pub mod Sized
mod Tests
use rust_vnc.Viewer.Cursor.{NativeEndian, AlphaSdl}
use rust_vnc.Viewer.Keys.{Keysym}
use rust_vnc.Viewer.Input.{Controls, InputEvent, on_input}
use rust_vnc.Viewer.Screen.{
  Screen, Renderer, Flow, next, quit, sdl_rect, copy, present, draw, on_event, u32,
}
use rust_vnc.Viewer.Drawing.{uncover, draw_cursor}

-- The program's loop goes around on the screen, and on the controls with the client.
pub record Program (S : Type 0) : Type 0 where
  pub screen : Screen S
  pub controls : Controls

-- The events of SDL: the first match of the second loop tells two apart.
pub data SdlEvent : Type 0 where
  quit_event size_changed : SdlEvent
  input : InputEvent → SdlEvent

-- How the loop over the client's events ends: all were taken, or it is time for the next frame, or
-- the program ends.
pub data Polled : Type 0 where
  done late ended : Polled

-- One round: the readings of the clock, the events of SDL, and the time at the end.
pub record Round : Type 0 where
  pub clock : List (ℕ × Bool)
  pub events : List SdlEvent
  pub end_ticks : ℕ

module _ {S : Type 0} (native : NativeEndian) (sdl : AlphaSdl S) (renderer : Renderer)
    (xk : Keysym → ℕ) (view_only qemu_hacks : Bool) (vnc_format : PixelFormat) where
  abbrev pub on_polled : Option Event → (now : ℕ) → Program S → Result (Option Flow) × Program S
  on_polled none now p = (ok none, p)
  on_polled (some event) now p =
      let (flow, screen) = on_event native sdl renderer qemu_hacks vnc_format now event p.screen in
      (bind flow (λ f. ok (some f)), record p { screen = screen })

  -- One event is polled and handled; `none` is the end of the loop.
  unfoldable pub poll_once : ℕ → Action (Program S) (Option Flow)
  unfolding poll_event on_event
  poll_once now p =
      let (event, vnc) = poll_event p.controls.vnc in
      on_polled event now (record p { controls = record p.controls { vnc = vnc } })

  -- `for event in vnc.poll_iter()`, with the readings of the clock for each event: while it is
  -- handled, and whether the frame is over behind it.
  unfoldable pub poll_events : List (ℕ × Bool) → Action (Program S) Polled
  unfolding poll_once
  poll_events [] = return late
  poll_events ((now, over) ∷ clock) = do
    flow ← poll_once now
    elim flow [
      | none ↦ return done
      | some quit ↦ return ended
      | some next ↦ (elim over [ true ↦ return late | false ↦ poll_events clock ])
    ]

  -- The end of a round of the program's loop: the client asks for an update.
  unfoldable pub ask : (now : ℕ) → Action (Program S) (Unit {0})
  unfolding request_update poke_qemu
  ask now p =
      if qemu_hacks && ltb p.screen.qemu_next_update now
      then (
        bind (u32 (now + p.screen.qemu_network_rtt / 2)) (λ next_update. ok tt),
        record p {
          controls = record p.controls { vnc = poke_qemu p.controls.vnc };
          screen = record p.screen { qemu_next_update = now + p.screen.qemu_network_rtt / 2 };
        },
      )
      else (
        ok tt,
        record p {
          controls = record p.controls {
            vnc =
                request_update (framebuffer (p.screen.width, p.screen.height)) p.screen.incremental
                  p.controls.vnc;
          };
        },
      )

  abbrev pub on_controls : Action Controls (Unit {0}) → Action (Program S) (Unit {0})
  on_controls act p =
      let (result, controls) = act p.controls in (result, record p { controls = controls })

  abbrev pub on_screen : {A : Type 0} → Action (Screen S) A → Action (Program S) A
  on_screen act p = let (result, screen) = act p.screen in (result, record p { screen = screen })

  -- Behind the client's events: the cursor is drawn anew.
  unfoldable pub repaint : Action (Program S) Flow
  unfolding uncover draw_cursor
  repaint p =
      on_screen
        (do
          uncover native sdl renderer
          draw_cursor native sdl renderer p.controls.mouse_x p.controls.mouse_y)
        p

  -- The screen is drawn again where the window has changed.
  abbrev pub redraw : Action (Program S) (Unit {0})
  redraw p =
      let whole : Rect = framebuffer (p.screen.width, p.screen.height) in
      (
        (if renderer.accepts (sdl_rect whole) then ok tt else panic),
        record p {
          screen = record p.screen {
            drawn = p.screen.drawn ++ copy (sdl_rect whole) ∷ present ∷ [];
          };
        },
      )

  -- `for event in sdl_events`; `quit` is `break 'running`.
  unfoldable pub sdl_loop : List SdlEvent → Action (Program S) Flow
  unfolding on_input
  sdl_loop [] = return next
  sdl_loop (quit_event ∷ events) = return quit
  sdl_loop (size_changed ∷ events) = do redraw; sdl_loop events
  sdl_loop (input event ∷ events) = do
    on_controls (on_input xk view_only qemu_hacks event)
    sdl_loop events

  abbrev pub finish_round : Round → Flow → Action (Program S) Flow
  finish_round r quit = return quit
  finish_round r next = do ask r.end_ticks; return next

  abbrev pub behind_polls : Round → Polled → Action (Program S) Flow
  behind_polls r ended = return quit
  behind_polls r late = return next
  behind_polls r done = do repaint; flow ← sdl_loop r.events; finish_round r flow

  unfoldable pub round : Round → Action (Program S) Flow
  unfolding poll_events sdl_loop ask repaint
  round r = do on_screen (draw (present ∷ [])); polled ← poll_events r.clock; behind_polls r polled

  -- `'running: loop`, for some rounds.
  unfoldable pub running : List Round → Action (Program S) Flow
  unfolding round
  running [] = return next
  running (r ∷ rounds) = do flow ← round r; elim flow [ quit ↦ return quit | next ↦ running rounds ]
