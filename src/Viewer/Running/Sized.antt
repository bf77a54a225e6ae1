-- ===== src/Viewer/Running/Sized.antt =====
-- client/main.rs: the size of the screen and that of the client.
use rust_vnc.Viewer.Screen.{on_event}
use rust_vnc.Client.Requests.{framebuffer}
use rust_vnc.Common.{subst}
use rust_vnc.Common.{
  ℕ, List, [], ◌∷◌, ◌++◌, Bool, true, false, ltb, ◌&&◌, if-both, Option, none, some, ◌≡◌, refl, ap,
  sym,
}
use rust_vnc.Wire.{Result}
use rust_vnc.Wire.Outcome.{Gives, anything, Always, bind-Always}
use rust_vnc.Wire.Session.{Action, ◌>>◌, return}
use rust_vnc.Protocol.PixelFormat.{PixelFormat}
use rust_vnc.Client.Events.{Event}
use rust_vnc.Client.Requests.{poll_event, polled, request_update, poke_qemu, write}
use rust_vnc.Viewer.Cursor.{NativeEndian, AlphaSdl}
use rust_vnc.Viewer.Keys.{Keysym}
use rust_vnc.Viewer.Input.{InputEvent, on_input}
use rust_vnc.Viewer.Drawing.{uncover, draw_cursor}
use rust_vnc.Viewer.Drawing.Size.{repaint-Always}
use rust_vnc.Viewer.Screen
use rust_vnc.Viewer.Screen.{Screen, Renderer, Flow, next, quit}
use rust_vnc.Viewer.Running
use rust_vnc.Viewer.Input.Kept.{on_input-Keeps}
use rust_vnc.Viewer.Running.{quit_event, size_changed, input}
use rust_vnc.Viewer.Running.{
  Program, Round, SdlEvent, Polled, done, late, ended, poll_once, poll_events, ask, sdl_loop, round,
  repaint, running,
}
use rust_vnc.Viewer.Screen.Size.{Anything, Is, quiet-Is, resized-size, on_event_size}

module _ {S : Type 0} (native : NativeEndian) (sdl : AlphaSdl S) (renderer : Renderer)
    (xk : Keysym → ℕ) (view_only qemu_hacks : Bool) (vnc_format : PixelFormat) where
  -- The window, its texture and the variables have the size that the client knows.
  abbrev pub Sized : Program S → Type 0
  Sized p = Is p.controls.vnc.client.size p.screen

  poll_once-Sized :
      (now : ℕ)
      → Always Sized (poll_once native sdl renderer xk view_only qemu_hacks vnc_format now) Anything
  unfolding poll_once poll_event
  poll_once-Sized now p v = after p.controls.vnc.polls
    where
      after :
          (polls : List (Option Event))
          → Sized
              (Running.on_polled native sdl renderer xk view_only qemu_hacks vnc_format
                (polled polls p.controls.vnc).0
                now
                (record p {
                  controls = record p.controls { vnc = (polled polls p.controls.vnc).1 };
                })).1
            × Gives
                (Running.on_polled native sdl renderer xk view_only qemu_hacks vnc_format
                  (polled polls p.controls.vnc).0
                  now
                  (record p {
                    controls = record p.controls { vnc = (polled polls p.controls.vnc).1 };
                  })).0
                Anything
      after [] = (v, tt)
      after (none ∷ polls) = (v, tt)
      after (some event ∷ polls) = (
        subst
            (λ size.
              Is size (on_event native sdl renderer qemu_hacks vnc_format now event p.screen).1)
            (sym (resized-size event p.controls.vnc.client))
            (on_event_size native sdl renderer qemu_hacks vnc_format p.controls.vnc.client.size now
              event p.screen v),
        anything _,
      )

  poll_events-Sized :
      (clock : List (ℕ × Bool))
      → Always Sized
          (poll_events native sdl renderer xk view_only qemu_hacks vnc_format clock)
          Anything
  unfolding poll_events
  poll_events-Sized [] = λ p v. (v, tt)
  poll_events-Sized ((now, over) ∷ clock) =
      bind-Always Sized (poll_once native sdl renderer xk view_only qemu_hacks vnc_format now) _
        Anything Anything (poll_once-Sized now) λ flow u. behind flow over (poll_events-Sized clock)
    where
      behind :
          (flow : Option Flow) (over : Bool)
          → Always Sized
              (poll_events native sdl renderer xk view_only qemu_hacks vnc_format clock)
              Anything
          → Always Sized
              (elim flow as (λ _. Action (Program S) Polled) [
                | none ↦ return done
                | some quit ↦ return ended
                | some next ↦ (elim over as (λ _. Action (Program S) Polled) [
                  | true ↦ return late
                  | false ↦ poll_events native sdl renderer xk view_only qemu_hacks vnc_format clock
                ])
              ])
              Anything
      behind none over later p v = (v, tt)
      behind (some quit) over later p v = (v, tt)
      behind (some next) true later p v = (v, tt)
      behind (some next) false later p v = later p v

  ask-Sized :
      (now : ℕ)
      → Always Sized (ask native sdl renderer xk view_only qemu_hacks vnc_format now) Anything
  unfolding ask request_update poke_qemu write
  ask-Sized now p v =
      if-both {A = Result (Unit {0}) × Program S} (λ r. Sized r.1 × Gives r.0 Anything)
        (qemu_hacks && ltb p.screen.qemu_next_update now) _ _ (v, anything _) (v, tt)

  input-Sized :
      (event : InputEvent)
      → Always Sized
          (Running.on_controls native sdl renderer xk view_only qemu_hacks vnc_format
            (on_input xk view_only qemu_hacks event))
          Anything
  input-Sized event p v =
      let kept : (on_input xk view_only qemu_hacks event p.controls).1.vnc.client
          ≡ p.controls.vnc.client =
        (on_input-Keeps p.controls.vnc.client xk view_only qemu_hacks event p.controls refl).0 in
      (subst (λ size. Is size p.screen) (ap (λ c. c.size) (sym kept)) v, anything _)

  redraw-Sized :
      Always Sized (Running.redraw native sdl renderer xk view_only qemu_hacks vnc_format) Anything
  redraw-Sized p v = (
    quiet-Is p.controls.vnc.client.size
        (Screen.copy (Screen.sdl_rect (framebuffer (p.screen.width, p.screen.height)))
          ∷ Screen.present
          ∷ [])
        p.screen (λ t. refl, (λ t. refl, tt)) v,
    anything _,
  )

  sdl_loop-Sized :
      (events : List SdlEvent)
      → Always Sized
          (sdl_loop native sdl renderer xk view_only qemu_hacks vnc_format events)
          Anything
  unfolding sdl_loop
  sdl_loop-Sized [] = λ p v. (v, tt)
  sdl_loop-Sized (quit_event ∷ events) = λ p v. (v, tt)
  sdl_loop-Sized (size_changed ∷ events) =
      bind-Always Sized (Running.redraw native sdl renderer xk view_only qemu_hacks vnc_format) _
        Anything Anything redraw-Sized λ a u. sdl_loop-Sized events
  sdl_loop-Sized (input event ∷ events) =
      bind-Always Sized
        (Running.on_controls native sdl renderer xk view_only qemu_hacks vnc_format
          (on_input xk view_only qemu_hacks event))
        _ Anything Anything (input-Sized event) λ a u. sdl_loop-Sized events

  on_screen-Sized :
      {A : Type 0} (act : Action (Screen S) A)
      → ((size : ℕ × ℕ) → Always (Is size) act Anything)
      → Always Sized
          (Running.on_screen native sdl renderer xk view_only qemu_hacks vnc_format act)
          Anything
  on_screen-Sized act h p v = ((h p.controls.vnc.client.size p.screen v).0, anything _)

  repaint-Sized :
      Always Sized (repaint native sdl renderer xk view_only qemu_hacks vnc_format) Anything
  unfolding repaint
  repaint-Sized p v =
      on_screen-Sized
        (do
          uncover native sdl renderer
          draw_cursor native sdl renderer p.controls.mouse_x p.controls.mouse_y)
        (λ size. repaint-Always native sdl renderer size p.controls.mouse_x p.controls.mouse_y) p v

  finish-Sized :
      (r : Round) (flow : Flow)
      → Always Sized
          (Running.finish_round native sdl renderer xk view_only qemu_hacks vnc_format r flow)
          Anything
  finish-Sized r quit = λ p v. (v, tt)
  finish-Sized r next =
      bind-Always Sized (ask native sdl renderer xk view_only qemu_hacks vnc_format r.end_ticks) _
        Anything Anything (ask-Sized r.end_ticks) λ a u p v. (v, tt)

  behind_polls-Sized :
      (r : Round) (polled : Polled)
      → Always Sized
          (Running.behind_polls native sdl renderer xk view_only qemu_hacks vnc_format r polled)
          Anything
  behind_polls-Sized r ended = λ p v. (v, tt)
  behind_polls-Sized r late = λ p v. (v, tt)
  behind_polls-Sized r done =
      bind-Always Sized (repaint native sdl renderer xk view_only qemu_hacks vnc_format) _ Anything
        Anything repaint-Sized
        λ f u.
          bind-Always Sized
            (sdl_loop native sdl renderer xk view_only qemu_hacks vnc_format r.events) _ Anything
            Anything (sdl_loop-Sized r.events) λ flow u. finish-Sized r flow

  round-Sized :
      (r : Round)
      → Always Sized (round native sdl renderer xk view_only qemu_hacks vnc_format r) Anything
  unfolding round
  round-Sized r p v =
      bind-Always Sized (poll_events native sdl renderer xk view_only qemu_hacks vnc_format r.clock)
        (Running.behind_polls native sdl renderer xk view_only qemu_hacks vnc_format r) Anything
        Anything (poll_events-Sized r.clock) (λ polled u. behind_polls-Sized r polled)
        (record p { screen = record p.screen { drawn = p.screen.drawn ++ Screen.present ∷ [] } })
        (quiet-Is p.controls.vnc.client.size (Screen.present ∷ []) p.screen (λ t. refl, tt) v)

  next_rounds :
      (flow : Flow) (rest : Action (Program S) Flow)
      → Always Sized rest Anything
      → Always Sized
          (elim flow as (λ _. Action (Program S) Flow) [ quit ↦ return quit | next ↦ rest ])
          Anything
  next_rounds quit rest h = λ p v. (v, tt)
  next_rounds next rest h = h

  running-Sized :
      (rounds : List Round)
      → Always Sized
          (running native sdl renderer xk view_only qemu_hacks vnc_format rounds)
          Anything
  unfolding running
  running-Sized [] = λ p v. (v, tt)
  running-Sized (r ∷ rounds) =
      bind-Always Sized (round native sdl renderer xk view_only qemu_hacks vnc_format r) _ Anything
        Anything (round-Sized r)
        λ flow u.
          next_rounds flow (running native sdl renderer xk view_only qemu_hacks vnc_format rounds)
            (running-Sized rounds)

  pub running-keeps_size :
      (rounds : List Round) (p : Program S)
      → Sized p
      → Sized (running native sdl renderer xk view_only qemu_hacks vnc_format rounds p).1
  running-keeps_size rounds p v = (running-Sized rounds p v).0
