-- ===== src/Viewer/Start/Begun.antt =====
-- client/main.rs: the program starts, and keeps the size that it starts with up to date.
use rust_vnc.Common.{ap}
use rust_vnc.Common.{ℕ, List, ◌≡◌, sym, Option, none, some, Bool}
use rust_vnc.Wire.{Result, ok, err, panic}
use rust_vnc.Protocol.PixelFormat.{PixelFormat}
use rust_vnc.Client.Handshake.{Client}
use rust_vnc.Client.Requests.{Session, set_encodings, request_update, write}
use rust_vnc.Viewer.Cursor.{NativeEndian, AlphaSdl}
use rust_vnc.Viewer.Keys.{Keysym}
use rust_vnc.Viewer.Running.{Program, Round, running}
use rust_vnc.Viewer.Running.Sized.{Sized, running-keeps_size}
use rust_vnc.Viewer.Screen.{Renderer}
use rust_vnc.Viewer.Start.{first_program, vnc_format}

module _ {S : Type 0} (native : NativeEndian) (sdl : AlphaSdl S) (renderer : Renderer)
    (xk : Keysym → ℕ) (view_only qemu_hacks : Bool) where
  -- The program has started, and has the size that the client knows behind these rounds.
  abbrev pub Runs : List Round → Option (Result (PixelFormat × Program S)) → Type 0
  Runs rounds none = ⊥
  Runs rounds (some (ok (vnc_format, p))) =
      Sized native sdl renderer xk view_only qemu_hacks vnc_format
        (running native sdl renderer xk view_only qemu_hacks vnc_format rounds p).1
  Runs rounds (some (err e)) = ⊥
  Runs rounds (some panic) = ⊥

  pub first-Sized :
      (now : ℕ) (rounds : List Round) (format : PixelFormat) (size : ℕ × ℕ) (next : ℕ)
      (vnc : Session)
      → vnc.client.size ≡ size
      → Sized native sdl renderer xk view_only qemu_hacks format
          (running native sdl renderer xk view_only qemu_hacks format rounds
            (first_program native sdl qemu_hacks now size next vnc)).1
  unfolding first_program set_encodings request_update write
  first-Sized now rounds format (width, height) next vnc e =
      running-keeps_size native sdl renderer xk view_only qemu_hacks format rounds
        (first_program native sdl qemu_hacks now (width, height) next vnc)
        (sym e, ap (λ size. (some size, some size)) (sym e))
