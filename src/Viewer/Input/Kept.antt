-- ===== src/Viewer/Input/Kept.antt =====
-- client/main.rs: the user's input leaves the client's own state alone.
use rust_vnc.Common.{ℕ, [], ◌∷◌, Bool, true, false, if◌then◌else◌, ◌≡◌, Option, none, some}
use rust_vnc.Common.Int.{pos, negsuc, ◌==ℤ◌}
use rust_vnc.Wire.Outcome.{Always, if-Always}
use rust_vnc.Wire.Session.{return}
use rust_vnc.Client.Handshake.{Client}
use rust_vnc.Client.Requests.{write, send_key_event, send_pointer_event, update_clipboard}
use rust_vnc.Viewer.Keys.{Keysym}
use rust_vnc.Viewer.Input.{
  InputEvent, Controls, on_input, react, send_pointer, scroll, type_char, move_to, set_buttons,
  note_ctrl, press_key, send_special,
}
use rust_vnc.Viewer.Input.{
  key, text_input, mouse_motion, mouse_button, mouse_wheel, clipboard_update, other,
}

module _ (c : Client) where
  abbrev pub Keeps : Controls → Type 0
  Keeps s = s.vnc.client ≡ c

  abbrev pub Anything : {A : Type 0} → A → Type 0
  Anything a = Unit {0}

  special-Keeps : (o : Option ℕ) (down : Bool) → Always Keeps (send_special o down) Anything
  unfolding send_key_event write
  special-Keeps none down s v = (v, tt)
  special-Keeps (some keysym) down s v = (v, tt)

  scroll-Keeps : (wheel : ℕ) → Always Keeps (scroll wheel) Anything
  unfolding scroll send_pointer send_pointer_event write
  scroll-Keeps wheel s v = (v, tt)

  react-Keeps :
      (xk : Keysym → ℕ) (view_only qemu_hacks : Bool) (event : InputEvent)
      → Always Keeps (react xk view_only qemu_hacks event) Anything
  unfolding react press_key note_ctrl move_to set_buttons send_pointer send_pointer_event type_char
      send_key_event update_clipboard write
  react-Keeps xk view_only qemu_hacks (key down keycode) s v =
      special-Keeps _ down (note_ctrl down keycode s).1 v
  react-Keeps xk view_only qemu_hacks (text_input []) s v = (v, tt)
  react-Keeps xk view_only qemu_hacks (text_input (ch ∷ text)) s v = (v, tt)
  react-Keeps xk view_only true (mouse_motion x y) s v = (v, tt)
  react-Keeps xk view_only false (mouse_motion x y) s v = (v, tt)
  react-Keeps xk view_only qemu_hacks (mouse_button down x y button) s v = (v, tt)
  react-Keeps xk view_only qemu_hacks (mouse_wheel y) s v =
      if-Always Keeps (y ==ℤ pos 1) (scroll 0x08)
        (if y ==ℤ negsuc 0 then scroll 0x10 else return tt) Anything (scroll-Keeps 0x08)
        (if-Always Keeps (y ==ℤ negsuc 0) (scroll 0x10) (return tt) Anything (scroll-Keeps 0x10)
          λ s v. (v, tt))
        s v
  react-Keeps xk view_only qemu_hacks (clipboard_update text) s v = (v, tt)
  react-Keeps xk view_only qemu_hacks other s v = (v, tt)

  pub on_input-Keeps :
      (xk : Keysym → ℕ) (view_only qemu_hacks : Bool) (event : InputEvent)
      → Always Keeps (on_input xk view_only qemu_hacks event) Anything
  unfolding on_input
  on_input-Keeps xk view_only qemu_hacks event =
      if-Always Keeps view_only (return tt) (react xk view_only qemu_hacks event) Anything
        (λ s v. (v, tt)) (react-Keeps xk view_only qemu_hacks event)
