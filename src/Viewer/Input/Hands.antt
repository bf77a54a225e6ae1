-- ===== src/Viewer/Input/Hands.antt =====
-- client/main.rs: the user's hands, and the messages that are due for what they do.
use rust_vnc.Common.{ℕ, ◌+◌, ◌^◌, ◌<◌, List, [], ◌∷◌, ◌++◌, Bool, true, false}
use rust_vnc.Common.{if◌then◌else◌, Option, none, some}
use rust_vnc.Common.Int.{pos, negsuc, ◌==ℤ◌}
use rust_vnc.Protocol.ClientMessage.{C2s}
use rust_vnc.Client.Requests.{Session}
use rust_vnc.Viewer.Keys.{Keysym, map_special_key}
use rust_vnc.Viewer.Input.{InputEvent, Controls, as_u16}
use rust_vnc.Viewer.Input.{
  key, text_input, mouse_motion, mouse_button, mouse_wheel, clipboard_update, other,
}
use rust_vnc.Viewer.Input.{is_ctrl}
use rust_vnc.Viewer.Input.Held.{Held, change, mask_of}

-- The user's hands: the buttons that are held, where the mouse is, and whether Ctrl is.
pub record Hands : Type 0 where
  pub held : Held
  pub place : ℕ × ℕ
  pub ctrl : Bool

abbrev pub moved : InputEvent → Hands → Hands
moved (key down keycode) h = record h { ctrl = if is_ctrl keycode then down else h.ctrl }
moved (mouse_motion x y) h = record h { place = (as_u16 x, as_u16 y) }
moved (mouse_button down x y button) h = record h {
  held = change down button h.held;
  place = (as_u16 x, as_u16 y);
}
moved (text_input text) h = h
moved (mouse_wheel y) h = h
moved (clipboard_update text) h = h
moved other h = h

abbrev pub all_moved : List InputEvent → Hands → Hands
all_moved [] h = h
all_moved (event ∷ events) h = all_moved events (moved event h)

abbrev pub pointing : ℕ → Hands → C2s
pointing buttons h = C2s.pointer_event buttons h.place.0 h.place.1

abbrev pub key_press : Option ℕ → Bool → List C2s
key_press none down = []
key_press (some keysym) down = C2s.key_event down keysym ∷ []

-- The wheel is a button that is held beside the others and let go.
abbrev pub wheel : ℕ → Hands → List C2s
wheel bit h = pointing (mask_of h.held + bit) h ∷ pointing (mask_of h.held) h ∷ []

module _ (xk : Keysym → ℕ) (qemu_hacks : Bool) where
  -- The messages for an event, after which the hands are `h`.
  abbrev pub messages : InputEvent → Hands → List C2s
  messages (key down keycode) h = key_press (map_special_key xk h.ctrl keycode) down
  messages (text_input []) h = []
  messages (text_input (c ∷ text)) h =
      C2s.key_event true (0x01000000 + c) ∷ C2s.key_event false (0x01000000 + c) ∷ []
  messages (mouse_motion x y) h = if qemu_hacks then [] else pointing (mask_of h.held) h ∷ []
  messages (mouse_button down x y button) h = pointing (mask_of h.held) h ∷ []
  messages (mouse_wheel y) h =
      if y ==ℤ pos 1 then wheel 0x08 h else if y ==ℤ negsuc 0 then wheel 0x10 h else []
  messages (clipboard_update text) h = []
  messages other h = []

  abbrev pub all_messages : List InputEvent → Hands → List C2s
  all_messages [] h = []
  all_messages (event ∷ events) h =
      messages event (moved event h) ++ all_messages events (moved event h)

-- Text comes with a character at least, and the clipboard does not change.
abbrev pub IsTyped : InputEvent → Type 0
IsTyped (text_input []) = ⊥
IsTyped (text_input (c ∷ text)) = c < 0x110000
IsTyped (clipboard_update text) = ⊥
IsTyped (key down keycode) = Unit {0}
IsTyped (mouse_motion x y) = Unit {0}
IsTyped (mouse_button down x y button) = Unit {0}
IsTyped (mouse_wheel y) = Unit {0}
IsTyped other = Unit {0}

-- The program's state for the hands, with the session.
abbrev pub controls : Hands → Session → Controls
controls h vnc = record {
  mouse_buttons = mask_of h.held;
  mouse_x = h.place.0;
  mouse_y = h.place.1;
  key_ctrl = h.ctrl;
  vnc = vnc;
}

-- The place fits two u16.
abbrev pub InPlace : Hands → Type 0
InPlace h = (h.place.0 < 2 ^ 16) × (h.place.1 < 2 ^ 16)
