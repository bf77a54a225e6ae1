-- ===== src/Viewer/Input.antt =====
-- client/main.rs: what the program does with the user's input.
use rust_vnc.Common.{
  ℕ, ◌+◌, ◌-◌, ◌%◌, ◌^◌, List, [], ◌∷◌, Bool, true, false, if◌then◌else◌, bit_and, bit_or,
}
use rust_vnc.Common.{Option, none, some}
use rust_vnc.Common.Int.{ℤ, pos, negsuc, ◌==ℤ◌, pattern32}
use rust_vnc.Wire.{ok, panic}
use rust_vnc.Wire.Session.{Action, continue, ◌>>=◌, ◌>>◌, return}
use rust_vnc.Client.Requests.{Session, send_key_event, send_pointer_event, update_clipboard}
use rust_vnc.Viewer.Keys.{Keycode, Keysym, map_special_key, l_ctrl, r_ctrl}
pub mod Held
pub mod Kept
pub mod Hands
pub mod Refine
pub mod Understood

pub data Mouse : Type 0 where
  left middle right x1 x2 unknown : Mouse

-- The events of SDL that `main` tells apart here. `clipboard_update` comes with the text that the
-- clipboard has then. A key without a keycode is one of the others.
pub data InputEvent : Type 0 where
  key : (down : Bool) → Keycode → InputEvent
  text_input : List ℕ → InputEvent
  mouse_motion : (x y : ℤ) → InputEvent
  mouse_button : (down : Bool) (x y : ℤ) → Mouse → InputEvent
  mouse_wheel : (y : ℤ) → InputEvent
  clipboard_update : List ℕ → InputEvent
  other : InputEvent

-- The variables of `main` that the events change, and the client.
pub record Controls : Type 0 where
  pub mouse_buttons : ℕ
  pub mouse_x : ℕ
  pub mouse_y : ℕ
  pub key_ctrl : Bool
  pub vnc : Session

-- `x as u16` of an i32.
abbrev pub as_u16 : ℤ → ℕ
as_u16 x = pattern32 x % 2 ^ 16

abbrev pub tell : (Session → Session) → Action Controls (Unit {0})
tell call s = (ok tt, record s { vnc = call s.vnc })

unfoldable pub send_pointer : ℕ → Action Controls (Unit {0})
send_pointer buttons s = tell (send_pointer_event buttons s.mouse_x s.mouse_y) s

unfoldable pub move_to : ℤ → ℤ → Action Controls (Unit {0})
move_to x y s = (ok tt, record s { mouse_x = as_u16 x; mouse_y = as_u16 y })

abbrev pub is_ctrl : Keycode → Bool
is_ctrl l_ctrl = true
is_ctrl r_ctrl = true
is_ctrl _ = false

unfoldable pub note_ctrl : Bool → Keycode → Action Controls (Unit {0})
note_ctrl down keycode s =
    (ok tt, record s { key_ctrl = if is_ctrl keycode then down else s.key_ctrl })

unfoldable pub mouse_bit : Mouse → ℕ
mouse_bit left = 0x01
mouse_bit middle = 0x02
mouse_bit right = 0x04
mouse_bit x1 = 0x20
mouse_bit x2 = 0x40
mouse_bit unknown = 0x00

-- `|=` and `&= !` on a u8.
unfoldable pub press : Bool → Mouse → ℕ → ℕ
unfolding mouse_bit
press true button buttons = bit_or buttons (mouse_bit button)
press false button buttons = bit_and buttons (255 - mouse_bit button)

unfoldable pub set_buttons : Bool → Mouse → Action Controls (Unit {0})
unfolding press
set_buttons down button s = (ok tt, record s { mouse_buttons = press down button s.mouse_buttons })

-- The sum is a u32 that does not overflow, since a `char` is below 0x110000.
unfoldable pub type_char : List ℕ → Action Controls (Unit {0})
type_char [] s = (panic, s)
type_char (c ∷ text) s =
    (do tell (send_key_event true (0x01000000 + c)); tell (send_key_event false (0x01000000 + c))) s

unfoldable pub scroll : ℕ → Action Controls (Unit {0})
unfolding send_pointer
scroll wheel s = (do send_pointer (bit_or s.mouse_buttons wheel); send_pointer s.mouse_buttons) s

abbrev pub send_special : Option ℕ → Bool → Action Controls (Unit {0})
send_special none down = return tt
send_special (some keysym) down = tell (send_key_event down keysym)

module _ (xk : Keysym → ℕ) (view_only qemu_hacks : Bool) where
  unfoldable pub press_key : Bool → Keycode → Action Controls (Unit {0})
  unfolding map_special_key note_ctrl
  press_key down keycode = do
    note_ctrl down keycode
    λ s. send_special (map_special_key xk s.key_ctrl keycode) down s

  -- The arms of the second match on the event.
  unfoldable pub react : InputEvent → Action Controls (Unit {0})
  unfolding press_key type_char move_to send_pointer set_buttons scroll
  react (key down keycode) = press_key down keycode
  react (text_input text) = type_char text
  react (mouse_motion x y) = do
    move_to x y
    λ s. if qemu_hacks then return tt s else send_pointer s.mouse_buttons s
  react (mouse_button down x y button) = do
    move_to x y
    set_buttons down button
    λ s. send_pointer s.mouse_buttons s
  react (mouse_wheel y) =
      if y ==ℤ pos 1 then scroll 0x08 else if y ==ℤ negsuc 0 then scroll 0x10 else return tt
  react (clipboard_update text) = tell (update_clipboard text)
  react other = return tt

  -- The round for one event, behind the first match.
  unfoldable pub on_input : InputEvent → Action Controls (Unit {0})
  unfolding react
  on_input event = if view_only then return tt else react event

  unfoldable pub on_inputs : List InputEvent → Action Controls (Unit {0})
  unfolding on_input
  on_inputs [] = return tt
  on_inputs (event ∷ events) = do on_input event; on_inputs events
