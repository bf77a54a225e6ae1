-- ===== src/Viewer/Input/Understood.antt =====
-- client/main.rs: what a server reads of the user's input.
use rust_vnc.Wire.{write_many}
use rust_vnc.Common.{refl}
use rust_vnc.Viewer.Input.{on_input}
use rust_vnc.Common.{Bool, true, false}
use rust_vnc.Common.{
  ℕ, ◌^◌, ◌<◌, List, [], ◌∷◌, Bool, false, ◌≡◌, sym, All, All-append, length, arith,
}
use rust_vnc.Common.{if◌then◌else◌, if-both, not, ◌&&◌, ◌==◌, Option, none, some, subst}
use rust_vnc.Common.Int.{pos, negsuc, ◌==ℤ◌}
use rust_vnc.Wire.{Result, ok, err, panic, Input, feed, read_many}
use rust_vnc.Wire.RoundTrip.{read_many-write_many}
use rust_vnc.Protocol.ClientMessage
use rust_vnc.Protocol.ClientMessage.{C2s}
use rust_vnc.Protocol.ClientMessage.RoundTrip
use rust_vnc.Protocol.ClientMessage.RoundTrip.{C2s-read_from-write_to}
use rust_vnc.Viewer.Keys.{
  Keycode, Keysym, map_special_key, x11code, character_keysym, special_keysym,
}
use rust_vnc.Client.Handshake.{Client}
use rust_vnc.Client.Events.{Event}
use rust_vnc.Viewer.Input.{InputEvent, Controls, on_inputs}
use rust_vnc.Viewer.Input.{
  key, text_input, mouse_motion, mouse_button, mouse_wheel, clipboard_update, other,
}
use rust_vnc.Viewer.Input.Held.{mask_of, mask_of-lt}
use rust_vnc.Viewer.Input.Hands.{
  Hands, moved, pointing, key_press, wheel, messages, all_messages, IsTyped, controls, InPlace,
}
use rust_vnc.Viewer.Input.Refine.{on_inputs_lem}

-- The program did not panic, and a server reads just these messages of what it sent.
abbrev pub Understood : List C2s → Input → Result (Unit {0}) × Controls → Type 0
Understood list rest (ok u, s) =
    read_many ClientMessage.read_from (length list) (feed s.vnc.outgoing rest) ≡ ok (list, rest)
Understood list rest (err e, s) = ⊥
Understood list rest (panic, s) = ⊥

-- The messages that are due, of which there are none where the program only views.
abbrev pub due : (view_only : Bool) → List C2s → List C2s
due true list = []
due false list = list

-- A keysym fits a u32.
abbrev Fits32 : Option ℕ → Type 0
Fits32 none = Unit {0}
Fits32 (some n) = n < 2 ^ 32

module _ (xk : Keysym → ℕ) (fits : (s : Keysym) → xk s < 2 ^ 32) where
  x11code-lt : (o : Option Keysym) → x11code xk o < 2 ^ 32
  x11code-lt none = omega arith
  x11code-lt (some s) = fits s

  map_special_key-Fits32 : (b : Bool) (keycode : Keycode) → Fits32 (map_special_key xk b keycode)
  unfolding map_special_key
  map_special_key-Fits32 b keycode =
      let first : Option ℕ = some (x11code xk (character_keysym keycode)) in
      let second : Option ℕ = some (x11code xk (special_keysym keycode)) in
      let special : Bool = not (x11code xk (special_keysym keycode) == 0) in
      if-both Fits32 (not (x11code xk (character_keysym keycode) == 0) && b) first
        (if special then second else none) (x11code-lt (character_keysym keycode))
        (if-both Fits32 special second none (x11code-lt (special_keysym keycode)) tt)

  key_press-IsValid :
      (o : Option ℕ) (down : Bool) → Fits32 o → All RoundTrip.IsValid (key_press o down)
  key_press-IsValid none down h = tt
  key_press-IsValid (some keysym) down h = (h, tt)

  moved-InPlace : (event : InputEvent) (h : Hands) → InPlace h → InPlace (moved event h)
  moved-InPlace (key down keycode) h v = v
  moved-InPlace (text_input text) h v = v
  moved-InPlace (mouse_motion x y) h v = (omega arith, omega arith)
  moved-InPlace (mouse_button down x y button) h v = (omega arith, omega arith)
  moved-InPlace (mouse_wheel y) h v = v
  moved-InPlace (clipboard_update text) h v = v
  moved-InPlace other h v = v

  pointing-IsValid : (h : Hands) → InPlace h → RoundTrip.IsValid (pointing (mask_of h.held) h)
  pointing-IsValid h v = (omega (arith, mask_of-lt h.held), v.0, v.1)

  wheel-IsValid :
      (bit : ℕ) (h : Hands) → bit < 128 → InPlace h → All RoundTrip.IsValid (wheel bit h)
  wheel-IsValid bit h small v =
      ((omega (arith, mask_of-lt h.held), v.0, v.1), (pointing-IsValid h v, tt))

  messages-IsValid :
      (qemu_hacks : Bool) (event : InputEvent) (h : Hands)
      → IsTyped event
      → InPlace h
      → All RoundTrip.IsValid (messages xk qemu_hacks event h)
  messages-IsValid qemu_hacks (key down keycode) h t v =
      key_press-IsValid (map_special_key xk h.ctrl keycode) down
        (map_special_key-Fits32 h.ctrl keycode)
  messages-IsValid qemu_hacks (text_input []) h t v = tt
  messages-IsValid qemu_hacks (text_input (c ∷ text)) h t v = (omega arith, (omega arith, tt))
  messages-IsValid qemu_hacks (mouse_motion x y) h t v =
      if-both (All RoundTrip.IsValid) qemu_hacks [] (pointing (mask_of h.held) h ∷ []) tt
        (pointing-IsValid h v, tt)
  messages-IsValid qemu_hacks (mouse_button down x y button) h t v = (pointing-IsValid h v, tt)
  messages-IsValid qemu_hacks (mouse_wheel y) h t v =
      if-both (All RoundTrip.IsValid) (y ==ℤ pos 1) (wheel 0x08 h)
        (if y ==ℤ negsuc 0 then wheel 0x10 h else []) (wheel-IsValid 0x08 h (omega arith) v)
        (if-both (All RoundTrip.IsValid) (y ==ℤ negsuc 0) (wheel 0x10 h) []
          (wheel-IsValid 0x10 h (omega arith) v) tt)
  messages-IsValid qemu_hacks (clipboard_update text) h t v = tt
  messages-IsValid qemu_hacks other h t v = tt

  all_messages-IsValid :
      (qemu_hacks : Bool) (events : List InputEvent) (h : Hands)
      → All IsTyped events
      → InPlace h
      → All RoundTrip.IsValid (all_messages xk qemu_hacks events h)
  all_messages-IsValid qemu_hacks [] h t v = tt
  all_messages-IsValid qemu_hacks (event ∷ events) h (t, ts) v =
      let later : InPlace (moved event h) = moved-InPlace event h v in
      All-append RoundTrip.IsValid (messages xk qemu_hacks event (moved event h))
        (all_messages xk qemu_hacks events (moved event h))
        (messages-IsValid qemu_hacks event (moved event h) t later)
        (all_messages-IsValid qemu_hacks events (moved event h) ts later)

  viewed_only :
      (qemu_hacks : Bool) (events : List InputEvent) (s : Controls)
      → on_inputs xk true qemu_hacks events s ≡ (ok tt, s)
  unfolding on_inputs on_input
  viewed_only qemu_hacks [] s = refl
  viewed_only qemu_hacks (event ∷ events) s = viewed_only qemu_hacks events s

  -- What a server reads of any sequence of the user's input is the messages for it in order, and no
  -- byte behind them, and the program has not panicked. In view-only mode there are none. Otherwise
  -- the mask of each pointer event is that of the buttons held at that time; a turn of the wheel by
  -- 1 or -1 is one more button that goes down and up, and any other turn is no message; and where
  -- QEMU's workarounds are on, neither is a move of the mouse. Text has a character at least, the
  -- clipboard does not change, the keysyms fit a u32 and the mouse starts at a place that fits a u16.
  pub on_inputs-read_many :
      (view_only qemu_hacks : Bool) (events : List InputEvent) (h : Hands) (client : Client)
      (polls : List (Option Event)) (rest : Input)
      → All IsTyped events
      → InPlace h
      → Understood (due view_only (all_messages xk qemu_hacks events h)) rest (
          on_inputs xk view_only qemu_hacks events
            (controls h (record { client = client; outgoing = []; polls = polls })))
  unfolding write_many
  on_inputs-read_many true qemu_hacks events h client polls rest t v =
      subst (Understood [] rest)
        (sym (
          viewed_only qemu_hacks events
            (controls h (record { client = client; outgoing = []; polls = polls }))))
        (read_many-write_many ClientMessage.read_from ClientMessage.write_to
          (λ m ok rest. C2s-read_from-write_to m rest ok) [] tt rest)
  on_inputs-read_many false qemu_hacks events h client polls rest t v =
      let list : List C2s = all_messages xk qemu_hacks events h in
      subst (Understood list rest)
        (sym (
          on_inputs_lem xk qemu_hacks events h
            (record { client = client; outgoing = []; polls = polls }) t))
        (read_many-write_many ClientMessage.read_from ClientMessage.write_to
          (λ m ok rest. C2s-read_from-write_to m rest ok) list
          (all_messages-IsValid qemu_hacks events h t v) rest)
