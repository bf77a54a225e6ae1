-- ===== src/Viewer/Input/Refine.antt =====
-- client/main.rs: the messages that the program sends for the user's input.
use rust_vnc.Common.{ℕ, ◌+◌, List, [], ◌∷◌, ◌++◌, Bool, true, false, ◌≡◌, ap, sym, ◌∙◌, All}
use rust_vnc.Common.{if◌then◌else◌, Option, none, some, bit_or, append_assoc, append-nil}
use rust_vnc.Common.Int.{pos, negsuc, ◌==ℤ◌}
use rust_vnc.Wire.{Result, ok, write_many, write_many-append}
use rust_vnc.Wire.Session.{return}
use rust_vnc.Protocol.ClientMessage
use rust_vnc.Protocol.ClientMessage.{C2s}
use rust_vnc.Client.Requests.{Session, write, send_key_event, send_pointer_event}
use rust_vnc.Viewer.Keys.{Keysym, map_special_key}
use rust_vnc.Viewer.Input.{InputEvent, Controls, on_input, on_inputs, react}
use rust_vnc.Viewer.Input.{
  key, text_input, mouse_motion, mouse_button, mouse_wheel, clipboard_update, other,
}
use rust_vnc.Viewer.Input.{
  send_pointer, move_to, note_ctrl, set_buttons, type_char, scroll, send_special, press_key,
}
use rust_vnc.Viewer.Input.Held.{change, mask_of, press-mask_of, wheel-mask_of}
use rust_vnc.Viewer.Input.Hands.{
  Hands, moved, all_moved, pointing, key_press, wheel, messages, all_messages, IsTyped, controls,
}

abbrev with_messages : Session → List C2s → Session
with_messages vnc list = record vnc {
  outgoing = vnc.outgoing ++ write_many ClientMessage.write_to list;
}

module _ (xk : Keysym → ℕ) (qemu_hacks : Bool) where
  one : (vnc : Session) (m : C2s) → write m vnc ≡ with_messages vnc (m ∷ [])
  unfolding write write_many
  one vnc m =
      ap (λ o. record vnc { outgoing = vnc.outgoing ++ o })
        (sym (append-nil (ClientMessage.write_to m)))

  two : (vnc : Session) (m n : C2s) → write n (write m vnc) ≡ with_messages vnc (m ∷ n ∷ [])
  unfolding write write_many
  two vnc m n =
      ap (λ o. record vnc { outgoing = o })
        (append_assoc vnc.outgoing (ClientMessage.write_to m) (ClientMessage.write_to n)
          ∙ ap (λ o. vnc.outgoing ++ (ClientMessage.write_to m ++ o))
              (sym (append-nil (ClientMessage.write_to n))))

  nothing : (vnc : Session) → vnc ≡ with_messages vnc []
  unfolding write_many
  nothing vnc = ap (λ o. record vnc { outgoing = o }) (sym (append-nil vnc.outgoing))

  -- What is sent ends a step: the hands and the messages are known.
  abbrev Sends : Hands → Session → List C2s → Result (Unit {0}) × Controls → Type 0
  Sends h vnc list r = r ≡ (ok tt, controls h (with_messages vnc list))

  sent_key :
      (o : Option ℕ) (down : Bool) (h : Hands) (vnc : Session)
      → Sends h vnc (key_press o down) (send_special o down (controls h vnc))
  unfolding send_key_event
  sent_key none down h vnc = ap (λ s. (ok tt, controls h s)) (nothing vnc)
  sent_key (some keysym) down h vnc =
      ap (λ s. (ok tt, controls h s)) (one vnc (C2s.key_event down keysym))

  sent_motion :
      (b : Bool) (h : Hands) (vnc : Session)
      → Sends h vnc
          (if b then [] else pointing (mask_of h.held) h ∷ [])
          (if b then return tt (controls h vnc) else send_pointer (mask_of h.held) (controls h vnc))
  unfolding send_pointer send_pointer_event
  sent_motion true h vnc = ap (λ s. (ok tt, controls h s)) (nothing vnc)
  sent_motion false h vnc = ap (λ s. (ok tt, controls h s)) (one vnc (pointing (mask_of h.held) h))

  sent_wheel :
      (bit : ℕ) (h : Hands) (vnc : Session)
      → bit_or (mask_of h.held) bit ≡ mask_of h.held + bit
      → Sends h vnc (wheel bit h) (scroll bit (controls h vnc))
  unfolding scroll send_pointer send_pointer_event
  sent_wheel bit h vnc e =
      ap (λ n. (ok tt, controls h (write (pointing (mask_of h.held) h) (write (pointing n h) vnc))))
        e
      ∙ ap (λ s. (ok tt, controls h s))
          (two vnc (pointing (mask_of h.held + bit) h) (pointing (mask_of h.held) h))

  sent_scroll :
      (up down : Bool) (h : Hands) (vnc : Session)
      → Sends h vnc
          (if up then wheel 0x08 h else if down then wheel 0x10 h else [])
          ((if up then scroll 0x08 else if down then scroll 0x10 else return tt) (controls h vnc))
  sent_scroll true down h vnc = sent_wheel 0x08 h vnc (wheel-mask_of h.held).0
  sent_scroll false true h vnc = sent_wheel 0x10 h vnc (wheel-mask_of h.held).1
  sent_scroll false false h vnc = ap (λ s. (ok tt, controls h s)) (nothing vnc)

  on_input_lem :
      (event : InputEvent) (h : Hands) (vnc : Session)
      → IsTyped event
      → on_input xk false qemu_hacks event (controls h vnc) ≡ (
        ok tt,
        controls (moved event h) (with_messages vnc (messages xk qemu_hacks event (moved event h))),
      )
  unfolding on_input react press_key type_char move_to send_pointer set_buttons scroll note_ctrl
      send_key_event send_pointer_event
  on_input_lem (key down keycode) h vnc v =
      sent_key (map_special_key xk (moved (key down keycode) h).ctrl keycode) down
        (moved (key down keycode) h) vnc
  on_input_lem (text_input []) h vnc v = absurd v
  on_input_lem (text_input (c ∷ text)) h vnc v =
      ap (λ s. (ok tt, controls h s))
        (two vnc (C2s.key_event true (0x01000000 + c)) (C2s.key_event false (0x01000000 + c)))
  on_input_lem (mouse_motion x y) h vnc v = sent_motion qemu_hacks (moved (mouse_motion x y) h) vnc
  on_input_lem (mouse_button down x y button) h vnc v = rw (press-mask_of down button h.held) (
      ap (λ s. (ok tt, controls (moved (mouse_button down x y button) h) s))
        (one vnc (
          pointing (mask_of (change down button h.held)) (moved (mouse_button down x y button) h))))
  on_input_lem (mouse_wheel y) h vnc v = sent_scroll (y ==ℤ pos 1) (y ==ℤ negsuc 0) h vnc
  on_input_lem (clipboard_update text) h vnc v = absurd v
  on_input_lem other h vnc v = ap (λ s. (ok tt, controls h s)) (nothing vnc)

  pub on_inputs_lem :
      (events : List InputEvent) (h : Hands) (vnc : Session)
      → All IsTyped events
      → on_inputs xk false qemu_hacks events (controls h vnc) ≡ (
        ok tt,
        controls (all_moved events h) (with_messages vnc (all_messages xk qemu_hacks events h)),
      )
  unfolding on_inputs
  on_inputs_lem [] h vnc v = ap (λ s. (ok tt, controls h s)) (nothing vnc)
  on_inputs_lem (event ∷ events) h vnc (v, vs) =
      let now : List C2s = messages xk qemu_hacks event (moved event h) in
      let later : List C2s = all_messages xk qemu_hacks events (moved event h) in
      rw (on_input_lem event h vnc v) (
        on_inputs_lem events (moved event h) (with_messages vnc now) vs
        ∙ ap
            (λ o.
              (ok tt, controls (all_moved events (moved event h)) (record vnc { outgoing = o })))
            (append_assoc vnc.outgoing (write_many ClientMessage.write_to now)
                (write_many ClientMessage.write_to later)
              ∙ ap (λ o. vnc.outgoing ++ o)
                  (sym (write_many-append ClientMessage.write_to now later))))
