-- ===== src/Viewer/Running/Tests.antt =====
-- The loop of client/main.rs at concrete inputs.
use rust_vnc.Viewer.Screen.{create_window, create_screen}
use rust_vnc.Common.{ℕ, List, [], ◌∷◌, true, false, ◌≡◌, refl, arith, none, some}
use rust_vnc.Common.Int.{pos, negsuc}
use rust_vnc.Wire.{ok, ends, unexpected_eof, write_many}
use rust_vnc.Client.Events.{Event}
use rust_vnc.Client.Handshake.{Client}
use rust_vnc.Client.Events.Samples.{grey}
use rust_vnc.Viewer.Keys.{Keycode}
use rust_vnc.Viewer.Cursor.{mask_cursor}
use rust_vnc.Viewer.Cursor.Alpha.{IsNative, IsRgb888, masked_all, mask_cursor-masked_all}
use rust_vnc.Viewer.Input.{InputEvent, on_inputs}
use rust_vnc.Viewer.Input
use rust_vnc.Viewer.Input.Hands.{Hands, all_messages, controls}
use rust_vnc.Viewer.Input.Understood.{Understood, due, on_inputs-read_many}
use rust_vnc.Viewer.Samples.{bytes_of, little, sdl, one_keysym}
use rust_vnc.Viewer.Rendered.{fallback_format}
use rust_vnc.Viewer.Running.{Program, Round, quit_event, input}
use rust_vnc.Viewer.Running.Sized.{Sized}

little-IsNative : IsNative little
little-IsNative = record { length-bytes = λ word. refl; number-bytes = λ word h. omega arith }

sdl-IsRgb888 : IsRgb888 sdl
sdl-IsRgb888 = record {
  self = refl;
  not_rgb332 = refl;
  not_rgb444 = refl;
  not_rgb555 = refl;
  not_rgb565 = refl;
  not_bgr555 = refl;
  not_bgr565 = refl;
  not_rgb24 = refl;
  in_size = refl;
  out_size = refl;
  in_masks = refl;
  out_masks = refl;
}

-- A red pixel that is opaque, and a blue one that is not.
mask_cursor-masked_all_example :
    mask_cursor little sdl fallback_format
      (write_many (bytes_of 4) (0xff0000 ∷ 0xff ∷ []))
      (128 ∷ 0 ∷ [])
    ≡ ok (15, write_many (bytes_of 4) (masked_all (0xff0000 ∷ 0xff ∷ []) (128 ∷ 0 ∷ [])))
mask_cursor-masked_all_example =
    mask_cursor-masked_all little little-IsNative sdl (0xff0000 ∷ 0xff ∷ []) (128 ∷ 0 ∷ [])
      sdl-IsRgb888 (omega arith, (omega arith, tt)) (omega arith)

masks_red : masked_all (0xff0000 ∷ 0xff ∷ []) (128 ∷ 0 ∷ []) ≡ 0xffff0000 ∷ 0xff ∷ []
masks_red = refl

abbrev idle : Hands
idle = record { held = λ m. false; place = (0, 0); ctrl = false }

abbrev screen_of : Client
screen_of = record { name = []; size = (640, 480); format = grey }

-- A drag with the left button, a turn of the wheel meanwhile, and a typed letter.
abbrev drag : List InputEvent
drag =
    Input.mouse_button true (pos 10) (pos 20) Input.left
    ∷ Input.mouse_wheel (negsuc 0)
    ∷ Input.mouse_motion (pos 30) (pos 20)
    ∷ Input.mouse_button false (pos 30) (pos 20) Input.left
    ∷ Input.text_input (97 ∷ [])
    ∷ Input.key true Keycode.f1
    ∷ []

on_inputs-read_many_example :
    Understood (due false (all_messages one_keysym false drag idle)) (ends unexpected_eof) (
      on_inputs one_keysym false false drag
        (controls idle (record { client = screen_of; outgoing = []; polls = [] })))
on_inputs-read_many_example =
    on_inputs-read_many one_keysym (λ s. omega arith) false false drag idle screen_of []
      (ends unexpected_eof) (tt, (tt, (tt, (tt, (omega arith, (tt, tt))))))
      (omega arith, omega arith)

abbrev start : Program ℕ
start = record {
  screen = record {
    width = 640;
    height = 480;
    incremental = true;
    hotspot = (0, 0);
    cursor = none;
    cursor_rect = none;
    qemu_network_rtt = 1000;
    qemu_prev_update = 0;
    qemu_next_update = 500;
    drawn = create_window 640 480 ∷ create_screen 640 480 ∷ [];
  };
  controls = controls idle (record {
    client = screen_of;
    outgoing = [];
    polls = some (Event.resize 800 600) ∷ none ∷ some Event.bell ∷ [];
  });
}

abbrev two_rounds : List Round
two_rounds =
    record { clock = (1, false) ∷ (2, false) ∷ []; events = input Input.other ∷ []; end_ticks = 3 }
    ∷ record { clock = (20, true) ∷ []; events = quit_event ∷ []; end_ticks = 21 }
    ∷ []
