-- ===== src/Viewer/Tests.antt =====
-- The choices of client/main.rs at concrete inputs.
use rust_vnc.Wire.{ok}
use rust_vnc.Common.{[], ◌∷◌, ◌++◌, ◌≡◌, refl, arith, none, some, map}
use rust_vnc.Protocol.PixelFormat.{PixelFormat}
use rust_vnc.Protocol.Security.{SecurityType, unknown, vnc_authentication}
use rust_vnc.Client.Auth.{auth_methods}
use rust_vnc.Client.Events.{put_pixels, bell}
use rust_vnc.Client.Requests.{is_frame}
use rust_vnc.Client.Requests.Waiting.{session, whole}
use rust_vnc.Viewer.{packed, choose, format_eq, find_sdl}
use rust_vnc.Viewer.{pixel_format_vnc_to_sdl, render_format}
use rust_vnc.Viewer.Choice.{Answers, choose-Answers}
use rust_vnc.Viewer.Samples.{numbered, numbered-IsSdl, small}
use rust_vnc.Viewer.Mask.{bits_from, mask_pixels, all_bits, mask_pixels_lem}
use rust_vnc.Viewer.Rendered.{Renders, fallback_format, render_format-Renders}

-- The program has a password and no user name.
choose-Answers_example :
    Answers (SecurityType.apple_remote_desktop ∷ unknown 19 ∷ vnc_authentication ∷ []) (
      choose
        (λ text. text)
        none
        (some (115 ∷ []))
        (auth_methods (SecurityType.apple_remote_desktop ∷ unknown 19 ∷ vnc_authentication ∷ [])))
choose-Answers_example =
    choose-Answers (λ text. text) none (some (115 ∷ []))
      (SecurityType.apple_remote_desktop ∷ unknown 19 ∷ vnc_authentication ∷ [])

abbrev bgr : PixelFormat
bgr = packed 32 24 (255, 255, 255) (0, 8, 16)

bgr_found : pixel_format_vnc_to_sdl numbered bgr ≡ some 1
unfolding pixel_format_vnc_to_sdl find_sdl format_eq
bgr_found = refl

-- RGB565 as servers announce it, with the largest values of its components, is not found.
announced_565_missed :
    pixel_format_vnc_to_sdl numbered (packed 16 16 (31, 63, 31) (11, 5, 0)) ≡ none
unfolding pixel_format_vnc_to_sdl find_sdl format_eq
announced_565_missed = refl

render_format-Renders_example : Renders numbered (
    render_format numbered 3 (
      session small [] (
        map some (bell ∷ [])
        ++ none
          ∷ (none
              ∷ some bell
              ∷ some (
                  put_pixels
                    (whole (bell ∷ []) (none ∷ some bell ∷ []) small [] fallback_format)
                    [])
              ∷ []))))
unfolding is_frame
render_format-Renders_example =
    render_format-Renders numbered (bell ∷ []) (none ∷ some bell ∷ []) small [] [] [] 3
      numbered-IsSdl (tt, (refl, tt)) (omega arith)

-- Nine pixels in a row, and two rows.
mask_pixels_lem_example :
    mask_pixels 9 2 (0xff ∷ 0x80 ∷ 0x01 ∷ 0x00 ∷ [])
    ≡ ok (all_bits (0xff ∷ 0x80 ∷ 0x01 ∷ 0x00 ∷ []))
mask_pixels_lem_example =
    mask_pixels_lem 9 2 (0xff ∷ 0x80 ∷ 0x01 ∷ 0x00 ∷ []) (omega arith) (omega arith) (omega arith)

mask_bits_widened : all_bits (0x82 ∷ []) ≡ 128 ∷ 0 ∷ 0 ∷ 0 ∷ 0 ∷ 0 ∷ 2 ∷ 0 ∷ []
unfolding bits_from
mask_bits_widened = refl
