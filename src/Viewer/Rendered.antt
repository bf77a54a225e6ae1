-- ===== src/Viewer/Rendered.antt =====
-- client/main.rs: the pixel format that the program renders.
use rust_vnc.Common.{
  ℕ, ◌<◌, List, ◌∷◌, ◌++◌, ◌≡◌, refl, sym, ◌∙◌, ap, length, map, All, Option, none, some,
}
use rust_vnc.Wire.{Result, ok, err, panic}
use rust_vnc.Protocol.PixelFormat.{PixelFormat}
use rust_vnc.Client.Handshake.{Client}
use rust_vnc.Client.Events.{Event, put_pixels}
use rust_vnc.Client.Requests.{Session, set_format}
use rust_vnc.Client.Requests.Waiting.{session, whole, Passes, set_format-completes}
use rust_vnc.Viewer.{Sdl, pixel_format_vnc_to_sdl, pixel_format_sdl_to_vnc, find_vnc, packed}
use rust_vnc.Viewer.{render_format, settled}
use rust_vnc.Viewer.Formats.{IsSdl, pixel_format_vnc_to_sdl_back}

-- The pixel format of RGB888.
abbrev pub fallback_format : PixelFormat
fallback_format = packed 32 24 (255, 255, 255) (16, 8, 0)

module _ {S : Type 0} (sdl : Sdl S) where
  -- The program has an SDL format, and the client decodes to the pixel format of it.
  abbrev pub Renders : Option (Result S × Session) → Type 0
  Renders none = ⊥
  Renders (some (ok format, s)) = pixel_format_sdl_to_vnc sdl format ≡ some s.client.format
  Renders (some (err e, s)) = ⊥
  Renders (some (panic, s)) = ⊥

  pub fallback : IsSdl sdl → pixel_format_sdl_to_vnc sdl sdl.rgb888 ≡ some fallback_format
  unfolding pixel_format_sdl_to_vnc find_vnc
  fallback lawful = rw (lawful.same_refl sdl.rgb888) refl

  settled-Renders :
      (fuel : ℕ) (o : Option S) (s t : Session)
      → IsSdl sdl
      → pixel_format_vnc_to_sdl sdl s.client.format ≡ o
      → set_format fuel fallback_format s ≡ some t
      → t.client.format ≡ fallback_format
      → Renders (settled sdl fuel o s)
  settled-Renders fuel (some format) s t lawful found switched adopted =
      pixel_format_vnc_to_sdl_back sdl s.client.format format lawful found
  settled-Renders fuel none s t lawful found switched adopted =
      rw (fallback lawful) (rw switched (fallback lawful ∙ ap some (sym adopted)))

  -- Whatever pixel format the server greets with, the program renders in an SDL format that is the
  -- one of the pixel format which the client decodes to from then on, where an update of the whole
  -- framebuffer arrives behind the events that are drained, the rounds of the loop that waits for it
  -- suffice, and SDL's `==` is reflexive and tells the five formats of the table apart.
  pub render_format-Renders :
      (quiet : List Event) (waiting : List (Option Event)) (c : Client) (o : List ℕ)
      (pixels : List ℕ) (rest : List (Option Event)) (fuel : ℕ)
      → IsSdl sdl
      → All (Passes (whole quiet waiting c o fallback_format)) waiting
      → length waiting < fuel
      → Renders (
          render_format sdl fuel (
            session c o (
              map some quiet
              ++ none
                ∷ (waiting
                    ++ some (put_pixels (whole quiet waiting c o fallback_format) pixels) ∷ rest))))
  unfolding render_format
  render_format-Renders quiet waiting c o pixels rest fuel lawful v enough =
      settled-Renders fuel (pixel_format_vnc_to_sdl sdl c.format) _ _ lawful refl
        (set_format-completes quiet waiting c o fallback_format pixels rest fuel v enough) refl
