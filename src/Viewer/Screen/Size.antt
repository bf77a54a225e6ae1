-- ===== src/Viewer/Screen/Size.antt =====
-- client/main.rs: the size of the screen behind an event of the client.
use rust_vnc.Common.{
  ℕ, ◌++◌, ◌∷◌, [], All, ap, ◌∙◌, Option, some, none, ◌+◌, ◌*◌, ◌/◌, List, Bool, ◌&&◌, not, ◌==◌,
  ◌≡◌, refl,
}
use rust_vnc.Wire.{Result}
use rust_vnc.Wire.Outcome.{anything, Always, bind-Always, if-Always}
use rust_vnc.Wire.Session.{Action, ◌>>=◌, return}
use rust_vnc.Protocol.PixelFormat.{PixelFormat}
use rust_vnc.Client.Events.{Event}
use rust_vnc.Client.Handshake.{Client}
use rust_vnc.Client.Requests.{resized}
use rust_vnc.Viewer.Cursor.{NativeEndian, AlphaSdl, mask_cursor}
use rust_vnc.Viewer.Mask.{mask_pixels}
use rust_vnc.Viewer.Screen.{
  Screen, Draw, Renderer, SdlRect, sdl_rect, Flow, next, quit, copy, on_event, u32, draw, lift,
  measure, put, new_unwrap, set_picture, set_hotspot, note_full, resize_to,
}
use rust_vnc.Viewer.Screen

abbrev pub Anything : {A : Type 0} → A → Type 0
Anything a = Unit {0}

-- The size behind an event.
abbrev pub size_behind : Event → ℕ × ℕ → ℕ × ℕ
size_behind (Event.resize w h) size = (w, h)
size_behind (Event.disconnected e) size = size
size_behind (Event.set_colour_map first_colour colours) size = size
size_behind (Event.put_pixels r pixels) size = size
size_behind (Event.copy_pixels src dst) size = size
size_behind Event.end_of_frame size = size
size_behind (Event.set_cursor s hotspot pixels mask_bits) size = size
size_behind (Event.clipboard text) size = size
size_behind Event.bell size = size

pub resized-size : (event : Event) (c : Client) → (resized event c).size ≡ size_behind event c.size
unfolding resized
resized-size (Event.resize w h) c = refl
resized-size (Event.disconnected e) c = refl
resized-size (Event.set_colour_map first_colour colours) c = refl
resized-size (Event.put_pixels r pixels) c = refl
resized-size (Event.copy_pixels src dst) c = refl
resized-size Event.end_of_frame c = refl
resized-size (Event.set_cursor s hotspot pixels mask_bits) c = refl
resized-size (Event.clipboard text) c = refl
resized-size Event.bell c = refl

-- The sizes of the window and of its texture, behind a call of SDL and behind several.
abbrev pub Sizes : Type 0
Sizes = Option (ℕ × ℕ) × Option (ℕ × ℕ)

abbrev pub sized_by : Draw → Sizes → Sizes
sized_by (Screen.create_window w h) (window, texture) = (some (w, h), texture)
sized_by (Screen.set_size w h) (window, texture) = (some (w, h), texture)
sized_by (Screen.create_screen w h) (window, texture) = (window, some (w, h))
sized_by (Screen.update r pixels pitch) sizes = sizes
sized_by (Screen.copy r) sizes = sizes
sized_by (Screen.copy_cursor source place) sizes = sizes
sized_by (Screen.show_cursor shown) sizes = sizes
sized_by Screen.clear sizes = sizes
sized_by Screen.present sizes = sizes
sized_by (Screen.set_clipboard_text text) sizes = sizes

abbrev pub sizes_behind : Sizes → List Draw → Sizes
sizes_behind sizes [] = sizes
sizes_behind sizes (d ∷ drawn) = sizes_behind (sized_by d sizes) drawn

sizes_behind-append :
    (sizes : Sizes) (before after : List Draw)
    → sizes_behind sizes (before ++ after) ≡ sizes_behind (sizes_behind sizes before) after
sizes_behind-append sizes [] after = refl
sizes_behind-append sizes (d ∷ before) after = sizes_behind-append (sized_by d sizes) before after

-- A call that changes no size.
abbrev pub IsQuiet : Draw → Type 0
IsQuiet d = (sizes : Sizes) → sized_by d sizes ≡ sizes

quiet_lem :
    (sizes : Sizes) (calls : List Draw) → All IsQuiet calls → sizes_behind sizes calls ≡ sizes
quiet_lem sizes [] h = refl
quiet_lem sizes (d ∷ calls) (q, h) =
    ap (λ t. sizes_behind t calls) (q sizes) ∙ quiet_lem sizes calls h

module _ {S : Type 0} (size : ℕ × ℕ) where
  -- The variables have that size, and so have the window and its texture in SDL.
  abbrev pub Is : Screen S → Type 0
  Is s = ((s.width, s.height) ≡ size) × (sizes_behind (none, none) s.drawn ≡ (some size, some size))

  -- Calls that change no size.
  pub quiet-Is : (calls : List Draw) (s : Screen S) → All IsQuiet calls → Is s → Is (draw calls s).1
  quiet-Is calls s quiet (same, shown) = (
    same,
    sizes_behind-append (none, none) s.drawn calls
        ∙ (ap (λ t. sizes_behind t calls) shown ∙ quiet_lem (some size, some size) calls quiet),
  )

  pub draw-Always : (calls : List Draw) → All IsQuiet calls → Always Is (draw calls) Anything
  draw-Always calls quiet s v = (quiet-Is calls s quiet v, tt)

  lift-Always : {A : Type 0} (r : Result A) → Always Is (lift r) Anything
  lift-Always r s v = (v, anything r)

  pub then-Always :
      {A B : Type 0} (m : Action (Screen S) A) (k : A → Action (Screen S) B)
      → Always Is m Anything
      → ((a : A) → Always Is (k a) Anything)
      → Always Is (m >>= k) Anything
  then-Always m k h f = bind-Always Is m k Anything Anything h λ a u. f a

  measure-Always : (now : ℕ) → Always Is (measure now) Anything
  unfolding measure
  measure-Always now s v =
      then-Always (lift (Screen.u32_sub now s.qemu_prev_update)) _ (lift-Always _)
        (λ rtt. then-Always (lift (u32 (s.qemu_network_rtt * 80))) _ (lift-Always _) λ old.
          then-Always (lift (u32 (rtt * 20))) _ (lift-Always _) λ new.
            then-Always (lift (u32 (old / 100 + new / 100))) _ (lift-Always _)
              λ avg. then-Always (lift (u32 (now + avg / 2))) _ (lift-Always _) λ n t w. (w, tt))
        s v

module _ {S : Type 0} (native : NativeEndian) (sdl : AlphaSdl S) (renderer : Renderer)
    (size : ℕ × ℕ) where
  put-Always :
      (r : SdlRect) (pixels : List ℕ)
      → Always (Is {S = S} size) (put native sdl renderer r pixels) Anything
  unfolding put
  put-Always r pixels =
      draw-Always size (Screen.update r pixels (renderer.byte_size_of_pixels r.width) ∷ copy r ∷ [])
        (λ t. refl, (λ t. refl, tt))

  set_cursor-Always :
      (f : PixelFormat) (wh : ℕ × ℕ) (pixels mask_bits : List ℕ)
      → Always
          (Is {S = S} size)
          (Screen.set_cursor native sdl renderer f wh pixels mask_bits)
          Anything
  unfolding Screen.set_cursor
  set_cursor-Always f (w, h) pixels mask_bits =
      if-Always (Is size) (not (w == 0) && not (h == 0)) _ _ Anything
        (then-Always size (lift (mask_pixels w h mask_bits)) _ (lift-Always size _) λ mask.
          then-Always size (lift (mask_cursor native sdl f pixels mask)) _ (lift-Always size _)
            λ masked s v. (v, tt))
        λ s v. (v, tt)

module _ {S : Type 0} (native : NativeEndian) (sdl : AlphaSdl S) (renderer : Renderer)
    (qemu_hacks : Bool) (vnc_format : PixelFormat) where
  pub on_event_size :
      (size : ℕ × ℕ) (now : ℕ) (event : Event) (s : Screen S)
      → Is size s
      → Is
          (size_behind event size)
          (on_event native sdl renderer qemu_hacks vnc_format now event s).1
  unfolding on_event
  on_event_size size now (Event.disconnected e) s v = v
  on_event_size size now (Event.resize w h) s (same, shown) = (
    refl,
    sizes_behind-append (none, none) s.drawn (Screen.set_size w h ∷ Screen.create_screen w h ∷ []),
  )
  on_event_size size now (Event.set_colour_map first_colour colours) s v = v
  on_event_size size now (Event.put_pixels r pixels) s v =
      (then-Always size (new_unwrap native sdl renderer (sdl_rect r)) _ (λ t v. (v, anything _))
        (λ u.
          then-Always size (put native sdl renderer (sdl_rect r) pixels) (λ f. note_full r)
            (put-Always native sdl renderer size (sdl_rect r) pixels) λ f t v. (v, tt))
        s v).0
  on_event_size size now (Event.copy_pixels src dst) s v =
      (then-Always size (new_unwrap native sdl renderer (sdl_rect src)) _ (λ t v. (v, anything _))
        (λ u.
          then-Always size (new_unwrap native sdl renderer (sdl_rect dst)) _
            (λ t v. (v, anything _))
            λ u' t v.
              put-Always native sdl renderer size (sdl_rect dst)
                (renderer.read_pixels t.drawn (sdl_rect src)) t v)
        s v).0
  on_event_size size now Event.end_of_frame s v =
      (if-Always (Is size) qemu_hacks (measure now) (return next) Anything (measure-Always size now)
        (λ t v. (v, tt)) s v).0
  on_event_size size now (Event.set_cursor wh hotspot pixels mask_bits) s v =
      (then-Always size (set_hotspot hotspot)
        (λ u. Screen.set_cursor native sdl renderer vnc_format wh pixels mask_bits) (λ t v. (v, tt))
        (λ u. set_cursor-Always native sdl renderer size vnc_format wh pixels mask_bits) s v).0
  on_event_size size now (Event.clipboard text) s v =
      quiet-Is size (Screen.set_clipboard_text text ∷ []) s (λ t. refl, tt) v
  on_event_size size now Event.bell s v = v
