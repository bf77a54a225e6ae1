-- ===== src/Viewer/Drawing/Size.antt =====
-- client/main.rs: the size of the screen is not changed where the cursor is drawn.
use rust_vnc.Common.{refl, true}
use rust_vnc.Common.{ℕ, ◌++◌, [], ◌∷◌, false, Option, none, some}
use rust_vnc.Wire.Outcome.{anything, Always}
use rust_vnc.Wire.Session.{Action, ◌>>◌}
use rust_vnc.Viewer.Cursor.{NativeEndian, AlphaSdl}
use rust_vnc.Viewer.Screen.{
  Screen, Renderer, SdlRect, Flow, Picture, copy_cursor, show_cursor, copy, draw, new_unwrap,
}
use rust_vnc.Viewer.Drawing.{uncover, draw_cursor}
use rust_vnc.Viewer.Drawing
use rust_vnc.Viewer.Screen.Size.{Anything, Is, then-Always, draw-Always, quiet-Is}

module _ {S : Type 0} (native : NativeEndian) (sdl : AlphaSdl S) (renderer : Renderer)
    (size : ℕ × ℕ) where
  copy_rect-Always :
      (r : Option SdlRect)
      → Always (Is {S = S} size) (Drawing.copy_rect native sdl renderer r) Anything
  copy_rect-Always none s v = (v, tt)
  copy_rect-Always (some r) s v = draw-Always size (copy r ∷ []) (λ t. refl, tt) s v

  unwrapped-Always :
      (r : SdlRect) (rest : Action (Screen S) Flow)
      → Always (Is {S = S} size) rest Anything
      → Always (Is {S = S} size) (do new_unwrap native sdl renderer r; rest) Anything
  unwrapped-Always r rest h =
      then-Always size (new_unwrap native sdl renderer r) (λ u. rest) (λ s v. (v, anything _))
        λ u. h

  paint-Always :
      (r : Option SdlRect) (raw : SdlRect)
      → Always (Is {S = S} size) (Drawing.paint native sdl renderer r raw) Anything
  paint-Always none raw s v = (v, tt)
  paint-Always (some clipped) raw s v =
      let source : SdlRect = Drawing.source_rect native sdl renderer clipped raw in
      unwrapped-Always source (draw (copy_cursor source clipped ∷ []))
        (draw-Always size (copy_cursor source clipped ∷ []) (λ t. refl, tt)) s v

  paint_clipped-Always :
      (r : Option SdlRect) (raw : SdlRect)
      → Always (Is {S = S} size) (Drawing.paint_clipped native sdl renderer r raw) Anything
  paint_clipped-Always r raw =
      then-Always size (Drawing.paint native sdl renderer r raw)
        (λ f. Drawing.set_cursor_rect native sdl renderer r) (paint-Always r raw) λ f s v. (v, tt)

  draw_picture-Always :
      (raw screen : SdlRect)
      → Always (Is {S = S} size) (Drawing.draw_picture native sdl renderer raw screen) Anything
  draw_picture-Always raw screen s v =
      let clipped : Option SdlRect = renderer.intersection raw screen in
      unwrapped-Always raw
        (do
          new_unwrap native sdl renderer screen
          Drawing.paint_clipped native sdl renderer clipped raw)
        (unwrapped-Always screen (Drawing.paint_clipped native sdl renderer clipped raw)
          (paint_clipped-Always clipped raw))
        (record s { drawn = s.drawn ++ show_cursor false ∷ [] })
        (quiet-Is size (show_cursor false ∷ []) s (λ t. refl, tt) v)

  draw_or_hide-Always :
      (mouse_x mouse_y : ℕ) (cursor : Option (Picture S))
      → Always
          (Is {S = S} size)
          (Drawing.draw_or_hide native sdl renderer mouse_x mouse_y cursor)
          Anything
  draw_or_hide-Always mouse_x mouse_y none s v =
      (quiet-Is size (show_cursor true ∷ []) s (λ t. refl, tt) v, tt)
  draw_or_hide-Always mouse_x mouse_y (some cursor) s v =
      draw_picture-Always (Drawing.raw_cursor_rect native sdl renderer mouse_x mouse_y cursor s)
        (Drawing.screen_rect native sdl renderer s) s v

  pub repaint-Always :
      (mouse_x mouse_y : ℕ)
      → Always
          (Is {S = S} size)
          (do uncover native sdl renderer; draw_cursor native sdl renderer mouse_x mouse_y)
          Anything
  unfolding uncover draw_cursor
  repaint-Always mouse_x mouse_y =
      then-Always size (uncover native sdl renderer) _ (λ s v. copy_rect-Always s.cursor_rect s v)
        λ u s v. draw_or_hide-Always mouse_x mouse_y s.cursor s v
