-- ===== src/Viewer/Drawing.antt =====
-- client/main.rs: the cursor is drawn over the screen, and what it covered is drawn again.
use rust_vnc.Common.{ℕ, [], ◌∷◌, true, false, Option, none, some}
use rust_vnc.Common.Int.{pos, ◌-ℤ◌}
use rust_vnc.Wire.{ok}
use rust_vnc.Wire.Session.{Action, continue, ◌>>=◌, ◌>>◌, return}
use rust_vnc.Viewer.Cursor.{NativeEndian, AlphaSdl}
use rust_vnc.Viewer.Screen.{
  Screen, Renderer, Picture, SdlRect, Flow, next, copy, copy_cursor, show_cursor, draw, new_unwrap,
}
pub mod Size

module _ {S : Type 0} (native : NativeEndian) (sdl : AlphaSdl S) (renderer : Renderer) where
  -- The match on `cursor_rect`: what the cursor covered.
  abbrev pub copy_rect : Option SdlRect → Action (Screen S) Flow
  copy_rect none = return next
  copy_rect (some r) = draw (copy r ∷ [])

  unfoldable pub uncover : Action (Screen S) Flow
  uncover s = copy_rect s.cursor_rect s

  abbrev pub set_cursor_rect : Option SdlRect → Action (Screen S) Flow
  set_cursor_rect r s = (ok next, record s { cursor_rect = r })

  -- The cursor, with its hotspot at the mouse.
  abbrev pub raw_cursor_rect : (mouse_x mouse_y : ℕ) → Picture S → Screen S → SdlRect
  raw_cursor_rect mouse_x mouse_y cursor s = record {
    x = pos mouse_x -ℤ pos s.hotspot.0;
    y = pos mouse_y -ℤ pos s.hotspot.1;
    width = cursor.size.0;
    height = cursor.size.1;
  }

  abbrev pub screen_rect : Screen S → SdlRect
  screen_rect s = record { x = pos 0; y = pos 0; width = s.width; height = s.height }

  abbrev pub source_rect : (clipped raw : SdlRect) → SdlRect
  source_rect clipped raw = record {
    x = clipped.x -ℤ raw.x;
    y = clipped.y -ℤ raw.y;
    width = clipped.width;
    height = clipped.height;
  }

  -- `if let Some(clipped_cursor_rect) = clipped_cursor_rect`
  abbrev pub paint : Option SdlRect → (raw : SdlRect) → Action (Screen S) Flow
  paint none raw = return next
  paint (some clipped) raw = do
    new_unwrap native sdl renderer (source_rect clipped raw)
    draw (copy_cursor (source_rect clipped raw) clipped ∷ [])

  abbrev pub paint_clipped : Option SdlRect → (raw : SdlRect) → Action (Screen S) Flow
  paint_clipped clipped raw = do paint clipped raw; set_cursor_rect clipped

  abbrev pub draw_picture : (raw screen : SdlRect) → Action (Screen S) Flow
  draw_picture raw screen = do
    draw (show_cursor false ∷ [])
    new_unwrap native sdl renderer raw
    new_unwrap native sdl renderer screen
    paint_clipped (renderer.intersection raw screen) raw

  -- The match on the cursor.
  abbrev pub draw_or_hide : (mouse_x mouse_y : ℕ) → Option (Picture S) → Action (Screen S) Flow
  draw_or_hide mouse_x mouse_y none s = (do draw (show_cursor true ∷ []); set_cursor_rect none) s
  draw_or_hide mouse_x mouse_y (some cursor) s =
      draw_picture (raw_cursor_rect mouse_x mouse_y cursor s) (screen_rect s) s

  unfoldable pub draw_cursor : (mouse_x mouse_y : ℕ) → Action (Screen S) Flow
  draw_cursor mouse_x mouse_y s = draw_or_hide mouse_x mouse_y s.cursor s
