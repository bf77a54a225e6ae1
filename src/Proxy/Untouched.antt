-- ===== src/Proxy/Untouched.antt =====
-- src/proxy.rs: a round of `forward_s2c` leaves what the client sends alone.
use rust_vnc.Common.{ℕ, zero, suc, List, ◌++◌, ◌≡◌}
use rust_vnc.Wire.{Input, Reader, read_exact}
use rust_vnc.Wire.Outcome.{Always, bind-Always, anything}
use rust_vnc.Wire.Session.{Action, ◌>>=◌, return, throw}
use rust_vnc.Wire.Session
use rust_vnc.Protocol.PixelFormat.{PixelFormat}
use rust_vnc.Protocol.Encoding.{Encoding}
use rust_vnc.Protocol.Rectangle.{
  Rectangle, write_rectangle, read_rectangle, read_copy_rect, write_copy_rect,
}
use rust_vnc.Protocol.Text.{read_bytes, write_bytes}
use rust_vnc.Protocol.ServerMessage
use rust_vnc.Protocol.ServerMessage.{S2c}
use rust_vnc.Proxy.{
  Link, from_server, to_client, forward_s2c_round, relay_body, relay_rectangles, relay_content,
  pixel_bytes, mask_bytes,
}

abbrev pub Anything : {A : Type 0} → A → Type 0
Anything a = Unit {0}

module _ (i : Input) where
  -- What the client has still to say.
  abbrev pub Says : Link → Type 0
  Says l = l.client.incoming ≡ i

  from_server-Says : {A : Type 0} (read : Reader A) → Always Says (from_server read) Anything
  unfolding from_server
  from_server-Says read l v = (v, anything _)

  then-Says :
      {A B : Type 0} (m : Action Link A) (k : A → Action Link B)
      → Always Says m Anything
      → ((a : A) → Always Says (k a) Anything)
      → Always Says (m >>= k) Anything
  then-Says m k h f = bind-Always Says m k Anything Anything h λ a u. f a

  content-Says :
      (f : PixelFormat) (r : Rectangle) (e : Encoding) → Always Says (relay_content f r e) Anything
  unfolding relay_content
  content-Says f r Encoding.raw = from_server-Says (read_exact (pixel_bytes f r))
  content-Says f r Encoding.copy_rect =
      then-Says (from_server read_copy_rect) (λ c. return (write_copy_rect c))
        (from_server-Says read_copy_rect) λ c l v. (v, tt)
  content-Says f r Encoding.zrle =
      then-Says (from_server read_bytes) (λ c. return (write_bytes c)) (from_server-Says read_bytes)
        λ c l v. (v, tt)
  content-Says f r Encoding.cursor =
      then-Says (from_server (read_exact (pixel_bytes f r))) _
        (from_server-Says (read_exact (pixel_bytes f r)))
        λ pixels.
          then-Says (from_server (read_exact (mask_bytes r))) (λ bits. return (pixels ++ bits))
            (from_server-Says (read_exact (mask_bytes r))) λ bits l v. (v, tt)
  content-Says f r Encoding.desktop_size = λ l v. (v, tt)
  content-Says f r Encoding.rre = λ l v. (v, tt)
  content-Says f r Encoding.hextile = λ l v. (v, tt)
  content-Says f r (Encoding.unknown n) = λ l v. (v, tt)

  rectangles-Says :
      (f : PixelFormat) (count : ℕ) (buffer : List ℕ)
      → Always Says (relay_rectangles f count buffer) Anything
  unfolding relay_rectangles
  rectangles-Says f zero buffer = λ l v. (v, tt)
  rectangles-Says f (suc count) buffer =
      then-Says (from_server read_rectangle)
        (λ r. relay_content f r r.encoding >>= λ content.
          relay_rectangles f count (buffer ++ write_rectangle r ++ content))
        (from_server-Says read_rectangle)
        λ r.
          then-Says (relay_content f r r.encoding)
            (λ content. relay_rectangles f count (buffer ++ write_rectangle r ++ content))
            (content-Says f r r.encoding)
            λ content. rectangles-Says f count (buffer ++ write_rectangle r ++ content)

  body-Says :
      (f : PixelFormat) (m : S2c) (buffer : List ℕ) → Always Says (relay_body f m buffer) Anything
  unfolding relay_body
  body-Says f (S2c.framebuffer_update count) buffer = rectangles-Says f count buffer
  body-Says f (S2c.set_colour_map_entries first_colour colours) buffer = λ l v. (v, tt)
  body-Says f S2c.bell buffer = λ l v. (v, tt)
  body-Says f (S2c.cut_text text) buffer = λ l v. (v, tt)

  to_client-Says : (bytes : List ℕ) → Always Says (to_client bytes) Anything
  unfolding to_client Session.send
  to_client-Says bytes l v = (v, tt)

  pub forward_s2c_round-Says : (f : PixelFormat) → Always Says (forward_s2c_round f) Anything
  unfolding forward_s2c_round
  forward_s2c_round-Says f =
      then-Says (from_server ServerMessage.read_from)
        (λ m. relay_body f m (ServerMessage.write_to m) >>= λ buffer. to_client buffer)
        (from_server-Says ServerMessage.read_from)
        λ m.
          then-Says (relay_body f m (ServerMessage.write_to m)) (λ buffer. to_client buffer)
            (body-Says f m (ServerMessage.write_to m)) λ buffer. to_client-Says buffer
