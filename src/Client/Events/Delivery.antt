-- ===== src/Client/Events/Delivery.antt =====
-- src/client.rs: the events that the messages of a server give, and what the pump sends of them.
use rust_vnc.Common.{ℕ, zero, suc, ◌-◌, List, [], ◌∷◌, ◌++◌, Bool, true, false}
use rust_vnc.Common.{◌≡◌, refl, ap, sym, ◌∙◌, arith, map, leb, Option}
use rust_vnc.Common.{length, take, All, append_assoc, append-nil}
use rust_vnc.Wire.{Input, ok, feed, feed-append, read_exact}
use rust_vnc.Wire.{Reader}
use rust_vnc.Wire.RoundTrip.{Reads, read_exact_lem}
use rust_vnc.Protocol.PixelFormat.{PixelFormat}
use rust_vnc.Protocol.Frame.{
  Content, pixels, copied, compressed, pointer, resized, Piece, encoding_of, header, content_bytes,
}
use rust_vnc.Protocol.Frame.{Frame, update, colour_map, ring, clip}
use rust_vnc.Protocol.Frame.{IsContent}
use rust_vnc.Protocol.Rectangle.{read_copy_rect, write_copy_rect}
use rust_vnc.Protocol.Rectangle.{read_copy_rect-write_copy_rect}
use rust_vnc.Zrle.Decode.{Zlib}
use rust_vnc.Client.Events.{Event, Channel, push, Pump, receive, emit, place, show}
use rust_vnc.Client.Events.{put_pixels, copy_pixels, set_cursor, resize, end_of_frame}
use rust_vnc.Client.Events.{set_colour_map, bell, clipboard}

abbrev pub deliver : List Event → Channel → Channel
deliver [] c = c
deliver (e ∷ es) c = deliver es (push e c).1

pub push_full : (e : Event) (c : Channel) → c.room ≡ 0 → push e c ≡ (false, c)
unfolding push
push_full e c h = rw h

push_room : (e : Event) (c : Channel) → (push e c).1.room ≡ c.room - 1
unfolding push
push_room e c = ground arith

pub push_alive : (e : Event) (c : Channel) → (push e c).0 ≡ leb 1 c.room
unfolding push
push_alive e c = ground arith

pub deliver_full : (es : List Event) (c : Channel) → c.room ≡ 0 → deliver es c ≡ c
deliver_full [] c h = refl
deliver_full (e ∷ es) c h = rw (push_full e c h) (deliver_full es c h)

pub deliver-append :
    (es fs : List Event) (c : Channel) → deliver (es ++ fs) c ≡ deliver fs (deliver es c)
deliver-append [] fs c = refl
deliver-append (e ∷ es) fs c = deliver-append es fs (push e c).1

pub deliver_room : (es : List Event) (c : Channel) → (deliver es c).room ≡ c.room - length es
deliver_room [] c = omega arith
deliver_room (e ∷ es) c = omega (arith, deliver_room es (push e c).1, push_room e c)

abbrev pub channel_of : List Event → ℕ → Channel
channel_of sent room = record { sent = sent; room = room }

pub push_open :
    (e : Event) (sent : List Event) (room : ℕ)
    → push e (channel_of sent (suc room)) ≡ (true, channel_of (sent ++ e ∷ []) room)
unfolding push
push_open e sent room = ground arith

deliver_sent_from :
    (es sent : List Event) (room : ℕ)
    → (deliver es (channel_of sent room)).sent ≡ sent ++ take room es
deliver_sent_from [] sent zero = sym (append-nil sent)
deliver_sent_from [] sent (suc room) = sym (append-nil sent)
deliver_sent_from (e ∷ es) sent zero =
    ap (λ (c : Channel). c.sent) (deliver_full (e ∷ es) (channel_of sent zero) refl)
    ∙ sym (append-nil sent)
deliver_sent_from (e ∷ es) sent (suc room) =
    ap (λ (r : Bool × Channel). (deliver es r.1).sent) (push_open e sent room)
    ∙ deliver_sent_from es (sent ++ e ∷ []) room
    ∙ append_assoc sent (e ∷ []) (take room es)

-- Of the events that are offered, the receiver takes the first `room`.
pub deliver_sent : (es : List Event) (c : Channel) → (deliver es c).sent ≡ c.sent ++ take c.room es
deliver_sent es c = deliver_sent_from es c.sent c.room

abbrev pub content_event : Piece → Content → Event
content_event p (pixels q) = put_pixels (place (header p)) q
content_event p (copied c) =
    copy_pixels
      (record {
        left = c.src_x_position;
        top = c.src_y_position;
        width = p.width;
        height = p.height;
      })
      (place (header p))
content_event p (pointer q m) = set_cursor (p.width, p.height) (p.x, p.y) q m
content_event p resized = resize p.width p.height
content_event p (compressed z) = end_of_frame

abbrev pub piece_event : Piece → Event
piece_event p = content_event p p.content

-- The events that a frame gives.
abbrev pub events : Frame → List Event
events (update pieces) = map piece_event pieces ++ end_of_frame ∷ []
events (colour_map first_colour colours) = set_colour_map first_colour colours ∷ []
events ring = bell ∷ []
events (clip text) = clipboard text ∷ []

-- No rectangle of the frame is compressed.
abbrev pub IsPlain : Content → Type 0
IsPlain (compressed z) = ⊥
IsPlain (pixels q) = Unit {0}
IsPlain (copied c) = Unit {0}
IsPlain (pointer q m) = Unit {0}
IsPlain resized = Unit {0}

abbrev pub IsPlainFrame : Frame → Type 0
IsPlainFrame (update pieces) = All (λ p. IsPlain p.content) pieces
IsPlainFrame (colour_map first_colour colours) = Unit {0}
IsPlainFrame ring = Unit {0}
IsPlainFrame (clip text) = Unit {0}

-- The state of the thread.
abbrev pub at : {D : Type 0} → Input → Channel → Option D → Pump D
at i c d = record { incoming = i; channel = c; decompressor = d }

module _ {D : Type 0} where
  pub receive_lem :
      {A : Type 0} (read : Reader A) (bytes : List ℕ) (a : A) (i : Input) (c : Channel)
      (d : Option D)
      → Reads read bytes a
      → receive read (at (feed bytes i) c d) ≡ (ok a, at i c d)
  unfolding receive
  receive_lem read bytes a i c d h = rw (h i)

read_length : (n : ℕ) (bytes : List ℕ) → length bytes ≡ n → Reads (read_exact n) bytes bytes
read_length n bytes e i = rw (← e) (read_exact_lem bytes i)

module _ {D : Type 0} (zlib : Zlib D) where
  pub show_content :
      (f : PixelFormat) (p : Piece) (content : Content) (i : Input) (c : Channel) (d : Option D)
      → IsContent f p.width p.height content
      → IsPlain content
      → show zlib f
          (record (header p) { encoding = encoding_of content })
          (encoding_of content)
          (at (feed (content_bytes content) i) c d)
        ≡ emit (content_event p content) (at i c d)
  unfolding show
  show_content f p (pixels q) i c d h plain =
      simp (receive_lem (read_exact _) q q i c d (read_length _ q h))
  show_content f p (copied r) i c d (hx, hy) plain = simp (
      receive_lem read_copy_rect (write_copy_rect r) r i c d
        (read_copy_rect-write_copy_rect r hx hy))
  show_content f p (compressed z) i c d h plain = absurd plain
  show_content f p (pointer q m) i c d (hq, hm) plain = simp (
    feed-append,
    receive_lem (read_exact _) q q (feed m i) c d (read_length _ q hq),
    receive_lem (read_exact _) m m i c d (read_length _ m hm),
  )
  show_content f p resized i c d h plain = refl
