-- ===== src/Proxy/Relay.antt =====
-- src/proxy.rs: the bytes that a round of forwarding relays.
use rust_vnc.Common.{ℕ, List, [], ◌∷◌, ◌++◌, ◌≡◌, refl}
use rust_vnc.Common.{ap, sym, ◌∙◌, length, All, append_assoc, append-nil}
use rust_vnc.Wire.{Input, ok, feed, feed-append, Reader, read_exact, write_many}
use rust_vnc.Wire.RoundTrip.{Reads, read_exact_lem}
use rust_vnc.Wire.Session.{Stream, continue}
use rust_vnc.Wire.Session
use rust_vnc.Protocol.PixelFormat.{PixelFormat}
use rust_vnc.Protocol.Frame.{
  Content, pixels, copied, compressed, pointer, resized, Piece, encoding_of, header, content_bytes,
}
use rust_vnc.Protocol.Frame.{piece_bytes, Frame, update, colour_map, ring, clip, packet}
use rust_vnc.Protocol.Frame.{packet_bytes, frame_bytes, IsContent, IsPiece, IsFrame}
use rust_vnc.Protocol.Frame.{read_header, read_packet}
use rust_vnc.Protocol.Text.{read_bytes, write_bytes, read_bytes-write_bytes}
use rust_vnc.Protocol.Rectangle.{read_rectangle, write_rectangle, read_copy_rect, write_copy_rect}
use rust_vnc.Protocol.Rectangle.{read_copy_rect-write_copy_rect}
use rust_vnc.Protocol.ServerMessage
use rust_vnc.Protocol.ClientMessage
use rust_vnc.Protocol.ClientMessage.{C2s}
use rust_vnc.Protocol.ClientMessage.RoundTrip
use rust_vnc.Proxy.{Link, from_server, from_client, to_server, to_client, relay_content, admit}
use rust_vnc.Proxy.{relay_rectangles, forward_s2c_round, forward_c2s_round}
use rust_vnc.Proxy.{retain, encoding_supported}

-- What still arrives from the server and was sent to it; and the same of the client.
abbrev pub between : Input → List ℕ → Input → List ℕ → Link
between si so ci co = record {
  server = record { incoming = si; outgoing = so };
  client = record { incoming = ci; outgoing = co };
}

pub from_server_lem {ℓ} :
    {A : Type ℓ} (read : Reader A) (bytes : List ℕ) (a : A) (si ci : Input) (so co : List ℕ)
    → Reads read bytes a
    → from_server read (between (feed bytes si) so ci co) ≡ (ok a, between si so ci co)
unfolding from_server Session.receive
from_server_lem read bytes a si ci so co h = rw (h si)

pub from_client_lem {ℓ} :
    {A : Type ℓ} (read : Reader A) (bytes : List ℕ) (a : A) (si ci : Input) (so co : List ℕ)
    → Reads read bytes a
    → from_client read (between si so (feed bytes ci) co) ≡ (ok a, between si so ci co)
unfolding from_client Session.receive
from_client_lem read bytes a si ci so co h = rw (h ci)

pub to_client_lem :
    (bytes : List ℕ) (si ci : Input) (so co : List ℕ)
    → to_client bytes (between si so ci co) ≡ (ok tt, between si so ci (co ++ bytes))
unfolding to_client Session.send
to_client_lem bytes si ci so co = refl

pub to_server_lem :
    (bytes : List ℕ) (si ci : Input) (so co : List ℕ)
    → to_server bytes (between si so ci co) ≡ (ok tt, between si (so ++ bytes) ci co)
unfolding to_server Session.send
to_server_lem bytes si ci so co = refl

read_length : (n : ℕ) (bytes : List ℕ) → length bytes ≡ n → Reads (read_exact n) bytes bytes
read_length n bytes e i = rw (← e) (read_exact_lem bytes i)

module _ (f : PixelFormat) (ci : Input) (so co : List ℕ) where
  relay_content_lem :
      (p : Piece) (content : Content) (si : Input)
      → IsContent f p.width p.height content
      → relay_content f
          (record (header p) { encoding = encoding_of content })
          (encoding_of content)
          (between (feed (content_bytes content) si) so ci co)
        ≡ (ok (content_bytes content), between si so ci co)
  unfolding relay_content
  relay_content_lem p (pixels q) si h =
      from_server_lem (read_exact _) q q si ci so co (read_length _ q h)
  relay_content_lem p (copied r) si (hx, hy) = simp (
      from_server_lem read_copy_rect (write_copy_rect r) r si ci so co
        (read_copy_rect-write_copy_rect r hx hy))
  relay_content_lem p (compressed z) si h =
      simp (from_server_lem read_bytes (write_bytes z) z si ci so co (read_bytes-write_bytes z h))
  relay_content_lem p (pointer q m) si (hq, hm) = simp (
    feed-append,
    from_server_lem (read_exact _) q q (feed m si) ci so co (read_length _ q hq),
    from_server_lem (read_exact _) m m si ci so co (read_length _ m hm),
  )
  relay_content_lem p resized si h = refl

  relay_rectangles_lem :
      (pieces : List Piece) (buffer : List ℕ) (si : Input)
      → All (IsPiece f) pieces
      → relay_rectangles f
          (length pieces)
          buffer
          (between (feed (write_many piece_bytes pieces) si) so ci co)
        ≡ (ok (buffer ++ write_many piece_bytes pieces), between si so ci co)
  unfolding relay_rectangles write_many
  relay_rectangles_lem [] buffer si h =
      ap (λ b. (ok b, between si so ci co)) (sym (append-nil buffer))
  relay_rectangles_lem (p ∷ pieces) buffer si (h, hs) =
      let behind = feed (write_many piece_bytes pieces) si in
      simp
        (
          feed-append,
          from_server_lem read_rectangle (write_rectangle (header p)) (header p)
              (feed (content_bytes p.content) behind) ci so co (read_header f p h),
          relay_content_lem p p.content behind h.4,
        )
        (relay_rectangles_lem pieces _ si hs ∙ ap (λ b. (ok b, between si so ci co)) regrouped)
    where
      regrouped :
          buffer
            ++ write_rectangle (header p)
            ++ content_bytes p.content
            ++ write_many piece_bytes pieces
          ≡ buffer ++ (piece_bytes p ++ write_many piece_bytes pieces)
      regrouped = simp append_assoc

-- `S2C::write_to` leaves the count of a colour map out.
abbrev pub IsRelayed : Frame → Type 0
IsRelayed (colour_map first_colour colours) = ⊥
IsRelayed (update pieces) = Unit {0}
IsRelayed ring = Unit {0}
IsRelayed (clip text) = Unit {0}

pub forward_s2c_round_lem :
    (f : PixelFormat) (fr : Frame) (si ci : Input) (so co : List ℕ)
    → IsFrame f fr
    → IsRelayed fr
    → forward_s2c_round f (between (feed (frame_bytes fr) si) so ci co)
      ≡ (ok tt, between si so ci (co ++ frame_bytes fr))
unfolding forward_s2c_round
forward_s2c_round_lem f (update pieces) si ci so co h relayed = simp (
  feed-append,
  from_server_lem ServerMessage.read_from (packet_bytes (update pieces)) (packet (update pieces))
      (feed (write_many piece_bytes pieces) si) ci so co (read_packet f (update pieces) h),
  relay_rectangles_lem f ci so co pieces _ si h.1,
  to_client_lem,
)
forward_s2c_round_lem f (colour_map first_colour colours) si ci so co h relayed = absurd relayed
forward_s2c_round_lem f ring si ci so co h relayed = simp (
  append-nil,
  from_server_lem ServerMessage.read_from (packet_bytes ring) (packet ring) si ci so co
      (read_packet f ring h),
  to_client_lem,
)
forward_s2c_round_lem f (clip text) si ci so co h relayed = simp (
  append-nil,
  from_server_lem ServerMessage.read_from (packet_bytes (clip text)) (packet (clip text)) si ci so
      co (read_packet f (clip text) h),
  to_client_lem,
)

-- The encodings that the proxy lets through, of the message that a client sends.
abbrev pub passed : C2s → C2s
passed (C2s.set_encodings encodings) = C2s.set_encodings (retain encoding_supported encodings)
passed (C2s.set_pixel_format format) = C2s.set_pixel_format format
passed (C2s.framebuffer_update_request incremental x y width height) =
    C2s.framebuffer_update_request incremental x y width height
passed (C2s.key_event down key) = C2s.key_event down key
passed (C2s.pointer_event button_mask x y) = C2s.pointer_event button_mask x y
passed (C2s.cut_text text) = C2s.cut_text text

-- The messages that the proxy relays: it panics at a pixel format, and `IsValid` leaves clipboard
-- text out.
abbrev pub IsAdmitted : C2s → Type 0
IsAdmitted (C2s.set_pixel_format format) = ⊥
IsAdmitted (C2s.set_encodings encodings) = RoundTrip.IsValid (C2s.set_encodings encodings)
IsAdmitted (C2s.framebuffer_update_request incremental x y width height) =
    RoundTrip.IsValid (C2s.framebuffer_update_request incremental x y width height)
IsAdmitted (C2s.key_event down key) = RoundTrip.IsValid (C2s.key_event down key)
IsAdmitted (C2s.pointer_event button_mask x y) =
    RoundTrip.IsValid (C2s.pointer_event button_mask x y)
IsAdmitted (C2s.cut_text text) = ⊥

admitted-IsValid : (m : C2s) → IsAdmitted m → RoundTrip.IsValid m
admitted-IsValid (C2s.set_pixel_format format) h = absurd h
admitted-IsValid (C2s.set_encodings encodings) h = h
admitted-IsValid (C2s.framebuffer_update_request incremental x y width height) h = h
admitted-IsValid (C2s.key_event down key) h = h
admitted-IsValid (C2s.pointer_event button_mask x y) h = h
admitted-IsValid (C2s.cut_text text) h = h

admit_lem : (m : C2s) → IsAdmitted m → admit m ≡ ok (passed m)
unfolding admit
admit_lem (C2s.set_pixel_format format) h = absurd h
admit_lem (C2s.set_encodings encodings) h = refl
admit_lem (C2s.framebuffer_update_request incremental x y width height) h = refl
admit_lem (C2s.key_event down key) h = refl
admit_lem (C2s.pointer_event button_mask x y) h = refl
admit_lem (C2s.cut_text text) h = absurd h

pub forward_c2s_round_lem :
    (m : C2s) (si ci : Input) (so co : List ℕ)
    → IsAdmitted m
    → forward_c2s_round (between si so (feed (ClientMessage.write_to m) ci) co)
      ≡ (ok tt, between si (so ++ ClientMessage.write_to (passed m)) ci co)
unfolding forward_c2s_round
forward_c2s_round_lem m si ci so co h = simp (
  from_client_lem ClientMessage.read_from (ClientMessage.write_to m) m si ci so co
      (λ i. RoundTrip.C2s-read_from-write_to m i (admitted-IsValid m h)),
  admit_lem m h,
  to_server_lem,
)
