-- ===== src/Client/Events/Handled.antt =====
-- src/client.rs: the arms of `Event::pump` on a whole message of a server.
use rust_vnc.Common.{ℕ, zero, suc, ◌≤◌, List, [], ◌∷◌, ◌++◌, true, false}
use rust_vnc.Common.{◌≡◌, refl, ap, ap₂, sym, ◌∙◌, arith, map, leb, Option}
use rust_vnc.Common.{length, All, length-append}
use rust_vnc.Wire.{Result, Input, ok, feed, feed-append, write_many}
use rust_vnc.Wire.Session.{continue, return}
use rust_vnc.Protocol.PixelFormat.{PixelFormat}
use rust_vnc.Protocol.Frame.{Piece, header, piece_bytes, Frame, update, colour_map, ring, clip}
use rust_vnc.Protocol.Frame.{packet, pieces_bytes, IsPiece, IsFrame}
use rust_vnc.Protocol.Frame.{read_header}
use rust_vnc.Protocol.Rectangle.{read_rectangle, write_rectangle}
use rust_vnc.Zrle.Decode.{Zlib}
use rust_vnc.Client.Events.{Event, Channel, push, Pump, emit, rectangles, handle, end_of_frame}
use rust_vnc.Client.Events.Delivery.{
  deliver, deliver_full, deliver-append, deliver_room, push_alive, push_open, at, channel_of,
  piece_event, events, IsPlain, IsPlainFrame, receive_lem, show_content,
}

module _ {D : Type 0} where
  pub emit_open :
      (e : Event) (i : Input) (sent : List Event) (room : ℕ) (d : Option D)
      → emit e (at i (channel_of sent (suc room)) d)
        ≡ (ok true, at i (channel_of (sent ++ e ∷ []) room) d)
  unfolding emit
  emit_open e i sent room d = rw (push_open e sent room)

  pub emit_shut :
      (e : Event) (i : Input) (sent : List Event) (d : Option D)
      → emit e (at i (channel_of sent zero) d) ≡ (ok false, at i (channel_of sent zero) d)
  unfolding emit
  emit_shut e i sent d = refl

  -- The state after the rectangles: where the receiver took all, the stream stands behind them.
  abbrev pub Delivered :
      {A : Type 0} → Result A × Pump D → A → List Event → Input → Channel → Option D → Type 0
  Delivered outcome a es i c d =
      (j : Input) × (outcome ≡ (ok a, at j (deliver es c) d)) × (length es ≤ c.room → j ≡ i)

module _ {D : Type 0} (zlib : Zlib D) (f : PixelFormat) where
  -- One round of the `for`.
  rectangles_round :
      (p : Piece) (n : ℕ) (rest : List ℕ) (i : Input) (c : Channel) (d : Option D)
      → IsPiece f p
      → IsPlain p.content
      → rectangles zlib f (suc n) (at (feed (piece_bytes p ++ rest) i) c d)
        ≡ continue
            (emit (piece_event p) (at (feed rest i) c d))
            λ more. elim more [ true ↦ rectangles zlib f n | false ↦ return tt ]
  unfolding rectangles
  rectangles_round p n rest i c d h plain = simp (
    feed-append,
    receive_lem read_rectangle (write_rectangle (header p)) (header p) _ c d (read_header f p h),
    show_content zlib f p p.content (feed rest i) c d h.4 plain,
  )

  pub rectangles_lem :
      (pieces : List Piece) (i : Input) (sent : List Event) (room : ℕ) (d : Option D)
      → All (IsPiece f) pieces
      → All (λ p. IsPlain p.content) pieces
      → Delivered
          (rectangles zlib f
            (length pieces)
            (at (feed (write_many piece_bytes pieces) i) (channel_of sent room) d))
          tt
          (map piece_event pieces)
          i
          (channel_of sent room)
          d
  unfolding write_many
  rectangles_lem [] i sent room d h plain = (i, unfold rectangles in refl, λ _. refl)
  rectangles_lem (p ∷ pieces) i sent zero d (hp, h) (plain, plains) = (
    feed (write_many piece_bytes pieces) i,
    rectangles_round p (length pieces) (write_many piece_bytes pieces) i (channel_of sent zero) d hp
          plain
        ∙ simp (emit_shut, deliver_full (map piece_event (p ∷ pieces)) (channel_of sent zero) refl),
    λ k. absurd (omega arith),
  )
  rectangles_lem (p ∷ pieces) i sent (suc room) d (hp, h) (plain, plains) =
      let (j, e, whole) = rectangles_lem pieces i (sent ++ piece_event p ∷ []) room d h plains in
      (
        j,
        rectangles_round p (length pieces) (write_many piece_bytes pieces) i
              (channel_of sent (suc room)) d hp plain
            ∙ ap
                (λ r. continue r λ more. elim more [
                  | true ↦ rectangles zlib f (length pieces)
                  | false ↦ return tt
                ])
                (emit_open (piece_event p) (feed (write_many piece_bytes pieces) i) sent room d)
            ∙ e
            ∙ ap (λ r. (ok tt, at j (deliver (map piece_event pieces) r.1) d))
                (sym (push_open (piece_event p) sent room)),
        λ k. whole (omega arith),
      )

  -- A message that gives one event.
  single :
      (e : Event) (i : Input) (c : Channel) (d : Option D)
      → Delivered (emit e (at i c d)) (leb 1 c.room) (e ∷ []) i c d
  unfolding emit
  single e i c d = (i, ap (λ b. (ok b, at i (push e c).1 d)) (push_alive e c), λ _. refl)

  handle_update :
      (pieces : List Piece) (i : Input) (c : Channel) (d : Option D)
      → All (IsPiece f) pieces
      → All (λ p. IsPlain p.content) pieces
      → Delivered
          (handle zlib f (packet (update pieces)) (at (feed (pieces_bytes (update pieces)) i) c d))
          (leb (length (events (update pieces))) c.room)
          (events (update pieces))
          i
          c
          d
  unfolding handle emit
  handle_update pieces i c d h plain =
      let shown = map piece_event pieces in
      let (j, e, whole) = rectangles_lem pieces i c.sent c.room d h plain in
      let enough : leb 1 (deliver shown c).room ≡ leb (length (shown ++ end_of_frame ∷ [])) c.room =
        ground (arith, deliver_room shown c, length-append shown (end_of_frame ∷ [])) in
      (
        j,
        ap (λ r. continue r λ u. emit end_of_frame) e
            ∙ ap₂ (λ b c. (ok b, at j c d)) (push_alive end_of_frame (deliver shown c) ∙ enough)
                (sym (deliver-append shown (end_of_frame ∷ []) c)),
        λ n. whole (omega (arith, length-append shown (end_of_frame ∷ []))),
      )

  pub handle_lem :
      (fr : Frame) (i : Input) (c : Channel) (d : Option D)
      → IsFrame f fr
      → IsPlainFrame fr
      → Delivered
          (handle zlib f (packet fr) (at (feed (pieces_bytes fr) i) c d))
          (leb (length (events fr)) c.room)
          (events fr)
          i
          c
          d
  unfolding handle
  handle_lem (update pieces) i c d (count, h) plain = handle_update pieces i c d h plain
  handle_lem (colour_map first_colour colours) i c d h plain = single _ i c d
  handle_lem ring i c d h plain = single _ i c d
  handle_lem (clip text) i c d h plain = single _ i c d
