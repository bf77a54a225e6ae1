-- ===== src/Proxy/Behind.antt =====
-- src/proxy.rs: the loops of forwarding as a whole.
use rust_vnc.Common.{
  ℕ, zero, suc, ◌<◌, List, [], ◌∷◌, ◌++◌, ◌≡◌, refl, ap, sym, ◌∙◌, arith, map, length, All,
}
use rust_vnc.Common.{append_assoc, append-nil, length-append, ◌≤◌}
use rust_vnc.Wire.{Input, ends, err, feed, feed-append, available-feed, write_many}
use rust_vnc.Wire.{unexpected_eof, disconnected, read_u8}
use rust_vnc.Wire.Ints.{write_u8}
use rust_vnc.Wire.Session
use rust_vnc.Wire.Session.{continue}
use rust_vnc.Protocol.PixelFormat.{PixelFormat}
use rust_vnc.Protocol.Frame.{Frame, frame_bytes, IsFrame}
use rust_vnc.Protocol.ServerMessage
use rust_vnc.Protocol.ClientMessage
use rust_vnc.Protocol.ClientMessage.{C2s}
use rust_vnc.Client.Events.Pumped.{length-frames}
use rust_vnc.Proxy.{repeat_round, forward_s2c, forward_c2s, forward_s2c_round, forward_c2s_round}
use rust_vnc.Proxy.{from_server, from_client}
use rust_vnc.Proxy.Relay.{
  between, IsRelayed, IsAdmitted, passed, forward_s2c_round_lem, forward_c2s_round_lem,
}

abbrev pub closed : Input
closed = ends unexpected_eof

module _ (f : PixelFormat) where
  s2c_ends :
      (ci : Input) (so co : List ℕ)
      → forward_s2c_round f (between closed so ci co) ≡ (err disconnected, between closed so ci co)
  unfolding forward_s2c_round from_server Session.receive ServerMessage.read_from read_u8
  s2c_ends ci so co = refl

  s2c_loop :
      (frames : List Frame) (fuel : ℕ) (ci : Input) (so co : List ℕ)
      → length frames < fuel
      → All (λ fr. IsFrame f fr × IsRelayed fr) frames
      → repeat_round
          (forward_s2c_round f)
          fuel
          (between (feed (write_many frame_bytes frames) closed) so ci co)
        ≡ (err disconnected, between closed so ci (co ++ write_many frame_bytes frames))
  unfolding repeat_round write_many
  s2c_loop frames zero ci so co enough valid = absurd (omega arith)
  s2c_loop [] (suc fuel) ci so co enough valid =
      rw (s2c_ends ci so co)
        (ap (λ b. (err disconnected, between closed so ci b)) (sym (append-nil co)))
  s2c_loop (fr ∷ frames) (suc fuel) ci so co enough ((h, relayed), valid) =
      rw
        (
          feed-append (frame_bytes fr) (write_many frame_bytes frames) closed,
          forward_s2c_round_lem f fr (feed (write_many frame_bytes frames) closed) ci so co h
              relayed,
        )
        (s2c_loop frames fuel ci so (co ++ frame_bytes fr) (omega arith) valid
          ∙ ap (λ b. (err disconnected, between closed so ci b))
              (append_assoc co (frame_bytes fr) _))

  -- The loop relays all that a server sends, byte for byte, and then reports that it disconnected:
  -- the server's messages fit the pixel format and their types, none is a colour map, and clipboard
  -- text is ASCII.
  pub forward_s2c-relays :
      (frames : List Frame) (ci : Input) (so co : List ℕ)
      → All (λ fr. IsFrame f fr × IsRelayed fr) frames
      → forward_s2c f (between (feed (write_many frame_bytes frames) closed) so ci co)
        ≡ (err disconnected, between closed so ci (co ++ write_many frame_bytes frames))
  unfolding forward_s2c
  forward_s2c-relays frames ci so co valid =
      s2c_loop frames _ ci so co
        (omega (arith, available-feed (write_many frame_bytes frames) closed, length-frames frames))
        valid

c2s_ends :
    (si : Input) (so co : List ℕ)
    → forward_c2s_round (between si so closed co) ≡ (err disconnected, between si so closed co)
unfolding forward_c2s_round from_client Session.receive ClientMessage.read_from read_u8
c2s_ends si so co = refl

c2s_loop :
    (messages : List C2s) (fuel : ℕ) (si : Input) (so co : List ℕ)
    → length messages < fuel
    → All IsAdmitted messages
    → repeat_round forward_c2s_round fuel
        (between si so (feed (write_many ClientMessage.write_to messages) closed) co)
      ≡ (
        err disconnected,
        between si (so ++ write_many ClientMessage.write_to (map passed messages)) closed co,
      )
unfolding repeat_round write_many
c2s_loop messages zero si so co enough valid = absurd (omega arith)
c2s_loop [] (suc fuel) si so co enough valid =
    rw (c2s_ends si so co)
      (ap (λ b. (err disconnected, between si b closed co)) (sym (append-nil so)))
c2s_loop (m ∷ messages) (suc fuel) si so co enough (h, valid) =
    simp
      (
        feed-append,
        forward_c2s_round_lem m si (feed (write_many ClientMessage.write_to messages) closed) so co
            h,
      )
      (c2s_loop messages fuel si (so ++ ClientMessage.write_to (passed m)) co (omega arith) valid
        ∙ ap (λ b. (err disconnected, between si b closed co))
            (append_assoc so (ClientMessage.write_to (passed m)) _))

some_byte : (m : C2s) → IsAdmitted m → 1 ≤ length (ClientMessage.write_to m)
unfolding ClientMessage.write_to write_u8
some_byte (C2s.set_pixel_format format) h = absurd h
some_byte (C2s.set_encodings encodings) h = omega arith
some_byte (C2s.framebuffer_update_request incremental x y width height) h = omega arith
some_byte (C2s.key_event down key) h = omega arith
some_byte (C2s.pointer_event button_mask x y) h = omega arith
some_byte (C2s.cut_text text) h = absurd h

length-messages :
    (messages : List C2s)
    → All IsAdmitted messages
    → length messages ≤ length (write_many ClientMessage.write_to messages)
unfolding write_many
length-messages [] valid = omega arith
length-messages (m ∷ messages) (h, valid) = omega (
  arith,
  length-append (ClientMessage.write_to m) (write_many ClientMessage.write_to messages),
  some_byte m h,
  length-messages messages valid,
)

-- The loop relays the messages of a client, with the encodings that the proxy does not support left
-- out of its lists, and then reports that the client disconnected. A pixel format and clipboard
-- text are not among the messages.
pub forward_c2s-relays :
    (messages : List C2s) (si : Input) (so co : List ℕ)
    → All IsAdmitted messages
    → forward_c2s (between si so (feed (write_many ClientMessage.write_to messages) closed) co) ≡ (
      err disconnected,
      between si (so ++ write_many ClientMessage.write_to (map passed messages)) closed co,
    )
unfolding forward_c2s
forward_c2s-relays messages si so co valid =
    c2s_loop messages _ si so co
      (omega (
        arith,
        available-feed (write_many ClientMessage.write_to messages) closed,
        length-messages messages valid,
      ))
      valid
