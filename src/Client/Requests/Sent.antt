-- ===== src/Client/Requests/Sent.antt =====
-- src/client.rs: what a server reads of the calls that a program makes on `Client`.
use rust_vnc.Common.{
  ℕ, List, [], ◌∷◌, ◌++◌, Bool, length, map, length-map, ◌≡◌, refl, ap, sym, ◌∙◌, All, append_assoc,
  append-nil,
}
use rust_vnc.Common.{Option}
use rust_vnc.Wire.{Rect, Input, ok, feed, read_many, write_many}
use rust_vnc.Wire.RoundTrip.{read_many-write_many}
use rust_vnc.Protocol.PixelFormat.{PixelFormat}
use rust_vnc.Protocol.Encoding.{Encoding}
use rust_vnc.Protocol.ClientMessage
use rust_vnc.Protocol.ClientMessage.{C2s}
use rust_vnc.Protocol.ClientMessage.RoundTrip
use rust_vnc.Protocol.ClientMessage.RoundTrip.{C2s-read_from-write_to}
use rust_vnc.Client.Handshake.{Client}
use rust_vnc.Client.Events.{Event}
use rust_vnc.Client.Requests.{Session, write, set_encodings, request_update, send_key_event}
use rust_vnc.Client.Requests.{send_pointer_event, update_clipboard, poke_qemu}

-- A call of one of the methods that send.
pub data Call : Type 0 where
  encodings : List Encoding → Call
  update : Rect → Bool → Call
  key : Bool → ℕ → Call
  pointer : (buttons x y : ℕ) → Call
  clip : List ℕ → Call
  poke : Call

abbrev pub perform : Call → Session → Session
perform (encodings list) = set_encodings list
perform (update rect incremental) = request_update rect incremental
perform (key down code) = send_key_event down code
perform (pointer buttons x y) = send_pointer_event buttons x y
perform (clip text) = update_clipboard text
perform poke = poke_qemu

abbrev pub perform_all : List Call → Session → Session
perform_all [] s = s
perform_all (call ∷ calls) s = perform_all calls (perform call s)

-- The message that a server is to understand; `format` is the format of the client.
abbrev pub meaning : PixelFormat → Call → C2s
meaning format (encodings list) = C2s.set_encodings list
meaning format (update r incremental) =
    C2s.framebuffer_update_request incremental r.left r.top r.width r.height
meaning format (key down code) = C2s.key_event down code
meaning format (pointer buttons x y) = C2s.pointer_event buttons x y
meaning format (clip text) = C2s.cut_text text
meaning format poke = C2s.set_pixel_format format

-- The arguments fit their Rust types, a list of encodings is not too long, and the call is not one
-- of `update_clipboard`.
abbrev pub IsSendable : PixelFormat → Call → Type 0
IsSendable format call = RoundTrip.IsValid (meaning format call)

perform-write :
    (call : Call) (s : Session) → perform call s ≡ write (meaning s.client.format call) s
unfolding set_encodings request_update send_key_event send_pointer_event update_clipboard poke_qemu
    write
perform-write (encodings list) s = refl
perform-write (update r incremental) s = refl
perform-write (key down code) s = refl
perform-write (pointer buttons x y) s = refl
perform-write (clip text) s = refl
perform-write poke s = refl

perform_all-write :
    (calls : List Call) (s : Session)
    → perform_all calls s ≡ record s {
      outgoing =
          s.outgoing ++ write_many ClientMessage.write_to (map (meaning s.client.format) calls);
    }
unfolding write_many write
perform_all-write [] s = ap (λ o. record s { outgoing = o }) (sym (append-nil s.outgoing))
perform_all-write (call ∷ calls) s =
    ap (perform_all calls) (perform-write call s)
    ∙ (perform_all-write calls (write (meaning s.client.format call) s)
        ∙ ap (λ o. record s { outgoing = o })
            (append_assoc s.outgoing (ClientMessage.write_to (meaning s.client.format call))
              (write_many ClientMessage.write_to (map (meaning s.client.format) calls))))

All-map {κ} :
    {A B : Type 0} (f : A → B) (P : B → Type κ) (xs : List A)
    → All (λ x. P (f x)) xs
    → All P (map f xs)
All-map f P [] v = tt
All-map f P (x ∷ xs) (v, vs) = (v, All-map f P xs vs)

-- A server that reads as many messages as a program has made calls gets each of them, in order,
-- with the arguments of the call, and reads no byte behind them. The arguments fit their types, and
-- no call is of update_clipboard.
pub perform_all-read_many :
    (calls : List Call) (client : Client) (polls : List (Option Event)) (rest : Input)
    → All (IsSendable client.format) calls
    → read_many ClientMessage.read_from (length calls) (
        feed
          (perform_all calls (record { client = client; outgoing = []; polls = polls })).outgoing
          rest)
      ≡ ok (map (meaning client.format) calls, rest)
perform_all-read_many calls client polls rest v =
    let messages : List C2s = map (meaning client.format) calls in
    let sent : (perform_all calls
          (record { client = client; outgoing = []; polls = polls })).outgoing
        ≡ write_many ClientMessage.write_to messages =
      ap (λ s. s.outgoing)
        (perform_all-write calls (record { client = client; outgoing = []; polls = polls })) in
    rw (sent, sym (length-map calls (meaning client.format)))
      (read_many-write_many ClientMessage.read_from ClientMessage.write_to
        (λ m h rest. C2s-read_from-write_to m rest h) messages
        (All-map (meaning client.format) RoundTrip.IsValid calls v) rest)
