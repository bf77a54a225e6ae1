-- ===== src/Proxy/Unsupported.antt =====
-- src/proxy.rs: what a client's SetPixelFormat does to the proxy.
use rust_vnc.Proxy.Threads.{
  c2s_read_breaks, c2s_write_breaks, s2c_read_breaks, s2c_write_breaks, c2s_shuts, s2c_shuts,
}
use rust_vnc.Wire.{IoErrorKind, io, ok}
use rust_vnc.Common.{subst}
use rust_vnc.Common.{◌≡◌, refl, ap, sym, ◌∙◌, none, some, ◌⊎◌, inl, inr}
use mathlib.Core.Option.{some-injective}
use rust_vnc.Wire.{Result, err, panic, disconnected, Input, ends, unexpected_eof, feed, read_u8}
use rust_vnc.Wire.Session
use rust_vnc.Protocol.PixelFormat
use rust_vnc.Protocol.PixelFormat.{PixelFormat}
use rust_vnc.Protocol.ClientMessage
use rust_vnc.Protocol.ClientMessage.{C2s, read_message_type}
use rust_vnc.Protocol.ClientMessage.RoundTrip.{C2s-read_from-write_to}
use rust_vnc.Proxy.{Link, from_client, admit, forward_c2s_round, forward_s2c_round}
use rust_vnc.Proxy.Threads.{Running, Step, Reach, start, later, shut}
use rust_vnc.Proxy.Threads.{c2s_relays, c2s_stops, c2s_panics, s2c_relays, s2c_stops, s2c_panics}
use rust_vnc.Proxy.Untouched.{Says, forward_s2c_round-Says}

module _ (f format : PixelFormat) (valid : PixelFormat.IsValid format) (rest : Input) where
  abbrev pub request : Input
  request = feed (ClientMessage.write_to (C2s.set_pixel_format format)) rest

  pub round_panics :
      (l : Link)
      → Says request l
      → forward_c2s_round l ≡ (panic, record l { client = record l.client { incoming = rest } })
  unfolding forward_c2s_round from_client Session.receive admit
  round_panics l v = rw (v, C2s-read_from-write_to (C2s.set_pixel_format format) rest valid) refl

  -- How the thread that relays from the client ends: it panics, or it is told that the connection
  -- has ended, or it finds it broken.
  abbrev pub IsOver : Result (Unit {0}) → Type 0
  IsOver c = (c ≡ panic) ⊎ ((c ≡ err disconnected) ⊎ ((k : IoErrorKind) × (c ≡ err (io k))))

  -- The request waits, or nothing more will be read, or the thread has returned.
  abbrev Held : Running → Type 0
  Held p =
      ((p.c2s ≡ none) × Says request p.link)
      ⊎ (((p.c2s ≡ none) × Says (ends unexpected_eof) p.link)
          ⊎ ((c : Result (Unit {0})) × (p.c2s ≡ some c) × IsOver c))

  round_ends :
      (l : Link) → Says (ends unexpected_eof) l → (forward_c2s_round l).0 ≡ err disconnected
  unfolding forward_c2s_round from_client Session.receive ClientMessage.read_from read_message_type
      read_u8
  round_ends l v = rw v refl

  -- What a round of the thread that relays from the client gives.
  c2s_round-IsOver : (p : Running) → p.c2s ≡ none → Held p → IsOver (forward_c2s_round p.link).0
  c2s_round-IsOver p waits (inl (_, v)) = inl (ap (λ t. t.0) (round_panics p.link v))
  c2s_round-IsOver p waits (inr (inl (_, v))) = inr (inl (round_ends p.link v))
  c2s_round-IsOver p waits (inr (inr (c, e, over))) = absurd (cc (waits, e))

  -- No such round goes on.
  ok_over : {A : Type 0} (r : Result (Unit {0})) → r ≡ ok tt → IsOver r → A
  ok_over r e (inl o) = absurd (cc (e, o))
  ok_over r e (inr (inl o)) = absurd (cc (e, o))
  ok_over r e (inr (inr (k, o))) = absurd (cc (e, o))

  -- The other thread, or a connection, takes a step that leaves the client's bytes alone.
  beside_step :
      (p q : Running)
      → q.c2s ≡ p.c2s
      → ((i : Input) → Says i p.link → Says i q.link)
      → Held p
      → Held q
  beside_step p q same kept (inl (waits, v)) = inl (same ∙ waits, kept request v)
  beside_step p q same kept (inr (inl (waits, v))) =
      inr (inl (same ∙ waits, kept (ends unexpected_eof) v))
  beside_step p q same kept (inr (inr (c, e, over))) = inr (inr (c, same ∙ e, over))

  -- The streams are shut down.
  shut_step : (p q : Running) (l : Link) → q.c2s ≡ p.c2s → q.link ≡ shut l → Held p → Held q
  unfolding shut
  shut_step p q l same e (inl (waits, v)) = inr (inl (same ∙ waits, ap (λ t. t.client.incoming) e))
  shut_step p q l same e (inr (inl (waits, v))) =
      inr (inl (same ∙ waits, ap (λ t. t.client.incoming) e))
  shut_step p q l same e (inr (inr (c, e', over))) = inr (inr (c, same ∙ e', over))

  -- A round of the other thread that ends somewhere leaves the client's bytes alone.
  kept :
      (l : Link) (r : Result (Unit {0}) × Link)
      → forward_s2c_round f l ≡ r
      → (i : Input) → Says i l
      → Says i r.1
  kept l r e i v = ap (λ t. t.1.client.incoming) (sym e) ∙ (forward_s2c_round-Says i f l v).0

  -- The thread that relays from the client has returned that.
  returned : (q : Running) (c : Result (Unit {0})) → q.c2s ≡ some c → IsOver c → Held q
  returned q c e over = inr (inr (c, e, over))

  step-Held : (p q : Running) → Step f p q → Held p → Held q
  step-Held p q (c2s_relays l waits r h) v =
      ok_over (forward_c2s_round p.link).0 (ap (λ t. t.0) r) (c2s_round-IsOver p waits v)
  step-Held p q (c2s_stops l e waits r h) v =
      returned q (err e) (ap (λ t. t.c2s) h)
        (subst IsOver (ap (λ t. t.0) r) (c2s_round-IsOver p waits v))
  step-Held p q (c2s_panics l waits r h) v = returned q panic (ap (λ t. t.c2s) h) (inl refl)
  step-Held p q (s2c_relays l waits r h) v =
      beside_step p q (ap (λ t. t.c2s) h)
        (λ i says. ap (λ t. t.link.client.incoming) h ∙ kept p.link _ r i says) v
  step-Held p q (s2c_stops l e waits r h) v =
      shut_step p q l (ap (λ t. t.c2s) h) (ap (λ t. t.link) h) v
  step-Held p q (s2c_panics l waits r h) v =
      beside_step p q (ap (λ t. t.c2s) h)
        (λ i says. ap (λ t. t.link.client.incoming) h ∙ kept p.link _ r i says) v
  step-Held p q (c2s_read_breaks k waits h) v =
      returned q (err (io k)) (ap (λ t. t.c2s) h) (inr (inr (k, refl)))
  step-Held p q (c2s_write_breaks l k front back waits r wrote h) v =
      returned q (err (io k)) (ap (λ t. t.c2s) h) (inr (inr (k, refl)))
  step-Held p q (s2c_read_breaks k waits h) v =
      beside_step p q (ap (λ t. t.c2s) h) (λ i says. ap (λ t. t.link.client.incoming) h ∙ says) v
  step-Held p q (s2c_write_breaks l k front back waits r wrote h) v =
      beside_step p q (ap (λ t. t.c2s) h) (λ i says. ap (λ t. t.link.client.incoming) h ∙ says) v
  step-Held p q (c2s_shuts e over h) v =
      shut_step p q p.link (ap (λ t. t.c2s) h) (ap (λ t. t.link) h) v
  step-Held p q (s2c_shuts e over h) v =
      shut_step p q p.link (ap (λ t. t.c2s) h) (ap (λ t. t.link) h) v

  reach-Held : (l : Link) (p : Running) → Says request l → Reach f l p → Held p
  reach-Held l p v start = inl (refl, v)
  reach-Held l p v (later {p = before} reached step) =
      step-Held before p step (reach-Held l before v reached)

  -- Where a client first asks for a pixel format behind the handshake, then whatever the server
  -- sends, however the rounds of the two threads interleave, and wherever a connection breaks: the
  -- thread that relays from the client ends with a panic, or with the error that the connection has
  -- ended or is broken.
  pub c2s-IsOver :
      (l : Link) (p : Running) (c : Result (Unit {0}))
      → l.client.incoming ≡ request
      → Reach f l p
      → p.c2s ≡ some c
      → IsOver c
  c2s-IsOver l p c says reached ended = outcome (reach-Held l p says reached)
    where
      outcome : Held p → IsOver c
      outcome (inl (waits, v)) = absurd (cc (waits, ended))
      outcome (inr (inl (waits, v))) = absurd (cc (waits, ended))
      outcome (inr (inr (c', e, over))) = subst IsOver (some-injective c' c (sym e ∙ ended)) over
