-- ===== src/Proxy/Threads/Whole.antt =====
-- src/proxy.rs: what the client was sent, behind any steps of the two threads.
use rust_vnc.Wire.{io}
use rust_vnc.Common.{ℕ, List, [], ◌++◌, ◌≡◌, ◌≢◌, refl, ap, sym, ◌∙◌, subst, none, some}
use rust_vnc.Common.{All, append_assoc, append-nil, ◌⊎◌, inl, inr}
use rust_vnc.Wire.{ok, err, panic, ends, feed, unexpected_eof}
use rust_vnc.Wire.{write_many}
use rust_vnc.Protocol.PixelFormat.{PixelFormat}
use rust_vnc.Protocol.Frame.{Frame, frame_bytes, IsFrame}
use rust_vnc.Proxy.{Link}
use rust_vnc.Proxy.Relay.{IsRelayed}
use rust_vnc.Proxy.Threads.{Running, shut, Step, Reach, start, later}
use rust_vnc.Proxy.Threads.{c2s_relays, c2s_stops, c2s_panics, s2c_relays, s2c_stops, s2c_panics}
use rust_vnc.Proxy.Threads.{
  c2s_read_breaks, c2s_write_breaks, s2c_read_breaks, s2c_write_breaks, c2s_shuts, s2c_shuts,
}
use rust_vnc.Proxy.Threads.Rounds.{
  Relays, IsBeginning, IsRelay, cut, outcome, beside, stays-IsBroken, broken_waits, beside_out,
  begins, nothing_begins,
}

module _ (f : PixelFormat) (frames : List Frame) (out : List ℕ) where
  Step-IsRelay : {p q : Running} → Step f p q → IsRelay f frames out p → IsRelay f frames out q
  unfolding shut
  Step-IsRelay {p} (c2s_relays l idle round e) (inl (rest, h, fine)) =
      subst (IsRelay f frames out) (sym e)
        (inl (rest, beside f frames out p.link l (ok tt) round rest h, fine))
  Step-IsRelay {p} (c2s_stops l er idle round e) (inl (rest, h, fine)) =
      subst (IsRelay f frames out) (sym e) (
        inl (
          rest,
          cut f frames out _ _ rest (beside f frames out p.link l (err er) round rest h),
          fine,
        ))
  Step-IsRelay {p} (c2s_panics l idle round e) (inl (rest, h, fine)) =
      subst (IsRelay f frames out) (sym e)
        (inl (rest, beside f frames out p.link l panic round rest h, fine))
  Step-IsRelay {p} (s2c_relays l idle round e) (inl (rest, h, fine)) =
      elim (outcome f frames out p.link l (ok tt) rest h round) [
        | inl (done, more) ↦ subst (IsRelay f frames out) (sym e) (inl (more.0, more.1, fine))
        | inr (stopped, same) ↦ absurd (cc)
      ]
  Step-IsRelay {p} (s2c_stops l er idle round e) (inl (rest, h, fine)) =
      elim (outcome f frames out p.link l (err er) rest h round) [
        | inl (done, more) ↦ absurd (cc)
        | inr (stopped, same) ↦ subst (IsRelay f frames out) (sym e) (
            inl (
              rest,
              cut f frames out _ _ rest (
                  subst (λ (m : Link). Relays f frames out m.server.incoming m.client.outgoing rest)
                    (sym same) h),
              λ k. cc,
            ))
      ]
  Step-IsRelay {p} (s2c_panics l idle round e) (inl (rest, h, fine)) =
      elim (outcome f frames out p.link l panic rest h round) [
        | inl (done, more) ↦ absurd (cc)
        | inr (stopped, same) ↦ absurd (cc)
      ]
  Step-IsRelay {p} (c2s_read_breaks k idle e) (inl (rest, h, fine)) =
      subst (IsRelay f frames out) (sym e) (inl (rest, h, fine))
  Step-IsRelay {p} (c2s_write_breaks l k front back idle round wrote e) (inl (rest, h, fine)) =
      subst (IsRelay f frames out) (sym e) (inl (rest, h, fine))
  Step-IsRelay {p} (s2c_read_breaks k idle e) (inl (rest, h, fine)) =
      subst (IsRelay f frames out) (sym e) (inl (rest, h, λ j. cc))
  Step-IsRelay {p} (s2c_write_breaks l k front back idle round wrote e) (inl (rest, h, fine)) =
      subst (IsRelay f frames out) (sym e) (
        inr (
          rest,
          (
            p.link.client.outgoing,
            (
              front,
              cut f frames out _ _ rest h,
              refl,
              begins f frames out p.link l rest front back h round wrote,
              (io k, refl),
            ),
          ),
        ))
  Step-IsRelay {p} (c2s_shuts er over e) (inl (rest, h, fine)) =
      subst (IsRelay f frames out) (sym e) (inl (rest, cut f frames out _ _ rest h, fine))
  Step-IsRelay {p} (s2c_shuts er over e) (inl (rest, h, fine)) =
      subst (IsRelay f frames out) (sym e) (inl (rest, cut f frames out _ _ rest h, fine))
  Step-IsRelay {p} {q} (c2s_relays l idle round e) (inr b) = inr (
      stays-IsBroken f frames out p q
        (ap (λ t. t.link.client.outgoing) e ∙ beside_out f frames out p.link l _ round)
        (ap (λ t. t.s2c) e) b)
  Step-IsRelay {p} {q} (c2s_stops l er idle round e) (inr b) = inr (
      stays-IsBroken f frames out p q
        (ap (λ t. t.link.client.outgoing) e ∙ beside_out f frames out p.link l _ round)
        (ap (λ t. t.s2c) e) b)
  Step-IsRelay {p} {q} (c2s_panics l idle round e) (inr b) = inr (
      stays-IsBroken f frames out p q
        (ap (λ t. t.link.client.outgoing) e ∙ beside_out f frames out p.link l _ round)
        (ap (λ t. t.s2c) e) b)
  Step-IsRelay {p} (s2c_relays l idle round e) (inr b) = broken_waits f frames out p b idle
  Step-IsRelay {p} (s2c_stops l er idle round e) (inr b) = broken_waits f frames out p b idle
  Step-IsRelay {p} (s2c_panics l idle round e) (inr b) = broken_waits f frames out p b idle
  Step-IsRelay {p} (s2c_read_breaks k idle e) (inr b) = broken_waits f frames out p b idle
  Step-IsRelay {p} (s2c_write_breaks l k front back idle round wrote e) (inr b) =
      broken_waits f frames out p b idle
  Step-IsRelay {p} {q} (c2s_read_breaks k idle e) (inr b) =
      inr
        (stays-IsBroken f frames out p q (ap (λ t. t.link.client.outgoing) e) (ap (λ t. t.s2c) e) b)
  Step-IsRelay {p} {q} (c2s_write_breaks l k front back idle round wrote e) (inr b) =
      inr
        (stays-IsBroken f frames out p q (ap (λ t. t.link.client.outgoing) e) (ap (λ t. t.s2c) e) b)
  Step-IsRelay {p} {q} (c2s_shuts er over e) (inr b) =
      inr
        (stays-IsBroken f frames out p q (ap (λ t. t.link.client.outgoing) e) (ap (λ t. t.s2c) e) b)
  Step-IsRelay {p} {q} (s2c_shuts er over e) (inr b) =
      inr
        (stays-IsBroken f frames out p q (ap (λ t. t.link.client.outgoing) e) (ap (λ t. t.s2c) e) b)

  Reach-IsRelay :
      {l : Link} {p : Running}
      → l.server.incoming ≡ feed (write_many frame_bytes frames) (ends unexpected_eof)
      → l.client.outgoing ≡ out
      → All (λ fr. IsFrame f fr × IsRelayed fr) frames
      → Reach f l p
      → IsRelay f frames out p
  unfolding write_many
  Reach-IsRelay arrives sent valid start =
      inl (frames, ([], refl, sent ∙ sym (append-nil out), inl arrives, valid), λ e. cc)
  Reach-IsRelay arrives sent valid (later r st) =
      Step-IsRelay st (Reach-IsRelay arrives sent valid r)

-- Whatever the client sends, however the rounds of the two threads interleave, and wherever a
-- connection breaks: behind each step the client was sent the first messages of the server, each one
-- whole, unchanged and in order; behind them it was sent nothing, or a beginning of the next message
-- where the thread that relays them has returned; and that thread has not panicked. The server's
-- messages fit the pixel format and their types, none is a colour map, and clipboard text is ASCII.
pub Reach-relays_whole :
    (f : PixelFormat) (frames : List Frame) (l : Link) (p : Running)
    → All (λ fr. IsFrame f fr × IsRelayed fr) frames
    → l.server.incoming ≡ feed (write_many frame_bytes frames) (ends unexpected_eof)
    → Reach f l p
    → (done rest : List Frame) × ((front : List ℕ) × (done ++ rest ≡ frames)
        × (p.link.client.outgoing ≡ l.client.outgoing ++ (write_many frame_bytes done ++ front))
        × IsBeginning f frames l.client.outgoing front rest
        × ((front ≡ []) ⊎ (p.s2c ≢ none))
        × (p.s2c ≢ some panic))
Reach-relays_whole f frames l p valid arrives r =
    elim (Reach-IsRelay f frames l.client.outgoing arrives refl valid r) [
      | inl (rest, (done, parts, sent, _, _), fine) ↦ (
        done,
        rest,
        (
          [],
          parts,
          sent ∙ ap (λ t. l.client.outgoing ++ t) (sym (append-nil (write_many frame_bytes done))),
          nothing_begins f frames l.client.outgoing rest,
          inl refl,
          fine,
        ),
      )
      | inr (rest, (sent, (front, (done, parts, whole, _, _), cut_off, begun, (e, stopped)))) ↦ (
        done,
        rest,
        (
          front,
          parts,
          cut_off
              ∙ (ap (λ t. t ++ front) whole
                  ∙ append_assoc l.client.outgoing (write_many frame_bytes done) front),
          begun,
          inr (λ waits. cc),
          λ j. cc,
        ),
      )
    ]
