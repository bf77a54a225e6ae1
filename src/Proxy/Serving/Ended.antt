-- ===== src/Proxy/Serving/Ended.antt =====
-- proxy/main.rs: a client that asks for a pixel format.
use rust_vnc.Proxy.Serving.{session_panics, session_failed}
use rust_vnc.Wire.{IoErrorKind, io}
use rust_vnc.Common.{[], ◌≡◌, refl, ap, sym, ◌∙◌, subst, some, ◌⊎◌, inl, inr}
use mathlib.Core.Option.{some-injective}
use rust_vnc.Wire.{Result, ok, err, panic, Input}
use rust_vnc.Protocol.PixelFormat
use rust_vnc.Protocol.PixelFormat.{PixelFormat}
use rust_vnc.Protocol.Version.{Version}
use rust_vnc.Protocol.Init
use rust_vnc.Proxy.{Link, from_tcp_streams, join}
use rust_vnc.Proxy.Relay.{between}
use rust_vnc.Proxy.Serving.{
  Report, Serves, session_report, session_ended, no_client, no_server, no_handshake,
  handshake_panics, session,
}
use rust_vnc.Proxy.Unsupported.{request, IsOver, c2s-IsOver}

module _ (f format : PixelFormat) (valid : PixelFormat.IsValid format) (ci si rest : Input)
    (l : Link) where
  abbrev Fatal : Result Report → Type 0
  Fatal r =
      (r ≡ panic)
      ⊎ ((r ≡ ok session_ended) ⊎ ((k : IoErrorKind) × (r ≡ ok (session_failed (io k)))))

  joined :
      (c s : Result (Unit {0})) → IsOver f format valid rest c → Fatal (session_report (join c s))
  unfolding join
  joined c s (inl e) = rw e (inl refl)
  joined c (ok u) (inr (inl e)) = rw e (inr (inl refl))
  joined c (err e') (inr (inl e)) = rw e (inr (inl refl))
  joined c panic (inr (inl e)) = rw e (inl refl)
  joined c (ok u) (inr (inr (k, e))) = rw e (inr (inr (k, refl)))
  joined c (err e') (inr (inr (k, e))) = rw e (inr (inr (k, refl)))
  joined c panic (inr (inr (k, e))) = rw e (inl refl)

  -- The streams of a round are those that the handshake is run on.
  run_on :
      (ci' si' : Input)
      → some ci ≡ some ci'
      → some si ≡ some si'
      → from_tcp_streams (between si [] ci []) ≡ (ok f, l)
      → from_tcp_streams (between si' [] ci' []) ≡ (ok f, l)
  run_on ci' si' same same' done =
      subst (λ c. from_tcp_streams (between si' [] c []) ≡ (ok f, l)) (some-injective ci ci' same)
        (subst (λ s. from_tcp_streams (between s [] ci []) ≡ (ok f, l))
          (some-injective si si' same') done)

  pub Serves-Fatal :
      (r : Result Report)
      → from_tcp_streams (between si [] ci []) ≡ (ok f, l)
      → l.client.incoming ≡ request f format valid rest
      → Serves (record { client = some ci; server = some si }) r
      → Fatal r
  Serves-Fatal r done says (no_client e) = absurd (cc e)
  Serves-Fatal r done says (no_server ci' e e') = absurd (cc e')
  Serves-Fatal r done says (no_handshake ci' si' e l' same same' fails) =
      let one : ok f ≡ err e = ap (λ t. t.0) (sym (run_on ci' si' same same' done) ∙ fails) in
      absurd (cc one)
  Serves-Fatal r done says (handshake_panics ci' si' l' same same' fails) = inl refl
  Serves-Fatal r done says (session ci' si' f' l' p c s same same' done' reached ended_c ended_s) =
      let one : l' ≡ l = ap (λ t. t.1) (sym done' ∙ run_on ci' si' same same' done) in
      joined c s (
        c2s-IsOver f' format valid rest l' p c (ap (λ k. k.client.incoming) one ∙ says) reached
          ended_c)
  Serves-Fatal r done says (session_panics ci' si' f' l' p same same' done' reached ended_c) =
      inl refl
