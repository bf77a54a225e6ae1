-- ===== src/Proxy/Threads/Half.antt =====
-- src/proxy.rs: a round of `forward_c2s` leaves the half of the link alone that `forward_s2c` works
-- on.
use rust_vnc.Common.{ℕ, List, ◌≡◌, refl, ap, ◌∙◌}
use rust_vnc.Wire.{Result, ok, err, panic, Input, Reader}
use rust_vnc.Wire.Session.{Action, Stream, continue, ◌>>=◌}
use rust_vnc.Wire.Session
use rust_vnc.Protocol.ClientMessage
use rust_vnc.Proxy.{Link, from_client, to_server, attempt, admit}
use rust_vnc.Proxy.{forward_c2s_round}

-- The half of the link that `forward_s2c` works on.
abbrev pub s2c_half : Link → Input × List ℕ
s2c_half l = (l.server.incoming, l.client.outgoing)

-- The action leaves that half alone, whatever its outcome.
abbrev Keeps : {A : Type 0} → Action Link A → Type 0
Keeps m = (l : Link) → s2c_half (m l).1 ≡ s2c_half l

bind-Keeps :
    {A B : Type 0} (m : Action Link A) (k : A → Action Link B)
    → Keeps m
    → ((a : A) → Keeps (k a))
    → (l : Link) → s2c_half (continue (m l) k).1 ≡ s2c_half l
bind-Keeps {A} {B} m k hm hk l = after (m l) (hm l)
  where
    after :
        (r : Result A × Link) → s2c_half r.1 ≡ s2c_half l → s2c_half (continue r k).1 ≡ s2c_half l
    after (ok a, s) e = hk a s ∙ e
    after (err e', s) e = e
    after (panic, s) e = e

received-outgoing :
    {A : Type 0} (r : Result (A × Input)) (s : Stream)
    → (Session.received r s).1.outgoing ≡ s.outgoing
received-outgoing (ok (a, rest)) s = refl
received-outgoing (err e) s = refl
received-outgoing panic s = refl

from_client-Keeps : {A : Type 0} (read : Reader A) → Keeps (from_client read)
unfolding from_client Session.receive
from_client-Keeps read l =
    ap (λ out. (l.server.incoming, out)) (received-outgoing (read l.client.incoming) l.client)

to_server-Keeps : (bytes : List ℕ) → Keeps (to_server bytes)
unfolding to_server Session.send
to_server-Keeps bytes l = refl

pub forward_c2s_round-Keeps : Keeps forward_c2s_round
unfolding forward_c2s_round
forward_c2s_round-Keeps =
    bind-Keeps (from_client ClientMessage.read_from)
      (λ m. attempt (admit m) >>= λ admitted. to_server (ClientMessage.write_to admitted))
      (from_client-Keeps ClientMessage.read_from)
      λ m.
        bind-Keeps (attempt (admit m)) (λ admitted. to_server (ClientMessage.write_to admitted))
          (λ l. refl) λ admitted. to_server-Keeps (ClientMessage.write_to admitted)
