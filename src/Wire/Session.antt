-- ===== src/Wire/Session.antt =====
-- Reading from and writing to a stream with `?` after each call: std's TcpStream as the crate uses it.
use rust_vnc.Common.{ℕ, List, ◌++◌}
use rust_vnc.Wire.{Error, Result, ok, err, panic, Input, Reader}

-- What is still to be read from a stream, and what was written to it.
pub record Stream : Type 0 where
  pub incoming : Input
  pub outgoing : List ℕ

-- A computation on a state, which it leaves behind also when it fails.
abbrev pub Action {ℓ} : Type 0 → Type ℓ → Type ℓ
Action S A = S → Result A × S

abbrev pub continue {ℓ κ} :
    {S : Type 0} {A : Type ℓ} {B : Type κ} → Result A × S → (A → Action S B) → Result B × S
continue (ok a, s) f = f a s
continue (err e, s) f = (err e, s)
continue (panic, s) f = (panic, s)

module _ {ℓ κ} {S : Type 0} {A : Type ℓ} {B : Type κ} where
  infixl 5 ◌>>=◌ ◌>>◌
  abbrev pub ◌>>=◌ : Action S A → (A → Action S B) → Action S B
  ◌>>=◌ m f s = continue (m s) f

  abbrev pub ◌>>◌ : Action S A → Action S B → Action S B
  ◌>>◌ m k s = continue (m s) λ _. k

module _ {ℓ} {S : Type 0} {A : Type ℓ} where
  abbrev pub return : A → Action S A
  return a s = (ok a, s)

  abbrev pub throw : Error → Action S A
  throw e s = (err e, s)

abbrev pub received {ℓ} : {A : Type ℓ} → Result (A × Input) → Stream → Result A × Stream
received (ok (a, rest)) s = (ok a, record s { incoming = rest })
received (err e) s = (err e, s)
received panic s = (panic, s)

-- A read: what a failed one took from the stream is not kept, since the callers drop the stream.
unfoldable pub receive {ℓ} : {A : Type ℓ} → Reader A → Action Stream A
receive read s = received (read s.incoming) s

-- A write, which is taken to succeed.
unfoldable pub send : List ℕ → Action Stream (Unit {0})
send bytes s = (ok tt, record s { outgoing = s.outgoing ++ bytes })
