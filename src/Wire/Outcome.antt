-- ===== src/Wire/Outcome.antt =====
-- What an outcome or an action guarantees where it succeeds, and what an action always keeps.
use rust_vnc.Common.{ℕ, zero, suc, length, ◌≡◌, refl, ap, Bool, true, false, if◌then◌else◌}
use rust_vnc.Wire.{Input, ends, byte, Result, ok, err, panic, bind, read_exact}
use rust_vnc.Wire.Session.{Action, continue, ◌>>=◌}

-- What an outcome satisfies, where it is one of success.
abbrev pub Gives {ℓ κ} : {A : Type ℓ} → Result A → (A → Type κ) → Type κ
Gives (ok a) P = P a
Gives (err e) P = Unit
Gives panic P = Unit

pub bind-Gives {ℓ κ} :
    {A B : Type ℓ} (m : Result A) (k : A → Result B) (P : A → Type κ) (Q : B → Type κ)
    → Gives m P
    → ((a : A) → P a → Gives (k a) Q)
    → Gives (bind m k) Q
bind-Gives (ok a) k P Q h f = f a h
bind-Gives (err e) k P Q h f = tt
bind-Gives panic k P Q h f = tt

pub weaken-Gives {ℓ κ} :
    {A : Type ℓ} (m : Result A) (P Q : A → Type κ) → Gives m P → ((a : A) → P a → Q a) → Gives m Q
weaken-Gives (ok a) P Q h f = f a h
weaken-Gives (err e) P Q h f = tt
weaken-Gives panic P Q h f = tt

pub if-Gives {ℓ κ} :
    {A : Type ℓ} (b : Bool) (m n : Result A) (P : A → Type κ)
    → (b ≡ true → Gives m P)
    → (b ≡ false → Gives n P)
    → Gives (if b then m else n) P
if-Gives true m n P h k = h refl
if-Gives false m n P h k = k refl

pub read_exact-Gives : (n : ℕ) (i : Input) → Gives (read_exact n i) (λ x. length x.0 ≡ n)
unfolding read_exact
read_exact-Gives zero i = refl
read_exact-Gives (suc n) (ends e) = tt
read_exact-Gives (suc n) (byte b i) =
    bind-Gives (read_exact n i) _ (λ x. length x.0 ≡ n) (λ x. length x.0 ≡ suc n)
      (read_exact-Gives n i) λ x e. ap suc e

pub anything : {A : Type 0} (m : Result A) → Gives m (λ a. Unit {0})
anything (ok a) = tt
anything (err e) = tt
anything panic = tt

-- An action keeps an invariant of its state on every outcome, and its result satisfies `Q`.
module _ {S : Type 0} (Inv : S → Type 0) where
  abbrev pub Always : {A : Type 0} → Action S A → (A → Type 0) → Type 0
  Always m Q = (s : S) → Inv s → Inv (m s).1 × Gives (m s).0 Q

  pub bind-Always :
      {A B : Type 0} (m : Action S A) (k : A → Action S B) (Q : A → Type 0) (R : B → Type 0)
      → Always m Q
      → ((a : A) → Q a → Always (k a) R)
      → Always (m >>= k) R
  bind-Always {A} {B} m k Q R h f s v = after (m s) (h s v).0 (h s v).1
    where
      after :
          (r : Result A × S)
          → Inv r.1
          → Gives r.0 Q
          → Inv (continue r k).1 × Gives (continue r k).0 R
      after (ok a, t) w q = f a q t w
      after (err e, t) w q = (w, tt)
      after (panic, t) w q = (w, tt)

  -- Both arms of an `if`, or of a match on a Boolean.
  pub if-Always :
      {A : Type 0} (b : Bool) (m n : Action S A) (Q : A → Type 0)
      → Always m Q
      → Always n Q
      → Always (if b then m else n) Q
  if-Always true m n Q h h' = h
  if-Always false m n Q h h' = h'

  pub elim-Always :
      {A : Type 0} (b : Bool) (m n : Action S A) (Q : A → Type 0)
      → Always m Q
      → Always n Q
      → Always (elim b as (λ _. Action S A) [ true ↦ m | false ↦ n ]) Q
  elim-Always true m n Q h h' = h
  elim-Always false m n Q h h' = h'
