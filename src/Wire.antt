-- ===== src/Wire.antt =====
-- src/lib.rs: `Error`, `Result` and `Rect`; with what the crate uses of std::io::Read on a stream.
use rust_vnc.Common.{
  ℕ, zero, suc, ◌+◌, String, List, [], ◌∷◌, ◌++◌, ◌≡◌, refl, ap, sym, ◌∙◌, append_assoc,
}
use rust_vnc.Common.{length, arith}
pub mod Display
pub mod Ints
pub mod Outcome
pub mod RoundTrip
pub mod Session
mod Tests

-- The kinds of std::io::Error that the crate tells apart or makes; `other` is any other kind.
pub data IoErrorKind : Type 0 where
  unexpected_eof invalid_data other : IoErrorKind

-- A `String` is the list of its characters, each a code point.
pub data Error : Type 0 where
  io : IoErrorKind → Error
  unexpected : String → Error
  server : List ℕ → Error
  authentication_unavailable : Error
  authentication_failure : List ℕ → Error
  disconnected : Error

-- `panic` is a Rust panic, which ends the thread.
pub data Result {ℓ} (A : Type ℓ) : Type ℓ where
  ok : A → Result A
  err : Error → Result A
  panic : Result A

-- What a stream still delivers: bytes, then its end (`unexpected_eof` to a reader that wants more)
-- or another failure.
pub data Input : Type 0 where
  ends : IoErrorKind → Input
  byte : ℕ → Input → Input

abbrev pub feed : List ℕ → Input → Input
feed [] i = i
feed (b ∷ bs) i = byte b (feed bs i)

abbrev pub available : Input → ℕ
available (ends e) = 0
available (byte b i) = suc (available i)

pub feed-append : (xs ys : List ℕ) (i : Input) → feed (xs ++ ys) i ≡ feed xs (feed ys i)
feed-append [] ys i = refl
feed-append (x ∷ xs) ys i = ap (byte x) (feed-append xs ys i)

pub available-feed : (xs : List ℕ) (i : Input) → available (feed xs i) ≡ length xs + available i
available-feed [] i = omega arith
available-feed (x ∷ xs) i = omega (arith, available-feed xs i)

-- A reader takes bytes off the front of the stream.
abbrev pub Reader {ℓ} : Type ℓ → Type ℓ
Reader A = Input → Result (A × Input)

abbrev pub bind {ℓ κ} : {A : Type ℓ} {B : Type κ} → Result A → (A → Result B) → Result B
bind (ok a) f = f a
bind (err e) f = err e
bind panic f = panic

abbrev pub pure {ℓ} : {A : Type ℓ} → A → Reader A
pure a i = ok (a, i)

abbrev pub fail {ℓ} : {A : Type ℓ} → Error → Reader A
fail e i = err e

-- `?` on a read.
module _ {ℓ κ} {A : Type ℓ} {B : Type κ} where
  infixl 5 ◌>>=◌ ◌>>◌
  abbrev pub ◌>>=◌ : Reader A → (A → Reader B) → Reader B
  ◌>>=◌ p f i = bind (p i) λ (a, rest). f a rest

  abbrev pub ◌>>◌ : Reader A → Reader B → Reader B
  ◌>>◌ p q i = bind (p i) λ (a, rest). q rest

-- ReadBytesExt::read_u8
unfoldable pub read_u8 : Reader ℕ
read_u8 (ends e) = err (io e)
read_u8 (byte b i) = ok (b, i)

-- Read::read_exact into a buffer of `n` bytes
unfoldable pub read_exact : ℕ → Reader (List ℕ)
read_exact zero i = ok ([], i)
read_exact (suc n) (ends e) = err (io e)
read_exact (suc n) (byte b i) = bind (read_exact n i) λ (bs, rest). ok (b ∷ bs, rest)

-- `for _ in 0..n { v.push(read(reader)?) }`
module _ {ℓ} {A : Type ℓ} where
  unfoldable pub read_many : Reader A → ℕ → Reader (List A)
  read_many read zero i = ok ([], i)
  read_many read (suc n) i =
      bind (read i) λ (a, j). bind (read_many read n j) λ (more, k). ok (a ∷ more, k)

  -- `for a in &v { write(a, writer)? }`
  unfoldable pub write_many : (A → List ℕ) → List A → List ℕ
  write_many write [] = []
  write_many write (a ∷ items) = write a ++ write_many write items

-- `Rect` of src/lib.rs.
pub record Rect : Type 0 where
  pub left : ℕ
  pub top : ℕ
  pub width : ℕ
  pub height : ℕ

pub write_many-append {ℓ} :
    {A : Type ℓ} (write : A → List ℕ) (xs ys : List A)
    → write_many write (xs ++ ys) ≡ write_many write xs ++ write_many write ys
unfolding write_many
write_many-append write [] ys = refl
write_many-append write (x ∷ xs) ys =
    ap (λ o. write x ++ o) (write_many-append write xs ys)
    ∙ sym (append_assoc (write x) (write_many write xs) (write_many write ys))
