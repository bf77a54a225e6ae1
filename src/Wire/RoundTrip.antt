-- ===== src/Wire/RoundTrip.antt =====
-- What is written is read back, for the integers, buffers and loops of the crate.
use rust_vnc.Common.{ℕ, List, [], ◌∷◌, Bool, true, false}
use rust_vnc.Common.{◌≡◌, refl, arith, length, All}
use rust_vnc.Common.Int.{ℤ, pattern32, IsI32, signed32-pattern32, pattern32-lt}
use rust_vnc.Wire.{
  Reader, Input, ok, feed, feed-append, read_u8, read_exact, read_many, write_many, bind,
}
use rust_vnc.Wire.Ints.{IsU8, IsU16, IsU32, read_u16, read_u32, read_i32, read_flag}
use rust_vnc.Wire.Ints.{write_u8, write_u16, write_u32, write_i32, write_flag}

-- `read` takes exactly the bytes `bs` and returns `a`, whatever follows them.
abbrev pub Reads {ℓ} : {A : Type ℓ} → Reader A → List ℕ → A → Type ℓ
Reads read bs a = (rest : Input) → read (feed bs rest) ≡ ok (a, rest)

pub read_u8-write_u8 : (n : ℕ) → IsU8 n → Reads read_u8 (write_u8 n) n
unfolding read_u8 write_u8
read_u8-write_u8 n h rest = ground arith

pub read_u16-write_u16 : (n : ℕ) → IsU16 n → Reads read_u16 (write_u16 n) n
unfolding read_u8 read_u16 write_u16
read_u16-write_u16 n h rest = ground arith

pub read_u32-write_u32 : (n : ℕ) → IsU32 n → Reads read_u32 (write_u32 n) n
unfolding read_u8 read_u32 write_u32
read_u32-write_u32 n h rest = ground arith

pub read_i32-write_i32 : (z : ℤ) → IsI32 z → Reads read_i32 (write_i32 z) z
unfolding read_i32 write_i32
read_i32-write_i32 z h rest =
    rw (read_u32-write_u32 (pattern32 z) (pattern32-lt z), signed32-pattern32 z h)

pub read_flag-write_flag : (b : Bool) → Reads read_flag (write_flag b) b
unfolding read_u8 read_flag write_flag
read_flag-write_flag true rest = refl
read_flag-write_flag false rest = refl

pub read_exact_lem : (bs : List ℕ) → Reads (read_exact (length bs)) bs bs
unfolding read_exact
read_exact_lem [] rest = refl
read_exact_lem (b ∷ bs) rest = rw (read_exact_lem bs rest)

-- A loop of reads takes back a list of written items.
pub read_many-write_many {ℓ κ} :
    {A : Type ℓ} {Valid : A → Type κ} (read : Reader A) (write : A → List ℕ)
    → ((a : A) → Valid a → Reads read (write a) a)
    → (items : List A) → All Valid items
    → Reads (read_many read (length items)) (write_many write items) items
unfolding read_many write_many
read_many-write_many read write one [] v rest = refl
read_many-write_many read write one (a ∷ items) (va, vs) rest =
    simp (feed-append, one a va, read_many-write_many read write one items vs)

pub ruleset reads = (
  feed-append, read_u8-write_u8, read_u16-write_u16, read_u32-write_u32, read_i32-write_i32,
  read_flag-write_flag, read_exact_lem,
)
