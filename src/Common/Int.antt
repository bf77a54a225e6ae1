-- ===== src/Common/Int.antt =====
-- Signed integers over the native numbers, under the library's names, and the two's-complement
-- reading of a 32-bit word (`i32`).
use Prim.Native.Nat.{ℕ, suc, ◌+◌, ◌-◌, ◌%◌, ◌^◌, ◌<◌}
use mathlib.Core.Path.{◌≡◌}
use mathlib.Core.Bool.{Bool, false}
use native.Mathlib.Omega.{arith}
use rust_vnc.Common.Tests.{ltb, leb, ◌==◌, if◌then◌else◌}

-- `negsuc n` is -(n + 1).
pub data ℤ : Type 0 where
  pos : ℕ → ℤ
  negsuc : ℕ → ℤ

infix 50 ◌==ℤ◌
abbrev pub ◌==ℤ◌ : ℤ → ℤ → Bool
pos a ==ℤ pos b = a == b
negsuc a ==ℤ negsuc b = a == b
_ ==ℤ _ = false

infixl 20 ◌-ℤ◌
abbrev pub ◌-ℤ◌ : ℤ → ℤ → ℤ
pos a -ℤ pos b = if leb b a then pos (a - b) else negsuc (b - a - 1)
pos a -ℤ negsuc b = pos (a + suc b)
negsuc a -ℤ pos b = negsuc (a + b)
negsuc a -ℤ negsuc b = if leb a b then pos (b - a) else negsuc (a - b - 1)

-- The integer that a 32-bit pattern stands for, and the pattern of an integer.
abbrev pub signed32 : ℕ → ℤ
signed32 w = if ltb w (2 ^ 31) then pos w else negsuc (2 ^ 32 - w - 1)

abbrev pub pattern32 : ℤ → ℕ
pattern32 (pos n) = n % 2 ^ 32
pattern32 (negsuc n) = 2 ^ 32 - 1 - n % 2 ^ 32

abbrev pub IsI32 : ℤ → Type 0
IsI32 (pos n) = n < 2 ^ 31
IsI32 (negsuc n) = n < 2 ^ 31

pub signed32-pattern32 : (z : ℤ) → IsI32 z → signed32 (pattern32 z) ≡ z
signed32-pattern32 (pos n) h = ground arith
signed32-pattern32 (negsuc n) h = ground arith

pub pattern32-signed32 : (w : ℕ) → w < 2 ^ 32 → pattern32 (signed32 w) ≡ w
pattern32-signed32 w h = ground arith

pub signed32-IsI32 : (w : ℕ) → w < 2 ^ 32 → IsI32 (signed32 w)
signed32-IsI32 w h = ground arith

pub pattern32-lt : (z : ℤ) → pattern32 z < 2 ^ 32
pattern32-lt (pos n) = omega arith
pattern32-lt (negsuc n) = omega arith
