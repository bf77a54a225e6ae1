-- ===== src/Zrle/Bits.antt =====
-- src/zrle.rs: bits read one group after another.
use rust_vnc.Common.{ℕ, ◌+◌, ◌*◌, ◌^◌, ◌≤◌}
use rust_vnc.Common.{◌≡◌, ◌⊎◌}
use rust_vnc.Wire.{Result, ok, bind}
use rust_vnc.Zrle.{BitReader, read_bits}

-- Both groups come from one byte: they are its bits in order.
abbrev pub FitsByte : BitReader → ℕ → Type 0
FitsByte r count = (r.position ≡ 8) ⊎ (r.position + count ≤ 8)

-- A group of `m` bits, then one of `n`.
abbrev pub then_bits : ℕ → Result (ℕ × BitReader) → Result (ℕ × BitReader)
then_bits n first = bind first λ (hi, s). bind (read_bits n s) λ (lo, t). ok (hi * 2 ^ n + lo, t)
