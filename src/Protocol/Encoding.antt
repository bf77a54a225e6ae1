-- ===== src/Protocol/Encoding.antt =====
-- src/protocol.rs: `Encoding`.
use rust_vnc.Common.{ℕ, List, ◌≡◌, ◌≢◌, refl, arith, if◌then◌else◌, ap}
use rust_vnc.Common.Int.{ℤ, pos, negsuc, ◌==ℤ◌, IsI32}
use rust_vnc.Wire.{Reader, pure, ◌>>=◌, ok}
use rust_vnc.Wire.Ints.{read_i32, write_i32}
use rust_vnc.Wire.RoundTrip.{Reads, read_i32-write_i32}

pub data Encoding : Type 0 where
  unknown : ℤ → Encoding
  raw copy_rect rre hextile zrle cursor desktop_size : Encoding

-- `negsuc 238` is -239 and `negsuc 222` is -223.
unfoldable pub of_i32 : ℤ → Encoding
of_i32 n =
    if n ==ℤ pos 0
    then raw
    else if n ==ℤ pos 1
    then copy_rect
    else if n ==ℤ pos 2
    then rre
    else if n ==ℤ pos 5
    then hextile
    else if n ==ℤ pos 16
    then zrle
    else if n ==ℤ negsuc 238
    then cursor
    else if n ==ℤ negsuc 222
    then desktop_size
    else unknown n

unfoldable pub to_i32 : Encoding → ℤ
to_i32 raw = pos 0
to_i32 copy_rect = pos 1
to_i32 rre = pos 2
to_i32 hextile = pos 5
to_i32 zrle = pos 16
to_i32 cursor = negsuc 238
to_i32 desktop_size = negsuc 222
to_i32 (unknown n) = n

unfoldable pub read_from : Reader Encoding
unfolding of_i32
read_from = do n ← read_i32; pure (of_i32 n)

unfoldable pub write_to : Encoding → List ℕ
unfolding to_i32
write_to e = write_i32 (to_i32 e)

-- The number fits an i32, and reading it back gives this constructor: an `unknown` number is none
-- of the seven that have a name.
abbrev pub IsCanonical : Encoding → Type 0
IsCanonical (unknown n) =
    IsI32 n
    × (n ≢ pos 0)
    × (n ≢ pos 1)
    × (n ≢ pos 2)
    × (n ≢ pos 5)
    × (n ≢ pos 16)
    × (n ≢ negsuc 238)
    × (n ≢ negsuc 222)
IsCanonical _ = Unit {0}

pub to_i32-of_i32 : (n : ℤ) → to_i32 (of_i32 n) ≡ n
unfolding to_i32 of_i32
to_i32-of_i32 (pos n) = ground arith
to_i32-of_i32 (negsuc n) = ground arith

of_i32-to_i32 : (e : Encoding) → IsCanonical e → of_i32 (to_i32 e) ≡ e
unfolding to_i32 of_i32
of_i32-to_i32 (unknown (pos n)) h = ground arith
of_i32-to_i32 (unknown (negsuc n)) h = ground arith
of_i32-to_i32 raw h = refl
of_i32-to_i32 _ h = refl

to_i32-IsI32 : (e : Encoding) → IsCanonical e → IsI32 (to_i32 e)
unfolding to_i32
to_i32-IsI32 (unknown n) h = h.0
to_i32-IsI32 raw h = omega arith
to_i32-IsI32 _ h = omega arith

pub read_from-write_to : (e : Encoding) → IsCanonical e → Reads read_from (write_to e) e
unfolding read_from write_to
read_from-write_to e h rest =
    rw (read_i32-write_i32 (to_i32 e) (to_i32-IsI32 e h))
      (ap (λ c. ok (c, rest)) (of_i32-to_i32 e h))
