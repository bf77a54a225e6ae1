-- ===== src/Viewer/Mask.antt =====
-- client/main.rs: the mask of a cursor, a byte for each bit.
use rust_vnc.Common.{
  ℕ, zero, suc, ◌+◌, ◌-◌, ◌*◌, ◌/◌, ◌^◌, ◌≤◌, ◌<◌, List, [], ◌∷◌, ◌++◌, ◌≡◌, refl, ap, ◌∙◌, sym,
}
use rust_vnc.Common.{
  lt→ltb, true, length-append, take-append-drop, length-drop, length, arith, bit_and, ltb,
  if◌then◌else◌, take, drop, append_assoc, append-nil,
}
use native.Mathlib.Nat.{suc-mul, mul_comm}
use rust_vnc.Wire.{Result, ok, panic, bind}

-- `for w in 0..8`
unfoldable pub bits_from : (rounds w mask_byte : ℕ) → List ℕ
bits_from zero w mask_byte = []
bits_from (suc rounds) w mask_byte =
    bit_and mask_byte (2 ^ (7 - w)) ∷ bits_from rounds (suc w) mask_byte

-- An index behind the end panics.
unfoldable byte_at : List ℕ → ℕ → Result ℕ
byte_at [] i = panic
byte_at (b ∷ bytes) zero = ok b
byte_at (b ∷ bytes) (suc i) = byte_at bytes i

-- `mask_bits[(y * mask_stride + x) as usize]`, of which the sum is a u16.
unfoldable mask_byte_at : (mask_bits : List ℕ) (stride x y : ℕ) → Result ℕ
unfolding byte_at
mask_byte_at mask_bits stride x y =
    if ltb (y * stride + x) (2 ^ 16) then byte_at mask_bits (y * stride + x) else panic

-- `for x in 0..mask_stride`
unfoldable mask_columns : (mask_bits : List ℕ) (stride rounds x y : ℕ) → List ℕ → Result (List ℕ)
unfolding mask_byte_at bits_from
mask_columns mask_bits stride zero x y mask_pixels = ok mask_pixels
mask_columns mask_bits stride (suc rounds) x y mask_pixels =
    bind (mask_byte_at mask_bits stride x y) λ mask_byte.
      mask_columns mask_bits stride rounds (suc x) y (mask_pixels ++ bits_from 8 0 mask_byte)

-- `for y in 0..height`
unfoldable mask_rows : (mask_bits : List ℕ) (stride rounds y : ℕ) → List ℕ → Result (List ℕ)
unfolding mask_columns
mask_rows mask_bits stride zero y mask_pixels = ok mask_pixels
mask_rows mask_bits stride (suc rounds) y mask_pixels =
    bind (mask_columns mask_bits stride stride 0 y mask_pixels)
      λ more. mask_rows mask_bits stride rounds (suc y) more

-- `width + 7` is a u16.
unfoldable pub mask_pixels : (width height : ℕ) → List ℕ → Result (List ℕ)
unfolding mask_rows
mask_pixels width height mask_bits =
    if ltb (width + 7) (2 ^ 16) then mask_rows mask_bits ((width + 7) / 8) height 0 [] else panic

-- The bits of a byte, each at its place, from the highest to the lowest.
abbrev pub eight_bits : ℕ → List ℕ
eight_bits b =
    bit_and b 128
    ∷ bit_and b 64
    ∷ bit_and b 32
    ∷ bit_and b 16
    ∷ bit_and b 8
    ∷ bit_and b 4
    ∷ bit_and b 2
    ∷ bit_and b 1
    ∷ []

-- The eight bits of each byte in turn.
abbrev pub all_bits : List ℕ → List ℕ
all_bits [] = []
all_bits (b ∷ bytes) = eight_bits b ++ all_bits bytes

bits_from_lem : (b : ℕ) → bits_from 8 0 b ≡ eight_bits b
unfolding bits_from
bits_from_lem b = refl

byte_at_lem :
    (front back : List ℕ) (b i : ℕ) → i ≡ length front → byte_at (front ++ b ∷ back) i ≡ ok b
unfolding byte_at
byte_at_lem [] back b zero e = refl
byte_at_lem [] back b (suc i) e = ground arith
byte_at_lem (a ∷ front) back b zero e = ground arith
byte_at_lem (a ∷ front) back b (suc i) e = byte_at_lem front back b i (omega arith)

all_bits-append : (xs ys : List ℕ) → all_bits (xs ++ ys) ≡ all_bits xs ++ all_bits ys
all_bits-append [] ys = refl
all_bits-append (b ∷ xs) ys =
    ap (λ t. eight_bits b ++ t) (all_bits-append xs ys)
    ∙ sym (append_assoc (eight_bits b) (all_bits xs) (all_bits ys))

mask_columns_lem :
    (mask_bits front mid back : List ℕ) (stride x y : ℕ) (acc : List ℕ)
    → mask_bits ≡ front ++ (mid ++ back)
    → length front ≡ y * stride + x
    → y * stride + x + length mid ≤ 2 ^ 16
    → mask_columns mask_bits stride (length mid) x y acc ≡ ok (acc ++ all_bits mid)
unfolding mask_columns mask_byte_at
mask_columns_lem mask_bits front [] back stride x y acc e h fits = ap ok (sym (append-nil acc))
mask_columns_lem mask_bits front (b ∷ mid) back stride x y acc e h fits =
    let here : byte_at mask_bits (y * stride + x) ≡ ok b =
      ap (λ bits. byte_at bits (y * stride + x)) e
      ∙ byte_at_lem front (mid ++ back) b (y * stride + x) (sym h) in
    let small : ltb (y * stride + x) (2 ^ 16) ≡ true =
      lt→ltb (y * stride + x) (2 ^ 16) (omega arith) in
    rw (small, here, bits_from_lem b)
      (mask_columns_lem mask_bits (front ++ b ∷ []) mid back stride (suc x) y (acc ++ eight_bits b)
          (e ∙ sym (append_assoc front (b ∷ []) (mid ++ back)))
          (omega (arith, length-append front (b ∷ []))) (omega arith)
        ∙ ap ok (append_assoc acc (eight_bits b) (all_bits mid)))

mask_rows_lem :
    (mask_bits front mid : List ℕ) (stride rounds y : ℕ) (acc : List ℕ)
    → mask_bits ≡ front ++ mid
    → length front ≡ y * stride
    → length mid ≡ rounds * stride
    → y * stride + length mid ≤ 2 ^ 16
    → mask_rows mask_bits stride rounds y acc ≡ ok (acc ++ all_bits mid)
unfolding mask_rows
mask_rows_lem mask_bits front [] stride zero y acc e h size fits = ap ok (sym (append-nil acc))
mask_rows_lem mask_bits front (b ∷ mid) stride zero y acc e h size fits = ground arith
mask_rows_lem mask_bits front mid stride (suc rounds) y acc e h size fits =
    let row : List ℕ = take stride mid in
    let below : List ℕ = drop stride mid in
    let split : row ++ below ≡ mid = take-append-drop stride mid in
    let more : length mid ≡ rounds * stride + stride = size ∙ suc-mul rounds stride in
    let rest : length below ≡ length mid - stride = length-drop stride mid in
    let both : length row + length below ≡ length mid =
      sym (length-append row below) ∙ ap length split in
    let whole_row : length row ≡ stride = omega arith in
    let whole : mask_bits ≡ front ++ (row ++ below) = e ∙ ap (λ t. front ++ t) (sym split) in
    let next : suc y * stride ≡ y * stride + stride = suc-mul y stride in
    let columns : mask_columns mask_bits stride stride 0 y acc ≡ ok (acc ++ all_bits row) =
      ap (λ n. mask_columns mask_bits stride n 0 y acc) (sym whole_row)
      ∙ mask_columns_lem mask_bits front row below stride 0 y acc whole (omega arith)
          (omega arith) in
    rw columns (
      mask_rows_lem mask_bits (front ++ row) below stride rounds (suc y) (acc ++ all_bits row)
        (whole ∙ sym (append_assoc front row below)) (omega (arith, length-append front row))
        (omega arith) (omega arith)
      ∙ ap ok (
          append_assoc acc (all_bits row) (all_bits below)
          ∙ ap (λ t. acc ++ t) (sym (all_bits-append row below) ∙ ap all_bits split)))

-- The mask of a cursor, of as many bytes as its event has, is widened without a panic to the eight
-- bits of each of its bytes in turn, the highest first, where the mask has at most 2 ^ 16 bytes and
-- the width is at most 65528.
pub mask_pixels_lem :
    (width height : ℕ) (mask_bits : List ℕ)
    → width + 7 < 2 ^ 16
    → length mask_bits ≡ (width + 7) / 8 * height
    → length mask_bits ≤ 2 ^ 16
    → mask_pixels width height mask_bits ≡ ok (all_bits mask_bits)
unfolding mask_pixels
mask_pixels_lem width height mask_bits narrow size fits = rw (lt→ltb (width + 7) (2 ^ 16) narrow) (
    mask_rows_lem mask_bits [] mask_bits ((width + 7) / 8) height 0 [] refl (omega arith)
      (size ∙ mul_comm ((width + 7) / 8) height) (omega arith))
