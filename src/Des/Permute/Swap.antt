-- ===== src/Des/Permute/Swap.antt =====
-- src/security/des.rs: `swap_bits` selects bits of its word by its table, and the tables IP and FP
-- undo one another.
use rust_vnc.Common.{ℕ, zero, suc, ◌+◌, ◌-◌, ◌*◌, ◌/◌, ◌^◌, ◌≤◌, ◌<◌, List, [], ◌∷◌}
use rust_vnc.Common.{
  ◌≡◌, refl, ap, ap₂, sym, subst, ◌∙◌, arith, length, get_or, bit_and, bit_or, length-map,
}
use rust_vnc.Common.Bits.{or_fields, double}
use rust_vnc.Des.{swap_loop, swap_bits, ip, fp, shl, shr, first_bit}
use rust_vnc.Des.Tables.{ip_table, fp_table}
use rust_vnc.Des.Permute.{to_bits, from_bits, pick, IsTable, pow-add, from_bits-lt}
use rust_vnc.Des.Permute.{selected_bit, get_or-AreBits, to_bits-AreBits, pick-AreBits}
use rust_vnc.Des.Permute.{to_bits-from_bits, from_bits-to_bits}
use native.Mathlib.Nat.{pow-suc, mul-div_cancel, one-le-pow, mod-eq_of_lt}

-- A bit at the top, moved down by `pos`.
move_down : (b pos m : ℕ) → pos + m ≡ 63 → shr (b * 2 ^ 63) pos ≡ b * 2 ^ m
move_down b pos m h =
    ap (λ t. t / 2 ^ pos) split ∙ mul-div_cancel (b * 2 ^ m) (one-le-pow pos 2 (omega arith))
  where
    whole : 2 ^ m * 2 ^ pos ≡ 2 ^ 63
    whole = sym (pow-add m pos) ∙ ap (λ (t : ℕ). 2 ^ t) (let e : m + pos ≡ 63 = omega arith in e)

    split : b * 2 ^ 63 ≡ b * 2 ^ m * 2 ^ pos
    split = omega (arith, ap (λ (t : ℕ). b * t) whole)

bit_times : (b k : ℕ) → b < 2 → 0 < k → b * k < 2 * k
bit_times zero k h pos = omega arith
bit_times (suc zero) k h pos = omega arith
bit_times (suc (suc b)) k h pos = absurd (omega arith)

-- One round: the bit is written below those that are there.
write_bit :
    (x j pos m r : ℕ)
    → j < 64
    → pos + m ≡ 63
    → bit_or (r * 2 ^ suc m) (shr (bit_and (shl x j) first_bit) pos)
      ≡ (2 * r + get_or (to_bits 64 x) j 0) * 2 ^ m
write_bit x j pos m r hj h =
    ap (λ t. bit_or (r * 2 ^ suc m) (shr t pos)) (selected_bit x j hj)
    ∙ ap (λ t. bit_or (r * 2 ^ suc m) t) (move_down b pos m h)
    ∙ or_fields (suc m) r (b * 2 ^ m) fits
    ∙ omega (arith, double r m)
  where
    b : ℕ
    b = get_or (to_bits 64 x) j 0

    bit : b < 2
    bit = get_or-AreBits (to_bits 64 x) j (to_bits-AreBits 64 x)

    fits : b * 2 ^ m < 2 ^ suc m
    fits = omega (arith, bit_times b (2 ^ m) bit (one-le-pow m 2 (omega arith)), pow-suc 2 m)

-- The words that the loop makes: `r` above, and below it what the table selects.
swap_loop-from_bits :
    (x : ℕ) (table : List ℕ) (pos n r : ℕ)
    → IsTable table
    → pos + n ≡ 64
    → length table ≤ n
    → swap_loop x pos (r * 2 ^ n) table
      ≡ (r * 2 ^ length table + from_bits (pick (to_bits 64 x) table)) * 2 ^ (n - length table)
unfolding swap_loop from_bits
swap_loop-from_bits x [] pos n r ok h fits = ground arith
swap_loop-from_bits x (i ∷ table) pos zero r ok h fits = absurd (omega arith)
swap_loop-from_bits x (i ∷ table) pos (suc m) r ok h fits =
    ap (λ t. swap_loop x (suc pos) t table)
      (write_bit x (i - 1) pos m r (omega arith) (omega arith))
    ∙ swap_loop-from_bits x table (suc pos) m (2 * r + b) ok.1 (omega arith) (omega arith)
    ∙ ap₂ (λ s t. s * 2 ^ t) sum
        (let e : m - length table ≡ suc m - suc (length table) = omega arith in e)
  where
    b : ℕ
    b = get_or (to_bits 64 x) (i - 1) 0

    picked : List ℕ
    picked = pick (to_bits 64 x) table

    sum :
        (2 * r + b) * 2 ^ length table + from_bits picked
        ≡ r * 2 ^ suc (length table) + (b * 2 ^ length picked + from_bits picked)
    sum = omega (
      arith,
      double r (length table),
      ap (λ (t : ℕ). b * 2 ^ t) (length-map table (λ j. get_or (to_bits 64 x) (j - 1) 0)),
    )

-- A table of at most 64 entries moves the bits that it names to the top of the word.
pub swap_bits-from_bits :
    (x : ℕ) (table : List ℕ)
    → IsTable table
    → length table ≤ 64
    → swap_bits x table ≡ from_bits (pick (to_bits 64 x) table) * 2 ^ (64 - length table)
unfolding swap_bits
swap_bits-from_bits x table ok fits = swap_loop-from_bits x table 0 64 0 ok refl fits ∙ zero_above
  where
    zero_above :
        (0 * 2 ^ length table + from_bits (pick (to_bits 64 x) table)) * 2 ^ (64 - length table)
        ≡ from_bits (pick (to_bits 64 x) table) * 2 ^ (64 - length table)
    zero_above = ap (λ t. t * 2 ^ (64 - length table)) (omega arith)

-- So the result is a field of that many bits at the top of the word.
pub swap_bits_field :
    (x : ℕ) (table : List ℕ)
    → IsTable table
    → length table ≤ 64
    → (h : ℕ) × (swap_bits x table ≡ h * 2 ^ (64 - length table)) × (h < 2 ^ length table)
swap_bits_field x table ok fits = (from_bits picked, swap_bits-from_bits x table ok fits, bound)
  where
    picked : List ℕ
    picked = pick (to_bits 64 x) table

    bound : from_bits picked < 2 ^ length table
    bound =
        subst (λ k. from_bits picked < 2 ^ k) (length-map table _)
          (from_bits-lt picked (pick-AreBits (to_bits 64 x) table (to_bits-AreBits 64 x)))

-- With 64 entries the bits of the result are those that the table selects.
to_bits-swap_bits :
    (x : ℕ) (table : List ℕ)
    → IsTable table
    → length table ≡ 64
    → to_bits 64 (swap_bits x table) ≡ pick (to_bits 64 x) table
to_bits-swap_bits x table ok fits =
    ap (to_bits 64) (swap_bits-from_bits x table ok (omega arith) ∙ whole)
    ∙ ap (λ k. to_bits k (from_bits picked)) (sym len)
    ∙ to_bits-from_bits picked (pick-AreBits (to_bits 64 x) table (to_bits-AreBits 64 x))
  where
    picked : List ℕ
    picked = pick (to_bits 64 x) table

    len : length picked ≡ 64
    len = length-map table _ ∙ fits

    whole : from_bits picked * 2 ^ (64 - length table) ≡ from_bits picked
    whole = rw fits (omega arith)

-- A word is the number of its bits.
word : (x : ℕ) → x < 2 ^ 64 → x ≡ from_bits (to_bits 64 x)
word x h = sym (from_bits-to_bits 64 x ∙ mod-eq_of_lt h)

swapped : (x : ℕ) (table : List ℕ) → IsTable table → length table ≡ 64 → swap_bits x table < 2 ^ 64
swapped x table ok fits =
    let (h, e, bound) = swap_bits_field x table ok (omega arith) in
    let wide : h < 2 ^ 64 = subst (λ k. h < 2 ^ k) fits bound in
    let place : h * 2 ^ (64 - length table) ≡ h = ap (λ k. h * 2 ^ (64 - k)) fits ∙ omega arith in
    omega (arith, e, place)

-- Two tables undo one another if the second selects every bit back.
swap_bits-swap_bits :
    (x : ℕ) (first second : List ℕ)
    → IsTable first
    → IsTable second
    → length first ≡ 64
    → length second ≡ 64
    → pick (pick (to_bits 64 x) first) second ≡ to_bits 64 x
    → x < 2 ^ 64
    → swap_bits (swap_bits x first) second ≡ x
swap_bits-swap_bits x first second ok1 ok2 l1 l2 back h =
    word (swap_bits (swap_bits x first) second) (swapped (swap_bits x first) second ok2 l2)
    ∙ ap from_bits (
        to_bits-swap_bits (swap_bits x first) second ok2 l2
        ∙ ap (λ bits. pick bits second) (to_bits-swap_bits x first ok1 l1)
        ∙ back)
    ∙ sym (word x h)

-- The last permutation, then the first, and the other way round.
pub ip-fp : (x : ℕ) → x < 2 ^ 64 → ip (fp x) ≡ x
unfolding ip fp to_bits
ip-fp x h = swap_bits-swap_bits x fp_table ip_table (omega arith) (omega arith) refl refl refl h

pub fp-ip : (x : ℕ) → x < 2 ^ 64 → fp (ip x) ≡ x
unfolding ip fp to_bits
fp-ip x h = swap_bits-swap_bits x ip_table fp_table (omega arith) (omega arith) refl refl refl h

pub ip-lt : (x : ℕ) → ip x < 2 ^ 64
unfolding ip
ip-lt x = swapped x ip_table (omega arith) refl

pub fp-lt : (x : ℕ) → fp x < 2 ^ 64
unfolding fp
fp-lt x = swapped x fp_table (omega arith) refl
