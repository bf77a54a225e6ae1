-- ===== src/Des/Permute.antt =====
-- src/security/des.rs: `swap_bits` as a selection from the list of a word's bits, and the tables IP
-- and FP, which undo one another.
use rust_vnc.Common.{ℕ, zero, suc, ◌+◌, ◌-◌, ◌*◌, ◌/◌, ◌%◌, ◌^◌, ◌≤◌, ◌<◌, List, [], ◌∷◌, map}
use rust_vnc.Common.{◌≡◌, refl, ap, ap₂, sym, ◌∙◌, arith, length, All, get_or, bit_and}
use rust_vnc.Common.Bits.{and_bit, double}
use rust_vnc.Des.{shl, first_bit}
use native.Mathlib.Nat.{
  div-eq_of_lt, div-add-mod', div-div-eq-div-mul, pow-suc, mul-div-mul_right, add-mul-div_right,
  one-le-pow,
}
pub mod Swap
pub mod Parity

-- The bits of a word of `k` bits, the highest first, and the word of a list of bits.
pub to_bits : ℕ → ℕ → List ℕ
to_bits zero x = []
to_bits (suc k) x = (x / 2 ^ k % 2) ∷ to_bits k x

pub from_bits : List ℕ → ℕ
from_bits [] = 0
from_bits (b ∷ bits) = b * 2 ^ length bits + from_bits bits

-- What a table selects: its entries count from 1.
abbrev pub pick : List ℕ → List ℕ → List ℕ
pick bits table = map (λ i. get_or bits (i - 1) 0) table

abbrev pub AreBits : List ℕ → Type 0
AreBits bits = All (λ b. b < 2) bits

abbrev pub IsTable : List ℕ → Type 0
IsTable table = All (λ i. (1 ≤ i) × (i ≤ 64)) table

pub pow-add : (a b : ℕ) → 2 ^ (a + b) ≡ 2 ^ a * 2 ^ b
pow-add zero b = ground arith
pow-add (suc a) b =
    let e : suc a + b ≡ suc (a + b) = omega arith in
    ap (λ t. 2 ^ t) e
    ∙ omega (arith, pow-suc 2 (a + b), pow-add a b, ap (λ (t : ℕ). t * 2 ^ b) (pow-suc 2 a))

length-to_bits : (k x : ℕ) → length (to_bits k x) ≡ k
unfolding to_bits
length-to_bits zero x = refl
length-to_bits (suc k) x = ap suc (length-to_bits k x)

get_or-to_bits : (k j x : ℕ) → j < k → get_or (to_bits k x) j 0 ≡ x / 2 ^ (k - 1 - j) % 2
unfolding to_bits
get_or-to_bits zero j x h = absurd (omega arith)
get_or-to_bits (suc k) zero x h = ground arith
get_or-to_bits (suc k) (suc j) x h = ground (arith, get_or-to_bits k j x)

pub get_or-AreBits : (bits : List ℕ) (j : ℕ) → AreBits bits → get_or bits j 0 < 2
get_or-AreBits [] j h = omega arith
get_or-AreBits (b ∷ bits) zero h = h.0
get_or-AreBits (b ∷ bits) (suc j) h = get_or-AreBits bits j h.1

pub to_bits-AreBits : (k x : ℕ) → AreBits (to_bits k x)
unfolding to_bits
to_bits-AreBits zero x = tt
to_bits-AreBits (suc k) x = (omega arith, to_bits-AreBits k x)

pub pick-AreBits : (bits table : List ℕ) → AreBits bits → AreBits (pick bits table)
pick-AreBits bits [] h = tt
pick-AreBits bits (i ∷ table) h = (get_or-AreBits bits (i - 1) h, pick-AreBits bits table h)

pub from_bits-lt : (bits : List ℕ) → AreBits bits → from_bits bits < 2 ^ length bits
unfolding from_bits
from_bits-lt [] h = omega arith
from_bits-lt (zero ∷ bits) h = omega (arith, from_bits-lt bits h.1, pow-suc 2 (length bits))
from_bits-lt (suc zero ∷ bits) h = omega (arith, from_bits-lt bits h.1, pow-suc 2 (length bits))
from_bits-lt (suc (suc b) ∷ bits) h = absurd (omega (arith, h.0))

-- A multiple of 2 ^ k shows in no bit below it.
pub to_bits_above : (k q x : ℕ) → to_bits k (q * 2 ^ k + x) ≡ to_bits k x
unfolding to_bits
to_bits_above zero q x = refl
to_bits_above (suc k) q x =
    ap₂ ◌∷◌ (ap (λ t. t / 2 ^ k % 2) shape ∙ top)
      (ap (to_bits k) tail_shape ∙ to_bits_above k (2 * q) x)
  where
    shape : q * 2 ^ suc k + x ≡ x + 2 * q * 2 ^ k
    shape = omega (arith, double q k)

    tail_shape : q * 2 ^ suc k + x ≡ 2 * q * 2 ^ k + x
    tail_shape = omega (arith, double q k)

    top : (x + 2 * q * 2 ^ k) / 2 ^ k % 2 ≡ x / 2 ^ k % 2
    top = omega (arith, add-mul-div_right x (2 * q) (one-le-pow k 2 (omega arith)))

mod_top : (k x : ℕ) → x % 2 ^ suc k ≡ x / 2 ^ k % 2 * 2 ^ k + x % 2 ^ k
mod_top k x =
    let e : 2 ^ k * 2 ≡ 2 ^ suc k = omega (arith, pow-suc 2 k) in
    let h : x / 2 ^ k / 2 ≡ x / 2 ^ suc k = div-div-eq-div-mul x (2 ^ k) 2 ∙ ap (λ t. x / t) e in
    let d : x / 2 ^ k ≡ 2 * (x / 2 ^ suc k) + x / 2 ^ k % 2 = omega arith in
    omega (
      arith,
      div-add-mod' x (2 ^ suc k),
      div-add-mod' x (2 ^ k),
      double (x / 2 ^ suc k) k,
      ap (λ (t : ℕ). t * 2 ^ k) d,
    )

pub from_bits-to_bits : (k x : ℕ) → from_bits (to_bits k x) ≡ x % 2 ^ k
unfolding to_bits from_bits
from_bits-to_bits zero x = omega arith
from_bits-to_bits (suc k) x = rw (length-to_bits k x, from_bits-to_bits k x) (sym (mod_top k x))

pub to_bits-from_bits :
    (bits : List ℕ) → AreBits bits → to_bits (length bits) (from_bits bits) ≡ bits
unfolding to_bits from_bits
to_bits-from_bits [] h = refl
to_bits-from_bits (b ∷ bits) h =
    ap₂ ◌∷◌ (ap (λ t. t / P % 2) shape ∙ top)
      (to_bits_above (length bits) b F ∙ to_bits-from_bits bits h.1)
  where
    P : ℕ
    P = 2 ^ length bits

    F : ℕ
    F = from_bits bits

    shape : b * P + F ≡ F + b * P
    shape = omega arith

    top : (F + b * P) / P % 2 ≡ b
    top = omega (
      arith,
      h.0,
      add-mul-div_right F b (one-le-pow (length bits) 2 (omega arith)),
      div-eq_of_lt (from_bits-lt bits h.1),
    )

-- The bit that an entry of a table selects, moved to the top.
pub selected_bit :
    (x j : ℕ) → j < 64 → bit_and (shl x j) first_bit ≡ get_or (to_bits 64 x) j 0 * 2 ^ 63
selected_bit x j h =
    and_bit 63 (shl x j) ∙ ap (λ t. t * 2 ^ 63) (same ∙ sym (get_or-to_bits 64 j x h))
  where
    split : 2 ^ (63 - j) * 2 ^ j ≡ 2 ^ 63
    split =
        sym (pow-add (63 - j) j)
        ∙ ap (λ (t : ℕ). 2 ^ t) (let e : 63 - j + j ≡ 63 = omega arith in e)

    moved : x * 2 ^ j / 2 ^ 63 ≡ x / 2 ^ (63 - j)
    moved =
        ap (λ t. x * 2 ^ j / t) (sym split)
        ∙ mul-div-mul_right x (2 ^ (63 - j)) (one-le-pow j 2 (omega arith))

    same : shl x j / 2 ^ 63 % 2 ≡ x / 2 ^ (63 - j) % 2
    same = omega (arith, moved)
