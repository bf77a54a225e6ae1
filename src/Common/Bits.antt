-- ===== src/Common/Bits.antt =====
-- `&`, `|` and `^` on words of any width, as arithmetic.
use Prim.Native.Nat.{ℕ, zero, suc, ◌+◌, ◌-◌, ◌*◌, ◌/◌, ◌%◌, ◌^◌, ◌≤◌, ◌<◌, min, max, differ}
use Prim.Native.Nat.{bit_and, bit_or, bit_xor, digits}
use Prim.Native.Nat.{bit_and-bitwise, bit_or-bitwise, bit_xor-bitwise}
use mathlib.Core.Path.{◌≡◌, refl, sym, ap, ◌∙◌}
use native.Mathlib.Nat.{pow-suc, one-le-pow, div-add-mod, div-div-eq-div-mul}
use native.Mathlib.Omega.{arith}

-- The native operations recur on a fuel; more of it than the first operand changes nothing.
module _ (z : ℕ → ℕ) (f : ℕ → ℕ → ℕ) where
  digits_one_more : (n a b : ℕ) → a ≤ n → digits z f (suc n) a b ≡ digits z f n a b
  digits_one_more zero zero b h = refl
  digits_one_more zero (suc a) b h = absurd (omega arith)
  digits_one_more (suc n) zero b h = refl
  digits_one_more (suc n) (suc a) b h =
      ap (λ t. t * 2 + f (suc a % 2) (b % 2)) (digits_one_more n (suc a / 2) (b / 2) (omega arith))

  digits_more : (d n a b : ℕ) → a ≤ n → digits z f (d + n) a b ≡ digits z f n a b
  digits_more zero n a b h = ap (λ k. digits z f k a b) (omega arith)
  digits_more (suc d) n a b h =
      let one : suc d + n ≡ suc (d + n) = omega arith in
      ap (λ k. digits z f k a b) one
      ∙ digits_one_more (d + n) a b (omega arith)
      ∙ digits_more d n a b h

  -- One digit of the recursion.
  digits_peel :
      (a b : ℕ)
      → digits z f (suc a) (suc a) b
        ≡ digits z f (suc a / 2) (suc a / 2) (b / 2) * 2 + f (suc a % 2) (b % 2)
  digits_peel a b = ap (λ t. t * 2 + f (suc a % 2) (b % 2)) shorter
    where
      split : a ≡ a - suc a / 2 + suc a / 2
      split = omega arith

      shorter : digits z f a (suc a / 2) (b / 2) ≡ digits z f (suc a / 2) (suc a / 2) (b / 2)
      shorter =
          ap (λ k. digits z f k (suc a / 2) (b / 2)) split
          ∙ digits_more (a - suc a / 2) (suc a / 2) (suc a / 2) (b / 2) (omega arith)

pub and_low : (a b : ℕ) → bit_and a b ≡ bit_and (a / 2) (b / 2) * 2 + min (a % 2) (b % 2)
and_low zero b = simp bit_and-bitwise (omega arith)
and_low (suc a) b =
    rw (bit_and-bitwise (suc a) b, bit_and-bitwise (suc a / 2) (b / 2))
      (digits_peel (λ y. zero) min a b)

pub or_low : (a b : ℕ) → bit_or a b ≡ bit_or (a / 2) (b / 2) * 2 + max (a % 2) (b % 2)
or_low zero b = simp bit_or-bitwise (omega arith)
or_low (suc a) b =
    rw (bit_or-bitwise (suc a) b, bit_or-bitwise (suc a / 2) (b / 2)) (digits_peel (λ y. y) max a b)

pub xor_low : (a b : ℕ) → bit_xor a b ≡ bit_xor (a / 2) (b / 2) * 2 + differ (a % 2) (b % 2)
xor_low zero b = simp bit_xor-bitwise (omega arith)
xor_low (suc a) b =
    rw (bit_xor-bitwise (suc a) b, bit_xor-bitwise (suc a / 2) (b / 2))
      (digits_peel (λ y. y) differ a b)

pub double : (q k : ℕ) → q * 2 ^ suc k ≡ 2 * (q * 2 ^ k)
double q k = omega (arith, ap (λ (t : ℕ). q * t) (pow-suc 2 k))

pub halve : (a k : ℕ) → a / 2 / 2 ^ k ≡ a / 2 ^ suc k
halve a k =
    let e : 2 * 2 ^ k ≡ 2 ^ suc k = omega (arith, pow-suc 2 k) in
    div-div-eq-div-mul a 2 (2 ^ k) ∙ ap (λ t. a / t) e

and_zero_below : (n a : ℕ) → a ≤ n → bit_and a 0 ≡ 0
and_zero_below n zero h = refl
and_zero_below zero (suc a) h = absurd (omega arith)
and_zero_below (suc n) (suc a) h =
    omega (arith, and_low (suc a) 0, and_zero_below n (suc a / 2) (omega arith))

or_zero_below : (n a : ℕ) → a ≤ n → bit_or a 0 ≡ a
or_zero_below n zero h = refl
or_zero_below zero (suc a) h = absurd (omega arith)
or_zero_below (suc n) (suc a) h =
    omega (arith, or_low (suc a) 0, or_zero_below n (suc a / 2) (omega arith))

pub or_zero : (a : ℕ) → bit_or a 0 ≡ a
or_zero a = or_zero_below a a (omega arith)

-- A mask shifted up by `k`.
pub and_shift : (k a m : ℕ) → bit_and a (m * 2 ^ k) ≡ bit_and (a / 2 ^ k) m * 2 ^ k
and_shift zero a m = ground arith
and_shift (suc k) a m = ground (
  arith,
  and_low a (m * 2 ^ suc k),
  double m k,
  double (bit_and (a / 2 ^ suc k) m) k,
  and_shift k (a / 2) m,
  halve a k,
)

pub mod_peel : (a k : ℕ) → a % 2 ^ suc k ≡ a / 2 % 2 ^ k * 2 + a % 2
mod_peel a k = omega (
  arith,
  div-add-mod a (2 ^ suc k),
  div-add-mod (a / 2) (2 ^ k),
  halve a k,
  ap (λ (t : ℕ). a / 2 ^ suc k * t) (pow-suc 2 k),
  ap (λ (t : ℕ). t * 2 ^ k) (halve a k),
)

-- A mask of `k` ones.
pub and_mask : (k a : ℕ) → bit_and a (2 ^ k - 1) ≡ a % 2 ^ k
and_mask zero a = omega (arith, and_zero_below a a (omega arith))
and_mask (suc k) a = ground (
  arith,
  and_low a (2 ^ suc k - 1),
  and_mask k (a / 2),
  pow-suc 2 k,
  one-le-pow k 2 (omega arith),
  mod_peel a k,
)

pub and_one : (a : ℕ) → bit_and a 1 ≡ a % 2
and_one a = omega (arith, and_low a 1, and_zero_below (a / 2) (a / 2) (omega arith))

-- One bit, left in its place.
pub and_bit : (k a : ℕ) → bit_and a (1 * 2 ^ k) ≡ a / 2 ^ k % 2 * 2 ^ k
and_bit k a = and_shift k a 1 ∙ ap (λ t. t * 2 ^ k) (and_one (a / 2 ^ k))

-- Fields that do not overlap add up.
pub or_fields : (k q r : ℕ) → r < 2 ^ k → bit_or (q * 2 ^ k) r ≡ q * 2 ^ k + r
or_fields zero q r h = ground (arith, or_zero q)
or_fields (suc k) q r h = ground (
  arith,
  or_low (q * 2 ^ suc k) r,
  double q k,
  pow-suc 2 k,
  or_fields k q (r / 2) (omega (arith, pow-suc 2 k)),
)

zero_or : (a : ℕ) → bit_or 0 a ≡ a
zero_or a = rw (bit_or-bitwise 0 a) refl

pub or_above : (k q r : ℕ) → r < 2 ^ k → bit_or r (q * 2 ^ k) ≡ q * 2 ^ k + r
or_above zero q r h = let e : r ≡ 0 = omega arith in rw e (zero_or (q * 2 ^ 0) ∙ omega arith)
or_above (suc k) q r h = ground (
  arith,
  or_low r (q * 2 ^ suc k),
  double q k,
  pow-suc 2 k,
  or_above k q (r / 2) (omega (arith, pow-suc 2 k)),
)

differ_lt : (x y : ℕ) → x < 2 → y < 2 → differ x y < 2
differ_lt zero y h k = k
differ_lt (suc zero) zero h k = omega arith
differ_lt (suc zero) (suc y) h k = omega arith
differ_lt (suc (suc x)) y h k = absurd (omega arith)

differ_cancel : (x y : ℕ) → x < 2 → y < 2 → differ (differ x y) y ≡ x
differ_cancel zero zero h k = refl
differ_cancel zero (suc zero) h k = refl
differ_cancel zero (suc (suc y)) h k = absurd (omega arith)
differ_cancel (suc zero) zero h k = refl
differ_cancel (suc zero) (suc zero) h k = refl
differ_cancel (suc zero) (suc (suc y)) h k = absurd (omega arith)
differ_cancel (suc (suc x)) y h k = absurd (omega arith)

xor_half : (a b : ℕ) → bit_xor a b / 2 ≡ bit_xor (a / 2) (b / 2)
xor_half a b = omega (arith, xor_low a b, differ_lt (a % 2) (b % 2) (omega arith) (omega arith))

xor_digit : (a b : ℕ) → bit_xor a b % 2 ≡ differ (a % 2) (b % 2)
xor_digit a b = omega (arith, xor_low a b, differ_lt (a % 2) (b % 2) (omega arith) (omega arith))

xor_cancel_below : (n a b : ℕ) → a ≤ n → b ≤ n → bit_xor (bit_xor a b) b ≡ a
xor_cancel_below zero zero zero h k = refl
xor_cancel_below zero (suc a) b h k = absurd (omega arith)
xor_cancel_below zero zero (suc b) h k = absurd (omega arith)
xor_cancel_below (suc n) a b h k = ground (
  arith,
  xor_low (bit_xor a b) b,
  xor_half a b,
  xor_digit a b,
  differ_cancel (a % 2) (b % 2) (omega arith) (omega arith),
  xor_cancel_below n (a / 2) (b / 2) (omega arith) (omega arith),
)

pub xor_cancel : (a b : ℕ) → bit_xor (bit_xor a b) b ≡ a
xor_cancel a b = xor_cancel_below (a + b) a b (omega arith) (omega arith)

pub xor-lt : (k a b : ℕ) → a < 2 ^ k → b < 2 ^ k → bit_xor a b < 2 ^ k
xor-lt zero zero zero ha hb = omega arith
xor-lt zero zero (suc b) ha hb = absurd (omega arith)
xor-lt zero (suc a) b ha hb = absurd (omega arith)
xor-lt (suc k) a b ha hb = omega (
  arith,
  pow-suc 2 k,
  xor_half a b,
  xor-lt k (a / 2) (b / 2) (omega (arith, pow-suc 2 k)) (omega (arith, pow-suc 2 k)),
)

pub xor_shift : (k a b : ℕ) → bit_xor (a * 2 ^ k) (b * 2 ^ k) ≡ bit_xor a b * 2 ^ k
xor_shift zero a b = ground arith
xor_shift (suc k) a b = ground (
  arith,
  xor_low (a * 2 ^ suc k) (b * 2 ^ suc k),
  double a k,
  double b k,
  double (bit_xor a b) k,
  xor_shift k a b,
)

pub div_twice : (k l a : ℕ) → a / 2 ^ k / 2 ^ l ≡ a / 2 ^ (k + l)
div_twice zero l a =
    let e : a / 1 ≡ a = omega arith in
    let z : l ≡ 0 + l = omega arith in ap (λ t. t / 2 ^ l) e ∙ ap (λ t. a / 2 ^ t) z
div_twice (suc k) l a =
    let s : suc (k + l) ≡ suc k + l = omega arith in
    ap (λ t. t / 2 ^ l) (sym (halve a k))
    ∙ div_twice k l (a / 2)
    ∙ halve a (k + l)
    ∙ ap (λ t. a / 2 ^ t) s

-- The low `m + n` bits are `m` bits above `n` bits.
pub mod_split : (n m x : ℕ) → x / 2 ^ n % 2 ^ m * 2 ^ n + x % 2 ^ n ≡ x % 2 ^ (m + n)
mod_split zero m x =
    let e : x / 1 ≡ x = omega arith in
    let z : m + 0 ≡ m = omega arith in omega (arith, ap (λ t. t % 2 ^ m) e, ap (λ t. x % 2 ^ t) z)
mod_split (suc n) m x =
    let s : m + suc n ≡ suc (m + n) = omega arith in
    omega (
      arith,
      ap (λ t. t % 2 ^ m * 2 ^ suc n) (sym (halve x n)),
      double (x / 2 / 2 ^ n % 2 ^ m) n,
      mod_peel x n,
      mod_split n m (x / 2),
      mod_peel x (m + n),
      ap (λ t. x % 2 ^ t) s,
    )
