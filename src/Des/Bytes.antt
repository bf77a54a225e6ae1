-- ===== src/Des/Bytes.antt =====
-- src/security/des.rs: messages as bytes and as 64-bit blocks.
use rust_vnc.Common.{ℕ, ◌+◌, ◌*◌, ◌/◌, ◌%◌, ◌^◌, ◌<◌, List, [], ◌∷◌}
use rust_vnc.Common.{◌≡◌, refl, ap, ap₂, sym, subst, ◌∙◌, arith, length, bit_and, All}
use rust_vnc.Common.Bits.{and_shift, and_mask}
use rust_vnc.Des.{shl, shr, key_loop_u64, key_to_u64, to_u8_vec}
use native.Mathlib.Nat.{mul-div_cancel, one-le-pow}

abbrev pub AreBytes : List ℕ → Type 0
AreBytes bytes = All (λ b. b < 256) bytes

-- One byte of a word: mask and shift.
byte_at : (k n : ℕ) → shr (bit_and n (255 * 2 ^ k)) k ≡ n / 2 ^ k % 256
byte_at k n =
    ap (λ t. t / 2 ^ k) (and_shift k n 255 ∙ ap (λ t. t * 2 ^ k) (and_mask 8 (n / 2 ^ k)))
    ∙ mul-div_cancel (n / 2 ^ k % 256) (one-le-pow k 2 (omega arith))

pub to_u8_vec-bytes :
    (n : ℕ)
    → to_u8_vec n
      ≡ (n / 2 ^ 56 % 256)
        ∷ (n / 2 ^ 48 % 256)
        ∷ (n / 2 ^ 40 % 256)
        ∷ (n / 2 ^ 32 % 256)
        ∷ (n / 2 ^ 24 % 256)
        ∷ (n / 2 ^ 16 % 256)
        ∷ (n / 2 ^ 8 % 256)
        ∷ (n % 256)
        ∷ []
unfolding to_u8_vec
to_u8_vec-bytes n = ap₂ ◌∷◌ (byte_at 56 n) (
    ap₂ ◌∷◌ (byte_at 48 n) (
      ap₂ ◌∷◌ (byte_at 40 n) (
        ap₂ ◌∷◌ (byte_at 32 n) (
          ap₂ ◌∷◌ (byte_at 24 n)
            (ap₂ ◌∷◌ (byte_at 16 n) (ap₂ ◌∷◌ (byte_at 8 n) (ap₂ ◌∷◌ (and_mask 8 n) refl)))))))

pub key_to_u64-to_u8_vec : (n : ℕ) → n < 2 ^ 64 → key_to_u64 (to_u8_vec n) ≡ n
unfolding key_to_u64
key_to_u64-to_u8_vec n h = ap key_to_u64 (to_u8_vec-bytes n) ∙ omega arith

pub to_u8_vec-key_to_u64 :
    (key : List ℕ) → AreBytes key → length key ≡ 8 → to_u8_vec (key_to_u64 key) ≡ key
unfolding key_to_u64
to_u8_vec-key_to_u64 (a ∷ b ∷ c ∷ d ∷ e ∷ f ∷ g ∷ h ∷ []) bytes len =
    ap to_u8_vec value
    ∙ to_u8_vec-bytes _
    ∙ ap₂ ◌∷◌ (omega arith) (
        ap₂ ◌∷◌ (omega arith) (
          ap₂ ◌∷◌ (omega arith) (
            ap₂ ◌∷◌ (omega arith) (
              ap₂ ◌∷◌ (omega arith)
                (ap₂ ◌∷◌ (omega arith) (ap₂ ◌∷◌ (omega arith) (ap₂ ◌∷◌ (omega arith) refl)))))))
  where
    value :
        key_to_u64 (a ∷ b ∷ c ∷ d ∷ e ∷ f ∷ g ∷ h ∷ [])
        ≡ a * 2 ^ 56
          + b * 2 ^ 48
          + c * 2 ^ 40
          + d * 2 ^ 32
          + e * 2 ^ 24
          + f * 2 ^ 16
          + g * 2 ^ 8
          + h
    value = omega arith
to_u8_vec-key_to_u64 _ bytes len = absurd (omega arith)

pub to_u8_vec-AreBytes : (n : ℕ) → AreBytes (to_u8_vec n) × (length (to_u8_vec n) ≡ 8)
unfolding to_u8_vec
to_u8_vec-AreBytes n = (subst AreBytes (sym (to_u8_vec-bytes n)) (omega arith), refl)

key_loop_u64-lt : (key : List ℕ) (result : ℕ) → result < 2 ^ 64 → key_loop_u64 result key < 2 ^ 64
unfolding key_loop_u64
key_loop_u64-lt [] result h = h
key_loop_u64-lt (part ∷ key) result h =
    key_loop_u64-lt key ((shl result 8 + part) % 2 ^ 64) (omega arith)

pub key_to_u64-lt : (key : List ℕ) → key_to_u64 key < 2 ^ 64
unfolding key_to_u64
key_to_u64-lt key = key_loop_u64-lt key 0 (omega arith)
