-- ===== src/Des/Feistel.antt =====
-- src/security/des.rs: the rounds on a block undo themselves with the subkeys reversed.
use rust_vnc.Common.{ℕ, ◌+◌, ◌-◌, ◌*◌, ◌/◌, ◌%◌, ◌^◌, ◌<◌, List, [], ◌∷◌, ◌++◌}
use rust_vnc.Common.{◌≡◌, refl, ap, ap₂, ◌∙◌, arith, bit_and, bit_or, bit_xor}
use rust_vnc.Common.Bits.{or_fields, and_shift, and_mask, xor_cancel, xor-lt, xor_shift}
use rust_vnc.Des.{ip, fp, p, shl, shr, feistel, rounds, des_block}
use rust_vnc.Des.Tables.{p_table}
use rust_vnc.Des.Permute.Swap.{ip-fp, fp-ip, ip-lt, fp-lt, swap_bits_field}
use mathlib.Core.List.{reverse, reverse-cons}

-- Half a block: 32 bits at the top of a word.
abbrev pub IsHalf : ℕ → Type 0
IsHalf x = (h : ℕ) × (x ≡ h * 2 ^ 32) × (h < 2 ^ 32)

feistel-IsHalf : (half_block subkey : ℕ) → IsHalf (feistel half_block subkey)
unfolding feistel p
feistel-IsHalf half_block subkey = swap_bits_field _ p_table (omega arith) (omega arith)

xor-IsHalf : (a b : ℕ) → IsHalf a → IsHalf b → IsHalf (bit_xor a b)
xor-IsHalf a b (x, ea, ha) (y, eb, hb) =
    (bit_xor x y, ap₂ bit_xor ea eb ∙ xor_shift 32 x y, xor-lt 32 x y ha hb)

rounds-IsHalf :
    (subkeys : List ℕ) (li ri : ℕ)
    → IsHalf li
    → IsHalf ri
    → IsHalf (rounds subkeys li ri).0 × IsHalf (rounds subkeys li ri).1
unfolding rounds
rounds-IsHalf [] li ri hl hr = (hl, hr)
rounds-IsHalf (k ∷ subkeys) li ri hl hr =
    rounds-IsHalf subkeys ri (bit_xor li (feistel ri k)) hr
      (xor-IsHalf li (feistel ri k) hl (feistel-IsHalf ri k))

rounds-append :
    (xs ys : List ℕ) (li ri : ℕ)
    → rounds (xs ++ ys) li ri ≡ rounds ys (rounds xs li ri).0 (rounds xs li ri).1
unfolding rounds
rounds-append [] ys li ri = refl
rounds-append (k ∷ xs) ys li ri = rounds-append xs ys ri (bit_xor li (feistel ri k))

-- With the halves exchanged and the subkeys reversed the rounds lead back, exchanged again.
rounds-reverse :
    (subkeys : List ℕ) (li ri : ℕ)
    → rounds (reverse subkeys) (rounds subkeys li ri).1 (rounds subkeys li ri).0 ≡ (ri, li)
unfolding rounds
rounds-reverse [] li ri = refl
rounds-reverse (k ∷ subkeys) li ri =
    ap (λ ks. rounds ks end.1 end.0) (reverse-cons k subkeys)
    ∙ rounds-append (reverse subkeys) (k ∷ []) end.1 end.0
    ∙ ap (λ t. rounds (k ∷ []) t.0 t.1) (rounds-reverse subkeys ri mixed)
    ∙ ap (λ t. (ri, t)) (xor_cancel li (feistel ri k))
  where
    mixed : ℕ
    mixed = bit_xor li (feistel ri k)

    end : ℕ × ℕ
    end = rounds subkeys ri mixed

-- The halves of a word, and the word of two halves.
high_half : (x : ℕ) → x < 2 ^ 64 → bit_and x 0xFFFF_FFFF_0000_0000 ≡ x / 2 ^ 32 * 2 ^ 32
high_half x h =
    and_shift 32 x (2 ^ 32 - 1) ∙ ap (λ t. t * 2 ^ 32) (and_mask 32 (x / 2 ^ 32)) ∙ omega arith

low_half : (x : ℕ) → shl x 32 ≡ x % 2 ^ 32 * 2 ^ 32
low_half x = omega arith

join :
    (a b : ℕ) → a < 2 ^ 32 → b < 2 ^ 32 → bit_or (a * 2 ^ 32) (shr (b * 2 ^ 32) 32) ≡ a * 2 ^ 32 + b
join a b ha hb = ap (bit_or (a * 2 ^ 32)) back ∙ or_fields 32 a b hb
  where
    back : shr (b * 2 ^ 32) 32 ≡ b
    back = omega arith

-- Joined halves come apart again.
split_join :
    (l r : ℕ)
    → IsHalf l
    → IsHalf r
    → let x = bit_or r (shr l 32) in
      (x < 2 ^ 64) × (bit_and x 0xFFFF_FFFF_0000_0000 ≡ r) × (shl x 32 ≡ l)
split_join l r (a, el, ha) (b, er, hb) = (fits, high, low)
  where
    x : ℕ
    x = bit_or r (shr l 32)

    joined : x ≡ b * 2 ^ 32 + a
    joined = ap₂ (λ t u. bit_or t (shr u 32)) er el ∙ join b a hb ha

    fits : x < 2 ^ 64
    fits = omega (arith, joined)

    high : bit_and x 0xFFFF_FFFF_0000_0000 ≡ r
    high = high_half x fits ∙ omega (arith, joined)

    low : shl x 32 ≡ l
    low = low_half x ∙ omega (arith, joined)

-- A word's halves join to it.
join_split :
    (x : ℕ)
    → x < 2 ^ 64
    → IsHalf (bit_and x 0xFFFF_FFFF_0000_0000)
      × IsHalf (shl x 32)
      × (bit_or (bit_and x 0xFFFF_FFFF_0000_0000) (shr (shl x 32) 32) ≡ x)
join_split x h = (
  (x / 2 ^ 32, high_half x h, omega arith),
  (x % 2 ^ 32, low_half x, omega arith),
  ap₂ (λ t u. bit_or t (shr u 32)) (high_half x h) (low_half x)
      ∙ join (x / 2 ^ 32) (x % 2 ^ 32) (omega arith) (omega arith)
      ∙ omega arith,
)

-- The rounds and the exchange of the halves, between the permutations.
core : List ℕ → ℕ → ℕ
core subkeys x =
    let (li, ri) = rounds subkeys (bit_and x 0xFFFF_FFFF_0000_0000) (shl x 32) in
    bit_or ri (shr li 32)

core-reverse :
    (subkeys : List ℕ) (x : ℕ)
    → x < 2 ^ 64
    → (core subkeys x < 2 ^ 64) × (core (reverse subkeys) (core subkeys x) ≡ x)
unfolding core
core-reverse subkeys x h =
    let (hl, hr, whole) = join_split x h in
    let l = bit_and x 0xFFFF_FFFF_0000_0000 in
    let r = shl x 32 in
    let (el, er) = rounds-IsHalf subkeys l r hl hr in
    let (fits, high, low) = split_join (rounds subkeys l r).0 (rounds subkeys l r).1 el er in
    (
      fits,
      ap₂ (λ s t. swap_join (rounds (reverse subkeys) s t)) high low
          ∙ ap swap_join (rounds-reverse subkeys l r)
          ∙ whole,
    )
  where
    swap_join : ℕ × ℕ → ℕ
    swap_join t = bit_or t.1 (shr t.0 32)

-- Decryption of a block, with the subkeys reversed, undoes its encryption.
pub des_block-reverse :
    (subkeys : List ℕ) (block : ℕ)
    → block < 2 ^ 64
    → des_block (reverse subkeys) (des_block subkeys block) ≡ block
unfolding des_block core
des_block-reverse subkeys block h =
    let (fits, back) = core-reverse subkeys (ip block) (ip-lt block) in
    ap (λ t. fp (core (reverse subkeys) t)) (ip-fp (core subkeys (ip block)) fits)
    ∙ ap fp back
    ∙ fp-ip block h

pub des_block-lt : (subkeys : List ℕ) (block : ℕ) → des_block subkeys block < 2 ^ 64
unfolding des_block
des_block-lt subkeys block = fp-lt _
