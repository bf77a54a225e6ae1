-- ===== src/Des/Permute/Parity.antt =====
-- src/security/des.rs: the lowest bit of a key's byte takes no part in the cipher.
use rust_vnc.Common.{ℕ, zero, suc, ◌+◌, ◌*◌, ◌/◌, ◌%◌, ◌^◌, ◌<◌, List, [], ◌∷◌, ◌++◌, map}
use rust_vnc.Common.{◌≡◌, refl, ap, ap₂, sym, ◌∙◌, arith, length, All}
use rust_vnc.Des.{key_to_u64, key_loop_u64, pc1, compute_subkeys, encrypt, des, pc2, key_loop}
use rust_vnc.Des.Tables.{pc1_table, shift_table}
use rust_vnc.Des.Permute.{to_bits, from_bits, pick, pow-add, to_bits_above}
use rust_vnc.Des.Permute.Swap.{swap_bits-from_bits}
use native.Mathlib.Nat.{one-le-pow, add-mul-div_right, div-eq_of_lt, div-div-eq-div-mul}

-- The bits of a word of two fields are those of the fields.
to_bits-append :
    (m k q r : ℕ) → r < 2 ^ k → to_bits (m + k) (q * 2 ^ k + r) ≡ to_bits m q ++ to_bits k r
unfolding to_bits
to_bits-append zero k q r h =
    let e : 0 + k ≡ k = omega arith in ap (λ n. to_bits n (q * 2 ^ k + r)) e ∙ to_bits_above k q r
to_bits-append (suc m) k q r h =
    ap (λ n. to_bits n x) (let e : suc m + k ≡ suc (m + k) = omega arith in e)
    ∙ ap₂ ◌∷◌ (ap (λ t. t % 2) top) (to_bits-append m k q r h)
  where
    x : ℕ
    x = q * 2 ^ k + r

    field : x / 2 ^ k ≡ q
    field =
        ap (λ t. t / 2 ^ k) (let e : x ≡ r + q * 2 ^ k = omega arith in e)
        ∙ omega (arith, add-mul-div_right r q (one-le-pow k 2 (omega arith)), div-eq_of_lt h)

    top : x / 2 ^ (m + k) ≡ q / 2 ^ m
    top =
        ap (λ t. x / t) (pow-add m k ∙ let e : 2 ^ m * 2 ^ k ≡ 2 ^ k * 2 ^ m = omega arith in e)
        ∙ sym (div-div-eq-div-mul x (2 ^ k) (2 ^ m))
        ∙ ap (λ t. t / 2 ^ m) field

-- A byte as its upper seven bits and its lowest.
byte_bits : ℕ → ℕ → List ℕ
byte_bits upper low = to_bits 7 upper ++ to_bits 1 low

byte_bits_lem : (b : ℕ) → to_bits 8 b ≡ byte_bits (b / 2) (b % 2)
unfolding byte_bits
byte_bits_lem b =
    ap (to_bits 8) (let e : b ≡ b / 2 * 2 ^ 1 + b % 2 = omega arith in e)
    ∙ to_bits-append 7 1 (b / 2) (b % 2) (omega arith)

-- Eight bytes, each given by its two parts.
key_bits : (a b c d e f g h : ℕ × ℕ) → List ℕ
key_bits a b c d e f g h =
    byte_bits a.0 a.1
    ++ byte_bits b.0 b.1
    ++ byte_bits c.0 c.1
    ++ byte_bits d.0 d.1
    ++ byte_bits e.0 e.1
    ++ byte_bits f.0 f.1
    ++ byte_bits g.0 g.1
    ++ byte_bits h.0 h.1

abbrev parts : ℕ → ℕ × ℕ
parts b = (b / 2, b % 2)

-- One byte more at the low end of a word of `k` bits.
push_byte :
    (k x b : ℕ) {bits : List ℕ}
    → b < 256
    → to_bits k x ≡ bits
    → to_bits (k + 8) (x * 2 ^ 8 + b) ≡ bits ++ byte_bits (b / 2) (b % 2)
push_byte k x b h e = to_bits-append k 8 x b h ∙ ap₂ ◌++◌ e (byte_bits_lem b)

abbrev AreBytes : List ℕ → Type 0
AreBytes bytes = All (λ b. b < 256) bytes

key_bits_lem :
    (a b c d e f g h : ℕ)
    → AreBytes (a ∷ b ∷ c ∷ d ∷ e ∷ f ∷ g ∷ h ∷ [])
    → to_bits 64 (key_to_u64 (a ∷ b ∷ c ∷ d ∷ e ∷ f ∷ g ∷ h ∷ []))
      ≡ key_bits (parts a) (parts b) (parts c) (parts d) (parts e) (parts f) (parts g) (parts h)
unfolding key_bits key_to_u64 key_loop_u64
key_bits_lem a b c d e f g h bytes =
    ap (to_bits 64) value
    ∙ push_byte 56 _ h (omega arith) (
        push_byte 48 _ g (omega arith) (
          push_byte 40 _ f (omega arith) (
            push_byte 32 _ e (omega arith) (
              push_byte 24 _ d (omega arith) (
                push_byte 16 _ c (omega arith)
                  (push_byte 8 _ b (omega arith) (byte_bits_lem a)))))))
  where
    value :
        key_to_u64 (a ∷ b ∷ c ∷ d ∷ e ∷ f ∷ g ∷ h ∷ [])
        ≡ ((((((a * 2 ^ 8 + b) * 2 ^ 8 + c) * 2 ^ 8 + d) * 2 ^ 8 + e) * 2 ^ 8 + f) * 2 ^ 8 + g)
            * 2 ^ 8
          + h
    value = omega arith

-- PC-1 selects no lowest bit.
pc1_skips :
    (a b c d e f g h : ℕ × ℕ) (i j k l m n o q : ℕ)
    → pick (key_bits a b c d e f g h) pc1_table
      ≡ pick
          (key_bits (a.0, i) (b.0, j) (c.0, k) (d.0, l) (e.0, m) (f.0, n) (g.0, o) (h.0, q))
          pc1_table
unfolding key_bits byte_bits to_bits
pc1_skips a b c d e f g h i j k l m n o q = refl

-- What PC-1 makes of a key, from the upper bits of its bytes alone.
pc1_of_upper : List ℕ → ℕ
pc1_of_upper (a ∷ b ∷ c ∷ d ∷ e ∷ f ∷ g ∷ h ∷ []) =
    let bits = key_bits (a, 0) (b, 0) (c, 0) (d, 0) (e, 0) (f, 0) (g, 0) (h, 0) in
    from_bits (pick bits pc1_table) * 2 ^ 8
pc1_of_upper _ = 0

pc1-key_to_u64 :
    (key : List ℕ)
    → AreBytes key
    → length key ≡ 8
    → pc1 (key_to_u64 key) ≡ pc1_of_upper (map (λ b. b / 2) key)
unfolding pc1 pc1_of_upper
pc1-key_to_u64 (a ∷ b ∷ c ∷ d ∷ e ∷ f ∷ g ∷ h ∷ []) bytes len =
    swap_bits-from_bits _ pc1_table (omega arith) (omega arith)
    ∙ ap (λ bits. from_bits (pick bits pc1_table) * 2 ^ 8) (key_bits_lem a b c d e f g h bytes)
    ∙ ap (λ picked. from_bits picked * 2 ^ 8)
        (pc1_skips (parts a) (parts b) (parts c) (parts d) (parts e) (parts f) (parts g) (parts h) 0
          0 0 0 0 0 0 0)
pc1-key_to_u64 _ bytes len = absurd (omega arith)

-- Keys of eight bytes that differ in the lowest bits of their bytes alone encrypt alike.
pub encrypt-parity :
    (message key key' : List ℕ)
    → All (λ b. b < 256) key
    → All (λ b. b < 256) key'
    → length key ≡ 8
    → length key' ≡ 8
    → map (λ b. b / 2) key ≡ map (λ b. b / 2) key'
    → encrypt message key ≡ encrypt message key'
unfolding encrypt compute_subkeys
encrypt-parity message key key' bytes bytes' len len' same =
    ap (λ k. des message (map pc2 (key_loop k shift_table)))
      (pc1-key_to_u64 key bytes len ∙ ap pc1_of_upper same ∙ sym (pc1-key_to_u64 key' bytes' len'))
