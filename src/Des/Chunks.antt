-- ===== src/Des/Chunks.antt =====
-- src/security/des.rs: a message cut into chunks of eight bytes, the last filled up with zeros.
use rust_vnc.Common.{ℕ, zero, suc, ◌+◌, ◌-◌, ◌*◌, ◌%◌, ◌≤◌, ◌<◌, List, [], ◌∷◌, ◌++◌, map}
use rust_vnc.Common.{◌≡◌, refl, ap, ap₂, sym, ◌∙◌, arith, length, All, take, drop, replicate}
use rust_vnc.Common.{
  length-append, length-replicate, take-append-drop, length-drop, length-take, take_all, drop_all,
}
use rust_vnc.Common.{
  take-append, drop-append, All-append, All-replicate, All-take, All-drop, append_assoc, append-nil,
}
use rust_vnc.Common.{leb, Bool-cases, inl, inr}
use rust_vnc.Des.{to_key, chunk_loop, chunks}
use rust_vnc.Des.Bytes.{AreBytes}

to_key-AreBytes : (slice : List ℕ) → AreBytes slice → AreBytes (to_key slice)
unfolding to_key
to_key-AreBytes slice h =
    All-append _ slice _ h (All-replicate _ (8 - length slice) 0 (omega arith))

length-to_key : (slice : List ℕ) → length slice ≤ 8 → length (to_key slice) ≡ 8
unfolding to_key
length-to_key slice h =
    length-append slice (replicate (8 - length slice) 0)
    ∙ ap (λ n. length slice + n) (length-replicate (8 - length slice) (let z : ℕ = 0 in z))
    ∙ omega arith

pub to_key_whole : (slice : List ℕ) → length slice ≡ 8 → to_key slice ≡ slice
unfolding to_key
to_key_whole slice h = rw h (append-nil slice)

unfoldable pub concat : List (List ℕ) → List ℕ
concat [] = []
concat (c ∷ cs) = c ++ concat cs

chunk_loop-nil : (fuel : ℕ) → chunk_loop fuel [] ≡ []
unfolding chunk_loop
chunk_loop-nil zero = refl
chunk_loop-nil (suc fuel) = refl

-- One chunk of a message that is not empty.
chunk_loop_step :
    (fuel : ℕ) (bytes : List ℕ)
    → 0 < length bytes
    → chunk_loop (suc fuel) bytes ≡ take 8 bytes ∷ chunk_loop fuel (drop 8 bytes)
unfolding chunk_loop
chunk_loop_step fuel [] h = absurd (omega arith)
chunk_loop_step fuel (b ∷ bytes) h = refl

-- Chunks of eight bytes, written one after the other, are found again.
chunk_loop-concat :
    (cs : List (List ℕ)) (fuel : ℕ)
    → All (λ c. length c ≡ 8) cs
    → length (concat cs) ≤ fuel
    → chunk_loop fuel (concat cs) ≡ cs
unfolding concat
chunk_loop-concat [] fuel h enough = chunk_loop-nil fuel
chunk_loop-concat (c ∷ cs) zero h enough = absurd (omega (arith, h.0, length-append c (concat cs)))
chunk_loop-concat (c ∷ cs) (suc fuel) h enough =
    chunk_loop_step fuel (c ++ concat cs) (omega (arith, h.0, length-append c (concat cs)))
    ∙ ap₂ ◌∷◌ front (
        ap (chunk_loop fuel) back
        ∙ chunk_loop-concat cs fuel h.1 (omega (arith, h.0, length-append c (concat cs))))
  where
    front : take 8 (c ++ concat cs) ≡ c
    front = ap (λ n. take n (c ++ concat cs)) (sym h.0) ∙ take-append c (concat cs)

    back : drop 8 (c ++ concat cs) ≡ concat cs
    back = ap (λ n. drop n (c ++ concat cs)) (sym h.0) ∙ drop-append c (concat cs)

pub chunks-concat : (cs : List (List ℕ)) → All (λ c. length c ≡ 8) cs → chunks (concat cs) ≡ cs
unfolding chunks
chunks-concat cs h = chunk_loop-concat cs (length (concat cs)) h (omega arith)

-- A message filled up with zeros to whole blocks.
abbrev pub padded : List ℕ → List ℕ
padded message = message ++ replicate ((8 - length message % 8) % 8) 0

padded_short : (m : List ℕ) → 0 < length m → length m ≤ 8 → to_key m ≡ padded m
unfolding to_key
padded_short m pos h =
    ap (λ n. m ++ replicate n 0) (let e : 8 - length m ≡ (8 - length m % 8) % 8 = omega arith in e)

padded_long : (m : List ℕ) → 8 ≤ length m → take 8 m ++ padded (drop 8 m) ≡ padded m
padded_long m h =
    sym (append_assoc (take 8 m) (drop 8 m) (replicate ((8 - length (drop 8 m) % 8) % 8) 0))
    ∙ ap₂ (λ s n. s ++ replicate n 0) (take-append-drop 8 m) same
  where
    same : (8 - length (drop 8 m) % 8) % 8 ≡ (8 - length m % 8) % 8
    same = omega (arith, length-drop 8 m)

padded_step :
    (bytes behind : List ℕ)
    → 0 < length bytes
    → behind ≡ padded (drop 8 bytes)
    → to_key (take 8 bytes) ++ behind ≡ padded bytes
padded_step bytes behind pos rest = elim (Bool-cases (leb (length bytes) 8)) [
  | inl short ↦
      let few : length bytes ≤ 8 = ground arith in
      ap₂ ◌++◌ (ap to_key (take_all 8 bytes few)) (rest ∙ ap padded (drop_all 8 bytes few))
      ∙ append-nil (to_key bytes)
      ∙ padded_short bytes pos few
  | inr long ↦
      let many : 8 ≤ length bytes = ground arith in
      ap₂ ◌++◌ (to_key_whole (take 8 bytes) (length-take 8 bytes ∙ omega arith)) rest
      ∙ padded_long bytes many
]

concat-chunk_loop :
    (fuel : ℕ) (m : List ℕ) → length m ≤ fuel → concat (map to_key (chunk_loop fuel m)) ≡ padded m
unfolding concat
concat-chunk_loop fuel [] h = ap (λ cs. concat (map to_key cs)) (chunk_loop-nil fuel)
concat-chunk_loop zero (b ∷ m) h = absurd (omega arith)
concat-chunk_loop (suc fuel) (b ∷ m) h =
    ap (λ cs. concat (map to_key cs)) (chunk_loop_step fuel (b ∷ m) (omega arith))
    ∙ padded_step (b ∷ m) (concat (map to_key (chunk_loop fuel (drop 8 (b ∷ m))))) (omega arith)
        (concat-chunk_loop fuel (drop 8 (b ∷ m)) (omega (arith, length-drop 8 (b ∷ m))))

-- The chunks of a message, filled up, are the message filled up.
pub concat-chunks : (m : List ℕ) → concat (map to_key (chunks m)) ≡ padded m
unfolding chunks
concat-chunks m = concat-chunk_loop (length m) m (omega arith)

-- A block as `to_key` makes it.
abbrev pub IsBlock : List ℕ → Type 0
IsBlock c = AreBytes c × (length c ≡ 8)

to_key-IsBlock : (slice : List ℕ) → AreBytes slice → length slice ≤ 8 → IsBlock (to_key slice)
to_key-IsBlock slice h k = (to_key-AreBytes slice h, length-to_key slice k)

chunk_loop-IsBlock :
    (fuel : ℕ) (m : List ℕ) → AreBytes m → All IsBlock (map to_key (chunk_loop fuel m))
unfolding chunk_loop
chunk_loop-IsBlock zero m h = tt
chunk_loop-IsBlock (suc fuel) [] h = tt
chunk_loop-IsBlock (suc fuel) (b ∷ m) h = (
  to_key-IsBlock (take 8 (b ∷ m)) (All-take _ 8 (b ∷ m) h) (omega (arith, length-take 8 (b ∷ m))),
  chunk_loop-IsBlock fuel (drop 8 (b ∷ m)) (All-drop _ 8 (b ∷ m) h),
)

pub chunks-IsBlock : (m : List ℕ) → AreBytes m → All IsBlock (map to_key (chunks m))
unfolding chunks
chunks-IsBlock m h = chunk_loop-IsBlock (length m) m h

pub length-concat :
    (cs : List (List ℕ)) → All (λ c. length c ≡ 8) cs → length (concat cs) ≡ 8 * length cs
unfolding concat
length-concat [] h = omega arith
length-concat (c ∷ cs) h = omega (arith, h.0, length-append c (concat cs), length-concat cs h.1)
