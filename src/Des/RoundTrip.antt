-- ===== src/Des/RoundTrip.antt =====
-- src/security/des.rs: `decrypt` undoes `encrypt`.
use rust_vnc.Common.{ℕ, ◌+◌, ◌-◌, ◌*◌, ◌/◌, ◌%◌, ◌<◌, List, [], ◌∷◌, ◌++◌, map}
use rust_vnc.Common.{
  ◌≡◌, refl, ap, ap₂, sym, ◌∙◌, arith, length, All, replicate, append_assoc, append-nil,
}
use rust_vnc.Common.{length-map, length-append, length-replicate}
use rust_vnc.Des.{
  key_to_u64, to_u8_vec, to_key, chunks, message_to_u64s, block_loop, des_block, des,
}
use rust_vnc.Des.{compute_subkeys, encrypt, decrypt}
use rust_vnc.Des.Bytes.{
  AreBytes, key_to_u64-lt, to_u8_vec-AreBytes, key_to_u64-to_u8_vec, to_u8_vec-key_to_u64,
}
use rust_vnc.Des.Chunks.{
  concat, length-concat, chunks-concat, padded, concat-chunks, IsBlock, chunks-IsBlock,
  to_key_whole,
}
use rust_vnc.Des.Feistel.{des_block-reverse, des_block-lt}
use mathlib.Core.List.{reverse}

-- What the loop over the blocks appends to `cipher`.
abbrev written : List ℕ → List ℕ → List (List ℕ)
written subkeys blocks = map (λ b. to_u8_vec (des_block subkeys b)) blocks

block_loop-concat :
    (subkeys cipher blocks : List ℕ)
    → block_loop subkeys cipher blocks ≡ cipher ++ concat (written subkeys blocks)
unfolding block_loop concat
block_loop-concat subkeys cipher [] = sym (append-nil cipher)
block_loop-concat subkeys cipher (b ∷ blocks) =
    block_loop-concat subkeys (cipher ++ to_u8_vec (des_block subkeys b)) blocks
    ∙ append_assoc cipher (to_u8_vec (des_block subkeys b)) (concat (written subkeys blocks))

des-concat :
    (message subkeys : List ℕ)
    → des message subkeys ≡ concat (written subkeys (message_to_u64s message))
unfolding des
des-concat message subkeys = block_loop-concat subkeys [] (message_to_u64s message)

written-length : (subkeys blocks : List ℕ) → All (λ c. length c ≡ 8) (written subkeys blocks)
written-length subkeys [] = tt
written-length subkeys (b ∷ blocks) = ((to_u8_vec-AreBytes _).1, written-length subkeys blocks)

-- The blocks of what was written are the blocks that were enciphered.
reread :
    (subkeys blocks : List ℕ)
    → map (λ c. key_to_u64 (to_key c)) (written subkeys blocks) ≡ map (des_block subkeys) blocks
reread subkeys [] = refl
reread subkeys (b ∷ blocks) =
    ap₂ ◌∷◌
      (ap key_to_u64 (to_key_whole _ (to_u8_vec-AreBytes (des_block subkeys b)).1)
        ∙ key_to_u64-to_u8_vec _ (des_block-lt subkeys b))
      (reread subkeys blocks)

message_to_u64s-des :
    (message subkeys : List ℕ)
    → message_to_u64s (des message subkeys) ≡ map (des_block subkeys) (message_to_u64s message)
unfolding message_to_u64s
message_to_u64s-des message subkeys =
    ap (λ m. map (λ c. key_to_u64 (to_key c)) (chunks m)) (des-concat message subkeys)
    ∙ ap (map (λ c. key_to_u64 (to_key c))) (chunks-concat _ (written-length subkeys blocks))
    ∙ reread subkeys blocks
  where
    blocks : List ℕ
    blocks = map (λ c. key_to_u64 (to_key c)) (chunks message)

-- Enciphering the chunks `cs` forth and back leaves them filled up.
forth_and_back :
    (subkeys : List ℕ) (cs : List (List ℕ))
    → All IsBlock (map to_key cs)
    → concat
        (written (reverse subkeys) (map (des_block subkeys) (map (λ c. key_to_u64 (to_key c)) cs)))
      ≡ concat (map to_key cs)
unfolding concat
forth_and_back subkeys [] h = refl
forth_and_back subkeys (c ∷ cs) h =
    ap₂ ◌++◌
      (ap to_u8_vec (des_block-reverse subkeys (key_to_u64 (to_key c)) (key_to_u64-lt (to_key c)))
        ∙ to_u8_vec-key_to_u64 (to_key c) h.0.0 h.0.1)
      (forth_and_back subkeys cs h.1)

-- Decryption with the subkeys reversed gives back the message, filled up with zeros.
pub des-reverse :
    (message subkeys : List ℕ)
    → AreBytes message
    → des (des message subkeys) (reverse subkeys) ≡ padded message
des-reverse message subkeys h =
    des-concat (des message subkeys) (reverse subkeys)
    ∙ ap (λ bs. concat (written (reverse subkeys) bs)) (message_to_u64s-des message subkeys)
    ∙ unfold message_to_u64s in
      forth_and_back subkeys (chunks message) (chunks-IsBlock message h) ∙ concat-chunks message

-- Decrypting what was encrypted under the same key gives the message, with zeros added up to a
-- whole number of eight-byte blocks.
pub decrypt-encrypt :
    (message key : List ℕ)
    → All (λ b. b < 256) message
    → decrypt (encrypt message key) key ≡ message ++ replicate ((8 - length message % 8) % 8) 0
unfolding encrypt decrypt
decrypt-encrypt message key h = des-reverse message (compute_subkeys (key_to_u64 key)) h

IsBlock-length : (cs : List (List ℕ)) → All IsBlock cs → All (λ c. length c ≡ 8) cs
IsBlock-length [] h = tt
IsBlock-length (c ∷ cs) h = (h.0.1, IsBlock-length cs h.1)

-- A cipher text is as long as its message, rounded up to whole blocks of eight bytes.
pub length-encrypt :
    (message key : List ℕ)
    → All (λ b. b < 256) message
    → length (encrypt message key) ≡ (length message + 7) / 8 * 8
unfolding encrypt message_to_u64s
length-encrypt message key h =
    ap length (des-concat message subkeys)
    ∙ length-concat _ (written-length subkeys (message_to_u64s message))
    ∙ omega (arith, counted, total)
  where
    subkeys : List ℕ
    subkeys = compute_subkeys (key_to_u64 key)

    blocks : List (List ℕ)
    blocks = map to_key (chunks message)

    counted : length (written subkeys (message_to_u64s message)) ≡ length blocks
    counted =
        length-map (message_to_u64s message) _
        ∙ length-map (chunks message) _
        ∙ sym (length-map (chunks message) to_key)

    total : 8 * length blocks ≡ length message + (8 - length message % 8) % 8
    total =
        sym (length-concat blocks (IsBlock-length blocks (chunks-IsBlock message h)))
        ∙ ap length (concat-chunks message)
        ∙ length-append message _
        ∙ ap (λ n. length message + n) (length-replicate _ (let z : ℕ = 0 in z))
