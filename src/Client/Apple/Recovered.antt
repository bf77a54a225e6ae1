-- ===== src/Client/Apple/Recovered.antt =====
-- src/security/apple.rs: what a server recovers from the encrypted credentials.
use rust_vnc.Common.{
  ℕ, zero, suc, ◌+◌, ◌*◌, ◌-◌, List, [], ◌∷◌, ◌++◌, take, drop, length, replicate, arith, ◌≡◌, refl,
  sym, subst, ap, ◌∙◌, length-append, length-replicate, length-take, length-drop, take-append,
  drop-append, take-append-drop, append_assoc, drop_all, take_all,
}
use Prim.Native.Nat.{min}
use native.Mathlib.Omega.{min_cases}
use rust_vnc.Client.Apple.{Crypto, copy_at, credentials, encrypt_blocks, secret_key, apple_auth}
use rust_vnc.Protocol.Security.{AppleAuthHandshake}

module _ {ℓ} {A : Type ℓ} where
  drop-replicate : (n m : ℕ) (a : A) → drop n (replicate m a) ≡ replicate (m - n) a
  drop-replicate zero m a = ap (λ k. replicate k a) (omega arith)
  drop-replicate (suc n) zero a =
      let none_left : 0 ≡ 0 - suc n = omega arith in ap (λ k. replicate k a) none_left
  drop-replicate (suc n) (suc m) a =
      let less : suc m - suc n ≡ m - n = omega arith in rw less (drop-replicate n m a)

  replicate-add : (m n : ℕ) (a : A) → replicate (m + n) a ≡ replicate m a ++ replicate n a
  replicate-add zero n a = ap (λ k. replicate k a) (omega arith)
  replicate-add (suc m) n a =
      let more : suc m + n ≡ suc (m + n) = omega arith in rw more (ap (◌∷◌ a) (replicate-add m n a))

  drop_further : (xs ys : List A) (n : ℕ) → drop (length xs + n) (xs ++ ys) ≡ drop n ys
  drop_further [] ys n = ap (λ k. drop k ys) (omega arith)
  drop_further (x ∷ xs) ys n =
      let more : suc (length xs) + n ≡ suc (length xs + n) = omega arith in
      rw more (drop_further xs ys n)

  drop-drop : (m n : ℕ) (xs : List A) → drop (n + m) xs ≡ drop n (drop m xs)
  drop-drop zero n xs = ap (λ k. drop k xs) (omega arith)
  drop-drop (suc m) n [] = drop_all (n + suc m) [] (omega arith) ∙ sym (drop_all n [] (omega arith))
  drop-drop (suc m) n (x ∷ xs) =
      let more : n + suc m ≡ suc (n + m) = omega arith in rw more (drop-drop m n xs)

-- A slice is written right behind the first elements.
copy_behind :
    (xs from ys : List ℕ) (i : ℕ)
    → length xs ≡ i
    → copy_at i from (xs ++ ys) ≡ xs ++ (from ++ drop (length from) ys)
copy_behind xs from ys i h =
    rw (← h) (rw (take-append xs ys, drop_further xs ys (length from)) refl)

-- A string in its field of 64 bytes.
abbrev pub field : List ℕ → List ℕ
field s = take 64 s ++ replicate (64 - length s) 0

length-field : (s : List ℕ) → length (field s) ≡ 64
length-field s = omega (
  arith,
  length-append (take 64 s) (replicate (64 - length s) 0),
  length-take 64 s,
  length-replicate (64 - length s) zero,
)

take-min : (s : List ℕ) → take (min 64 (length s)) s ≡ take 64 s
take-min s =
    min_cases 64 (length s) (take (min 64 (length s)) s ≡ take 64 s) (λ h e. ap (λ k. take k s) e)
      λ h e. rw e (take_all (length s) s (omega arith) ∙ sym (take_all 64 s h))

-- The 128 bytes of the credentials are the two fields.
credentials_lem : (u p : List ℕ) → credentials u p ≡ field u ++ field p
unfolding credentials
credentials_lem u p =
    rw (take-min u, take-min p)
      (ap (copy_at 64 (take 64 p)) (copy_behind [] (take 64 u) (replicate 128 0) 0 refl ∙ first)
        ∙ (copy_behind (field u) (take 64 p) (replicate 64 0) 64 (length-field u)
            ∙ ap (λ f. field u ++ f) (rest p 64 refl)))
  where
    rest :
        (s : List ℕ) (k : ℕ)
        → k ≡ 64
        → take 64 s ++ drop (length (take 64 s)) (replicate k 0) ≡ field s
    rest s k h =
        ap (λ zeros. take 64 s ++ zeros)
          (drop-replicate (length (take 64 s)) k 0
            ∙ ap (λ n. replicate n 0) (omega (arith, length-take 64 s)))

    first : take 64 u ++ drop (length (take 64 u)) (replicate 128 0) ≡ field u ++ replicate 64 0
    first =
        ap (λ zeros. take 64 u ++ zeros)
          (drop-replicate (length (take 64 u)) 128 0
            ∙ (ap (λ n. replicate n 0) (omega (arith, length-take 64 u))
                ∙ replicate-add (64 - length u) 64 0))
        ∙ sym (append_assoc (take 64 u) (replicate (64 - length u) 0) (replicate 64 0))

-- The blocks of a text, each under a function.
abbrev pub by_blocks : (List ℕ → List ℕ) → (count : ℕ) → List ℕ → List ℕ
by_blocks f zero text = []
by_blocks f (suc count) text = f (take 16 text) ++ by_blocks f count (drop 16 text)

module _ (encrypt decrypt : List ℕ → List ℕ) (sixteen : (b : List ℕ) → length (encrypt b) ≡ 16)
    (inverse : (b : List ℕ) → length b ≡ 16 → decrypt (encrypt b) ≡ b) where
  encrypt_blocks_lem :
      (rounds i : ℕ) (text before zeros : List ℕ)
      → length before ≡ i * 16
      → length zeros ≡ rounds * 16
      → encrypt_blocks encrypt rounds i text (before ++ zeros)
        ≡ before ++ by_blocks encrypt rounds (drop (i * 16) text)
  unfolding encrypt_blocks
  encrypt_blocks_lem zero i text before [] h k = refl
  encrypt_blocks_lem zero i text before (z ∷ zeros) h k = absurd (omega arith)
  encrypt_blocks_lem (suc rounds) i text before zeros h k =
      let b : List ℕ = encrypt (take 16 (drop (i * 16) text)) in
      let count : length b ≡ 16 = sixteen (take 16 (drop (i * 16) text)) in
      let next : suc i * 16 ≡ 16 + i * 16 = omega arith in
      rw (copy_behind before b zeros (i * 16) h, ← append_assoc before b (drop (length b) zeros))
        (encrypt_blocks_lem rounds (suc i) text (before ++ b) (drop (length b) zeros)
            (omega (arith, length-append before b)) (omega (arith, length-drop (length b) zeros))
          ∙ (append_assoc before b (by_blocks encrypt rounds (drop (suc i * 16) text))
              ∙ ap (λ t. before ++ (b ++ by_blocks encrypt rounds t))
                  (ap (λ n. drop n text) next ∙ drop-drop (i * 16) 16 text)))

  decrypt_blocks_lem :
      (count : ℕ) (text : List ℕ)
      → length text ≡ count * 16
      → by_blocks decrypt count (by_blocks encrypt count text) ≡ text
  decrypt_blocks_lem zero [] h = refl
  decrypt_blocks_lem zero (b ∷ text) h = absurd (omega arith)
  decrypt_blocks_lem (suc count) text h =
      let later : List ℕ = by_blocks encrypt count (drop 16 text) in
      let block : length (encrypt (take 16 text)) ≡ 16 = sixteen (take 16 text) in
      rw
        (
          subst (λ n. take n (encrypt (take 16 text) ++ later) ≡ encrypt (take 16 text)) block
              (take-append (encrypt (take 16 text)) later),
          subst (λ n. drop n (encrypt (take 16 text) ++ later) ≡ later) block
              (drop-append (encrypt (take 16 text)) later),
          inverse (take 16 text) (omega (arith, length-take 16 text)),
          decrypt_blocks_lem count (drop 16 text) (omega (arith, length-drop 16 text)),
        )
        (take-append-drop 16 text)

-- A server that shares the key decrypts the response, block by block, to the user's name and the
-- password as bytes, each cut to 64 bytes or with zeros up to 64 behind it. AES encrypts blocks of
-- 16 bytes to such blocks, and decryption under the same key undoes that.
pub apple_auth-decrypts :
    {P : Type 0} (crypto : Crypto P) (utf8 : List ℕ → List ℕ)
    (decrypt_block : (secret block : List ℕ) → List ℕ) (username password : List ℕ)
    (handshake : AppleAuthHandshake)
    → ((secret block : List ℕ) → length (crypto.encrypt_block secret block) ≡ 16)
    → ((secret block : List ℕ)
        → length block ≡ 16
        → decrypt_block secret (crypto.encrypt_block secret block) ≡ block)
    → by_blocks
        (decrypt_block (
          secret_key crypto utf8
            (crypto.private_key handshake.prime handshake.generator)
            handshake))
        8
        (apple_auth crypto utf8 username password handshake).ciphertext
      ≡ field (utf8 username) ++ field (utf8 password)
unfolding apple_auth
apple_auth-decrypts crypto utf8 decrypt_block username password handshake sixteen inverse =
    let secret : List ℕ =
      secret_key crypto utf8 (crypto.private_key handshake.prime handshake.generator) handshake in
    let text : List ℕ = credentials (utf8 username) (utf8 password) in
    rw
      (encrypt_blocks_lem (crypto.encrypt_block secret) (decrypt_block secret) (sixteen secret)
        (inverse secret) 8 0 text [] (replicate 128 0) refl (length-replicate 128 zero))
      (decrypt_blocks_lem (crypto.encrypt_block secret) (decrypt_block secret) (sixteen secret)
          (inverse secret) 8 text (whole text (credentials_lem (utf8 username) (utf8 password)))
        ∙ credentials_lem (utf8 username) (utf8 password))
  where
    whole :
        (text : List ℕ)
        → text ≡ field (utf8 username) ++ field (utf8 password)
        → length text ≡ 8 * 16
    whole text e = omega (
      arith,
      ap length e,
      length-append (field (utf8 username)) (field (utf8 password)),
      length-field (utf8 username),
      length-field (utf8 password),
    )
