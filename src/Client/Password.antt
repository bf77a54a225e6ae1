-- ===== src/Client/Password.antt =====
-- src/client.rs: the reversal of the bits of a password, and what it means for the key of DES.
use rust_vnc.Common.{ℕ, ◌/◌, ◌%◌, ◌<◌, List, [], ◌∷◌, map, ◌≡◌, refl, ap, ap₂, sym, ◌∙◌}
use rust_vnc.Common.{
  arith, length, All, Bool, true, ◌==◌, ◌&&◌, ltb, passes_below, passes_below→test, length-map,
}
use rust_vnc.Wire.Session.{Stream, ◌>>=◌, receive, send}
use rust_vnc.Wire.{read_exact}
use mathlib.Core.Path.{fun_ext}
use rust_vnc.Client.Auth.{AuthChoice, reverse_bits, password_key}
use rust_vnc.Client.Handshake.{AppleAuth, authenticate}
use rust_vnc.Des.{encrypt}
use rust_vnc.Des.Permute.Parity.{encrypt-parity}

abbrev good_byte : ℕ → Bool
good_byte b =
    ltb (reverse_bits b) 256
    && (reverse_bits (reverse_bits b) == b)
    && (reverse_bits b / 2 == reverse_bits (b % 128) / 2)

bytes_are_good : passes_below 256 good_byte ≡ true
unfolding passes_below reverse_bits
bytes_are_good = refl

reverse_bits_table :
    (b : ℕ)
    → b < 256
    → (reverse_bits b < 256)
      × (reverse_bits (reverse_bits b) ≡ b)
      × (reverse_bits b / 2 ≡ reverse_bits (b % 128) / 2)
reverse_bits_table b h = ground (arith, passes_below→test 256 good_byte bytes_are_good b h)

-- Reversing the bits of a byte twice gives the byte.
pub reverse_bits_twice : (b : ℕ) → b < 256 → reverse_bits (reverse_bits b) ≡ b
reverse_bits_twice b h = (reverse_bits_table b h).1

password_key-AreBytes :
    (password : List ℕ) → All (λ b. b < 256) password → All (λ b. b < 256) (password_key password)
unfolding password_key
password_key-AreBytes [] h = tt
password_key-AreBytes (b ∷ password) h =
    ((reverse_bits_table b h.0).0, password_key-AreBytes password h.1)

password_key_upper :
    (password : List ℕ)
    → All (λ b. b < 256) password
    → map (λ b. b / 2) (password_key password)
      ≡ map (λ b. reverse_bits b / 2) (map (λ b. b % 128) password)
unfolding password_key
password_key_upper [] h = refl
password_key_upper (b ∷ password) h =
    ap₂ ◌∷◌ (reverse_bits_table b h.0).2 (password_key_upper password h.1)

length-password_key : (password : List ℕ) → length (password_key password) ≡ length password
unfolding password_key
length-password_key password = length-map password reverse_bits

-- Passwords of eight bytes that agree in the lower seven bits of each byte are answered alike: the
-- key of DES counts every bit of an ASCII password.
pub authenticate-ascii :
    (apple : AppleAuth) (password password' : List ℕ) (s : Stream)
    → All (λ b. b < 256) password
    → All (λ b. b < 256) password'
    → length password ≡ 8
    → length password' ≡ 8
    → map (λ b. b % 128) password ≡ map (λ b. b % 128) password'
    → authenticate apple (AuthChoice.password password) s
      ≡ authenticate apple (AuthChoice.password password') s
unfolding authenticate
authenticate-ascii apple password password' s bytes bytes' len len' same =
    ap
      (λ (answer : List ℕ → List ℕ).
        (receive (read_exact 16) >>= (λ challenge. send (answer challenge))) s)
      (fun_ext same_answer)
  where
    same_answer :
        (challenge : List ℕ)
        → encrypt challenge (password_key password) ≡ encrypt challenge (password_key password')
    same_answer challenge =
        encrypt-parity challenge (password_key password) (password_key password')
          (password_key-AreBytes password bytes) (password_key-AreBytes password' bytes')
          (length-password_key password ∙ len) (length-password_key password' ∙ len')
          (password_key_upper password bytes
            ∙ ap (map (λ b. reverse_bits b / 2)) same
            ∙ sym (password_key_upper password' bytes'))
