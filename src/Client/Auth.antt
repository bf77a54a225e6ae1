-- ===== src/Client/Auth.antt =====
-- src/client.rs: the authentication methods, the caller's choice among them, and the key that a
-- password gives.
use rust_vnc.Common.{ℕ, zero, suc, ◌-◌, ◌*◌, ◌/◌, ◌^◌, List, [], ◌∷◌, map, bit_and, bit_or}
use rust_vnc.Protocol.Security.{SecurityType, unknown, invalid, vnc_authentication}

pub data AuthMethod : Type 0 where
  none password apple_remote_desktop : AuthMethod

-- The password is an array of eight bytes.
pub data AuthChoice : Type 0 where
  none : AuthChoice
  password : List ℕ → AuthChoice
  apple_remote_desktop : (username secret : List ℕ) → AuthChoice

-- The loop that collects the methods for the security types that the client knows.
unfoldable pub auth_methods : List SecurityType → List AuthMethod
auth_methods [] = []
auth_methods (SecurityType.none ∷ types) = AuthMethod.none ∷ auth_methods types
auth_methods (vnc_authentication ∷ types) = AuthMethod.password ∷ auth_methods types
auth_methods (SecurityType.apple_remote_desktop ∷ types) =
    AuthMethod.apple_remote_desktop ∷ auth_methods types
auth_methods (unknown n ∷ types) = auth_methods types
auth_methods (invalid ∷ types) = auth_methods types

unfoldable pub used_security_type : AuthChoice → SecurityType
used_security_type AuthChoice.none = SecurityType.none
used_security_type (AuthChoice.password key) = vnc_authentication
used_security_type (AuthChoice.apple_remote_desktop username secret) =
    SecurityType.apple_remote_desktop

-- The inner loop over the bits of a byte, with `rounds` to go from bit `j` on.
unfoldable pub reverse_loop : ℕ → ℕ → ℕ → ℕ → ℕ
reverse_loop zero j c cs = cs
reverse_loop (suc rounds) j c cs =
    reverse_loop rounds (suc j) c (bit_or cs (bit_and (c / 2 ^ j) 1 * 2 ^ (7 - j)))

unfoldable pub reverse_bits : ℕ → ℕ
unfolding reverse_loop
reverse_bits c = reverse_loop 8 0 c 0

-- The loop over the eight bytes of a password.
unfoldable pub password_key : List ℕ → List ℕ
unfolding reverse_bits
password_key secret = map reverse_bits secret
