-- ===== src/Viewer/Choice.antt =====
-- client/main.rs: what the program chooses of a server's offer, and the key of its password.
use rust_vnc.Common.{
  ℕ, List, [], ◌∷◌, ◌++◌, ◌≡◌, ◌⊎◌, inl, inr, refl, Option, none, some, take, replicate,
}
use rust_vnc.Protocol.Security.{SecurityType, unknown, invalid, vnc_authentication}
use rust_vnc.Client.Auth.{AuthChoice, auth_methods, used_security_type}
use rust_vnc.Viewer.{set_elem, key_loop, password_bytes, choose, choose_password, choose_apple}

-- The type is one of the list.
abbrev pub Offers : List SecurityType → SecurityType → Type 0
Offers [] t = ⊥
Offers (u ∷ types) t = (u ≡ t) ⊎ Offers types t

-- What a choice needs of an offer: nothing, where there is none.
abbrev pub Answers : List SecurityType → Option AuthChoice → Type 0
Answers types none = Unit {0}
Answers types (some choice) = Offers types (used_security_type choice)

later-Answers :
    (u : SecurityType) (types : List SecurityType) (c : Option AuthChoice)
    → Answers types c
    → Answers (u ∷ types) c
later-Answers u types none h = tt
later-Answers u types (some choice) h = inr h

password-Answers :
    (utf8 : List ℕ → List ℕ) (types : List SecurityType) (password : Option (List ℕ))
    → Answers (vnc_authentication ∷ types) (choose_password utf8 password)
unfolding used_security_type
password-Answers utf8 types none = tt
password-Answers utf8 types (some secret) = inl refl

apple-Answers :
    (types : List SecurityType) (username password : Option (List ℕ)) (later : Option AuthChoice)
    → Answers (SecurityType.apple_remote_desktop ∷ types) later
    → Answers (SecurityType.apple_remote_desktop ∷ types) (choose_apple username password later)
unfolding used_security_type
apple-Answers types (some name) (some secret) later h = inl refl
apple-Answers types (some name) none later h = h
apple-Answers types none password later h = h

module _ (utf8 : List ℕ → List ℕ) (username password : Option (List ℕ)) where
  -- Whatever types a server offers and whatever the program was given, the type that its choice
  -- stands for is one of those offered.
  pub choose-Answers :
      (types : List SecurityType)
      → Answers types (choose utf8 username password (auth_methods types))
  unfolding choose auth_methods used_security_type
  choose-Answers [] = tt
  choose-Answers (SecurityType.none ∷ types) = inl refl
  choose-Answers (vnc_authentication ∷ types) = password-Answers utf8 types password
  choose-Answers (SecurityType.apple_remote_desktop ∷ types) =
      apple-Answers types username password (choose utf8 username password (auth_methods types)) (
        later-Answers SecurityType.apple_remote_desktop types
          (choose utf8 username password (auth_methods types)) (choose-Answers types))
  choose-Answers (unknown n ∷ types) =
      later-Answers (unknown n) types (choose utf8 username password (auth_methods types))
        (choose-Answers types)
  choose-Answers (invalid ∷ types) =
      later-Answers invalid types (choose utf8 username password (auth_methods types))
        (choose-Answers types)

-- The key of a password is its first eight bytes, with zeros behind a shorter one.
pub password_bytes_lem : (bytes : List ℕ) → password_bytes bytes ≡ take 8 (bytes ++ replicate 8 0)
unfolding password_bytes key_loop set_elem
password_bytes_lem [] = refl
password_bytes_lem (a ∷ []) = refl
password_bytes_lem (a ∷ b ∷ []) = refl
password_bytes_lem (a ∷ b ∷ c ∷ []) = refl
password_bytes_lem (a ∷ b ∷ c ∷ d ∷ []) = refl
password_bytes_lem (a ∷ b ∷ c ∷ d ∷ e ∷ []) = refl
password_bytes_lem (a ∷ b ∷ c ∷ d ∷ e ∷ f ∷ []) = refl
password_bytes_lem (a ∷ b ∷ c ∷ d ∷ e ∷ f ∷ g ∷ []) = refl
password_bytes_lem (a ∷ b ∷ c ∷ d ∷ e ∷ f ∷ g ∷ h ∷ []) = refl
password_bytes_lem (a ∷ b ∷ c ∷ d ∷ e ∷ f ∷ g ∷ h ∷ i ∷ bytes) = refl
