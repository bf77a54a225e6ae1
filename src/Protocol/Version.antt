-- ===== src/Protocol/Version.antt =====
-- src/protocol.rs: `Version`, the twelve-byte banner that opens a connection.
use rust_vnc.Common.{
  ℕ, List, [], ◌∷◌, ◌≡◌, refl, arith, if◌then◌else◌, Bool, true, false, ◌==◌, ◌&&◌, ◌⊎◌, inl, inr,
  ◌↔◌, length,
}
use rust_vnc.Wire.{Reader, Input, ok, unexpected, pure, fail, ◌>>=◌, read_exact, feed}
use rust_vnc.Wire.RoundTrip.{Reads, read_exact_lem}

pub data Version : Type 0 where
  rfb33 rfb37 rfb38 : Version

-- b"RFB 003.xyz\n"
abbrev pub banner : ℕ → ℕ → ℕ → List ℕ
banner x y z = b'R' ∷ b'F' ∷ b'B' ∷ b' ' ∷ b'0' ∷ b'0' ∷ b'3' ∷ b'.' ∷ x ∷ y ∷ z ∷ 10 ∷ []

unfoldable pub bytes_eq : List ℕ → List ℕ → Bool
bytes_eq [] [] = true
bytes_eq (x ∷ xs) (y ∷ ys) = (x == y) && bytes_eq xs ys
bytes_eq _ _ = false

-- The arms of the match on the buffer; the fourth is Apple remote desktop's.
unfoldable pub parse : List ℕ → Reader Version
parse buf =
    if bytes_eq buf (banner b'0' b'0' b'3')
    then pure rfb33
    else if bytes_eq buf (banner b'0' b'0' b'7')
    then pure rfb37
    else if bytes_eq buf (banner b'0' b'0' b'8')
    then pure rfb38
    else if bytes_eq buf (banner b'8' b'8' b'9')
    then pure rfb38
    else fail (unexpected "protocol version")

unfoldable pub read_from : Reader Version
unfolding read_exact parse bytes_eq
read_from = do buf ← read_exact 12; parse buf

unfoldable pub write_to : Version → List ℕ
write_to rfb33 = banner b'0' b'0' b'3'
write_to rfb37 = banner b'0' b'0' b'7'
write_to rfb38 = banner b'0' b'0' b'8'

pub read_from-write_to : (v : Version) → Reads read_from (write_to v) v
unfolding read_from write_to
read_from-write_to rfb33 rest = refl
read_from-write_to rfb37 rest = refl
read_from-write_to rfb38 rest = refl

bytes_eq→eq : (xs ys : List ℕ) → bytes_eq xs ys ≡ true → xs ≡ ys
unfolding bytes_eq
bytes_eq→eq [] [] h = refl
bytes_eq→eq [] (y ∷ ys) h = cc
bytes_eq→eq (x ∷ xs) [] h = cc
bytes_eq→eq (x ∷ xs) (y ∷ ys) h = ground (arith, bytes_eq→eq xs ys)

-- What the buffer is, if the match gives `v`.
abbrev IsBanner : Version → List ℕ → Type 0
IsBanner v buf = (buf ≡ write_to v) ⊎ ((v ≡ rfb38) × (buf ≡ banner b'8' b'8' b'9'))

parse_sound :
    (buf : List ℕ) (rest : Input) (v : Version) → parse buf rest ≡ ok (v, rest) → IsBanner v buf
unfolding parse write_to
parse_sound buf rest v h = ground (
  arith,
  bytes_eq→eq buf (banner b'0' b'0' b'3'),
  bytes_eq→eq buf (banner b'0' b'0' b'7'),
  bytes_eq→eq buf (banner b'0' b'0' b'8'),
  bytes_eq→eq buf (banner b'8' b'8' b'9'),
)

parse_complete :
    (buf : List ℕ) (rest : Input) (v : Version) → IsBanner v buf → parse buf rest ≡ ok (v, rest)
unfolding parse bytes_eq write_to
parse_complete buf rest rfb33 (inl e) = rw e
parse_complete buf rest rfb37 (inl e) = rw e
parse_complete buf rest rfb38 (inl e) = rw e
parse_complete buf rest v (inr (same, e)) = rw (same, e)

-- Twelve bytes are read as the version `v` exactly when they are the banner that is written for
-- `v`, or `v` is 3.8 and they are Apple's banner, which names version 3.889.
pub Version-read_from_iff :
    (buf : List ℕ) (rest : Input) (v : Version)
    → length buf ≡ 12
    → (read_from (feed buf rest) ≡ ok (v, rest))
      ↔ ((buf ≡ write_to v) ⊎ ((v ≡ rfb38) × (buf ≡ banner b'8' b'8' b'9')))
Version-read_from_iff buf rest v h = rw step (parse_sound buf rest v, parse_complete buf rest v)
  where
    step : read_from (feed buf rest) ≡ parse buf rest
    step = unfold read_from in rw (← h, read_exact_lem buf rest)
