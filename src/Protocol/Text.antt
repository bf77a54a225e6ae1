-- ===== src/Protocol/Text.antt =====
-- src/protocol.rs: `impl Message for Vec<u8>` and `impl Message for String`.
use rust_vnc.Common.{ℕ, ◌+◌, ◌%◌, ◌^◌, ◌<◌, ◌≤◌, List, [], ◌∷◌, ◌++◌, ◌≡◌, refl, arith}
use rust_vnc.Common.{map, length, All, ltb, if◌then◌else◌, length-append, append-nil}
use rust_vnc.Wire.{Reader, Input, ok, pure, ◌>>=◌, read_exact, feed, feed-append}
use rust_vnc.Wire.Ints.{read_u32, write_u32}
use rust_vnc.Wire.RoundTrip.{Reads, read_u32-write_u32, read_exact_lem}

unfoldable pub read_bytes : Reader (List ℕ)
read_bytes = do n ← read_u32; read_exact n

unfoldable pub write_bytes : List ℕ → List ℕ
write_bytes bytes = write_u32 (length bytes % 2 ^ 32) ++ bytes

-- The width of a character in UTF-8, and `String::len`, which counts bytes.
unfoldable pub utf8_width : ℕ → ℕ
utf8_width c = if ltb c 0x80 then 1 else if ltb c 0x800 then 2 else if ltb c 0x10000 then 3 else 4

unfoldable pub utf8_len : List ℕ → ℕ
unfolding utf8_width
utf8_len [] = 0
utf8_len (c ∷ s) = utf8_width c + utf8_len s

-- Each byte becomes the character of that code, which is the byte itself.
unfoldable pub read_string : Reader (List ℕ)
read_string = do n ← read_u32; bytes ← read_exact n; pure bytes

-- `c as u8` keeps the low eight bits of a character.
unfoldable pub write_string : List ℕ → List ℕ
unfolding utf8_len
write_string s = write_u32 (utf8_len s % 2 ^ 32) ++ map (λ c. c % 256) s

abbrev pub IsAscii : List ℕ → Type 0
IsAscii s = All (λ c. c < 128) s

abbrev pub IsLatin1 : List ℕ → Type 0
IsLatin1 s = All (λ c. c < 256) s

pub read_bytes-write_bytes :
    (bytes : List ℕ) → length bytes < 2 ^ 32 → Reads read_bytes (write_bytes bytes) bytes
unfolding read_bytes write_bytes
read_bytes-write_bytes bytes h rest =
    simp (feed-append, fits, read_u32-write_u32 _ h, read_exact_lem)
  where
    fits : length bytes % 2 ^ 32 ≡ length bytes
    fits = omega arith

Latin1-map : (s : List ℕ) → IsLatin1 s → map (λ c. c % 256) s ≡ s
Latin1-map [] h = refl
Latin1-map (c ∷ s) (hc, hs) = rw (Latin1-map s hs) (ground arith)

Ascii-utf8_len : (s : List ℕ) → IsAscii s → utf8_len s ≡ length s
unfolding utf8_len
Ascii-utf8_len [] h = refl
Ascii-utf8_len (c ∷ s) (hc, hs) = ground (arith, Ascii-utf8_len s hs)

Ascii-IsLatin1 : (s : List ℕ) → IsAscii s → IsLatin1 s
Ascii-IsLatin1 [] h = tt
Ascii-IsLatin1 (c ∷ s) (hc, hs) = (omega arith, Ascii-IsLatin1 s hs)

pub length-le-utf8_len : (s : List ℕ) → length s ≤ utf8_len s
unfolding utf8_len
length-le-utf8_len [] = omega arith
length-le-utf8_len (c ∷ s) = ground (arith, length-le-utf8_len s)

-- A Latin-1 string is announced by its length in UTF-8 and sent by one byte for each character, so
-- its reader takes as many of the bytes behind it, `extra`, as the string has characters outside
-- ASCII.
pub String-read_overrun :
    (s extra : List ℕ) (rest : Input)
    → IsLatin1 s
    → utf8_len s < 2 ^ 32
    → length s + length extra ≡ utf8_len s
    → read_string (feed (write_string s) (feed extra rest)) ≡ ok (s ++ extra, rest)
unfolding read_string write_string
String-read_overrun s extra rest latin h e =
    simp (feed-append, mod_id, read_u32-write_u32 _ h, Latin1-map s latin, taken)
  where
    mod_id : utf8_len s % 2 ^ 32 ≡ utf8_len s
    mod_id = omega arith

    count : utf8_len s ≡ length (s ++ extra)
    count = omega (arith, length-append s extra)

    taken : read_exact (utf8_len s) (feed s (feed extra rest)) ≡ ok (s ++ extra, rest)
    taken = rw (← feed-append, count) (read_exact_lem (s ++ extra) rest)

pub read_string-write_string :
    (s : List ℕ) → IsAscii s → length s < 2 ^ 32 → Reads read_string (write_string s) s
read_string-write_string s h n rest = rw append-nil at (
    String-read_overrun s [] rest (Ascii-IsLatin1 s h) (omega (arith, Ascii-utf8_len s h))
      (omega (arith, Ascii-utf8_len s h)))
