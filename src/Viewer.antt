-- ===== src/Viewer.antt =====
-- client/main.rs: the choice of an authentication method and of a pixel format.
use rust_vnc.Common.{ℕ, zero, suc, List, [], ◌∷◌, Bool, true, false, ◌==◌, ◌&&◌, if◌then◌else◌}
use rust_vnc.Common.{Option, none, some, replicate}
use rust_vnc.Protocol.PixelFormat.{PixelFormat}
use rust_vnc.Client.Auth.{AuthMethod, AuthChoice}
use rust_vnc.Client.Requests.{Session, set_format}
use rust_vnc.Wire.{Result, ok, panic}
pub mod Choice
pub mod Cursor
pub mod Drawing
pub mod Formats
pub mod Input
pub mod Keys
pub mod Mask
pub mod Rendered
pub mod Running
mod Samples
pub mod Screen
pub mod Start
mod Tests

-- `key[i] = byte`
unfoldable pub set_elem : ℕ → ℕ → List ℕ → List ℕ
set_elem i byte [] = []
set_elem zero byte (b ∷ bytes) = byte ∷ bytes
set_elem (suc i) byte (b ∷ bytes) = b ∷ set_elem i byte bytes

-- The loop over the bytes of the password, from byte `i` on.
unfoldable pub key_loop : ℕ → List ℕ → List ℕ → List ℕ
unfolding set_elem
key_loop i [] key = key
key_loop i (byte ∷ bytes) key =
    let filled = key_loop (suc i) bytes (set_elem i byte key) in if i == 8 then key else filled

unfoldable pub password_bytes : List ℕ → List ℕ
unfolding key_loop
password_bytes bytes = key_loop 0 bytes (replicate 8 0)

-- `utf8` is `str::bytes` of std.
abbrev pub choose_password : (List ℕ → List ℕ) → Option (List ℕ) → Option AuthChoice
choose_password utf8 none = none
choose_password utf8 (some secret) = some (AuthChoice.password (password_bytes (utf8 secret)))

abbrev pub choose_apple : Option (List ℕ) → Option (List ℕ) → Option AuthChoice → Option AuthChoice
choose_apple (some name) (some secret) later = some (AuthChoice.apple_remote_desktop name secret)
choose_apple (some name) none later = later
choose_apple none secret later = later

-- The closure that the program gives to the handshake: a loop that may return early.
module _ (utf8 : List ℕ → List ℕ) (username password : Option (List ℕ)) where
  unfoldable pub choose : List AuthMethod → Option AuthChoice
  choose [] = none
  choose (AuthMethod.none ∷ methods) = some AuthChoice.none
  choose (AuthMethod.password ∷ methods) = choose_password utf8 password
  choose (AuthMethod.apple_remote_desktop ∷ methods) =
      choose_apple username password (choose methods)

-- The formats of SDL that the program names, and their `==`.
pub record Sdl (S : Type 0) : Type 0 where
  pub rgb888 : S
  pub bgr888 : S
  pub rgb565 : S
  pub bgr565 : S
  pub rgb332 : S
  pub same : S → S → Bool

abbrev pub packed : (bits_per_pixel depth : ℕ) (max shift : ℕ × ℕ × ℕ) → PixelFormat
packed bits_per_pixel depth (red_max, green_max, blue_max) (red_shift, green_shift, blue_shift) =
    record {
      bits_per_pixel = bits_per_pixel;
      depth = depth;
      big_endian = false;
      true_colour = true;
      red_max = red_max;
      green_max = green_max;
      blue_max = blue_max;
      red_shift = red_shift;
      green_shift = green_shift;
      blue_shift = blue_shift;
    }

abbrev pub bool_eq : Bool → Bool → Bool
bool_eq true b = b
bool_eq false true = false
bool_eq false false = true

unfoldable pub format_eq : PixelFormat → PixelFormat → Bool
format_eq f g =
    f.bits_per_pixel == g.bits_per_pixel
    && f.depth == g.depth
    && bool_eq f.big_endian g.big_endian
    && bool_eq f.true_colour g.true_colour
    && f.red_max == g.red_max
    && f.green_max == g.green_max
    && f.blue_max == g.blue_max
    && f.red_shift == g.red_shift
    && f.green_shift == g.green_shift
    && f.blue_shift == g.blue_shift

module _ {S : Type 0} (sdl : Sdl S) where
  abbrev pub format_map : List (S × PixelFormat)
  format_map =
      (sdl.rgb888, packed 32 24 (255, 255, 255) (16, 8, 0))
      ∷ (sdl.bgr888, packed 32 24 (255, 255, 255) (0, 8, 16))
      ∷ (sdl.rgb565, packed 16 16 (32, 64, 32) (11, 5, 0))
      ∷ (sdl.bgr565, packed 16 16 (32, 64, 32) (0, 5, 11))
      ∷ (sdl.rgb332, packed 8 8 (8, 8, 4) (5, 2, 0))
      ∷ []

  unfoldable pub find_sdl : PixelFormat → List (S × PixelFormat) → Option S
  unfolding format_eq
  find_sdl f [] = none
  find_sdl f (entry ∷ entries) = if format_eq entry.1 f then some entry.0 else find_sdl f entries

  unfoldable pub find_vnc : S → List (S × PixelFormat) → Option PixelFormat
  find_vnc s [] = none
  find_vnc s (entry ∷ entries) = if sdl.same entry.0 s then some entry.1 else find_vnc s entries

  unfoldable pub pixel_format_vnc_to_sdl : PixelFormat → Option S
  unfolding find_sdl
  pixel_format_vnc_to_sdl f = find_sdl f format_map

  unfoldable pub pixel_format_sdl_to_vnc : S → Option PixelFormat
  unfolding find_vnc
  pixel_format_sdl_to_vnc s = find_vnc s format_map

  -- The SDL format for the server's pixel format, which is changed to that of RGB888 where SDL has
  -- none. `none`: `set_format` still runs after `fuel` rounds.
  abbrev pub changed : Option Session → Option (Result S × Session)
  changed none = none
  changed (some s) = some (ok sdl.rgb888, s)

  abbrev pub change_to : ℕ → Option PixelFormat → Session → Option (Result S × Session)
  change_to fuel none s = some (panic, s)
  change_to fuel (some f) s = changed (set_format fuel f s)

  abbrev pub settled : ℕ → Option S → Session → Option (Result S × Session)
  settled fuel (some format) s = some (ok format, s)
  settled fuel none s = change_to fuel (pixel_format_sdl_to_vnc sdl.rgb888) s

  unfoldable pub render_format : ℕ → Session → Option (Result S × Session)
  unfolding pixel_format_vnc_to_sdl
  render_format fuel s = settled fuel (pixel_format_vnc_to_sdl s.client.format) s
