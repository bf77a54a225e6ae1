-- ===== src/Viewer/Samples.antt =====
-- Test data for the program of client/main.rs.
use rust_vnc.Common.{
  ℕ, if◌then◌else◌, zero, suc, ◌+◌, ◌*◌, ◌/◌, ◌%◌, ◌==◌, List, [], ◌∷◌, true, refl, arith, some,
}
use rust_vnc.Client.Handshake.{Client}
use rust_vnc.Client.Events.Samples.{grey}
use rust_vnc.Viewer.{Sdl}
use rust_vnc.Viewer.Formats.{IsSdl}
use rust_vnc.Viewer.Keys.{Keysym}
use rust_vnc.Viewer.Cursor.{NativeEndian, AlphaSdl}
use rust_vnc.Viewer.Cursor.Alpha.{argb}
use rust_vnc.Viewer.Screen.{Renderer}

-- SDL's formats as numbers.
abbrev pub numbered : Sdl ℕ
numbered = record {
  rgb888 = 0;
  bgr888 = 1;
  rgb565 = 2;
  bgr565 = 3;
  rgb332 = 4;
  same = λ a b. a == b;
}

pub numbered-IsSdl : IsSdl numbered
numbered-IsSdl = record {
  same_refl = λ n. ground arith;
  apart = (
    (refl, (refl, (refl, (refl, tt)))),
    ((refl, (refl, (refl, tt))), ((refl, (refl, tt)), ((refl, tt), (tt, tt)))),
  );
}

abbrev pub small : Client
small = record { name = []; size = (4, 3); format = grey }

-- A little-endian machine.
abbrev pub number_of : List ℕ → ℕ
number_of [] = 0
number_of (b ∷ bytes) = b + 256 * number_of bytes

abbrev pub bytes_of : (size n : ℕ) → List ℕ
bytes_of zero n = []
bytes_of (suc size) n = n % 256 ∷ bytes_of size (n / 256)

abbrev pub little : NativeEndian
little = record { number = number_of; bytes = bytes_of }

-- SDL's formats as numbers; those of 32 bits have the masks that SDL documents.
abbrev pub sdl : AlphaSdl ℕ
sdl = record {
  table = numbered;
  rgb444 = 5;
  rgb555 = 6;
  bgr555 = 7;
  rgb24 = 8;
  bgr24 = 9;
  rgbx8888 = 10;
  bgrx8888 = 11;
  argb4444 = 12;
  argb1555 = 13;
  abgr1555 = 14;
  argb8888 = 15;
  abgr8888 = 16;
  byte_size_per_pixel = λ f. 4;
  into_masks = λ f. some (argb (if f == 0 then 0 else 0xff000000));
}

abbrev pub one_keysym : Keysym → ℕ
one_keysym s = 0xff0d

abbrev pub renderer : Renderer
renderer = record {
  accepts = λ r. true;
  read_pixels = λ calls r. [];
  byte_size_of_pixels = λ n. 4 * n;
  intersection = λ r s. some r;
}
