-- ===== src/Viewer/Formats.antt =====
-- client/main.rs: the table of pixel formats, read in both directions.
use rust_vnc.Common.{
  List, [], ◌∷◌, Bool, true, false, ◌≡◌, refl, sym, ap, subst, All, Option, none, some,
}
use rust_vnc.Common.{arith, Bool-cases, map, false≢true, inl, inr}
use rust_vnc.Protocol.PixelFormat.{PixelFormat}
use rust_vnc.Viewer.{
  Sdl, format_eq, bool_eq, format_map, find_sdl, find_vnc, pixel_format_vnc_to_sdl,
  pixel_format_sdl_to_vnc,
}

-- Each element differs from all behind it.
abbrev pub Apart : {S : Type 0} → (S → S → Bool) → List S → Type 0
Apart same [] = Unit {0}
Apart same (s ∷ rest) = All (λ t. same s t ≡ false) rest × Apart same rest

-- `==` of SDL's formats tells those of the table apart.
pub record IsSdl {S : Type 0} (sdl : Sdl S) : Type 0 where
  pub same_refl : (s : S) → sdl.same s s ≡ true
  pub apart : Apart sdl.same (sdl.rgb888 ∷ sdl.bgr888 ∷ sdl.rgb565 ∷ sdl.bgr565 ∷ sdl.rgb332 ∷ [])

bool_eq_lem : (a b : Bool) → bool_eq a b ≡ true → a ≡ b
bool_eq_lem true b h = sym h
bool_eq_lem false true h = absurd (false≢true h)
bool_eq_lem false false h = refl

format_eq_lem : (f g : PixelFormat) → format_eq f g ≡ true → f ≡ g
unfolding format_eq
format_eq_lem f g h =
    let a : f.bits_per_pixel ≡ g.bits_per_pixel = ground arith in
    let b : f.depth ≡ g.depth = ground arith in
    let c : f.big_endian ≡ g.big_endian = bool_eq_lem f.big_endian g.big_endian (ground arith) in
    let d : f.true_colour ≡ g.true_colour =
      bool_eq_lem f.true_colour g.true_colour (ground arith) in
    let i : f.red_max ≡ g.red_max = ground arith in
    let j : f.green_max ≡ g.green_max = ground arith in
    let k : f.blue_max ≡ g.blue_max = ground arith in
    let l : f.red_shift ≡ g.red_shift = ground arith in
    let m : f.green_shift ≡ g.green_shift = ground arith in
    let n : f.blue_shift ≡ g.blue_shift = ground arith in cc

module _ {S : Type 0} (sdl : Sdl S) where
  abbrev Holds : (S → Type 0) → Option S → Type 0
  Holds P none = Unit {0}
  Holds P (some s) = P s

  find_sdl-Holds :
      (f : PixelFormat) (entries : List (S × PixelFormat)) (P : S → Type 0)
      → All P (map (λ e. e.0) entries)
      → Holds P (find_sdl sdl f entries)
  unfolding find_sdl
  find_sdl-Holds f [] P v = tt
  find_sdl-Holds f (entry ∷ entries) P (v, vs) = elim (Bool-cases (format_eq entry.1 f)) [
    | inl here ↦ rw here v
    | inr later ↦ rw later (find_sdl-Holds f entries P vs)
  ]

  both-Holds :
      (P Q R : S → Type 0) (o : Option S)
      → Holds P o
      → Holds Q o
      → ((s : S) → P s → Q s → R s)
      → Holds R o
  both-Holds P Q R none h k f = tt
  both-Holds P Q R (some s) h k f = f s h k

  find_back :
      ((s : S) → sdl.same s s ≡ true)
      → (f : PixelFormat) (entries : List (S × PixelFormat))
      → Apart sdl.same (map (λ e. e.0) entries)
      → Holds (λ s. find_vnc sdl s entries ≡ some f) (find_sdl sdl f entries)
  unfolding find_sdl find_vnc
  find_back self f [] v = tt
  find_back self f (entry ∷ entries) (v, vs) = elim (Bool-cases (format_eq entry.1 f)) [
    | inl here ↦ rw here (rw (self entry.0) (ap some (format_eq_lem entry.1 f here)))
    | inr later ↦ rw later (
        both-Holds (λ s. sdl.same entry.0 s ≡ false) (λ s. find_vnc sdl s entries ≡ some f)
          (λ s. find_vnc sdl s (entry ∷ entries) ≡ some f) (find_sdl sdl f entries)
          (find_sdl-Holds f entries (λ s. sdl.same entry.0 s ≡ false) v)
          (find_back self f entries vs) λ s other found. rw other found)
  ]

-- A format of the server that is found in the table is that of the SDL format which is found for
-- it, where SDL's `==` is reflexive and tells the five formats of the table apart.
pub pixel_format_vnc_to_sdl_back :
    {S : Type 0} (sdl : Sdl S) (f : PixelFormat) (s : S)
    → IsSdl sdl
    → pixel_format_vnc_to_sdl sdl f ≡ some s
    → pixel_format_sdl_to_vnc sdl s ≡ some f
unfolding pixel_format_vnc_to_sdl pixel_format_sdl_to_vnc
pixel_format_vnc_to_sdl_back sdl f s lawful found =
    subst (Holds sdl (λ s. find_vnc sdl s (format_map sdl) ≡ some f)) found
      (find_back sdl lawful.same_refl f (format_map sdl) lawful.apart)
