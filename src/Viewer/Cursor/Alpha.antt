-- ===== src/Viewer/Cursor/Alpha.antt =====
-- client/main.rs: what `mask_cursor` makes of pixels of 32 bits.
use rust_vnc.Common.{
  ℕ, zero, suc, ◌+◌, ◌*◌, ◌/◌, ◌%◌, ◌^◌, ◌<◌, ◌≤◌, List, [], ◌∷◌, ◌++◌, true, false, if◌then◌else◌,
  ltb, ◌==◌, not, length, bit_and, bit_or, some, ◌≡◌, refl, ap, sym, ◌∙◌, arith, All, append_assoc,
  append-nil, length-append,
}
use rust_vnc.Common.{lt→ltb, if-both}
use rust_vnc.Common.Bits.{and_shift, and_mask, or_fields, or_above}
use rust_vnc.Wire.{ok, Input, ends, feed, unexpected_eof, read_exact, feed-append, write_many}
use rust_vnc.Wire.RoundTrip.{read_exact_lem}
use rust_vnc.Viewer.{pixel_format_vnc_to_sdl, find_sdl, format_eq}
use rust_vnc.Viewer.Rendered.{fallback_format}
use rust_vnc.Viewer.Cursor.{
  Masks, AlphaSdl, NativeEndian, Colour, read_uint, read_color, write_color, recolour, alpha_format,
  mask_cursor,
}

-- The colours in the bytes of a word, and above them the alpha of ARGB8888.
abbrev pub argb : ℕ → Masks
argb alpha = record { rmask = 255 * 2 ^ 16; gmask = 255 * 2 ^ 8; bmask = 255; amask = alpha }

-- A word with the alpha that its mask gives it.
abbrev pub masked : ℕ → ℕ → ℕ
masked word m = (if not (m == 0) then 255 else 0) * 2 ^ 24 + word % 2 ^ 24

abbrev pub masked_all : (words mask_pixels : List ℕ) → List ℕ
masked_all [] mask_pixels = []
masked_all (w ∷ words) [] = []
masked_all (w ∷ words) (m ∷ mask_pixels) = masked w m ∷ masked_all words mask_pixels

and_255 : (a : ℕ) → bit_and a 255 ≡ a % 256
and_255 a = and_mask 8 a

component_lem :
    (word : ℕ)
    → (bit_and word (255 * 2 ^ 16) / 2 ^ 16 % 256 ≡ word / 2 ^ 16 % 256)
      × (bit_and word (255 * 2 ^ 8) / 2 ^ 8 % 256 ≡ word / 2 ^ 8 % 256)
      × (bit_and word 255 / 1 % 256 ≡ word % 256)
component_lem word = (
  omega (arith, and_shift 16 word 255, and_255 (word / 2 ^ 16)),
  omega (arith, and_shift 8 word 255, and_255 (word / 2 ^ 8)),
  omega (arith, and_255 word),
)

placed_lem :
    (c : ℕ)
    → c < 256
    → (bit_and (c * 2 ^ 16 % 2 ^ 32) (255 * 2 ^ 16) ≡ c * 2 ^ 16)
      × (bit_and (c * 2 ^ 8 % 2 ^ 32) (255 * 2 ^ 8) ≡ c * 2 ^ 8)
      × (bit_and (c * 1 % 2 ^ 32) 255 ≡ c)
      × (bit_and (c * 2 ^ 24 % 2 ^ 32) (255 * 2 ^ 24) ≡ c * 2 ^ 24)
placed_lem c h = (
  omega (arith, and_shift 16 (c * 2 ^ 16 % 2 ^ 32) 255, and_255 (c * 2 ^ 16 % 2 ^ 32 / 2 ^ 16)),
  omega (arith, and_shift 8 (c * 2 ^ 8 % 2 ^ 32) 255, and_255 (c * 2 ^ 8 % 2 ^ 32 / 2 ^ 8)),
  omega (arith, and_255 (c * 1 % 2 ^ 32)),
  omega (arith, and_shift 24 (c * 2 ^ 24 % 2 ^ 32) 255, and_255 (c * 2 ^ 24 % 2 ^ 32 / 2 ^ 24)),
)

packed_lem :
    (r g b a : ℕ)
    → r < 256
    → g < 256
    → b < 256
    → bit_or (bit_or (bit_or (r * 2 ^ 16) (g * 2 ^ 8)) b) (a * 2 ^ 24)
      ≡ a * 2 ^ 24 + (r * 2 ^ 16 + g * 2 ^ 8 + b)
packed_lem r g b a hr hg hb =
    let one : bit_or (r * 2 ^ 16) (g * 2 ^ 8) ≡ (r * 2 ^ 8 + g) * 2 ^ 8 =
      or_fields 16 r (g * 2 ^ 8) (omega arith) ∙ omega arith in
    let two : bit_or (bit_or (r * 2 ^ 16) (g * 2 ^ 8)) b ≡ (r * 2 ^ 8 + g) * 2 ^ 8 + b =
      ap (λ n. bit_or n b) one ∙ or_fields 8 (r * 2 ^ 8 + g) b (omega arith) in
    ap (λ n. bit_or n (a * 2 ^ 24)) two
    ∙ (or_above 24 a ((r * 2 ^ 8 + g) * 2 ^ 8 + b) (omega arith) ∙ omega arith)

-- NativeEndian takes back what it has written of a word.
pub record IsNative (native : NativeEndian) : Type 0 where
  pub length-bytes : (word : ℕ) → length (native.bytes 4 word) ≡ 4
  pub number-bytes : (word : ℕ) → word < 2 ^ 32 → native.number (native.bytes 4 word) ≡ word

-- What SDL documents of RGB888 and ARGB8888.
pub record IsRgb888 {S : Type 0} (sdl : AlphaSdl S) : Type 0 where
  pub self : sdl.table.same sdl.table.rgb888 sdl.table.rgb888 ≡ true
  pub not_rgb332 : sdl.table.same sdl.table.rgb888 sdl.table.rgb332 ≡ false
  pub not_rgb444 : sdl.table.same sdl.table.rgb888 sdl.rgb444 ≡ false
  pub not_rgb555 : sdl.table.same sdl.table.rgb888 sdl.rgb555 ≡ false
  pub not_rgb565 : sdl.table.same sdl.table.rgb888 sdl.table.rgb565 ≡ false
  pub not_bgr555 : sdl.table.same sdl.table.rgb888 sdl.bgr555 ≡ false
  pub not_bgr565 : sdl.table.same sdl.table.rgb888 sdl.table.bgr565 ≡ false
  pub not_rgb24 : sdl.table.same sdl.table.rgb888 sdl.rgb24 ≡ false
  pub in_size : sdl.byte_size_per_pixel sdl.table.rgb888 ≡ 4
  pub out_size : sdl.byte_size_per_pixel sdl.argb8888 ≡ 4
  pub in_masks : sdl.into_masks sdl.table.rgb888 ≡ some (argb 0)
  pub out_masks : sdl.into_masks sdl.argb8888 ≡ some (argb (255 * 2 ^ 24))

abbrev colour_of : ℕ → Colour
colour_of word = record { r = word / 2 ^ 16 % 256; g = word / 2 ^ 8 % 256; b = word % 256; a = 255 }

module _ (native : NativeEndian) (lawful : IsNative native) where
  read_uint_lem :
      (word : ℕ) (rest : Input)
      → word < 2 ^ 32
      → read_uint native 4 (feed (native.bytes 4 word) rest) ≡ ok (word, rest)
  unfolding read_uint
  read_uint_lem word rest h =
      let exact : read_exact 4 (feed (native.bytes 4 word) rest) ≡ ok (native.bytes 4 word, rest) =
        ap (λ n. read_exact n (feed (native.bytes 4 word) rest)) (sym (lawful.length-bytes word))
        ∙ read_exact_lem (native.bytes 4 word) rest in
      rw exact (ap (λ n. ok (n, rest)) (lawful.number-bytes word h))

  read_color_lem :
      (word alpha : ℕ) (rest : Input)
      → word < 2 ^ 32
      → read_color native 4 (argb alpha) (feed (native.bytes 4 word) rest)
        ≡ ok (colour_of word, rest)
  unfolding read_color
  read_color_lem word alpha rest h =
      let same : word % 2 ^ 32 ≡ word = omega arith in
      let parts = component_lem word in
      rw (read_uint_lem word rest h) (rw same (rw (parts.0, parts.1, parts.2) refl))

  write_color_lem :
      (word a : ℕ)
      → a < 256
      → write_color native 4 (argb (255 * 2 ^ 24)) (record (colour_of word) { a = a })
        ≡ ok (native.bytes 4 (a * 2 ^ 24 + word % 2 ^ 24))
  unfolding write_color
  write_color_lem word a h =
      let r : ℕ = word / 2 ^ 16 % 256 in
      let g : ℕ = word / 2 ^ 8 % 256 in
      let b : ℕ = word % 256 in
      let whole : bit_or (bit_or (bit_or (r * 2 ^ 16) (g * 2 ^ 8)) b) (a * 2 ^ 24)
          ≡ a * 2 ^ 24 + word % 2 ^ 24 =
        packed_lem r g b a (omega arith) (omega arith) (omega arith) ∙ omega arith in
      let small : ltb (a * 2 ^ 24 + word % 2 ^ 24) (256 ^ 4) ≡ true =
        lt→ltb (a * 2 ^ 24 + word % 2 ^ 24) (256 ^ 4) (omega arith) in
      rw
        (
          (placed_lem r (omega arith)).0,
          (placed_lem g (omega arith)).1,
          (placed_lem b (omega arith)).2,
          (placed_lem a h).3,
        )
        (rw whole (rw small refl))

  recolour_lem :
      (words mask_pixels : List ℕ) (out : List ℕ) (fuel : ℕ)
      → All (λ w. w < 2 ^ 32) words
      → length words ≤ length mask_pixels
      → length words < fuel
      → recolour native fuel 4
          (argb 0)
          4
          (argb (255 * 2 ^ 24))
          (feed (write_many (native.bytes 4) words) (ends unexpected_eof))
          mask_pixels
          out
        ≡ ok (out ++ write_many (native.bytes 4) (masked_all words mask_pixels))
  unfolding recolour write_many
  recolour_lem words mask_pixels out zero v h enough = ground arith
  recolour_lem [] mask_pixels out (suc fuel) v h enough =
      unfold read_color read_uint read_exact in ap ok (sym (append-nil out))
  recolour_lem (w ∷ words) [] out (suc fuel) v h enough = ground arith
  recolour_lem (w ∷ words) (m ∷ mask_pixels) out (suc fuel) (v, vs) h enough =
      let alpha : ℕ = if not (m == 0) then 255 else 0 in
      let small : alpha < 256 =
        if-both (λ a. a < 256) (not (m == 0)) 255 0 (omega arith) (omega arith) in
      let later : Input = feed (write_many (native.bytes 4) words) (ends unexpected_eof) in
      rw (feed-append (native.bytes 4 w) (write_many (native.bytes 4) words) (ends unexpected_eof))
        (rw (read_color_lem w 0 later v) (
          rw (write_color_lem w alpha small) (
            recolour_lem words mask_pixels (out ++ native.bytes 4 (masked w m)) fuel vs
              (omega arith) (omega arith)
            ∙ ap ok (
                append_assoc out (native.bytes 4 (masked w m))
                  (write_many (native.bytes 4) (masked_all words mask_pixels))))))

  length-words : (words : List ℕ) → length words ≤ length (write_many (native.bytes 4) words)
  unfolding write_many
  length-words [] = omega arith
  length-words (w ∷ words) = omega (
    arith,
    length-append (native.bytes 4 w) (write_many (native.bytes 4) words),
    lawful.length-bytes w,
    length-words words,
  )

  -- A cursor in the pixel format of RGB888 becomes one of ARGB8888, pixel for pixel: each keeps its
  -- three colours, and is opaque where the element of the mask for it is not 0, and transparent
  -- elsewhere. There is an element of the mask for each pixel, SDL's formats are as it documents
  -- them, and NativeEndian takes back what it has written of a word.
  pub mask_cursor-masked_all :
      {S : Type 0} (sdl : AlphaSdl S) (words mask_pixels : List ℕ)
      → IsRgb888 sdl
      → All (λ w. w < 2 ^ 32) words
      → length words ≤ length mask_pixels
      → mask_cursor native sdl fallback_format (write_many (native.bytes 4) words) mask_pixels
        ≡ ok (sdl.argb8888, write_many (native.bytes 4) (masked_all words mask_pixels))
  unfolding mask_cursor pixel_format_vnc_to_sdl find_sdl format_eq alpha_format
  mask_cursor-masked_all sdl words mask_pixels known v h =
      rw
        (
          known.not_rgb332, known.not_rgb444, known.not_rgb555, known.not_rgb565, known.not_bgr555,
          known.not_bgr565, known.not_rgb24, known.self,
        )
        (rw (known.in_masks, known.out_masks, known.in_size, known.out_size)
          (rw
            (recolour_lem words mask_pixels [] (suc (length (write_many (native.bytes 4) words))) v
              h (omega (arith, length-words words)))
            refl))
