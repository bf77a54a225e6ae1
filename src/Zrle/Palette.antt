-- ===== src/Zrle/Palette.antt =====
-- src/zrle.rs: `copy_true_color` and `copy_indexed`, and the palette of a tile.
use rust_vnc.Common.{ℕ, zero, suc, ◌+◌, ◌-◌, ◌*◌, ◌<◌, ◌≤◌, List, [], ◌∷◌, ◌++◌, ◌≡◌, refl, ap, ◌∙◌}
use rust_vnc.Common.{length, All, get_or, take, drop, replicate, append_assoc, append-nil, sym}
use rust_vnc.Common.{
  length-append, length-replicate, length-take, arith, if◌then◌else◌, leb, ltb, Bool, true, false,
  ◌⊎◌, inl, inr, take-append,
}
use Prim.Native.Nat.{min}
use native.Mathlib.Nat.{mul-le-mul_right}
use rust_vnc.Common.{lt→ltb}
use rust_vnc.Wire.{Input, Result, ok, panic, bind, Reader, read_exact, feed, feed-append}
use rust_vnc.Wire.RoundTrip.{Reads, read_exact_lem}

module _ (pad compressed_bpp bpp : ℕ) where
  -- The buffer of four bytes, of which the read fills in a slice. `pad` is the flag as a usize.
  unfoldable pub expand : List ℕ → List ℕ
  expand bytes = take bpp (replicate pad 0 ++ bytes ++ replicate (4 - (pad + compressed_bpp)) 0)

  -- A slice that ends behind its buffer panics.
  unfoldable pub copy_true_color : List ℕ → Reader (List ℕ)
  copy_true_color pixels i =
      if leb (pad + compressed_bpp) 4
      then (bind (read_exact compressed_bpp i)
          λ (bytes, rest). if leb bpp 4 then ok (pixels ++ expand bytes, rest) else panic)
      else panic

  -- `for _ in 0..palette_size { copy_true_color(reader, palette, ...)? }`
  unfoldable pub read_palette : ℕ → List ℕ → Reader (List ℕ)
  read_palette zero palette i = ok (palette, i)
  read_palette (suc palette_size) palette i =
      bind (copy_true_color palette i) λ (longer, rest). read_palette palette_size longer rest

unfoldable pub copy_indexed : List ℕ → ℕ → ℕ → List ℕ → Result (List ℕ)
copy_indexed palette bpp index pixels =
    if leb (index * bpp + bpp) (length palette)
    then ok (pixels ++ take bpp (drop (index * bpp) palette))
    else panic

abbrev pub concat {ℓ} : {A : Type ℓ} → List (List A) → List A
concat [] = []
concat (l ∷ lists) = l ++ concat lists

drop_past {ℓ} : {A : Type ℓ} (xs ys : List A) (k : ℕ) → drop (length xs + k) (xs ++ ys) ≡ drop k ys
drop_past [] ys k = let z : 0 + k ≡ k = omega arith in ap (λ n. drop n ys) z
drop_past (x ∷ xs) ys k =
    let s : suc (length xs) + k ≡ suc (length xs + k) = omega arith in
    ap (λ n. drop n (x ∷ xs ++ ys)) s ∙ drop_past xs ys k

bind_if :
    (b : Bool) (pixels : List ℕ) (rest : Input)
    → (bind {B = List ℕ × Input} (if b then ok pixels else panic) λ more. ok (more, rest))
      ≡ (if b then ok (pixels, rest) else panic)
bind_if true pixels rest = refl
bind_if false pixels rest = refl

module _ (pad compressed_bpp bpp : ℕ) (fits : pad + compressed_bpp ≤ 4) (small : bpp ≤ 4) where
  abbrev pub expand_all : List (List ℕ) → List ℕ
  expand_all [] = []
  expand_all (c ∷ colours) = expand pad compressed_bpp bpp c ++ expand_all colours

  copy_true_color_lem :
      (pixels c : List ℕ)
      → length c ≡ compressed_bpp
      → Reads
          (copy_true_color pad compressed_bpp bpp pixels)
          c
          (pixels ++ expand pad compressed_bpp bpp c)
  unfolding copy_true_color
  copy_true_color_lem pixels c e rest =
      let r : read_exact compressed_bpp (feed c rest) ≡ ok (c, rest) =
        ap (λ n. read_exact n (feed c rest)) (sym e) ∙ read_exact_lem c rest in
      simp (lt_four, r, lt_bpp)
    where
      lt_four : leb (pad + compressed_bpp) 4 ≡ true
      lt_four = ground arith

      lt_bpp : leb bpp 4 ≡ true
      lt_bpp = ground arith

  read_palette_lem :
      (colours : List (List ℕ)) (palette : List ℕ)
      → All (λ c. length c ≡ compressed_bpp) colours
      → Reads
          (read_palette pad compressed_bpp bpp (length colours) palette)
          (concat colours)
          (palette ++ expand_all colours)
  unfolding read_palette
  read_palette_lem [] palette v rest = ap (λ p. ok (p, rest)) (sym (append-nil palette))
  read_palette_lem (c ∷ colours) palette (e, v) rest =
      simp
        (feed-append, copy_true_color_lem palette c e, read_palette_lem colours _ v, append_assoc)

  pub length-expand :
      (c : List ℕ) → length c ≡ compressed_bpp → length (expand pad compressed_bpp bpp c) ≡ bpp
  unfolding expand
  length-expand c e =
      let filler : List ℕ = replicate (4 - (pad + compressed_bpp)) 0 in
      let front : List ℕ = replicate pad 0 in
      let all : length (front ++ c ++ filler) ≡ length front + length c + length filler =
        length-append (front ++ c) filler ∙ ap (λ n. n + length filler) (length-append front c) in
      let front_size : length front ≡ pad = length-replicate pad 0 in
      let filler_size : length filler ≡ 4 - (pad + compressed_bpp) = length-replicate _ 0 in
      let buffer : length (front ++ c ++ filler) ≡ 4 = omega arith in
      length-take bpp (front ++ c ++ filler) ∙ ap (min bpp) buffer ∙ omega arith

  length-expand_all :
      (colours : List (List ℕ))
      → All (λ c. length c ≡ compressed_bpp) colours
      → length (expand_all colours) ≡ length colours * bpp
  length-expand_all [] v = omega arith
  length-expand_all (c ∷ colours) (e, v) = omega (
    arith,
    length-append (expand pad compressed_bpp bpp c) (expand_all colours),
    length-expand c e,
    length-expand_all colours v,
  )

  entry :
      (colours : List (List ℕ)) (index : ℕ)
      → All (λ c. length c ≡ compressed_bpp) colours
      → index < length colours
      → take bpp (drop (index * bpp) (expand_all colours))
        ≡ expand pad compressed_bpp bpp (get_or colours index [])
  entry [] index v h = absurd (omega arith)
  entry (c ∷ colours) zero (e, v) h =
      let z : 0 * bpp ≡ 0 = omega arith in
      ap (λ n. take bpp (drop n (expand_all (c ∷ colours)))) z
      ∙ ap (λ n. take n (expand_all (c ∷ colours))) (sym (length-expand c e))
      ∙ take-append (expand pad compressed_bpp bpp c) (expand_all colours)
  entry (c ∷ colours) (suc index) (e, v) h =
      let s : suc index * bpp ≡ length (expand pad compressed_bpp bpp c) + index * bpp =
        omega (arith, length-expand c e) in
      ap (λ n. take bpp (drop n (expand_all (c ∷ colours)))) s
      ∙ ap (take bpp)
          (drop_past (expand pad compressed_bpp bpp c) (expand_all colours) (index * bpp))
      ∙ entry colours index v (omega arith)

  copy_indexed_lem :
      (colours : List (List ℕ)) (index : ℕ) (pixels : List ℕ)
      → All (λ c. length c ≡ compressed_bpp) colours
      → 1 ≤ bpp
      → copy_indexed (expand_all colours) bpp index pixels ≡ (
          if ltb index (length colours)
          then ok (pixels ++ expand pad compressed_bpp bpp (get_or colours index []))
          else panic)
  unfolding copy_indexed
  copy_indexed_lem colours index pixels v h = elim known [
    | inl below ↦ found below
    | inr above ↦ missing above
  ]
    where
      known : (index < length colours) ⊎ (length colours ≤ index)
      known = ground arith

      size : length (expand_all colours) ≡ length colours * bpp
      size = length-expand_all colours v

      found :
          index < length colours
          → copy_indexed (expand_all colours) bpp index pixels ≡ (
              if ltb index (length colours)
              then ok (pixels ++ expand pad compressed_bpp bpp (get_or colours index []))
              else panic)
      found below =
          let m : suc index * bpp ≤ length colours * bpp = mul-le-mul_right bpp below in
          let l : index * bpp + bpp ≤ length (expand_all colours) = omega (arith, size) in
          let fits_palette : leb (index * bpp + bpp) (length (expand_all colours)) ≡ true =
            ground arith in
          simp (lt→ltb index (length colours) below, fits_palette, entry colours index v below)

      missing :
          length colours ≤ index
          → copy_indexed (expand_all colours) bpp index pixels ≡ (
              if ltb index (length colours)
              then ok (pixels ++ expand pad compressed_bpp bpp (get_or colours index []))
              else panic)
      missing above =
          let m : length colours * bpp ≤ index * bpp = mul-le-mul_right bpp above in
          let l : length (expand_all colours) < index * bpp + bpp = omega (arith, size) in
          ground arith

  -- A palette of colours is read whole, and nothing behind it; an index below its size then gives
  -- the pixel of its colour, and any other panics. The pixels have one to four bytes, and a padded
  -- colour fits the four-byte buffer.
  pub copy_indexed-read_palette :
      (colours : List (List ℕ)) (rest : Input) (index : ℕ) (pixels : List ℕ)
      → All (λ c. length c ≡ compressed_bpp) colours
      → 1 ≤ bpp
      → (bind {B = List ℕ × Input}
          (read_palette pad compressed_bpp bpp (length colours) [] (feed (concat colours) rest))
          λ (palette, behind).
            bind {B = List ℕ × Input}
              (copy_indexed palette bpp index pixels)
              λ more. ok (more, behind))
        ≡ (if ltb index (length colours)
            then ok (pixels ++ expand pad compressed_bpp bpp (get_or colours index []), rest)
            else panic)
  copy_indexed-read_palette colours rest index pixels v h =
      rw (read_palette_lem colours [] v rest, copy_indexed_lem colours index pixels v h)
        (bind_if (ltb index (length colours))
          (pixels ++ expand pad compressed_bpp bpp (get_or colours index [])) rest)
