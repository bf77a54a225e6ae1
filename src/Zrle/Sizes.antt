-- ===== src/Zrle/Sizes.antt =====
-- src/zrle.rs: how many bytes of pixels a tile is given.
use rust_vnc.Common.{ℕ, zero, suc, ◌+◌, ◌*◌, ◌≤◌, List, ◌≡◌, ap, ◌∙◌, subst}
use rust_vnc.Common.{length, arith, take, drop, leb, ◌==◌}
use rust_vnc.Common.{length-append, length-take, length-drop}
use rust_vnc.Wire.{Input, panic, Reader, read_exact}
use rust_vnc.Wire.Outcome.{Gives, bind-Gives, if-Gives, read_exact-Gives, anything}
use rust_vnc.Zrle.{BitReader, read_bits, align}
use rust_vnc.Zrle.Palette
use rust_vnc.Common.{leb→le}
use rust_vnc.Zrle.Palette.{copy_true_color, copy_indexed, read_palette, expand}
use rust_vnc.Zrle.Pixels.{through, copy_indexed_times, indexed_row, indexed_rows}

-- A buffer of four bytes holds the pixel.
length-expand :
    (pad compressed_bpp bpp : ℕ) (c : List ℕ)
    → pad + compressed_bpp ≤ 4
    → length c ≡ compressed_bpp
    → bpp ≤ 4
    → length (expand pad compressed_bpp bpp c) ≡ bpp
length-expand pad compressed_bpp bpp c fits e small =
    Palette.length-expand pad compressed_bpp bpp fits small c e

pub copy_true_color-Gives :
    (pad compressed_bpp bpp : ℕ) (pixels : List ℕ) (i : Input)
    → Gives
        (copy_true_color pad compressed_bpp bpp pixels i)
        (λ x. length x.0 ≡ length pixels + bpp)
unfolding copy_true_color
copy_true_color-Gives pad compressed_bpp bpp pixels i =
    if-Gives (leb (pad + compressed_bpp) 4) _ panic _
      (λ fits.
        bind-Gives (read_exact compressed_bpp i) _ (λ x. length x.0 ≡ compressed_bpp) _
          (read_exact-Gives compressed_bpp i)
          λ x e.
            if-Gives (leb bpp 4) _ panic _
              (λ small.
                length-append pixels (expand pad compressed_bpp bpp x.0)
                ∙ ap (λ n. length pixels + n)
                    (length-expand pad compressed_bpp bpp x.0 (leb→le _ _ fits) e
                      (leb→le _ _ small)))
              λ large. tt)
      λ far. tt

copy_indexed-Gives :
    (palette : List ℕ) (bpp index : ℕ) (pixels : List ℕ)
    → Gives (copy_indexed palette bpp index pixels) (λ p. length p ≡ length pixels + bpp)
unfolding copy_indexed
copy_indexed-Gives palette bpp index pixels =
    if-Gives (leb (index * bpp + bpp) (length palette)) _ panic _
      (λ fits.
        let piece = drop (index * bpp) palette in
        let inside : index * bpp + bpp ≤ length palette = leb→le _ _ fits in
        omega (
          arith,
          length-append pixels (take bpp piece),
          length-take bpp piece,
          length-drop (index * bpp) palette,
        ))
      λ far. tt

pub through-Gives :
    {A : Type 0} (read : Reader A) (r : BitReader) (P : A → Type 0)
    → ((i : Input) → Gives (read i) (λ x. P x.0))
    → Gives (through read r) (λ x. P x.0)
unfolding through
through-Gives read r P h =
    if-Gives (r.position == 8) _ _ _
      (λ whole. bind-Gives (read r.reader) _ (λ x. P x.0) (λ x. P x.0) (h r.reader) λ x e. e)
      λ between. tt

pub read_palette-Gives :
    (pad compressed_bpp bpp n : ℕ) (palette : List ℕ) (i : Input)
    → Gives
        (read_palette pad compressed_bpp bpp n palette i)
        (λ x. length x.0 ≡ length palette + n * bpp)
unfolding read_palette
read_palette-Gives pad compressed_bpp bpp zero palette i = omega arith
read_palette-Gives pad compressed_bpp bpp (suc n) palette i =
    bind-Gives (copy_true_color pad compressed_bpp bpp palette i) _
      (λ x. length x.0 ≡ length palette + bpp) _
      (copy_true_color-Gives pad compressed_bpp bpp palette i)
      λ x e.
        subst (λ k. Gives (read_palette pad compressed_bpp bpp n x.0 x.1) (λ y. length y.0 ≡ k))
          (omega (arith, e)) (read_palette-Gives pad compressed_bpp bpp n x.0 x.1)

pub copy_indexed_times-Gives :
    (palette : List ℕ) (bpp index n : ℕ) (pixels : List ℕ)
    → Gives
        (copy_indexed_times palette bpp index n pixels)
        (λ p. length p ≡ length pixels + n * bpp)
unfolding copy_indexed_times
copy_indexed_times-Gives palette bpp index zero pixels = omega arith
copy_indexed_times-Gives palette bpp index (suc n) pixels =
    bind-Gives (copy_indexed palette bpp index pixels) _ (λ p. length p ≡ length pixels + bpp) _
      (copy_indexed-Gives palette bpp index pixels)
      λ p e.
        subst (λ k. Gives (copy_indexed_times palette bpp index n p) (λ q. length q ≡ k))
          (omega (arith, e)) (copy_indexed_times-Gives palette bpp index n p)

indexed_row-Gives :
    (bits : ℕ) (palette : List ℕ) (bpp width : ℕ) (pixels : List ℕ) (r : BitReader)
    → Gives
        (indexed_row bits palette bpp width pixels r)
        (λ x. length x.0 ≡ length pixels + width * bpp)
unfolding indexed_row
indexed_row-Gives bits palette bpp zero pixels r = omega arith
indexed_row-Gives bits palette bpp (suc width) pixels r =
    bind-Gives (read_bits bits r) _ (λ x. Unit {0}) _ (anything (read_bits bits r))
      λ x u.
        bind-Gives (copy_indexed palette bpp x.0 pixels) _ (λ p. length p ≡ length pixels + bpp) _
          (copy_indexed-Gives palette bpp x.0 pixels)
          λ p e.
            subst (λ k. Gives (indexed_row bits palette bpp width p x.1) (λ y. length y.0 ≡ k))
              (omega (arith, e)) (indexed_row-Gives bits palette bpp width p x.1)

pub indexed_rows-Gives :
    (bits : ℕ) (palette : List ℕ) (bpp width height : ℕ) (pixels : List ℕ) (r : BitReader)
    → Gives
        (indexed_rows bits palette bpp width height pixels r)
        (λ x. length x.0 ≡ length pixels + height * (width * bpp))
unfolding indexed_rows
indexed_rows-Gives bits palette bpp width zero pixels r = omega arith
indexed_rows-Gives bits palette bpp width (suc height) pixels r =
    bind-Gives (indexed_row bits palette bpp width pixels r) _
      (λ x. length x.0 ≡ length pixels + width * bpp) _
      (indexed_row-Gives bits palette bpp width pixels r)
      λ x e.
        subst
          (λ k.
            Gives (indexed_rows bits palette bpp width height x.0 (align x.1))
              (λ y. length y.0 ≡ k))
          (omega (arith, e)) (indexed_rows-Gives bits palette bpp width height x.0 (align x.1))
