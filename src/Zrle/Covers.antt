-- ===== src/Zrle/Covers.antt =====
-- src/zrle.rs: a tile is given all its pixels, in every subencoding.
use rust_vnc.Common.{ℕ, zero, suc, ◌+◌, ◌*◌, ◌≤◌, List, [], ◌++◌, ◌≡◌, ap}
use rust_vnc.Common.{Bool, true, false, length, arith, ltb, leb, ◌==◌, ◌&&◌, length-append}
use native.Mathlib.Nat.{mul-le-mul_right, mul_assoc}
use rust_vnc.Wire.{Input, ends, byte}
use rust_vnc.Zrle.{BitReader, read_bit, read_bits, read_run_length, run_length_loop}
use rust_vnc.Zrle.Palette.{copy_true_color, read_palette}
use rust_vnc.Zrle.Pixels.{Layout, through, copy_indexed_times, extend_times, indexed_rows}
use rust_vnc.Zrle.Pixels.{
  bits_per_index, true_color_runs, indexed_run_length, indexed_runs, tile_pixels,
}
use rust_vnc.Wire.Outcome.{Gives, bind-Gives, weaken-Gives, if-Gives, anything}
use rust_vnc.Zrle.Sizes.{copy_true_color-Gives, through-Gives}
use rust_vnc.Zrle.Sizes.{read_palette-Gives, copy_indexed_times-Gives, indexed_rows-Gives}

run_length_loop-Gives :
    (run_length : ℕ) (i : Input) → Gives (run_length_loop run_length i) (λ x. run_length ≤ x.0)
unfolding run_length_loop
run_length_loop-Gives run_length (ends e) = tt
run_length_loop-Gives run_length (byte part i) =
    if-Gives (part == 255) (run_length_loop (run_length + part) i) _ (λ x. run_length ≤ x.0)
      (λ full.
        weaken-Gives (run_length_loop (run_length + part) i) (λ x. run_length + part ≤ x.0)
          (λ x. run_length ≤ x.0) (run_length_loop-Gives (run_length + part) i) λ x h. omega arith)
      λ last. omega arith

read_run_length-Gives : (i : Input) → Gives (read_run_length i) (λ x. 1 ≤ x.0)
unfolding read_run_length
read_run_length-Gives i = run_length_loop-Gives 1 i

length-extend_times :
    (n : ℕ) (pixel pixels : List ℕ)
    → length (extend_times n pixel pixels) ≡ length pixels + n * length pixel
unfolding extend_times
length-extend_times zero pixel pixels = omega arith
length-extend_times (suc n) pixel pixels =
    omega (arith, length-extend_times n pixel (pixels ++ pixel), length-append pixels pixel)

one_pixel :
    (l : Layout) (i : Input)
    → Gives (copy_true_color l.pad l.compressed_bpp l.bpp [] i) (λ x. length x.0 ≡ l.bpp)
one_pixel l i =
    weaken-Gives (copy_true_color l.pad l.compressed_bpp l.bpp [] i) (λ x. length x.0 ≡ 0 + l.bpp) _
      (copy_true_color-Gives l.pad l.compressed_bpp l.bpp [] i) λ x e. omega arith

true_color_runs-Gives :
    (l : Layout) (fuel count total : ℕ) (pixels : List ℕ) (r : BitReader)
    → total ≤ fuel + count
    → length pixels ≡ count * l.bpp
    → Gives (true_color_runs l fuel count total pixels r) (λ x. total * l.bpp ≤ length x.0)
unfolding true_color_runs
true_color_runs-Gives l zero count total pixels r enough e =
    let m : total * l.bpp ≤ count * l.bpp = mul-le-mul_right l.bpp (omega arith) in omega arith
true_color_runs-Gives l (suc fuel) count total pixels r enough e =
    if-Gives (ltb count total) _ _ (λ x. total * l.bpp ≤ length x.0)
      (λ more.
        bind-Gives (through (copy_true_color l.pad l.compressed_bpp l.bpp []) r) _
          (λ x. length x.0 ≡ l.bpp) (λ x. total * l.bpp ≤ length x.0)
          (through-Gives (copy_true_color l.pad l.compressed_bpp l.bpp []) r (λ p. length p ≡ l.bpp)
            λ i. one_pixel l i)
          λ x size.
            bind-Gives (through read_run_length x.1) _ (λ y. 1 ≤ y.0) _
              (through-Gives read_run_length x.1 (λ n. 1 ≤ n) read_run_length-Gives)
              λ y some.
                true_color_runs-Gives l fuel (count + y.0) total (extend_times y.0 x.0 pixels) y.1
                  (omega arith)
                  (omega
                    (arith, length-extend_times y.0 x.0 pixels, ap (λ (t : ℕ). y.0 * t) size, e)))
      λ done.
        let m : total * l.bpp ≤ count * l.bpp = mul-le-mul_right l.bpp (ground arith) in omega arith

indexed_run_length-Gives :
    (longer : Bool) (r : BitReader) → Gives (indexed_run_length longer r) (λ y. 1 ≤ y.0)
unfolding indexed_run_length
indexed_run_length-Gives true r = through-Gives read_run_length r (λ n. 1 ≤ n) read_run_length-Gives
indexed_run_length-Gives false r = omega arith

indexed_runs-Gives :
    (l : Layout) (palette : List ℕ) (fuel count total : ℕ) (pixels : List ℕ) (r : BitReader)
    → total ≤ fuel + count
    → length pixels ≡ count * l.bpp
    → Gives (indexed_runs l palette fuel count total pixels r) (λ x. total * l.bpp ≤ length x.0)
unfolding indexed_runs
indexed_runs-Gives l palette zero count total pixels r enough e =
    let m : total * l.bpp ≤ count * l.bpp = mul-le-mul_right l.bpp (omega arith) in omega arith
indexed_runs-Gives l palette (suc fuel) count total pixels r enough e =
    if-Gives (ltb count total) _ _ (λ x. total * l.bpp ≤ length x.0)
      (λ more.
        bind-Gives (read_bit r) _ (λ x. Unit {0}) (λ x. total * l.bpp ≤ length x.0)
          (anything (read_bit r))
          λ x u.
            bind-Gives (read_bits 7 x.1) _ (λ y. Unit {0}) _ (anything (read_bits 7 x.1))
              λ y u'.
                bind-Gives (indexed_run_length x.0 y.1) _ (λ z. 1 ≤ z.0) _
                  (indexed_run_length-Gives x.0 y.1)
                  λ z some.
                    bind-Gives (copy_indexed_times palette l.bpp y.0 z.0 pixels) _
                      (λ p. length p ≡ length pixels + z.0 * l.bpp) _
                      (copy_indexed_times-Gives palette l.bpp y.0 z.0 pixels)
                      λ p size.
                        indexed_runs-Gives l palette fuel (count + z.0) total p z.1 (omega arith)
                          (omega (arith, size, e)))
      λ done.
        let m : total * l.bpp ≤ count * l.bpp = mul-le-mul_right l.bpp (ground arith) in omega arith

-- Pixel bytes for a whole tile: without run lengths no more than that.
abbrev pub Covers : Layout → (width height : ℕ) → Bool → List ℕ → Type 0
Covers l width height true pixels = height * width * l.bpp ≤ length pixels
Covers l width height false pixels = length pixels ≡ height * width * l.bpp

-- Where the pixels of a tile are decoded, there are enough bytes of them for its width and height,
-- and without run lengths no more than that, whatever the palette and the data.
pub tile_pixels-Covers :
    (l : Layout) (width height : ℕ) (is_rle : Bool) (palette_size : ℕ) (palette : List ℕ)
    (r : BitReader)
    → Gives
        (tile_pixels l width height is_rle palette_size palette r)
        (λ x. Covers l width height is_rle x.0)
unfolding tile_pixels
tile_pixels-Covers l width height false n palette r =
    if-Gives (n == 0) _ _ (λ x. length x.0 ≡ height * width * l.bpp)
      (λ raw.
        through-Gives (read_palette l.pad l.compressed_bpp l.bpp (height * width) []) r
          (λ p. length p ≡ height * width * l.bpp)
          λ i.
            weaken-Gives (read_palette l.pad l.compressed_bpp l.bpp (height * width) [] i)
              (λ x. length x.0 ≡ 0 + height * width * l.bpp) _
              (read_palette-Gives l.pad l.compressed_bpp l.bpp (height * width) [] i)
              λ x e. omega arith)
      λ k.
        if-Gives (n == 1) _ _ (λ x. length x.0 ≡ height * width * l.bpp)
          (λ solid.
            bind-Gives (copy_indexed_times palette l.bpp 0 (height * width) []) _
              (λ p. length p ≡ 0 + height * width * l.bpp) _
              (copy_indexed_times-Gives palette l.bpp 0 (height * width) []) λ p e. omega arith)
          λ k'.
            if-Gives (leb n 16) _ _ (λ x. length x.0 ≡ height * width * l.bpp)
              (λ packed.
                weaken-Gives (indexed_rows (bits_per_index n) palette l.bpp width height [] r)
                  (λ x. length x.0 ≡ 0 + height * (width * l.bpp)) _
                  (indexed_rows-Gives (bits_per_index n) palette l.bpp width height [] r)
                  λ x e. omega (arith, mul_assoc height width l.bpp))
              λ other. tt
tile_pixels-Covers l width height true n palette r =
    if-Gives (n == 0) _ _ (λ x. height * width * l.bpp ≤ length x.0)
      (λ plain.
        true_color_runs-Gives l (height * width) 0 (height * width) [] r (omega arith)
          (omega arith))
      λ k.
        if-Gives (leb 2 n && leb n 127) _ _ (λ x. height * width * l.bpp ≤ length x.0)
          (λ indexed.
            indexed_runs-Gives l palette (height * width) 0 (height * width) [] r (omega arith)
              (omega arith))
          λ other. tt
