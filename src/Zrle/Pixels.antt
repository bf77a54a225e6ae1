-- ===== src/Zrle/Pixels.antt =====
-- src/zrle.rs: the layout of a pixel, and the subencodings of a tile in `Decoder::decode`.
use rust_vnc.Common.{ℕ, zero, suc, ◌+◌, ◌*◌, ◌/◌, ◌%◌, ◌^◌, List, [], ◌++◌, bit_and, bit_or}
use rust_vnc.Common.{Bool, true, false, not, ◌&&◌, if◌then◌else◌, ltb, leb, ◌==◌}
use rust_vnc.Wire.{Result, ok, err, panic, bind, io, unexpected, invalid_data, Reader}
use rust_vnc.Protocol.PixelFormat.{PixelFormat}
use rust_vnc.Zrle.{Bits, read_bit, read_bits, align, read_run_length}
use rust_vnc.Zrle.Palette.{copy_true_color, copy_indexed, read_palette}

-- `bpp`, `compressed_bpp`, and `pad_pixel` as a usize.
pub record Layout : Type 0 where
  pub bpp : ℕ
  pub compressed_bpp : ℕ
  pub pad : ℕ

-- `(max as u32) << shift`: a shift by 32 or more panics, as in a build that checks for it.
unfoldable pub shifted : ℕ → ℕ → Result ℕ
shifted max shift = if ltb shift 32 then ok (max * 2 ^ shift % 2 ^ 32) else panic

unfoldable pub pixel_mask : PixelFormat → Result ℕ
unfolding shifted
pixel_mask f = bind (shifted f.red_max f.red_shift) λ red.
    bind (shifted f.green_max f.green_shift)
      λ green. bind (shifted f.blue_max f.blue_shift) λ blue. ok (bit_or (bit_or red green) blue)

abbrev flag : Bool → ℕ
flag b = if b then 1 else 0

unfoldable pub layout_of : PixelFormat → ℕ → Layout
layout_of f mask =
    if f.bits_per_pixel == 32 && f.true_colour && leb f.depth 24
    then (if bit_and mask 0x000000ff == 0
        then record {
          bpp = f.bits_per_pixel / 8;
          compressed_bpp = 3;
          pad = flag (not f.big_endian);
        }
        else if bit_and mask 0xff000000 == 0
        then record { bpp = f.bits_per_pixel / 8; compressed_bpp = 3; pad = flag f.big_endian }
        else record { bpp = f.bits_per_pixel / 8; compressed_bpp = 4; pad = 0 })
    else record { bpp = f.bits_per_pixel / 8; compressed_bpp = f.bits_per_pixel / 8; pad = 0 }

unfoldable pub pixel_layout : PixelFormat → Result Layout
unfolding pixel_mask layout_of
pixel_layout f = bind (pixel_mask f) λ mask. ok (layout_of f mask)

-- `impl Read for BitReader`: bytes are read from the reader below it, between bytes only.
unfoldable pub through : {A : Type 0} → Reader A → Bits A
through read r =
    if r.position == 8
    then (bind (read r.reader)
        λ (a, rest). ok (a, record { reader = rest; buffer = r.buffer; position = r.position }))
    else err (io invalid_data)

-- `for _ in 0..n { copy_indexed(&palette, &mut pixels, bpp, index) }`
unfoldable pub copy_indexed_times : List ℕ → ℕ → ℕ → ℕ → List ℕ → Result (List ℕ)
copy_indexed_times palette bpp index zero pixels = ok pixels
copy_indexed_times palette bpp index (suc n) pixels =
    bind (copy_indexed palette bpp index pixels) λ more. copy_indexed_times palette bpp index n more

-- `for _ in 0..n { pixels.extend(&pixel) }`
unfoldable pub extend_times : ℕ → List ℕ → List ℕ → List ℕ
extend_times zero pixel pixels = pixels
extend_times (suc n) pixel pixels = extend_times n pixel (pixels ++ pixel)

module _ (bits_per_index : ℕ) (palette : List ℕ) (bpp : ℕ) where
  unfoldable pub indexed_row : ℕ → List ℕ → Bits (List ℕ)
  indexed_row zero pixels r = ok (pixels, r)
  indexed_row (suc width) pixels r =
      bind (read_bits bits_per_index r)
        λ (index, s). bind (copy_indexed palette bpp index pixels) λ more. indexed_row width more s

  -- Each row ends at a whole byte.
  unfoldable pub indexed_rows : ℕ → ℕ → List ℕ → Bits (List ℕ)
  indexed_rows width zero pixels r = ok (pixels, r)
  indexed_rows width (suc height) pixels r =
      bind (indexed_row width pixels r) λ (more, s). indexed_rows width height more (align s)

unfoldable pub bits_per_index : ℕ → ℕ
bits_per_index palette_size = if palette_size == 2 then 1 else if leb palette_size 4 then 2 else 4

-- `while count < pixel_count`: each run has a pixel at least, so that the pixel count bounds the
-- rounds.
unfoldable pub true_color_runs : Layout → ℕ → ℕ → ℕ → List ℕ → Bits (List ℕ)
unfolding extend_times
true_color_runs l zero count pixel_count pixels r = ok (pixels, r)
true_color_runs l (suc fuel) count pixel_count pixels r =
    if ltb count pixel_count
    then (bind (through (copy_true_color l.pad l.compressed_bpp l.bpp []) r) λ (pixel, s).
        bind (through read_run_length s) λ (run_length, t).
          true_color_runs l fuel (count + run_length) pixel_count
            (extend_times run_length pixel pixels) t)
    else ok (pixels, r)

unfoldable pub indexed_run_length : Bool → Bits ℕ
unfolding through
indexed_run_length true r = through read_run_length r
indexed_run_length false r = ok (1, r)

unfoldable pub indexed_runs : Layout → List ℕ → ℕ → ℕ → ℕ → List ℕ → Bits (List ℕ)
unfolding indexed_run_length copy_indexed_times
indexed_runs l palette zero count pixel_count pixels r = ok (pixels, r)
indexed_runs l palette (suc fuel) count pixel_count pixels r =
    if ltb count pixel_count
    then (bind (read_bit r) λ (longer_than_one, s). bind (read_bits 7 s) λ (index, t).
        bind (indexed_run_length longer_than_one t) λ (run_length, u).
          bind (copy_indexed_times palette l.bpp index run_length pixels)
            λ more. indexed_runs l palette fuel (count + run_length) pixel_count more u)
    else ok (pixels, r)

-- The arms of the match on the subencoding.
unfoldable pub tile_pixels : Layout → (width height : ℕ) → Bool → ℕ → List ℕ → Bits (List ℕ)
unfolding through copy_indexed_times indexed_rows bits_per_index true_color_runs indexed_runs
tile_pixels l width height false palette_size palette r =
    if palette_size == 0
    then through (read_palette l.pad l.compressed_bpp l.bpp (height * width) []) r
    else if palette_size == 1
    then (bind (copy_indexed_times palette l.bpp 0 (height * width) []) λ pixels. ok (pixels, r))
    else if leb palette_size 16
    then indexed_rows (bits_per_index palette_size) palette l.bpp width height [] r
    else err (unexpected "ZRLE subencoding")
tile_pixels l width height true palette_size palette r =
    if palette_size == 0
    then true_color_runs l (height * width) 0 (height * width) [] r
    else if leb 2 palette_size && leb palette_size 127
    then indexed_runs l palette (height * width) 0 (height * width) [] r
    else err (unexpected "ZRLE subencoding")
