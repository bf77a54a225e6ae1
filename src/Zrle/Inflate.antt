-- ===== src/Zrle/Inflate.antt =====
-- src/zrle.rs: `ZlibReader`, and std's `read_exact` on it.
use rust_vnc.Common.{ℕ, zero, suc, ◌-◌, List, [], ◌∷◌, ◌++◌, length, drop, leb, if◌then◌else◌}
use rust_vnc.Wire.{Result, ok, err, panic, io, unexpected, unexpected_eof, invalid_data}
use rust_vnc.Wire.Session.{Action, continue, ◌>>=◌, return, throw}
pub mod Delivers

-- What `Decompress::decompress` of flate2 returns; `failed` is its error.
pub data Status : Type 0 where
  status_ok buf_error stream_end failed : Status

-- A call, by what it adds to `total_in` and writes to the output, with `total_out`.
pub record Outcome (D : Type 0) : Type 0 where
  pub status : Status
  pub consumed : ℕ
  pub produced : List ℕ
  pub decompressor : D

-- flate2's `decompress`, without a flush, on some input and an output with room for so many bytes.
abbrev pub Decompress : Type 0 → Type 0
Decompress D = D → List ℕ → ℕ → Outcome D

pub record ZlibReader (D : Type 0) : Type 0 where
  pub decompressor : D
  pub input : List ℕ

-- What is returned for a call, and how many bytes of the output count.
abbrev pub delivered : Status → List ℕ → Result (List ℕ)
delivered status_ok produced = ok produced
delivered buf_error produced = ok []
delivered stream_end produced = err (io invalid_data)
delivered failed produced = err (io invalid_data)

module _ {D : Type 0} where
  unfoldable pub into_inner : ZlibReader D → Result D
  into_inner r = elim r.input [
    | [] ↦ ok r.decompressor
    | b ∷ input ↦ err (unexpected "leftover ZRLE byte data")
  ]

  module _ (decompress : Decompress D) where
    -- `Read::read` into an output of `room` bytes; the slice behind `consumed` may panic.
    unfoldable pub read : ℕ → Action (ZlibReader D) (List ℕ)
    read room r =
        let o = decompress r.decompressor r.input room in
        if leb o.consumed (length r.input)
        then (
          delivered o.status o.produced,
          record { decompressor = o.decompressor; input = drop o.consumed r.input },
        )
        else (panic, record r { decompressor = o.decompressor })

    -- `Read::read_exact` of std: it reads until the output is full or nothing is read. A round
    -- that goes on has read a byte, so that `room` rounds are enough.
    unfoldable pub read_loop : (fuel room : ℕ) → List ℕ → Action (ZlibReader D) (List ℕ)
    unfolding read
    read_loop zero room bytes = return bytes
    read_loop (suc fuel) zero bytes = return bytes
    read_loop (suc fuel) (suc room) bytes = do
      more ← read (suc room)
      elim more [
        | [] ↦ throw (io unexpected_eof)
        | b ∷ bs ↦ read_loop fuel (suc room - length (b ∷ bs)) (bytes ++ (b ∷ bs))
      ]

    unfoldable pub read_exact : ℕ → Action (ZlibReader D) (List ℕ)
    unfolding read_loop
    read_exact n = read_loop n n []
