-- ===== src/Zrle/Tiles.antt =====
-- src/zrle.rs: the tiles of a rectangle.
use rust_vnc.Common.{Bool, true, false, ltb, lt→ltb}
use rust_vnc.Wire.{Result, err, Rect}
use rust_vnc.Wire.Session.{Action, continue, ◌>>=◌, return}
use rust_vnc.Zrle.Pixels.{Layout}
use rust_vnc.Zrle.Decode.{Decoding, decode_tile, decode_columns, decode_rows, attempt}
use rust_vnc.Common.{ℕ, zero, suc, ◌+◌, ◌-◌, ◌*◌, ◌/◌, ◌%◌, ◌<◌, ◌≤◌, List, [], ◌∷◌, ◌∙◌}
use rust_vnc.Common.{◌≡◌, refl, sym, ap, ap₂, arith, replicate, ◌++◌}
use Prim.Native.Nat.{min}
use rust_vnc.Common.{All, All-append, All-replicate, ◌⊎◌, inl, inr}
use rust_vnc.Wire.{ok, panic}
use rust_vnc.Zrle.{tile_extent}

-- Whole tiles of 64, and a last one where something is left.
abbrev pub last_extent : ℕ → List ℕ
last_extent zero = []
last_extent (suc n) = suc n ∷ []

abbrev pub extents : ℕ → List ℕ
extents size = replicate (size / 64) 64 ++ last_extent (size % 64)

abbrev pub sum : List ℕ → ℕ
sum [] = 0
sum (n ∷ ns) = n + sum ns

abbrev pub IsExtent : ℕ → Type 0
IsExtent n = (1 ≤ n) × (n ≤ 64)

extents_whole : (size : ℕ) → 64 ≤ size → extents size ≡ 64 ∷ extents (size - 64)
extents_whole size h =
    let q : size / 64 ≡ suc ((size - 64) / 64) = omega arith in
    let r : size % 64 ≡ (size - 64) % 64 = omega arith in
    ap₂ (λ q r. replicate q 64 ++ last_extent r) q r

extents_last : (size : ℕ) → 1 ≤ size → size < 64 → extents size ≡ size ∷ []
extents_last zero h k = absurd (omega arith)
extents_last (suc n) h k =
    let q : suc n / 64 ≡ 0 = omega arith in
    let r : suc n % 64 ≡ suc n = omega arith in ap₂ (λ q r. replicate q 64 ++ last_extent r) q r

sum-extents_aux : (q r : ℕ) → sum (replicate q 64 ++ last_extent r) ≡ q * 64 + r
sum-extents_aux zero zero = refl
sum-extents_aux zero (suc r) = omega arith
sum-extents_aux (suc q) r = omega (arith, sum-extents_aux q r)

last_extent-IsExtent : (r : ℕ) → r < 64 → All IsExtent (last_extent r)
last_extent-IsExtent zero h = tt
last_extent-IsExtent (suc r) h = ((omega arith, omega arith), tt)

-- The first of the extents is taken off.
extents_round : (n : ℕ) → 1 ≤ n → min n 64 ∷ extents (n - min n 64) ≡ extents n
extents_round n h = elim few [ inl small ↦ last small | inr large ↦ whole large ]
  where
    few : (n < 64) ⊎ (64 ≤ n)
    few = ground arith

    last : n < 64 → min n 64 ∷ extents (n - min n 64) ≡ extents n
    last small =
        let m : min n 64 ≡ n = omega arith in
        let z : n - min n 64 ≡ 0 = omega arith in
        ap₂ (λ a b. a ∷ extents b) m z ∙ sym (extents_last n h small)

    whole : 64 ≤ n → min n 64 ∷ extents (n - min n 64) ≡ extents n
    whole large =
        let m : min n 64 ≡ 64 = omega arith in
        ap (λ a. a ∷ extents (n - a)) m ∙ sym (extents_whole n large)

extents_cover : (size : ℕ) → (sum (extents size) ≡ size) × All IsExtent (extents size)
extents_cover size = (
  omega (arith, sum-extents_aux (size / 64) (size % 64)),
  All-append IsExtent (replicate (size / 64) 64) (last_extent (size % 64))
      (All-replicate IsExtent (size / 64) 64 (omega arith, omega arith))
      (last_extent-IsExtent (size % 64) (omega arith)),
)

from_0 : (size : ℕ) → extents (size - 0) ≡ extents size
from_0 size = let all : size - 0 ≡ size = omega arith in ap extents all

ltb_not : (a b : ℕ) → a ≤ b → ltb b a ≡ false
ltb_not a b h = ground arith

-- An action for each extent, from a position on, until one says that no more are wanted.
abbrev pub each : {S : Type 0} → (ℕ → ℕ → Action S Bool) → ℕ → List ℕ → Action S Bool
each act position [] = return true
each act position (extent ∷ extents) = act position extent >>= λ more. (elim more [
  | true ↦ each act (position + extent) extents
  | false ↦ return false
])

-- An extent that does not reach behind 65536 is taken without a panic.
tile_extent_lem :
    (size position : ℕ)
    → position < size
    → size ≤ 65472
    → tile_extent size position ≡ ok (min (size - position) 64)
unfolding tile_extent
tile_extent_lem size position h fits = ground arith

-- What follows an action may be replaced where it does the same.
replaced :
    {S : Type 0} (q : Result Bool × S) (m n : Action S Bool)
    → ((s : S) → m s ≡ n s)
    → continue q (λ more. elim more [ true ↦ m | false ↦ return false ])
      ≡ continue q (λ more. elim more [ true ↦ n | false ↦ return false ])
replaced (ok true, s) m n h = h s
replaced (ok false, s) m n h = refl
replaced (err e, s) m n h = refl
replaced (panic, s) m n h = refl

-- Two actions that do the same for each extent.
each_same :
    {S : Type 0} (f g : ℕ → ℕ → Action S Bool) (position : ℕ) (es : List ℕ) (s : S)
    → ((p e : ℕ) (s : S) → f p e s ≡ g p e s)
    → each f position es s ≡ each g position es s
each_same f g position [] s h = refl
each_same f g position (e ∷ es) s h = rw (h position e s) (
    replaced (g position e s) (each f (position + e) es) (each g (position + e) es)
      λ s. each_same f g (position + e) es s h)

-- A round of a loop over tiles, where the rounds behind it go through the extents that are left.
round_lem :
    {S : Type 0} (act : ℕ → ℕ → Action S Bool) (size position : ℕ) (loop : ℕ → Action S Bool)
    (d : S)
    → position < size
    → size ≤ 65472
    → ((s : S)
        → loop (position + min (size - position) 64) s
          ≡ each act
              (position + min (size - position) 64)
              (extents (size - (position + min (size - position) 64)))
              s)
    → (attempt (tile_extent size position) >>= λ extent. act position extent >>= λ more.
          (elim more [ true ↦ loop (position + extent) | false ↦ return false ]))
        d
      ≡ each act position (extents (size - position)) d
round_lem act size position loop d some fits later =
    let extent : ℕ = min (size - position) 64 in
    let left : size - (position + extent) ≡ size - position - extent = omega arith in
    rw (tile_extent_lem size position some fits) (
      replaced (act position extent d) (loop (position + extent)) _ later
      ∙ ap (λ es. each act position es d)
          (ap (λ n. extent ∷ extents n) left ∙ extents_round (size - position) (omega arith)))

module _ {C : Type 0} (callback : Rect → List ℕ → Action C Bool) (l : Layout) (rect : Rect) where
  columns_lem :
      (fuel x y height : ℕ) (d : Decoding C)
      → x ≤ rect.width
      → rect.width - x ≤ fuel
      → rect.width ≤ 65472
      → decode_columns callback l rect fuel x y height d
        ≡ each
            (λ x width. decode_tile callback l rect x y width height)
            x
            (extents (rect.width - x))
            d
  unfolding decode_columns
  columns_lem zero x y height d h enough fits =
      let none_left : rect.width - x ≡ 0 = omega arith in rw none_left refl
  columns_lem (suc fuel) x y height d h enough fits = elim left [
    | inl none ↦
        (let all : rect.width - x ≡ 0 = omega arith in rw (all, ltb_not rect.width x none) refl)
    | inr some ↦ rw (lt→ltb x rect.width some) (
        round_lem (λ x width. decode_tile callback l rect x y width height) rect.width x
          (λ x. decode_columns callback l rect fuel x y height) d some fits
          λ s.
            columns_lem fuel (x + min (rect.width - x) 64) y height s (omega arith) (omega arith)
              fits)
  ]
    where
      left : (rect.width ≤ x) ⊎ (x < rect.width)
      left = ground arith

  rows_lem :
      (fuel y : ℕ) (d : Decoding C)
      → y ≤ rect.height
      → rect.height - y ≤ fuel
      → rect.height ≤ 65472
      → decode_rows callback l rect fuel y d
        ≡ each (decode_columns callback l rect rect.width 0) y (extents (rect.height - y)) d
  unfolding decode_rows
  rows_lem zero y d h enough fits =
      let none_left : rect.height - y ≡ 0 = omega arith in rw none_left refl
  rows_lem (suc fuel) y d h enough fits = elim left [
    | inl none ↦
        (let all : rect.height - y ≡ 0 = omega arith in rw (all, ltb_not rect.height y none) refl)
    | inr some ↦ rw (lt→ltb y rect.height some) (
        round_lem (decode_columns callback l rect rect.width 0) rect.height y
          (λ y. decode_rows callback l rect fuel y) d some fits
          λ s. rows_lem fuel (y + min (rect.height - y) 64) s (omega arith) (omega arith) fits)
  ]
    where
      left : (rect.height ≤ y) ⊎ (y < rect.height)
      left = ground arith

  -- A rectangle with sides of at most 65472 is decoded tile by tile, the rows from the top and each
  -- from the left, until a tile fails or the callback wants no more. Each side is cut into whole
  -- extents of 64 and a last one: each is between 1 and 64, and together they are the side. The
  -- rounds of both loops suffice.
  pub decode_rows-each :
      (d : Decoding C)
      → rect.width ≤ 65472
      → rect.height ≤ 65472
      → (decode_rows callback l rect rect.height 0 d
          ≡ each
              (λ y height.
                each
                  (λ x width. decode_tile callback l rect x y width height)
                  0
                  (extents rect.width))
              0
              (extents rect.height)
              d)
        × ((sum (extents rect.width) ≡ rect.width) × (All IsExtent (extents rect.width)))
        × ((sum (extents rect.height) ≡ rect.height) × (All IsExtent (extents rect.height)))
  decode_rows-each d narrow low = (
    rows_lem rect.height 0 d (omega arith) (omega arith) low
        ∙ ap (λ es. each (decode_columns callback l rect rect.width 0) 0 es d) (from_0 rect.height)
        ∙ each_same (decode_columns callback l rect rect.width 0) _ 0 (extents rect.height) d
            (λ y height s.
              columns_lem rect.width 0 y height s (omega arith) (omega arith) narrow
              ∙ ap (λ es. each (λ x width. decode_tile callback l rect x y width height) 0 es s)
                  (from_0 rect.width)),
    extents_cover rect.width,
    extents_cover rect.height,
  )
