-- ===== src/Zrle/Inflate/Delivers.antt =====
-- src/zrle.rs: a `ZlibReader` delivers what its data inflates to.
use rust_vnc.Common.{
  ℕ, zero, suc, ◌+◌, ◌-◌, ◌≤◌, List, [], ◌∷◌, ◌++◌, length, drop, ◌≡◌, refl, ap, sym, ◌∙◌, arith,
  le→leb, append-nil, append_assoc,
}
use rust_vnc.Wire.{
  IoErrorKind, Result, ok, err, panic, Input, ends, byte, feed, io, unexpected_eof, bind,
  feed-append,
}
use rust_vnc.Wire
use rust_vnc.Wire.Session.{Action, continue, ◌>>=◌, return, throw}
use rust_vnc.Zrle.Inflate.{
  Status, status_ok, buf_error, stream_end, failed, Outcome, Decompress, ZlibReader, delivered,
  read, read_loop, read_exact,
}

-- The bytes that a read returns, behind others.
abbrev after_bytes : List ℕ → Result (List ℕ × Input) → Result (List ℕ × Input)
after_bytes front r = bind r λ (bs, i). ok (front ++ bs, i)

after_bytes_nil : (r : Result (List ℕ × Input)) → r ≡ after_bytes [] r
after_bytes_nil (ok x) = refl
after_bytes_nil (err e) = refl
after_bytes_nil panic = refl

after_bytes-append :
    (xs ys : List ℕ) (r : Result (List ℕ × Input))
    → after_bytes xs (after_bytes ys r) ≡ after_bytes (xs ++ ys) r
after_bytes-append xs ys (ok (bs, i)) = ap (λ t. ok (t, i)) (sym (append_assoc xs ys bs))
after_bytes-append xs ys (err e) = refl
after_bytes-append xs ys panic = refl

-- Reading the first bytes of a stream that starts with them.
read_front :
    (front : List ℕ) (rest : Input) (n : ℕ)
    → length front ≤ n
    → Wire.read_exact n (feed front rest)
      ≡ after_bytes front (Wire.read_exact (n - length front) rest)
unfolding Wire.read_exact
read_front [] rest n h =
    let all : n ≡ n - 0 = omega arith in
    ap (λ m. Wire.read_exact m rest) all ∙ after_bytes_nil (Wire.read_exact (n - 0) rest)
read_front (b ∷ front) rest zero h = ground arith
read_front (b ∷ front) rest (suc n) h =
    let left : n - length front ≡ suc n - suc (length front) = omega arith in
    ap (after_bytes (b ∷ [])) (read_front front rest n (omega arith))
    ∙ (after_bytes-append (b ∷ []) front (Wire.read_exact (n - length front) rest)
        ∙ ap (λ m. after_bytes (b ∷ front) (Wire.read_exact m rest)) left)

-- A stream that has ended gives no more bytes.
read_ended : (n : ℕ) (k : IoErrorKind) → Wire.read_exact (suc n) (ends k) ≡ err (io k)
unfolding Wire.read_exact
read_ended n k = refl

-- Reads of several sizes, one behind the other.
abbrev pub read_sizes : {D : Type 0} → Decompress D → List ℕ → Action (ZlibReader D) (List ℕ)
read_sizes decompress [] = return []
read_sizes decompress (n ∷ sizes) = do
  bytes ← read_exact decompress n
  more ← read_sizes decompress sizes
  return (bytes ++ more)

abbrev pub total : List ℕ → ℕ
total [] = 0
total (n ∷ sizes) = n + total sizes

-- A read in two parts.
read_parts :
    (m n : ℕ) (i : Input)
    → Wire.read_exact (m + n) i
      ≡ bind (Wire.read_exact m i) λ (bs, j). after_bytes bs (Wire.read_exact n j)
unfolding Wire.read_exact
read_parts zero n i =
    let all : 0 + n ≡ n = omega arith in
    ap (λ k. Wire.read_exact k i) all ∙ after_bytes_nil (Wire.read_exact n i)
read_parts (suc m) n (ends k) =
    let one_more : suc m + n ≡ suc (m + n) = omega arith in
    ap (λ t. Wire.read_exact t (ends k)) one_more
read_parts (suc m) n (byte b i) =
    let one_more : suc m + n ≡ suc (m + n) = omega arith in
    ap (λ t. Wire.read_exact t (byte b i)) one_more
    ∙ (ap (after_bytes (b ∷ [])) (read_parts m n i) ∙ parts (Wire.read_exact m i))
  where
    parts :
        (r : Result (List ℕ × Input))
        → after_bytes (b ∷ []) (bind r λ (bs, j). after_bytes bs (Wire.read_exact n j))
          ≡ bind (after_bytes (b ∷ []) r) λ (bs, j). after_bytes bs (Wire.read_exact n j)
    parts (ok (bs, j)) = after_bytes-append (b ∷ []) bs (Wire.read_exact n j)
    parts (err e) = refl
    parts panic = refl

module _ {D : Type 0} (decompress : Decompress D) (plain : D → List ℕ → List ℕ)
    (IsWhole : D → List ℕ → Type 0) where
  -- What a call says of the bytes `all` that its input inflates to, where it has produced some and
  -- the others are left. It produces none only where there are none.
  abbrev pub Shows : Status → (all produced left : List ℕ) → Type 0
  Shows status_ok all produced left = (all ≡ produced ++ left) × (produced ≡ [] → all ≡ [])
  Shows buf_error all produced left = all ≡ []
  Shows stream_end all produced left = ⊥
  Shows failed all produced left = ⊥

  -- On data that is sound and does not end its zlib stream, a call uses no more than its input and
  -- its output, shows bytes of the data, and leaves such data behind.
  pub record Inflates : Type 0 where
    pub uses :
        (d : D) (input : List ℕ) (room : ℕ)
        → IsWhole d input
        → (decompress d input room).consumed ≤ length input
    pub fits :
        (d : D) (input : List ℕ) (room : ℕ) → length (decompress d input room).produced ≤ room
    pub shows :
        (d : D) (input : List ℕ) (room : ℕ)
        → IsWhole d input
        → let o = decompress d input (suc room) in
          Shows o.status (plain d input) o.produced (plain o.decompressor (drop o.consumed input))
    pub leaves :
        (d : D) (input : List ℕ) (room : ℕ)
        → IsWhole d input
        → let o = decompress d input room in IsWhole o.decompressor (drop o.consumed input)

  -- A reader, as the stream that it still delivers.
  abbrev pub stream : ZlibReader D → Input
  stream r = feed (plain r.decompressor r.input) (ends unexpected_eof)

  abbrev pub seen : {A : Type 0} → Result A × ZlibReader D → Result (A × Input)
  seen (ok a, r) = ok (a, stream r)
  seen (err e, r) = err e
  seen (panic, r) = panic

  abbrev pub Whole : ZlibReader D → Type 0
  Whole r = IsWhole r.decompressor r.input

  -- The reader is whole where it goes on.
  abbrev Goes : {A : Type 0} → Result A × ZlibReader D → Type 0
  Goes (ok a, r) = Whole r
  Goes (err e, r) = Unit {0}
  Goes (panic, r) = Unit {0}

  -- The loop reads what is left of the stream, behind what it has.
  abbrev ReadsOn : ℕ → ℕ → Type 0
  ReadsOn fuel room =
      (bytes : List ℕ) (r : ZlibReader D)
      → Whole r
      → (seen (read_loop decompress fuel room bytes r)
          ≡ after_bytes bytes (Wire.read_exact room (stream r)))
        × Goes (read_loop decompress fuel room bytes r)

  module _ (lawful : Inflates) where
    one_call :
        (fuel room : ℕ) (bytes : List ℕ) (s : Status) (p all : List ℕ) (r : ZlibReader D)
        → length p ≤ suc room
        → Whole r
        → Shows s all p (plain r.decompressor r.input)
        → ((k : ℕ) → k ≤ fuel → ReadsOn fuel k)
        → room ≤ fuel
        → let q : Result (List ℕ) × ZlibReader D =
            continue
              (delivered s p, r)
              λ more. elim more as (λ _. Action (ZlibReader D) (List ℕ)) [
                | [] ↦ throw (io unexpected_eof)
                | b ∷ bs ↦
                    read_loop decompress fuel (suc room - length (b ∷ bs)) (bytes ++ (b ∷ bs))
              ] in
          (seen q ≡ after_bytes bytes (Wire.read_exact (suc room) (feed all (ends unexpected_eof))))
          × Goes q
    one_call fuel room bytes status_ok [] all r fits whole shown ih small =
        (rw (shown.1 refl) (ap (after_bytes bytes) (sym (read_ended room unexpected_eof))), tt)
    one_call fuel room bytes status_ok (b ∷ bs) all r fits whole shown ih small =
        let left : ℕ = suc room - length (b ∷ bs) in
        let later = ih left (omega arith) (bytes ++ (b ∷ bs)) r whole in
        let parts : feed all (ends unexpected_eof) ≡ feed (b ∷ bs) (stream r) =
          ap (λ t. feed t (ends unexpected_eof)) shown.0
          ∙ feed-append (b ∷ bs) (plain r.decompressor r.input) (ends unexpected_eof) in
        (
          later.0
              ∙ (sym (after_bytes-append bytes (b ∷ bs) (Wire.read_exact left (stream r)))
                  ∙ ap (after_bytes bytes) (
                      sym (read_front (b ∷ bs) (stream r) (suc room) fits)
                      ∙ ap (Wire.read_exact (suc room)) (sym parts))),
          later.1,
        )
    one_call fuel room bytes buf_error p all r fits whole shown ih small =
        (rw shown (ap (after_bytes bytes) (sym (read_ended room unexpected_eof))), tt)
    one_call fuel room bytes stream_end p all r fits whole shown ih small = absurd shown
    one_call fuel room bytes failed p all r fits whole shown ih small = absurd shown

    read_loop_lem : (fuel room : ℕ) → room ≤ fuel → ReadsOn fuel room
    unfolding read_loop read Wire.read_exact
    read_loop_lem zero zero h bytes r w =
        (ap (λ (t : List ℕ). ok (t, stream r)) (sym (append-nil bytes)), w)
    read_loop_lem zero (suc room) h bytes r w = absurd (omega arith)
    read_loop_lem (suc fuel) zero h bytes r w =
        (ap (λ (t : List ℕ). ok (t, stream r)) (sym (append-nil bytes)), w)
    read_loop_lem (suc fuel) (suc room) h bytes r w =
        let o : Outcome D = decompress r.decompressor r.input (suc room) in
        rw (le→leb o.consumed (length r.input) (lawful.uses r.decompressor r.input (suc room) w)) (
          one_call fuel room bytes o.status o.produced (plain r.decompressor r.input)
            (record { decompressor = o.decompressor; input = drop o.consumed r.input })
            (lawful.fits r.decompressor r.input (suc room))
            (lawful.leaves r.decompressor r.input (suc room) w)
            (lawful.shows r.decompressor r.input room w) (λ k small. read_loop_lem fuel k small)
            (omega arith))

    read_exact_lem :
        (n : ℕ) (r : ZlibReader D)
        → Whole r
        → (seen (read_exact decompress n r) ≡ Wire.read_exact n (stream r))
          × Goes (read_exact decompress n r)
    unfolding read_exact
    read_exact_lem n r w =
        let whole = read_loop_lem n n (omega arith) [] r w in
        (whole.0 ∙ sym (after_bytes_nil (Wire.read_exact n (stream r))), whole.1)

    -- A reader delivers the bytes that its compressed data inflates to, however many are asked for
    -- at a time and however flate2 splits its output, and fails with UnexpectedEof where they end.
    -- The reader that is left delivers the rest. The data is sound and does not end its zlib stream;
    -- on such data, flate2 uses no more than its input and its room, produces bytes of the data in
    -- order, and none only where there are none.
    pub read_sizes-stream :
        (sizes : List ℕ) (r : ZlibReader D)
        → Whole r
        → seen (read_sizes decompress sizes r) ≡ Wire.read_exact (total sizes) (stream r)
    unfolding Wire.read_exact
    read_sizes-stream [] r w = refl
    read_sizes-stream (n ∷ sizes) r w =
        after (read_exact decompress n r) (read_exact_lem n r w).0 (read_exact_lem n r w).1
          (λ r' w'. read_sizes-stream sizes r' w')
        ∙ sym (read_parts n (total sizes) (stream r))
      where
        behind_read :
            (bytes : List ℕ) (q : Result (List ℕ) × ZlibReader D) (w : Result (List ℕ × Input))
            → seen q ≡ w
            → seen (continue q λ more. return (bytes ++ more)) ≡ after_bytes bytes w
        behind_read bytes (ok more, q) w e = ap (after_bytes bytes) e
        behind_read bytes (err k, q) w e = ap (after_bytes bytes) e
        behind_read bytes (panic, q) w e = ap (after_bytes bytes) e

        after :
            (q : Result (List ℕ) × ZlibReader D)
            → seen q ≡ Wire.read_exact n (stream r)
            → Goes q
            → ((r' : ZlibReader D)
                → Whole r'
                → seen (read_sizes decompress sizes r') ≡ Wire.read_exact (total sizes) (stream r'))
            → seen (
                continue q
                  λ bytes. (read_sizes decompress sizes >>= λ more. return (bytes ++ more)))
              ≡ bind
                  (Wire.read_exact n (stream r))
                  λ (bs, j). after_bytes bs (Wire.read_exact (total sizes) j)
        after (ok bytes, q) e goes ih =
            rw (← e) (behind_read bytes (read_sizes decompress sizes q) _ (ih q goes))
        after (err k, q) e goes ih = rw (← e) refl
        after (panic, q) e goes ih = rw (← e) refl
