-- ===== src/Wire/Display.antt =====
-- src/lib.rs: `Display` and `std::error::Error` of `Error`.
use rust_vnc.Common.{
  ℕ, zero, suc, String, List, [], ◌∷◌, Option, none, some, ◌≡◌, refl, sym, subst, ◌↔◌, ◌⊎◌, inl,
  inr,
}
use rust_vnc.Wire.{
  Error, IoErrorKind, io, unexpected, server, authentication_unavailable, authentication_failure,
  disconnected,
}

-- What is written to a formatter, a piece after the other.
pub data Piece : Type 0 where
  literal : String → Piece
  text : List ℕ → Piece

-- `inner.fmt(f)`, of std, is `io_fmt`. `to_string` formats again, so that the depth of the calls is
-- bounded here: `none` is a format that still runs at that depth.
module _ (io_fmt : IoErrorKind → List Piece) where
  unfoldable pub fmt : (depth : ℕ) → Error → Option (List Piece)
  fmt zero e = none
  fmt (suc depth) (io inner) = some (io_fmt inner)
  fmt (suc depth) (unexpected descr) = some (literal "unexpected " ∷ literal descr ∷ [])
  fmt (suc depth) (server descr) = some (literal "server error: " ∷ text descr ∷ [])
  fmt (suc depth) (authentication_failure descr) =
      some (literal "authentication failure: " ∷ text descr ∷ [])
  fmt (suc depth) authentication_unavailable = fmt depth authentication_unavailable
  fmt (suc depth) disconnected = fmt depth disconnected

-- `cause`
unfoldable pub cause : Error → Option IoErrorKind
cause (io inner) = some inner
cause (unexpected descr) = none
cause (server descr) = none
cause authentication_unavailable = none
cause (authentication_failure descr) = none
cause disconnected = none

-- The two errors without a text of their own.
abbrev pub IsWordless : Error → Type 0
IsWordless e = (e ≡ authentication_unavailable) ⊎ (e ≡ disconnected)

-- No depth is enough.
abbrev pub Hangs : (IoErrorKind → List Piece) → Error → Type 0
Hangs io_fmt e = (depth : ℕ) → fmt io_fmt depth e ≡ none

module _ (io_fmt : IoErrorKind → List Piece) where
  unavailable-Hangs : Hangs io_fmt authentication_unavailable
  unfolding fmt
  unavailable-Hangs zero = refl
  unavailable-Hangs (suc depth) = unavailable-Hangs depth

  disconnected-Hangs : Hangs io_fmt disconnected
  unfolding fmt
  disconnected-Hangs zero = refl
  disconnected-Hangs (suc depth) = disconnected-Hangs depth

  worded :
      (e : Error) (pieces : List Piece)
      → fmt io_fmt 1 e ≡ some pieces
      → Hangs io_fmt e
      → IsWordless e
  worded e pieces found h = let never : fmt io_fmt 1 e ≡ none = h 1 in cc

  -- Printing an error calls itself without end, at every depth, exactly where the error is
  -- AuthenticationUnavailable or Disconnected.
  pub fmt-Hangs_iff : (e : Error) → Hangs io_fmt e ↔ IsWordless e
  unfolding fmt
  fmt-Hangs_iff e = (wordless e, hangs e)
    where
      wordless : (e : Error) → Hangs io_fmt e → IsWordless e
      wordless (io inner) h = worded (io inner) _ refl h
      wordless (unexpected descr) h = worded (unexpected descr) _ refl h
      wordless (server descr) h = worded (server descr) _ refl h
      wordless (authentication_failure descr) h = worded (authentication_failure descr) _ refl h
      wordless authentication_unavailable h = inl refl
      wordless disconnected h = inr refl

      hangs : (e : Error) → IsWordless e → Hangs io_fmt e
      hangs e (inl p) = subst (Hangs io_fmt) (sym p) unavailable-Hangs
      hangs e (inr p) = subst (Hangs io_fmt) (sym p) disconnected-Hangs
