-- ===== src/Zrle/Runs.antt =====
-- src/zrle.rs: run lengths.
use rust_vnc.Common.{ℕ, zero, suc, ◌+◌, ◌-◌, ◌*◌, ◌/◌, ◌%◌, ◌<◌, ◌≤◌, List, [], ◌∷◌, ◌++◌}
use rust_vnc.Common.{ap, ◌∙◌, arith, replicate}
use rust_vnc.Wire.{ok}
use rust_vnc.Wire.RoundTrip.{Reads}
use rust_vnc.Zrle.{run_length_loop, read_run_length}

-- The bytes for a run of `n` pixels: `n - 1` as a sum of bytes 255 and one smaller byte.
abbrev pub run_length_bytes : ℕ → List ℕ
run_length_bytes n = replicate ((n - 1) / 255) 255 ++ ((n - 1) % 255) ∷ []

run_length_loop-append :
    (full last total : ℕ)
    → last < 255
    → Reads (run_length_loop total) (replicate full 255 ++ last ∷ []) (total + full * 255 + last)
unfolding run_length_loop
run_length_loop-append zero last total h rest = ground arith
run_length_loop-append (suc full) last total h rest =
    run_length_loop-append full last (total + 255) h rest ∙ ap (λ n. ok (n, rest)) (omega arith)

-- The bytes for a run of `n` pixels, for `n` of at least 1, are read as `n`, and nothing behind them
-- is read.
pub read_run_length_lem : (n : ℕ) → 1 ≤ n → Reads read_run_length (run_length_bytes n) n
unfolding read_run_length
read_run_length_lem n h rest =
    run_length_loop-append ((n - 1) / 255) ((n - 1) % 255) 1 (omega arith) rest
    ∙ ap (λ k. ok (k, rest)) (omega arith)
