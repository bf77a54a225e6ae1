-- ===== src/Wire/Tests.antt =====
-- Errors of src/lib.rs at concrete inputs.
use rust_vnc.Common.{[], ◌∷◌, some, ◌≡◌, refl, ◌↔◌}
use rust_vnc.Wire.{authentication_unavailable, unexpected}
use rust_vnc.Wire.Display.{fmt, literal, Hangs, IsWordless, fmt-Hangs_iff}

fmt-Hangs_iff_example :
    Hangs (λ kind. []) authentication_unavailable ↔ IsWordless authentication_unavailable
fmt-Hangs_iff_example = fmt-Hangs_iff (λ kind. []) authentication_unavailable

-- An error with a text of its own is printed.
printed : fmt (λ kind. []) 1 (unexpected "end") ≡ some (literal "unexpected " ∷ literal "end" ∷ [])
unfolding fmt
printed = refl
