-- ===== src/Ntrod/Examples.antt =====
-- The theorem about STP indicators, for a cancellation and an overlay.
use trainsplorer.Prelude.{◌≡◌, ltb, str_lt}
use trainsplorer.Ntrod.Cif.{as_char, overlay, cancellation, discriminant, as_char-discriminant}

as_char-discriminant_example :
    str_lt (as_char cancellation) (as_char overlay)
    ≡ ltb (discriminant overlay) (discriminant cancellation)
as_char-discriminant_example = as_char-discriminant cancellation overlay (λ e. cc) (λ e. cc)
