-- ===== src/Prelude/Texts.antt =====
-- Comparison of texts.
pub use text.Mathlib.Text.{◌==◌ as str_eq}
pub use text.Mathlib.TextEquality.{eq_iff}
pub use text.Mathlib.TextPositions.{eq_refl}
use Prim.Native.String.{String}
use mathlib.Core.Bool.{Bool, true, false}
use mathlib.Core.List.{List, [], ◌∷◌}
use protoconfig.Prelude.Tests.{if◌then◌else◌}

-- Whether a text is one of the list.
abbrev pub contains : String → List String → Bool
contains k [] = false
contains k (p ∷ ps) = if str_eq p k then true else contains k ps
