-- ===== src/Prelude/Text.antt =====
-- Texts as the bytes that the programs read; every text that is used is ASCII.
use Prim.Native.Char.{code}
use Prim.Native.String.{String}
use akiso.Prelude.Lists.{Bytes, IsText}
use akiso.Prelude.Tests.{◌==◌}
use mathlib.Core.Bool.{Bool, true, not, ◌&&◌}
use mathlib.Core.Path.{◌≡◌}
use native.Mathlib.Omega.{arith}
use mathlib.Core.List.{[], ◌∷◌}

abbrev pub codes : String → Bytes
codes String.[] = []
codes (String.◌∷◌ c s) = code c ∷ codes s

abbrev pub is_text : Bytes → Bool
is_text [] = true
is_text (c ∷ s) = not (c == 0) && is_text s

-- A concrete text holds no terminator, by evaluation.
pub IsText-is_text : (s : Bytes) → is_text s ≡ true → IsText s
IsText-is_text [] h = tt
IsText-is_text (c ∷ s) h = (ground arith, IsText-is_text s (ground arith))
