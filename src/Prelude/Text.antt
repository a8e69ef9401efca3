-- ===== src/Prelude/Text.antt =====
-- Text as its code points, and the C string functions that the sources call.
use Prim.Native.String.{String}
use Prim.Native.Char.{code}
use mathlib.Core.List.{List, [], ◌∷◌}
use mathlib.Core.Bool.{◌||◌}
use Prim.Native.Nat.{ℕ}
use cpplua.Prelude.Tests.{◌==◌, if◌then◌else◌}

abbrev pub codes : String → List ℕ
codes String.[] = []
codes (String.◌∷◌ c s) = code c ∷ codes s

-- the part of a line before its first `\n` or `\r`
unfoldable pub first_line : List ℕ → List ℕ
first_line [] = []
first_line (c ∷ s) = if c == b'\n' || c == b'\r' then [] else c ∷ first_line s
