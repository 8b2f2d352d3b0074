-- ===== src/Common/Texts.antt =====
-- Texts as lists of characters.
use Prim.Native.Char.{Char}
use Prim.Native.String.{String}
use mathlib.Core.Path.{◌≡◌, refl, ap}
use mathlib.Core.List.{List, [], ◌∷◌}

abbrev pub to_chars : String → List Char
to_chars String.[] = []
to_chars (String.◌∷◌ c s) = c ∷ to_chars s

abbrev pub from_chars : List Char → String
from_chars [] = String.[]
from_chars (c ∷ s) = String.◌∷◌ c (from_chars s)

pub to_chars-from_chars : (s : List Char) → to_chars (from_chars s) ≡ s
to_chars-from_chars [] = refl
to_chars-from_chars (c ∷ s) = ap (λ r. c ∷ r) (to_chars-from_chars s)
