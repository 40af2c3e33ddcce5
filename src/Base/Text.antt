-- ===== src/Base/Text.antt =====
-- Texts as their code points, for what the code does to the letters of a text.
use Prim.Native.Char.{code}
use Prim.Native.Nat.{ℕ, ◌+◌}
use Prim.Native.String.{String}
use mathlib.Core.Bool.{Bool, true, false, ◌&&◌}
use mathlib.Core.List.{List, [], ◌∷◌}
use routerbot.Base.Tests.{if◌then◌else◌, leb, eqb}

-- `String` has its own `[]` and `∷`.
abbrev pub codes : String → List ℕ
codes String.[] = []
codes (String.◌∷◌ c s) = code c ∷ codes s

-- str.lower() on the letters A to Z. The texts that it is compared with are of such letters, and none
-- of another alphabet has one of theirs for its lower case.
abbrev pub lower : String → List ℕ
lower String.[] = []
lower (String.◌∷◌ c s) =
    (if leb b'A' (code c) && leb (code c) b'Z' then code c + 32 else code c) ∷ lower s

abbrev pub same_codes : List ℕ → List ℕ → Bool
same_codes [] [] = true
same_codes [] (b ∷ bs) = false
same_codes (a ∷ cs) [] = false
same_codes (a ∷ cs) (b ∷ bs) = eqb a b && same_codes cs bs
