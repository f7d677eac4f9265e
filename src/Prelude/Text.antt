-- ===== src/Prelude/Text.antt =====
-- Texts by their code points, with Go's strings.ToLower and strings.EqualFold on ASCII, which the
-- namespaces and the names of clients are.
use Prim.Native.Char.{code}
use Prim.Native.Nat.{ℕ, ◌+◌}
use Prim.Native.String.{String}
use mathlib.Core.Bool.{Bool, true, false, ◌&&◌}
use mathlib.Core.List.{List, [], ◌∷◌, map}
use nn_friends.Prelude.Tests.{leb, nat_beq, if◌then◌else◌}

abbrev pub codes : String → List ℕ
codes String.[] = []
codes (String.◌∷◌ c s) = code c ∷ codes s

abbrev pub lower : ℕ → ℕ
lower c = if leb b'A' c && leb c b'Z' then c + 32 else c

abbrev pub same_codes : List ℕ → List ℕ → Bool
same_codes [] [] = true
same_codes (c ∷ cs) (d ∷ ds) = nat_beq c d && same_codes cs ds
same_codes _ _ = false

abbrev pub equal_fold : String → String → Bool
equal_fold s t = same_codes (map lower (codes s)) (map lower (codes t))
