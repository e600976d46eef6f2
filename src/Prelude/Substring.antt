-- ===== src/Prelude/Substring.antt =====
-- Python's `in` on texts and `str.lower`, over the code points of ASCII texts.
use Prim.Native.Nat.{ℕ, ◌+◌}
use Prim.Native.Char.{code}
use Prim.Native.String.{String}
use mathlib.Core.Bool.{Bool, true, false, ◌&&◌, ◌||◌}
use mathlib.Core.List.{List, [], ◌∷◌, map}
use mathlib.Core.Path.{◌≡◌, refl}
use job_agent.Prelude.Tests.{leb, eqb, if◌then◌else◌}

abbrev pub codes : String → List ℕ
codes String.[] = []
codes (String.◌∷◌ c s) = code c ∷ codes s

-- `str.lower` on one ASCII code point.
to_lower : ℕ → ℕ
to_lower c = if leb b'A' c && leb c b'Z' then c + 32 else c

is_prefix : List ℕ → List ℕ → Bool
is_prefix [] text = true
is_prefix (p ∷ ps) [] = false
is_prefix (p ∷ ps) (c ∷ cs) = eqb p c && is_prefix ps cs

is_infix : List ℕ → List ℕ → Bool
is_infix part [] = is_prefix part []
is_infix part (c ∷ cs) = is_prefix part (c ∷ cs) || is_infix part cs

-- `part in text`
unfoldable pub occurs_in : String → String → Bool
unfolding is_infix is_prefix
occurs_in part text = is_infix (codes part) (codes text)

-- `part in text.lower()`
unfoldable pub occurs_in_lower : String → String → Bool
unfolding is_infix is_prefix to_lower
occurs_in_lower part text = is_infix (codes part) (map to_lower (codes text))

occurs_example : occurs_in_lower "rate" "MyRATEError" ≡ true
unfolding occurs_in_lower
occurs_example = refl
