-- ===== src/Prelude/Ascii.antt =====
-- The Unicode tables of ASCII texts, for the examples.
use Prim.Native.Char.{Char, code, nul}
use Prim.Native.Nat.{ℕ, zero, suc, ◌-◌}
use Prim.Native.String.{String}
use mathlib.Core.Bool.{Bool, ◌&&◌, ◌||◌}
use job_agent.Prelude.Tests.{leb, if◌then◌else◌}
use job_agent.Prelude.Words.{Unicode}

letter_at : ℕ → String → Char
letter_at i String.[] = nul
letter_at zero (String.◌∷◌ c s) = c
letter_at (suc i) (String.◌∷◌ c s) = letter_at i s

within : ℕ → ℕ → Char → Bool
within low high c = leb low (code c) && leb (code c) high

fold_char : Char → Char
fold_char c =
    if within b'A' b'Z' c then letter_at (code c - b'A') "abcdefghijklmnopqrstuvwxyz" else c

fold : String → String
fold String.[] = String.[]
fold (String.◌∷◌ c s) = String.◌∷◌ (fold_char c) (fold s)

unfoldable pub ascii : Unicode
unfolding letter_at within fold_char fold
ascii = record {
  nfkc = λ s. s;
  casefold = fold;
  is_alnum = λ c. within b'A' b'Z' c || within b'a' b'z' c || within b'0' b'9' c;
  is_digit = λ c. within b'0' b'9' c;
}
