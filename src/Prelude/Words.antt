-- ===== src/Prelude/Words.antt =====
-- Python's `str.split`, `str.join` and the filters on the characters of a text, and what Python
-- reads from the Unicode tables.
use Prim.Native.Char.{Char, code}
use Prim.Native.String.{String}
use mathlib.Core.Path.{◌≡◌, refl}
use mathlib.Core.Bool.{Bool, true, false, ◌||◌}
use mathlib.Core.List.{List, [], ◌∷◌}
use Prim.Native.Nat.{ℕ, zero, suc, ◌/◌, ◌%◌}
use job_agent.Prelude.Tests.{eqb, ltb, if◌then◌else◌}
use job_agent.Prelude.Text.{is_space}

-- `unicodedata.normalize("NFKC", s)`, `s.casefold()`, `c.isalnum()` and `c.isdecimal()`.
pub record Unicode : Type 0 where
  pub nfkc : String → String
  pub casefold : String → String
  pub is_alnum : Char → Bool
  pub is_digit : Char → Bool

abbrev pub text_append : String → String → String
text_append String.[] t = t
text_append (String.◌∷◌ c s) t = String.◌∷◌ c (text_append s t)

-- `"".join(c for c in s if p(c))`
unfoldable pub keep_chars : (Char → Bool) → String → String
keep_chars p String.[] = String.[]
keep_chars p (String.◌∷◌ c s) = let rest = keep_chars p s in if p c then String.◌∷◌ c rest else rest

abbrev pub any_char : (Char → Bool) → String → Bool
any_char p String.[] = false
any_char p (String.◌∷◌ c s) = p c || any_char p s

abbrev pub contains_char : Char → String → Bool
contains_char c s = any_char (λ d. eqb (code c) (code d)) s

starts_apart : (Char → Bool) → String → Bool
starts_apart p String.[] = true
starts_apart p (String.◌∷◌ c s) = p c

onto_first : Char → List String → List String
onto_first c [] = String.◌∷◌ c String.[] ∷ []
onto_first c (w ∷ ws) = String.◌∷◌ c w ∷ ws

-- The runs of characters between those that separate; `s.split()` for white space.
unfoldable pub words_by : (Char → Bool) → String → List String
unfolding starts_apart onto_first
words_by p String.[] = []
words_by p (String.◌∷◌ c s) =
    let rest = words_by p s in
    if p c
    then rest
    else if starts_apart p s
    then String.◌∷◌ c String.[] ∷ rest
    else onto_first c rest

rstrip_onto : String → Char → String → String
rstrip_onto set c String.[] = if contains_char c set then String.[] else String.◌∷◌ c String.[]
rstrip_onto set c (String.◌∷◌ d s) = String.◌∷◌ c (String.◌∷◌ d s)

-- `s.rstrip(set)`
unfoldable pub rstrip_chars : String → String → String
unfolding rstrip_onto
rstrip_chars set String.[] = String.[]
rstrip_chars set (String.◌∷◌ c s) = rstrip_onto set c (rstrip_chars set s)

digit_at : ℕ → String → String
digit_at i String.[] = String.[]
digit_at zero (String.◌∷◌ c s) = String.◌∷◌ c String.[]
digit_at (suc i) (String.◌∷◌ c s) = digit_at i s

-- Each turn writes the last digit; as many turns as the number are enough.
decimal_onto : ℕ → ℕ → String → String
unfolding digit_at
decimal_onto zero n acc = acc
decimal_onto (suc fuel) n acc =
    let longer = text_append (digit_at (n % 10) "0123456789") acc in
    let rest = decimal_onto fuel (n / 10) longer in if ltb n 10 then longer else rest

-- `str(n)`
unfoldable pub decimal : ℕ → String
unfolding decimal_onto
decimal n = decimal_onto (suc n) n ""

unfoldable pub join : String → List String → String
join sep [] = String.[]
join sep (w ∷ []) = w
join sep (w ∷ v ∷ ws) = text_append w (text_append sep (join sep (v ∷ ws)))

-- `" ".join(s.split())`
unfoldable pub collapse_whitespace : String → String
unfolding words_by join is_space
collapse_whitespace s = join " " (words_by is_space s)

collapse_example : collapse_whitespace "  React \n  JS " ≡ "React JS"
unfolding collapse_whitespace
collapse_example = refl

decimal_example : decimal 120 ≡ "120"
unfolding decimal
decimal_example = refl
