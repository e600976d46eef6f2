-- ===== src/TailoringGuard/Tokens.antt =====
-- backend/app/services/cv_tailoring_guard.py: what the patterns find. Each matcher gives the length
-- of the match that begins at a position, 0 if there is none; letter case is that of ASCII.
use Prim.Native.Char.{Char, code}
use job_agent.Prelude.{
  ℕ, zero, suc, String, Bool, true, false, Option, none, some, List, [], ◌∷◌, ◌==◌, ◌≡◌, ◌+◌, ◌-◌,
  refl, not, ◌&&◌, ◌||◌, map, keep, any, cut, len, eqb, leb, ltb, if◌then◌else◌,
}
use job_agent.Prelude.Text.{is_space}
use job_agent.Prelude.Words.{Unicode, contains_char, words_by, rstrip_chars, collapse_whitespace}
use job_agent.Prelude.Ascii.{ascii}

-- The leading run of characters that pass.
run : (Char → Bool) → String → ℕ
run p String.[] = 0
run p (String.◌∷◌ c s) = let rest = run p s in if p c then suc rest else 0

-- `s[n:]`
skip : ℕ → String → String
skip zero s = s
skip (suc n) String.[] = String.[]
skip (suc n) (String.◌∷◌ c s) = skip n s

within : ℕ → ℕ → Char → Bool
within low high c = leb low (code c) && leb (code c) high

is_ascii_alnum : Char → Bool
unfolding within
is_ascii_alnum c = within b'A' b'Z' c || within b'a' b'z' c || within b'0' b'9' c

-- `[A-Za-z0-9!#$%&'*+/=?^_`{|}~-]`
is_atom : Char → Bool
unfolding is_ascii_alnum
is_atom c = is_ascii_alnum c || contains_char c "!#$%&'*+/=?^_`{|}~-"

is_domain : Char → Bool
unfolding is_ascii_alnum
is_domain c = is_ascii_alnum c || contains_char c ".-"

one_more : Option ℕ → Option ℕ
one_more none = none
one_more (some n) = some (suc n)

-- The length through the first `@`, where dots stand between atoms; `ok` is set after an atom.
local : Bool → String → Option ℕ
unfolding is_atom one_more
local ok String.[] = none
local ok (String.◌∷◌ c s) =
    let rest = one_more (local (is_atom c) s) in
    if is_atom c
    then rest
    else if contains_char c "." && ok
    then rest
    else if contains_char c "@" && ok
    then some 1
    else none

-- `_EMAIL_TOKEN_RE`
unfoldable pub email_at : Option Char → String → ℕ
unfolding local run skip is_domain
email_at previous s = elim (local false s) [
  | none ↦ 0
  | some n ↦ let d = run is_domain (skip n s) in if ltb 0 d then n + d else 0
]

-- The text after a prefix, in ASCII letter case.
same_letter : Char → Char → Bool
unfolding within
same_letter a b = eqb (code a) (code b) || (within b'A' b'Z' b && eqb (code a) (code b + 32))

after_prefix : (Char → Char → Bool) → String → String → Option String
after_prefix same String.[] s = some s
after_prefix same (String.◌∷◌ p ps) String.[] = none
after_prefix same (String.◌∷◌ p ps) (String.◌∷◌ c s) =
    let rest = after_prefix same ps s in if same p c then rest else none

is_url_char : Char → Bool
unfolding is_space
is_url_char c = not (is_space c) && not (contains_char c "<>\"'")

url_rest : ℕ → Option String → ℕ
unfolding run is_url_char
url_rest n none = 0
url_rest n (some s) = let d = run is_url_char s in if ltb 0 d then n + d else 0

-- `_URL_TOKEN_RE`
unfoldable pub url_at : Option Char → String → ℕ
unfolding url_rest after_prefix same_letter
url_at previous s =
    let secure = url_rest 8 (after_prefix same_letter "https://" s) in
    if ltb 0 secure then secure else url_rest 7 (after_prefix same_letter "http://" s)

begins_with : (Char → Bool) → String → Bool
begins_with p String.[] = false
begins_with p (String.◌∷◌ c s) = p c

abbrev stopwords : List String
stopwords =
    "a" ∷ "an" ∷ "and" ∷ "as" ∷ "at" ∷ "for" ∷ "from" ∷ "in" ∷ "of" ∷ "on" ∷ "or" ∷ "the" ∷ "to"
    ∷ "with" ∷ []

-- `finditer`: a match is skipped before the next is sought.
find_from : (Option Char → String → ℕ) → ℕ → Option Char → String → List String
find_from at skipped previous String.[] = []
find_from at skipped previous (String.◌∷◌ c s) =
    let n = if ltb 0 skipped then 0 else at previous (String.◌∷◌ c s) in
    let rest = find_from at (if ltb 0 skipped then skipped - 1 else n - 1) (some c) s in
    if ltb 0 n then cut n (String.◌∷◌ c s) ∷ rest else rest

unfoldable pub find_all : (Option Char → String → ℕ) → String → List String
unfolding find_from
find_all at s = find_from at 0 none s

module _ (u : Unicode) where
  -- `\w`
  is_word : Char → Bool
  is_word c = u.is_alnum c || contains_char c "_"

  follows_word : Option Char → Bool
  unfolding is_word
  follows_word none = false
  follows_word (some c) = is_word c

  -- The rest of a number after a digit.
  number_rest : String → ℕ
  unfolding begins_with
  number_rest String.[] = 0
  number_rest (String.◌∷◌ c s) =
      let rest = number_rest s in
      if u.is_digit c
      then suc rest
      else if contains_char c ".,:/+%-" && begins_with u.is_digit s
      then suc rest
      else if contains_char c "%"
      then 1
      else 0

  -- `_NUMBER_TOKEN_RE`
  unfoldable pub number_at : Option Char → String → ℕ
  unfolding follows_word begins_with number_rest
  number_at previous s =
      if follows_word previous then 0 else if begins_with u.is_digit s then number_rest s else 0

  unfoldable pub normalize_assertion_text : String → String
  unfolding collapse_whitespace
  normalize_assertion_text value = u.casefold (collapse_whitespace (u.nfkc value))

  trimmed : Bool → String → String
  unfolding rstrip_chars
  trimmed url value = if url then rstrip_chars ".,;:!?)]}" value else value

  -- `_tokens`; the set is the list of its elements.
  unfoldable pub tokens : (Option Char → String → ℕ) → Bool → String → List String
  unfolding find_all normalize_assertion_text trimmed
  tokens at url value =
      keep (λ t. not (t == ""))
        (map (λ t. normalize_assertion_text (trimmed url t)) (find_all at value))

  ends_apart : Option String → Bool
  unfolding begins_with is_word
  ends_apart none = false
  ends_apart (some after) = not (begins_with is_word after)

  -- `re.search(r"(?<!\w)label(?!\w)", s)`
  label_from : String → Option Char → String → Bool
  unfolding follows_word after_prefix ends_apart
  label_from label previous String.[] = false
  label_from label previous (String.◌∷◌ c s) =
      let later = label_from label (some c) s in
      let after = after_prefix (λ a b. eqb (code a) (code b)) label (String.◌∷◌ c s) in
      not (follows_word previous) && ends_apart after || later

  unfoldable pub label_occurs : String → String → Bool
  unfolding label_from normalize_assertion_text
  label_occurs label value =
      let normalized = normalize_assertion_text label in
      not (normalized == "") && label_from normalized none (normalize_assertion_text value)

  -- `_support_words`: the runs of letters and digits with at least three of them.
  unfoldable pub support_words : String → List String
  unfolding normalize_assertion_text words_by
  support_words value =
      keep (λ w. leb 3 (len w) && not (any (λ s. s == w) stopwords))
        (words_by (λ c. not (u.is_alnum c)) (normalize_assertion_text value))

numbers_found :
    find_all (number_at ascii) "v2 grew 12.5% to 1,300 in 2020-2024."
    ≡ "12.5%" ∷ "1,300" ∷ "2020-2024" ∷ []
unfolding find_all number_at ascii cut
numbers_found = refl

urls_found : tokens ascii url_at true "See HTTPS://a.dev/x, or b@c.org." ≡ "https://a.dev/x" ∷ []
unfolding tokens url_at ascii cut
urls_found = refl

emails_found : find_all email_at "See HTTPS://a.dev, or x.b@c.org" ≡ "x.b@c.org" ∷ []
unfolding find_all email_at cut
emails_found = refl
