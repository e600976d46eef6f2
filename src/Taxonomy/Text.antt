-- ===== src/Taxonomy/Text.antt =====
-- backend/app/services/skill_normalization.py: the comparison forms of a skill's name.
use Prim.Native.Char.{Char, code}
use job_agent.Prelude.{
  String, Bool, false, [], ◌∷◌, ◌==◌, ◌||◌, not, map, keep, eqb, if◌then◌else◌, Outcome, returned,
  raised,
}
use job_agent.Prelude.Text.{is_space}
use job_agent.Prelude.Words.{
  Unicode, text_append, keep_chars, contains_char, words_by, join, collapse_whitespace,
}
use job_agent.Taxonomy.{SkillTaxonomyError, underivable_key, empty_display_name}

-- The class of `_SEPARATOR_RE`.
unfoldable pub is_separator : Char → Bool
unfolding is_space
is_separator c = is_space c || contains_char c "._-/\\|,:;()[]{}'\"+*!?@&"

-- `_SEPARATOR_RE.sub(" ", value)`; `in_run` tells that the run's blank is already written.
separators_to_spaces : Bool → String → String
unfolding is_separator
separators_to_spaces in_run String.[] = String.[]
separators_to_spaces in_run (String.◌∷◌ c s) =
    let rest = separators_to_spaces (is_separator c) s in
    if is_separator c then (if in_run then rest else text_append " " rest) else String.◌∷◌ c rest

unfoldable pub normalize_separators_to_spaces : String → String
unfolding separators_to_spaces
normalize_separators_to_spaces value = separators_to_spaces false value

unfoldable pub is_blank_char : Char → Bool
is_blank_char c = eqb (code c) b' '

module _ (u : Unicode) where
  -- The five steps that both forms begin with.
  unfoldable pub comparison_steps : String → String
  unfolding collapse_whitespace normalize_separators_to_spaces
  comparison_steps raw =
      collapse_whitespace
        (normalize_separators_to_spaces (u.casefold (collapse_whitespace (u.nfkc raw))))

  unfoldable pub comparison_fingerprint : String → String
  unfolding comparison_steps keep_chars
  comparison_fingerprint raw = keep_chars u.is_alnum (comparison_steps raw)

  unfoldable pub derive_unknown_canonical_key : String → Outcome SkillTaxonomyError String
  unfolding comparison_steps keep_chars words_by join is_blank_char
  derive_unknown_canonical_key raw =
      let tokens = words_by is_blank_char (comparison_steps raw) in
      let cleaned = keep (λ t. not (t == "")) (map (keep_chars u.is_alnum) tokens) in
      elim cleaned [ [] ↦ raised underivable_key | w ∷ ws ↦ returned (join "_" (w ∷ ws)) ]

  -- `collapse_whitespace(unicode_normalize(value))`
  unfoldable pub clean : String → String
  unfolding collapse_whitespace
  clean value = collapse_whitespace (u.nfkc value)

  unfoldable pub display_name_from_raw : String → Outcome SkillTaxonomyError String
  unfolding clean
  display_name_from_raw raw =
      if clean raw == "" then raised empty_display_name else returned (clean raw)
