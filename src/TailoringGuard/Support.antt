-- ===== src/TailoringGuard/Support.antt =====
-- backend/app/services/cv_tailoring_guard.py: whether the cited evidence supports a text.
use Prim.Native.Char.{Char}
use job_agent.Prelude.{
  ℕ, String, Bool, true, false, Option, List, [], ◌∷◌, ◌==◌, ◌++◌, not, ◌&&◌, ◌||◌, any, all,
  if◌then◌else◌,
}
use job_agent.Prelude.Substring.{occurs_in}
use job_agent.Prelude.Words.{Unicode}
use job_agent.TailoringGuard.Tokens.{
  number_at, url_at, email_at, tokens, normalize_assertion_text, label_occurs, support_words,
}

-- `xs.issubset(ys)`
abbrev pub is_subset : List String → List String → Bool
is_subset xs ys = all (λ x. any (λ y. y == x) ys) xs

concat_map : (String → List String) → List String → List String
concat_map f [] = []
concat_map f (x ∷ xs) = f x ++ concat_map f xs

module _ (u : Unicode) where
  -- A token of the text that no evidence has.
  unsupported_tokens : (Option Char → String → ℕ) → Bool → String → List String → Bool
  unfolding concat_map tokens
  unsupported_tokens at url value evidence =
      not (is_subset (tokens u at url value) (concat_map (tokens u at url) evidence))

  unfoldable pub unsupported_anchor : List String → String → List String → Bool
  unfolding unsupported_tokens number_at url_at email_at label_occurs
  unsupported_anchor approved_skill_labels value evidence =
      unsupported_tokens (number_at u) false value evidence
      || unsupported_tokens url_at true value evidence
      || unsupported_tokens email_at false value evidence
      || any (λ l. label_occurs u l value && not (any (label_occurs u l) evidence))
          approved_skill_labels

  -- `any(normalize(value) in normalize(item) for item in evidence)`
  unfoldable pub is_quoted : String → List String → Bool
  unfolding normalize_assertion_text occurs_in
  is_quoted value evidence =
      any (λ e. occurs_in (normalize_assertion_text u value) (normalize_assertion_text u e))
        evidence

  unfoldable pub deterministically_source_supported : String → List String → Bool
  unfolding normalize_assertion_text is_quoted support_words concat_map
  deterministically_source_supported value evidence =
      if normalize_assertion_text u value == ""
      then true
      else if is_quoted value evidence
      then true
      else is_subset (support_words u value) (concat_map (support_words u) evidence)
