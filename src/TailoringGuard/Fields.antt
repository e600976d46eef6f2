-- ===== src/TailoringGuard/Fields.antt =====
-- backend/app/services/cv_tailoring_guard.py: the checks of one text field.
pub mod Grounded
use job_agent.Prelude.{
  ℕ, String, Bool, true, false, Option, none, some, List, [], ◌∷◌, ◌==◌, ◌++◌, not, ◌&&◌, ◌||◌, any,
  len, length, ltb, is_none, if◌then◌else◌,
}
use job_agent.Prelude.Dict.{lookup}
use job_agent.Models.Tailored.{SourceBoundText, TailoredFactEvidence}
use job_agent.TailoringGraph.{Issue, FactBank}
use job_agent.TailoringGuard.{Checks, issue, Field}
use job_agent.TailoringGuard.Support.{
  unsupported_anchor, is_quoted, deterministically_source_supported,
}

-- `len(xs) != len(set(xs))`
abbrev pub has_duplicates : List String → Bool
has_duplicates [] = false
has_duplicates (x ∷ xs) = any (λ y. y == x) xs || has_duplicates xs

abbrev pub is_empty : {A : Type 0} → List A → Bool
is_empty [] = true
is_empty (x ∷ xs) = false

-- The issues of the citations, and the texts of the facts that are cited well.
abbrev Cited : Type 0
Cited = List Issue × List String

cite_fact : String → String → Option TailoredFactEvidence → Cited → Cited
cite_fact path section_id none (issues, cited) = (issue "UNKNOWN_FACT" path ∷ issues, cited)
cite_fact path section_id (some e) (issues, cited) =
    if e.section_id == section_id
    then (issues, e.source_text ∷ cited)
    else (issue "CROSS_SECTION_FACT" path ∷ issues, cited)

unfoldable pub cite : FactBank → String → String → List String → Cited
unfolding cite_fact
cite bank path section_id [] = ([], [])
cite bank path section_id (fact_id ∷ rest) =
    cite_fact path section_id (lookup fact_id bank) (cite bank path section_id rest)

-- `semantic_checker is None or not semantic_checker.supports(…)`
unsupported_by : Option (String → List String → Bool) → String → List String → Bool
unsupported_by none value cited = true
unsupported_by (some supports) value cited = not (supports value cited)

module _ (checks : Checks) where
  -- The three checks of a text against the evidence that it cites.
  unfoldable pub is_unsupported : String → List String → Bool
  unfolding unsupported_anchor deterministically_source_supported is_quoted unsupported_by
  is_unsupported value cited =
      unsupported_anchor checks.unicode checks.approved_skill_labels value cited
      || (checks.require_deterministic_support
          && not (deterministically_source_supported checks.unicode value cited))
      || (checks.require_semantic_support
          && not (is_empty cited)
          && not (is_quoted checks.unicode value cited)
          && unsupported_by checks.semantic_checker value cited)

  check_cited : String → String → Cited → List Issue
  unfolding is_unsupported
  check_cited path value (i ∷ issues, cited) = i ∷ issues
  check_cited path value ([], cited) =
      if not (value == "") && is_unsupported value cited
      then issue "UNSUPPORTED_ANCHOR" path ∷ []
      else []

  unfoldable pub check_field : String → Field → List Issue
  unfolding cite check_cited
  check_field section_id (path, bound) =
      if ltb 4000 (len bound.text) || ltb 64 (length bound.source_fact_ids)
      then issue "CONTENT_BOUNDS_EXCEEDED" path ∷ []
      else if not (bound.text == "") && is_empty bound.source_fact_ids
      then issue "EMPTY_PROVENANCE" path ∷ []
      else if has_duplicates bound.source_fact_ids
      then issue "UNKNOWN_FACT" path ∷ []
      else check_cited path bound.text (cite checks.fact_bank path section_id bound.source_fact_ids)

  unfoldable pub check_fields : String → List Field → List Issue
  unfolding check_field
  check_fields section_id [] = []
  check_fields section_id (f ∷ fs) = check_field section_id f ++ check_fields section_id fs
