-- ===== src/TailoringGuard/Assembly.antt =====
-- backend/app/services/cv_tailoring_guard.py: the content after a patch, and the two guards.
pub mod Preserved
pub mod Grounded
use job_agent.Prelude.{
  ℕ, String, Bool, true, false, Option, none, some, List, [], ◌∷◌, ◌==◌, ◌++◌, ◌+◌, not, ◌&&◌, ◌||◌,
  any, keep, map, length, eqb, if◌then◌else◌, suc,
}
use job_agent.Prelude.Dict.{Dict, lookup, dict_of}
use job_agent.Prelude.Words.{decimal}
use job_agent.Models.Tailored.{
  CvSectionKind, TailoredItem, TailoredSection, TailoredCvContent, TailoredHeaderSnapshot,
  TailoredItemPatch, TailoredSectionPatch, TailoredPatchSet,
}
use job_agent.TailoringGraph.{Issue}
use job_agent.TailoringGuard.{Checks, issue, indexed}
use job_agent.TailoringGuard.Structure.{is_among, validate_patch_structure_and_facts}

-- `new_uuid()`: the next of a supply, which is counted.
module _ (uuid : ℕ → String) where
  -- `source_entry_id or new_uuid()`
  first_choice : Option String → ℕ → String × ℕ
  first_choice none n = (uuid n, suc n)
  first_choice (some source_id) n = if source_id == "" then (uuid n, suc n) else (source_id, n)

  item_id : List String → Option String → ℕ → String × ℕ
  unfolding first_choice
  item_id used source_id n =
      let (i, after) = first_choice source_id n in
      if is_among i used then (uuid after, suc after) else (i, after)

  with_id : String → TailoredItemPatch → TailoredItem
  with_id i p = record {
    id = i;
    source_entry_id = p.source_entry_id;
    title = p.title;
    subtitle = p.subtitle;
    date_text = p.date_text;
    location = p.location;
    body = p.body;
    bullets = p.bullets;
    attributes = p.attributes;
  }

  unfoldable pub assemble_items : List String → List TailoredItemPatch → ℕ → List TailoredItem × ℕ
  unfolding item_id with_id
  assemble_items used [] n = ([], n)
  assemble_items used (p ∷ ps) n =
      let (i, after) = item_id used p.source_entry_id n in
      let (items, last) = assemble_items (i ∷ used) ps after in (with_id i p ∷ items, last)

  assemble_section : TailoredSection → Option TailoredSectionPatch → ℕ → TailoredSection × ℕ
  unfolding assemble_items
  assemble_section parent_section none n = (parent_section, n)
  assemble_section parent_section (some patch) n =
      let (items, last) = assemble_items [] patch.items n in
      (record parent_section { items = items }, last)

  unfoldable pub assemble_sections :
      Dict TailoredSectionPatch → List TailoredSection → ℕ → List TailoredSection × ℕ
  unfolding assemble_section
  assemble_sections patch_by_id [] n = ([], n)
  assemble_sections patch_by_id (s ∷ ss) n =
      let (section, after) = assemble_section s (lookup s.id patch_by_id) n in
      let (sections, last) = assemble_sections patch_by_id ss after in (section ∷ sections, last)

  unfoldable pub assemble_guarded_content :
      TailoredPatchSet → TailoredCvContent → ℕ → TailoredCvContent × ℕ
  unfolding assemble_sections dict_of
  assemble_guarded_content patch parent n =
      let (sections, last) =
        assemble_sections (dict_of (map (λ s. (s.section_id, s)) patch.sections)) parent.sections
          n in
      (record { header = parent.header; sections = sections }, last)

  -- `if issues: return None, tuple(issues)`
  guarded_by :
      List Issue
      → TailoredPatchSet
      → TailoredCvContent
      → ℕ
      → (Option TailoredCvContent × List Issue) × ℕ
  unfolding assemble_guarded_content
  guarded_by (i ∷ issues) patch parent n = ((none, i ∷ issues), n)
  guarded_by [] patch parent n =
      let (content, last) = assemble_guarded_content patch parent n in ((some content, []), last)

  unfoldable pub guard_tailored_patch :
      Checks
      → TailoredPatchSet
      → TailoredCvContent
      → List String
      → ℕ
      → (Option TailoredCvContent × List Issue) × ℕ
  unfolding validate_patch_structure_and_facts guarded_by
  guard_tailored_patch checks patch parent allowed n =
      guarded_by (validate_patch_structure_and_facts checks patch parent allowed) patch parent n
