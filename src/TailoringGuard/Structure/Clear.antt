-- ===== src/TailoringGuard/Structure/Clear.antt =====
-- What a patch without an issue satisfies.
use job_agent.Prelude.{
  ℕ, String, Bool, true, false, Option, none, some, List, [], ◌∷◌, ◌+◌, ◌≡◌, refl, arith, not, ◌||◌,
  any, map, length, ltb, is_none, All, if◌then◌else◌,
}
use job_agent.Prelude.Dict.{Dict, lookup}
use job_agent.Models.Tailored.{
  TailoredSection, TailoredCvContent, TailoredItemPatch, TailoredSectionPatch, TailoredPatchSet,
}
use job_agent.TailoringGraph.{Issue}
use job_agent.TailoringGuard.{Checks, issue, indexed, text_fields}
use job_agent.TailoringGuard.Fields.{has_duplicates, check_fields}
use job_agent.TailoringGuard.Fields.Grounded.{IsGrounded, append-empty, check_fields-IsGrounded}
use job_agent.TailoringGuard.Structure.{
  same_texts, sections_by_id, Place, check_item, check_items, check_section, check_sections,
  validate_patch_structure_and_facts, see, item_issues, too_many_items, place_of,
}

module _ (checks : Checks) where
  -- Every text of the item is grounded in the section.
  abbrev pub IsGroundedItem : String → TailoredItemPatch → Type 0
  IsGroundedItem section_id i =
      (path : String) × All (λ f. IsGrounded checks section_id f.1) (text_fields path i)

  abbrev pub IsGroundedSection : TailoredSectionPatch → Type 0
  IsGroundedSection p = All (IsGroundedItem p.section_id) p.items

  check_item-IsGroundedItem :
      (place : Place) (seen : List String) (path : String) (i : TailoredItemPatch)
      → check_item checks place seen path i ≡ []
      → IsGroundedItem place.section_id i
  unfolding check_item
  check_item-IsGroundedItem place seen path i h =
      let clear =
        append-empty (item_issues place seen path i)
          (check_fields checks place.section_id (text_fields path i)) h in
      (path, check_fields-IsGrounded checks place.section_id (text_fields path i) clear.1)

  check_items-IsGroundedItem :
      (place : Place) (seen : List String) (index : ℕ) (is : List TailoredItemPatch)
      → check_items checks place seen index is ≡ []
      → All (IsGroundedItem place.section_id) is
  unfolding check_items
  check_items-IsGroundedItem place seen index [] h = tt
  check_items-IsGroundedItem place seen index (i ∷ is) h =
      let item_path = indexed place.section_path ".items" index in
      let (here, later) =
        append-empty (check_item checks place seen item_path i)
          (check_items checks place (see seen i.source_entry_id) (index + 1) is) h in
      (
        check_item-IsGroundedItem place seen item_path i here,
        check_items-IsGroundedItem place (see seen i.source_entry_id) (index + 1) is later,
      )

  check_section-IsGroundedSection :
      (path : String) (p : TailoredSectionPatch) (o : Option TailoredSection)
      → check_section checks path p o ≡ []
      → IsGroundedSection p
  unfolding check_section place_of
  check_section-IsGroundedSection path p none h = cc
  check_section-IsGroundedSection path p (some s) h =
      let clear =
        append-empty (too_many_items path p) (check_items checks (place_of path p s) [] 0 p.items)
          h in
      check_items-IsGroundedItem (place_of path p s) [] 0 p.items clear.1

  check_sections-IsGroundedSection :
      (parents : Dict TailoredSection) (index : ℕ) (ps : List TailoredSectionPatch)
      → check_sections checks parents index ps ≡ []
      → All IsGroundedSection ps
  unfolding check_sections
  check_sections-IsGroundedSection parents index [] h = tt
  check_sections-IsGroundedSection parents index (p ∷ ps) h =
      let path = indexed "" "sections" index in
      let found = lookup p.section_id parents in
      let (here, later) =
        append-empty (check_section checks path p found)
          (check_sections checks parents (index + 1) ps) h in
      (
        check_section-IsGroundedSection path p found here,
        check_sections-IsGroundedSection parents (index + 1) ps later,
      )

  both_clear :
      (a b : Bool) (x y : Issue) (rest : List Issue)
      → (if a then x ∷ [] else if b then y ∷ [] else rest) ≡ []
      → (b ≡ false) × (rest ≡ [])
  both_clear true b x y rest h = cc
  both_clear false true x y rest h = cc
  both_clear false false x y rest h = (refl, h)

  -- The sections of a patch without an issue are the allowed ones, and their texts are grounded.
  pub validate-IsGroundedSection :
      (patch : TailoredPatchSet) (parent : TailoredCvContent) (allowed : List String)
      → validate_patch_structure_and_facts checks patch parent allowed ≡ []
      → (same_texts (map (λ s. s.section_id) patch.sections) allowed ≡ true)
        × All IsGroundedSection patch.sections
  unfolding validate_patch_structure_and_facts
  validate-IsGroundedSection patch parent allowed h =
      let parents = sections_by_id parent in
      let wrong =
        has_duplicates allowed
        || any (λ i. is_none (lookup i parents)) allowed
        || not (same_texts (map (λ s. s.section_id) patch.sections) allowed) in
      let (right, clear) =
        both_clear (ltb 20 (length patch.sections)) wrong
          (issue "CONTENT_BOUNDS_EXCEEDED" "sections") (issue "SECTION_IDENTITY_CHANGED" "sections")
          (check_sections checks parents 0 patch.sections) h in
      (ground arith, check_sections-IsGroundedSection parents 0 patch.sections clear)

  -- The ids that are allowed are distinct.
  pub validate-distinct :
      (patch : TailoredPatchSet) (parent : TailoredCvContent) (allowed : List String)
      → validate_patch_structure_and_facts checks patch parent allowed ≡ []
      → has_duplicates allowed ≡ false
  unfolding validate_patch_structure_and_facts
  validate-distinct patch parent allowed h =
      let parents = sections_by_id parent in
      let wrong =
        has_duplicates allowed
        || any (λ i. is_none (lookup i parents)) allowed
        || not (same_texts (map (λ s. s.section_id) patch.sections) allowed) in
      let (right, clear) =
        both_clear (ltb 20 (length patch.sections)) wrong
          (issue "CONTENT_BOUNDS_EXCEEDED" "sections") (issue "SECTION_IDENTITY_CHANGED" "sections")
          (check_sections checks parents 0 patch.sections) h in
      ground arith
