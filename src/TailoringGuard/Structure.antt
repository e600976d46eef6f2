-- ===== src/TailoringGuard/Structure.antt =====
-- backend/app/services/cv_tailoring_guard.py: `validate_patch_structure_and_facts`.
pub mod Clear
use job_agent.Prelude.{
  ℕ, String, Bool, true, false, Option, none, some, List, [], ◌∷◌, ◌==◌, ◌++◌, ◌+◌, not, ◌&&◌, ◌||◌,
  any, all, keep, map, length, ltb, is_none, is_some, if◌then◌else◌,
}
use job_agent.Prelude.Dict.{Dict, lookup, dict_of}
use job_agent.Prelude.Words.{join}
use job_agent.Models.Tailored.{
  TailoredAttribute, TailoredItem, TailoredSection, TailoredCvContent, TailoredItemPatch,
  TailoredSectionPatch, TailoredPatchSet,
}
use job_agent.TailoringGraph.{Issue}
use job_agent.TailoringGuard.{Checks, issue, indexed, text_fields}
use job_agent.TailoringGuard.Fields.{has_duplicates, check_fields}

abbrev pub same_texts : List String → List String → Bool
same_texts [] [] = true
same_texts (x ∷ xs) (y ∷ ys) = x == y && same_texts xs ys
same_texts _ _ = false

abbrev pub is_among : String → List String → Bool
is_among x xs = any (λ y. y == x) xs

abbrev pub names_of : List TailoredAttribute → List String
names_of attributes = map (λ a. a.name) attributes

-- `if name not in names: names.append(name)`
append_new : List String → List String → List String
append_new names [] = names
append_new names (n ∷ ns) = append_new (if is_among n names then names else names ++ n ∷ []) ns

names_in : List String → List TailoredItem → List String
unfolding append_new
names_in names [] = names
names_in names (i ∷ is) = names_in (append_new names (names_of i.attributes)) is

unfoldable pub attribute_names_for_section : TailoredSection → List String
unfolding names_in
attribute_names_for_section section = names_in [] section.items

unfoldable pub items_by_id : TailoredSection → Dict TailoredItem
unfolding dict_of
items_by_id section = dict_of (map (λ i. (i.id, i)) section.items)

unfoldable pub sections_by_id : TailoredCvContent → Dict TailoredSection
unfolding dict_of
sections_by_id content = dict_of (map (λ s. (s.id, s)) content.sections)

or_empty : Option String → String
or_empty none = ""
or_empty (some s) = s

-- The names of the item's source, or those of the section in the order of the section.
expected_names : List String → List String → Option TailoredItem → List String
expected_names section_names names none = keep (λ n. is_among n names) section_names
expected_names section_names names (some parent_item) = names_of parent_item.attributes

abbrev when : Bool → Issue → List Issue
when true i = i ∷ []
when false i = []

-- `source_id not in parent_items or source_id in seen_source_ids`
source_issues : String → Dict TailoredItem → List String → Option String → List Issue
source_issues path parent_items seen none = []
source_issues path parent_items seen (some source_id) =
    when (is_none (lookup source_id parent_items) || is_among source_id seen)
      (issue "SECTION_IDENTITY_CHANGED" path)

see : List String → Option String → List String
see seen none = seen
see seen (some source_id) = source_id ∷ seen

-- The items of one section patch and what is known of their section.
pub record Place : Type 0 where
  pub section_id : String
  pub section_path : String
  pub parent_items : Dict TailoredItem
  pub section_names : List String

place_of : String → TailoredSectionPatch → TailoredSection → Place
unfolding items_by_id attribute_names_for_section
place_of path patch parent_section = record {
  section_id = patch.section_id;
  section_path = path;
  parent_items = items_by_id parent_section;
  section_names = attribute_names_for_section parent_section;
}

-- The issues of an item apart from its texts.
item_issues : Place → List String → String → TailoredItemPatch → List Issue
unfolding source_issues expected_names or_empty join
item_issues place seen path i =
    let names = names_of i.attributes in
    let expected =
      expected_names place.section_names names
        (lookup (or_empty i.source_entry_id) place.parent_items) in
    source_issues (join "" (path ∷ ".source_entry_id" ∷ [])) place.parent_items seen
      i.source_entry_id
    ++ when (not (same_texts names expected) || has_duplicates names)
        (issue "ATTRIBUTE_IDENTITY_CHANGED" (join "" (path ∷ ".attributes" ∷ [])))
    ++ when
        (ltb 30 (length i.bullets)
          || ltb 30 (length i.attributes)
          || any (λ a. ltb 30 (length a.values)) i.attributes)
        (issue "CONTENT_BOUNDS_EXCEEDED" path)

too_many_items : String → TailoredSectionPatch → List Issue
unfolding join
too_many_items path patch =
    when (ltb 30 (length patch.items))
      (issue "CONTENT_BOUNDS_EXCEEDED" (join "" (path ∷ ".items" ∷ [])))

module _ (checks : Checks) where
  unfoldable pub check_item : Place → List String → String → TailoredItemPatch → List Issue
  unfolding item_issues check_fields text_fields
  check_item place seen path i =
      item_issues place seen path i ++ check_fields checks place.section_id (text_fields path i)

  unfoldable pub check_items : Place → List String → ℕ → List TailoredItemPatch → List Issue
  unfolding check_item see indexed
  check_items place seen index [] = []
  check_items place seen index (i ∷ is) =
      check_item place seen (indexed place.section_path ".items" index) i
      ++ check_items place (see seen i.source_entry_id) (index + 1) is

  -- `parent_by_id[…]`: the ids are checked before, and a missing one would be the `KeyError`.
  check_section : String → TailoredSectionPatch → Option TailoredSection → List Issue
  unfolding too_many_items check_items place_of
  check_section path patch none = issue "KeyError" path ∷ []
  check_section path patch (some parent_section) =
      too_many_items path patch ++ check_items (place_of path patch parent_section) [] 0 patch.items

  unfoldable pub check_sections : Dict TailoredSection → ℕ → List TailoredSectionPatch → List Issue
  unfolding check_section indexed
  check_sections parent_by_id index [] = []
  check_sections parent_by_id index (p ∷ ps) =
      check_section (indexed "" "sections" index) p (lookup p.section_id parent_by_id)
      ++ check_sections parent_by_id (index + 1) ps

  unfoldable pub validate_patch_structure_and_facts :
      TailoredPatchSet → TailoredCvContent → List String → List Issue
  unfolding check_sections sections_by_id
  validate_patch_structure_and_facts patch parent allowed =
      let parent_by_id = sections_by_id parent in
      if ltb 20 (length patch.sections)
      then issue "CONTENT_BOUNDS_EXCEEDED" "sections" ∷ []
      else if has_duplicates allowed
          || any (λ i. is_none (lookup i parent_by_id)) allowed
          || not (same_texts (map (λ s. s.section_id) patch.sections) allowed)
      then issue "SECTION_IDENTITY_CHANGED" "sections" ∷ []
      else check_sections parent_by_id 0 patch.sections
