-- ===== src/Taxonomy/Loading.antt =====
-- backend/app/services/skill_normalization.py: the loops of `load_skill_taxonomy`.
pub mod Indexed
pub mod Resolved
pub mod Related
pub mod Accepted
use job_agent.Prelude.{
  String, Bool, true, false, Option, none, some, List, [], ◌∷◌, ◌==◌, ◌++◌, ◌&&◌, ◌||◌, not, any,
  map, if◌then◌else◌, Outcome, returned, raised,
}
use job_agent.Prelude.Sorting.{text_ltb, sort}
use job_agent.Prelude.Floats.{Float}
use job_agent.Prelude.Dict.{Dict, lookup, set_item}
use job_agent.Prelude.Outcomes.{◌>>=◌, ◌>>◌}
use job_agent.Prelude.Words.{Unicode}
use job_agent.Taxonomy.{
  SkillTaxonomyError, empty_fingerprint, colliding_label, duplicate_relationship, Value, array,
  no_items, SeedSkill, RelatedToEdge, SkillTaxonomy,
}
use job_agent.Taxonomy.Text.{comparison_fingerprint}
use job_agent.Taxonomy.Reading.{
  require_mapping, require_field, reject_unexpected, read_list, get, read_skill, read_relationship,
}

pub record Tables : Type 0 where
  pub by_key : Dict SeedSkill
  pub alias_index : Dict String

-- `existing is not None and existing != key`
points_elsewhere : String → Option String → Bool
points_elsewhere key none = false
points_elsewhere key (some existing) = not (existing == key)

-- The labels under which a skill is found.
abbrev pub labels : SeedSkill → List String
labels seed = seed.canonical_key ∷ seed.display_name ∷ seed.aliases

module _ (u : Unicode) where
  unfoldable pub index_label :
      String → String → Dict String → Outcome SkillTaxonomyError (Dict String)
  unfolding points_elsewhere
  index_label key label index =
      let fp = comparison_fingerprint u label in
      if fp == ""
      then raised empty_fingerprint
      else if points_elsewhere key (lookup fp index)
      then raised colliding_label
      else returned (set_item fp key index)

  unfoldable pub index_labels :
      String → List String → Dict String → Outcome SkillTaxonomyError (Dict String)
  unfolding index_label
  index_labels key [] index = returned index
  index_labels key (l ∷ ls) index = index_label key l index >>= index_labels key ls

module _ {F : Type 0} (u : Unicode) where
  unfoldable pub add_skill : Value F → Tables → Outcome SkillTaxonomyError Tables
  unfolding read_skill index_labels
  add_skill entry t = do
    seed ← read_skill u t.by_key entry
    index ← index_labels u seed.canonical_key (labels seed) t.alias_index
    returned record { by_key = set_item seed.canonical_key seed t.by_key; alias_index = index }

  unfoldable pub load_skills : List (Value F) → Tables → Outcome SkillTaxonomyError Tables
  unfolding add_skill
  load_skills [] t = returned t
  load_skills (entry ∷ entries) t = add_skill entry t >>= load_skills entries

-- The triple `edge_id`.
abbrev pub same_edge : {F : Type 0} → RelatedToEdge F → RelatedToEdge F → Bool
same_edge e f = e.from_key == f.from_key && e.to_key == f.to_key && e.source == f.source

-- `e.from_key, e.to_key, e.source` as a sort key
unfoldable pub edge_before : {F : Type 0} → RelatedToEdge F → RelatedToEdge F → Bool
edge_before e f =
    text_ltb e.from_key f.from_key
    || (e.from_key == f.from_key
        && (text_ltb e.to_key f.to_key || (e.to_key == f.to_key && text_ltb e.source f.source)))

key_before : String × SeedSkill → String × SeedSkill → Bool
key_before p q = text_ltb p.0 q.0

unfoldable pub ordered_skills : Dict SeedSkill → List SeedSkill
unfolding key_before
ordered_skills by_key = map (λ p. p.1) (sort key_before by_key)

module _ {F : Type 0} ⦃fl : Float F⦄ (u : Unicode) where
  -- `seen_edges` holds the triples of the relationships read so far.
  unfoldable pub add_relationship :
      Dict SeedSkill
      → Value F
      → List (RelatedToEdge F)
      → Outcome SkillTaxonomyError (List (RelatedToEdge F))
  unfolding read_relationship
  add_relationship by_key entry seen = do
    edge ← read_relationship u by_key entry
    if any (same_edge edge) seen
        then raised duplicate_relationship
        else returned (seen ++ edge ∷ [])

  unfoldable pub load_relationships :
      Dict SeedSkill
      → List (Value F)
      → List (RelatedToEdge F)
      → Outcome SkillTaxonomyError (List (RelatedToEdge F))
  unfolding add_relationship
  load_relationships by_key [] seen = returned seen
  load_relationships by_key (entry ∷ entries) seen =
      add_relationship by_key entry seen >>= load_relationships by_key entries

  unfoldable pub load_skill_taxonomy : Value F → Outcome SkillTaxonomyError (SkillTaxonomy F)
  unfolding require_mapping require_field reject_unexpected read_list get load_skills
      load_relationships ordered_skills sort edge_before
  load_skill_taxonomy seed = do
    root ← require_mapping seed
    skills_raw ← require_field (get "skills" root)
    rels_raw ← read_list "relationships" root
    _ ← reject_unexpected ("skills" ∷ "relationships" ∷ []) root
    tables ← load_skills u skills_raw record { by_key = []; alias_index = [] }
    relationships ← load_relationships tables.by_key rels_raw []
    returned record {
      skills = ordered_skills tables.by_key;
      relationships = sort edge_before relationships;
      alias_index = tables.alias_index;
      by_key = tables.by_key;
    }
