-- ===== src/Taxonomy/Examples.antt =====
-- A seed of two skills with one relationship, and the properties at it.
use job_agent.Prelude.{String, none, [], ◌∷◌, ◌≡◌, refl, All, is_blank, returned, raised, ℤ, pos}
use job_agent.Prelude.Ascii.{ascii}
use job_agent.Prelude.Cents.{cents, numbers}
use job_agent.Prelude.Sorting.{insert, text_ltb}
use job_agent.Taxonomy.{
  colliding_label, Value, text, number, array, object, no_items, next_item, no_fields, field,
  SeedSkill, SkillTaxonomy,
}
use job_agent.Taxonomy.Loading.{labels, load_skill_taxonomy}
use job_agent.Taxonomy.Loading.Related.{IsApproved, OnceIn}
use job_agent.Taxonomy.Loading.Accepted.{
  load_skill_taxonomy-IsApproved, load_skill_taxonomy-NamesAs, NamesAs,
}
use job_agent.Taxonomy.Normalizer.{skill_ref, normalize_name}

abbrev skill_entry : String → String → String → Value ℤ
skill_entry key name alias = object (
    field "canonical_key" (text key) (
      field "display_name" (text name)
        (field "aliases" (array (next_item (text alias) no_items)) no_fields)))

abbrev seed_with : String → Value ℤ
seed_with alias = object (
    field "skills"
      (array (
        next_item (skill_entry "react" "React" alias)
          (next_item (skill_entry "javascript" "JavaScript" "JS") no_items)))
      (field "relationships"
        (array (
          next_item
            (object (
              field "from" (text "react")
                (field "to" (text "javascript") (field "weight" (number (pos 80)) no_fields))))
            no_items))
        no_fields))

abbrev react : SeedSkill
react = record {
  canonical_key = "react";
  display_name = "React";
  aliases = "ReactJS" ∷ [];
  category = none;
}

abbrev javascript : SeedSkill
javascript = record {
  canonical_key = "javascript";
  display_name = "JavaScript";
  aliases = "JS" ∷ [];
  category = none;
}

abbrev taxonomy : SkillTaxonomy ℤ
taxonomy = record {
  skills = javascript ∷ react ∷ [];
  relationships =
      record { from_key = "react"; to_key = "javascript"; weight = pos 80; source = "seed" } ∷ [];
  alias_index =
      ("react", "react")
      ∷ ("reactjs", "react")
      ∷ ("javascript", "javascript")
      ∷ ("js", "javascript")
      ∷ [];
  by_key = ("react", react) ∷ ("javascript", javascript) ∷ [];
}

program : Unit {0}
unfolding ascii cents load_skill_taxonomy normalize_name is_blank insert text_ltb
program = tt

loads : load_skill_taxonomy ascii (seed_with "ReactJS") ≡ returned taxonomy
unfolding program
loads = refl

-- An alias with the fingerprint of another skill's alias.
collides : load_skill_taxonomy ascii (seed_with "j.s") ≡ raised colliding_label
unfolding program
collides = refl

finds_alias : normalize_name ascii taxonomy " react.js " ≡ returned (skill_ref react)
unfolding program
finds_alias = refl

load_skill_taxonomy-IsApproved_example :
    All (IsApproved taxonomy.by_key) taxonomy.relationships
    × All (OnceIn taxonomy.relationships) taxonomy.relationships
load_skill_taxonomy-IsApproved_example =
    load_skill_taxonomy-IsApproved ascii (seed_with "ReactJS") loads

load_skill_taxonomy-NamesAs_example :
    All (λ s. All (NamesAs ascii taxonomy s) (labels s)) taxonomy.skills
load_skill_taxonomy-NamesAs_example = load_skill_taxonomy-NamesAs ascii (seed_with "ReactJS") loads
