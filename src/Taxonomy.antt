-- ===== src/Taxonomy.antt =====
-- backend/app/services/skill_normalization.py: the taxonomy of skills and what its seed file holds.
pub mod Text
pub mod Reading
pub mod Loading
pub mod Normalizer
mod Examples
use job_agent.Prelude.{String, Bool, Option, List}
use job_agent.Prelude.Dict.{Dict}

-- One constructor for each `raise SkillTaxonomyError`.
pub data SkillTaxonomyError : Type 0 where
  not_an_object not_a_list unexpected_keys : SkillTaxonomyError
  blank_text bad_key duplicate_key bad_category : SkillTaxonomyError
  empty_fingerprint colliding_label : SkillTaxonomyError
  not_a_seed_skill self_loop bad_weight duplicate_relationship : SkillTaxonomyError
  empty_name underivable_key empty_display_name : SkillTaxonomyError

-- What `json.loads` returns; a number is read as the float that it converts to.
mutual
  pub data Value (F : Type 0) : Type 0 where
    null : Value F
    bool : Bool → Value F
    number : F → Value F
    text : String → Value F
    array : Values F → Value F
    object : Fields F → Value F

  pub data Values (F : Type 0) : Type 0 where
    no_items : Values F
    next_item : Value F → Values F → Values F

  pub data Fields (F : Type 0) : Type 0 where
    no_fields : Fields F
    field : String → Value F → Fields F → Fields F

pub record SeedSkill : Type 0 where
  pub canonical_key : String
  pub display_name : String
  pub aliases : List String
  pub category : Option String

pub record RelatedToEdge (F : Type 0) : Type 0 where
  pub from_key : String
  pub to_key : String
  pub weight : F
  pub source : String

pub record SkillTaxonomy (F : Type 0) : Type 0 where
  pub skills : List SeedSkill
  pub relationships : List (RelatedToEdge F)
  pub alias_index : Dict String
  pub by_key : Dict SeedSkill
