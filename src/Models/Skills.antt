-- ===== src/Models/Skills.antt =====
-- backend/app/schemas/skills.py, and the skills of backend/app/schemas/profile.py and jobs.py.
use job_agent.Prelude.{String, Bool, Option, List}

pub record SkillRef : Type 0 where
  pub canonical_key : String
  pub display_name : String
  pub aliases : List String
  pub category : Option String

pub data SkillProficiency : Type 0 where
  beginner intermediate advanced unknown : SkillProficiency

pub data SkillSource : Type 0 where
  cv user_correction : SkillSource

pub record CandidateSkill (F : Type 0) : Type 0 where
  pub skill : SkillRef
  pub confidence : F
  pub proficiency : SkillProficiency
  pub years : Option F
  pub source : SkillSource
  pub excluded : Bool
  pub evidence : List String

pub record JobSkill (F : Type 0) : Type 0 where
  pub skill : SkillRef
  pub confidence : F
  pub evidence : List String
