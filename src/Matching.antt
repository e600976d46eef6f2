-- ===== src/Matching.antt =====
-- backend/app/services/skill_matching.py, match_components.py, match_scoring.py and
-- match_explanations.py: the facts that the scores of a Job are made of.
pub mod Coverage
pub mod Components
pub mod Ranking
pub mod Evidence
pub mod Explanation
pub mod Labels
pub mod Scoring
mod Examples
use job_agent.Prelude.{ℕ, String, Bool, Option, List}
use job_agent.Prelude.Dict.{Dict}
use job_agent.Models.Skills.{JobSkill, CandidateSkill}
use job_agent.Taxonomy.{RelatedToEdge}

pub data SkillMatchType : Type 0 where
  direct related none_matched : SkillMatchType

pub record SkillMatchFact (F : Type 0) : Type 0 where
  pub job_skill : JobSkill F
  pub candidate_skill : Option (CandidateSkill F)
  pub match_type : SkillMatchType
  pub strength : F
  pub relationship : Option (RelatedToEdge F)

pub record SkillCoverageResult (F : Type 0) : Type 0 where
  pub required_matches : List (SkillMatchFact F)
  pub preferred_matches : List (SkillMatchFact F)
  pub required_skill_coverage : Option F
  pub preferred_skill_coverage : Option F
  pub skill_score : Option F

pub record MatchScoreComponents (F : Type 0) : Type 0 where
  pub job_id : String
  pub semantic_similarity : F
  pub skill_score : Option F
  pub seniority_score : Option F
  pub experience_score : Option F
  pub location_score : Option F
  pub work_mode_score : Option F
  pub jd_quality : String

pub record ScoredMatchCandidate (F : Type 0) : Type 0 where
  pub components : MatchScoreComponents F
  pub base_score : F
  pub final_score : F
  pub quality_multiplier : F
  pub effective_weights : Dict F

-- One constructor for each `raise ValueError`, for a missing key, and for a payload that
-- `schemas/matching.py` refuses.
pub data MatchError : Type 0 where
  unscorable_job unknown_quality limit_out_of_range key_error : MatchError
  blank_job_id missing_candidate missing_relationship : MatchError
  invalid_evidence invalid_result invalid_results : MatchError
