-- ===== src/Matching/Evidence.antt =====
-- backend/app/services/match_explanations.py: the matched and the missing skills.
pub mod Accounted
use job_agent.Prelude.{
  ℕ, String, Bool, true, false, Option, none, some, List, [], ◌∷◌, ◌++◌, ◌==◌, ◌&&◌, ◌||◌, not, any,
  keep, map, length, ltb, leb, eqb, len, is_none, is_blank, strip, if◌then◌else◌, Outcome, returned,
  raised,
}
use job_agent.Prelude.Floats.{Float}
use job_agent.Prelude.Dict.{Dict, lookup}
use job_agent.Prelude.Outcomes.{◌>>=◌, ◌>>◌, map_outcome}
use job_agent.Prelude.Words.{text_append, join}
use job_agent.Models.Skills.{SkillRef, JobSkill, CandidateSkill}
use job_agent.Taxonomy.{RelatedToEdge}
use job_agent.Matching.{
  SkillMatchType, direct, related, none_matched, SkillMatchFact, SkillCoverageResult,
  MatchScoreComponents, ScoredMatchCandidate, MatchError, blank_job_id, missing_candidate,
  missing_relationship, invalid_evidence, invalid_result, invalid_results,
}

pub record MatchSkillEvidence (F : Type 0) : Type 0 where
  pub job_skill_key : String
  pub job_skill_display_name : String
  pub is_direct : Bool
  pub strength : F
  pub candidate_skill_key : String
  pub candidate_skill_display_name : String
  pub job_evidence : List String
  pub candidate_evidence : List String
  pub relationship : Option (RelatedToEdge F)

pub record MissingRequiredSkill : Type 0 where
  pub job_skill_key : String
  pub job_skill_display_name : String
  pub job_evidence : List String

is_kind_direct : SkillMatchType → Bool
is_kind_direct direct = true
is_kind_direct _ = false

is_kind_related : SkillMatchType → Bool
is_kind_related related = true
is_kind_related _ = false

is_kind_none : SkillMatchType → Bool
is_kind_none none_matched = true
is_kind_none _ = false

module _ {F : Type 0} where
  -- `couple_match_type_and_relationship`, on the four relationship fields at once.
  couple :
      MatchSkillEvidence F
      → Bool
      → Option (RelatedToEdge F)
      → Outcome MatchError (MatchSkillEvidence F)
  couple evidence true none = returned evidence
  couple evidence true (some e) = raised invalid_evidence
  couple evidence false none = raised invalid_evidence
  couple evidence false (some e) =
      if is_blank e.source then raised invalid_evidence else returned evidence

  unfoldable pub couple_match_type_and_relationship :
      MatchSkillEvidence F → Outcome MatchError (MatchSkillEvidence F)
  unfolding couple
  couple_match_type_and_relationship evidence =
      couple evidence evidence.is_direct evidence.relationship

  evidence_of :
      SkillMatchFact F → CandidateSkill F → Bool → Option (RelatedToEdge F) → MatchSkillEvidence F
  evidence_of fact c is_direct edge = record {
    job_skill_key = fact.job_skill.skill.canonical_key;
    job_skill_display_name = fact.job_skill.skill.display_name;
    is_direct = is_direct;
    strength = fact.strength;
    candidate_skill_key = c.skill.canonical_key;
    candidate_skill_display_name = c.skill.display_name;
    job_evidence = fact.job_skill.evidence;
    candidate_evidence = c.evidence;
    relationship = edge;
  }

  evidence_for :
      SkillMatchFact F
      → Option (CandidateSkill F)
      → SkillMatchType
      → Option (RelatedToEdge F)
      → Outcome MatchError (MatchSkillEvidence F)
  unfolding couple_match_type_and_relationship evidence_of
  evidence_for fact none kind edge = raised missing_candidate
  evidence_for fact (some c) direct edge =
      couple_match_type_and_relationship (evidence_of fact c true none)
  evidence_for fact (some c) related (some e) =
      couple_match_type_and_relationship (evidence_of fact c false (some e))
  evidence_for fact (some c) related none = raised missing_relationship
  evidence_for fact (some c) none_matched edge = raised missing_relationship

  unfoldable pub skill_evidence : SkillMatchFact F → Outcome MatchError (MatchSkillEvidence F)
  unfolding evidence_for
  skill_evidence fact = evidence_for fact fact.candidate_skill fact.match_type fact.relationship

  unfoldable pub is_direct_match : SkillMatchFact F → Bool
  unfolding is_kind_direct
  is_direct_match fact = is_kind_direct fact.match_type && not (is_none fact.candidate_skill)

  unfoldable pub is_related_match : SkillMatchFact F → Bool
  unfolding is_kind_related
  is_related_match fact = is_kind_related fact.match_type && not (is_none fact.candidate_skill)

  unfoldable pub matched_skills :
      List (SkillMatchFact F) → Outcome MatchError (List (MatchSkillEvidence F))
  unfolding skill_evidence is_direct_match
  matched_skills facts = map_outcome skill_evidence (keep is_direct_match facts)

  unfoldable pub related_skills :
      List (SkillMatchFact F)
      → List (SkillMatchFact F)
      → Outcome MatchError (List (MatchSkillEvidence F))
  unfolding skill_evidence is_related_match
  related_skills required preferred =
      map_outcome skill_evidence (keep is_related_match (required ++ preferred))

  missing_of : SkillMatchFact F → MissingRequiredSkill
  missing_of fact = record {
    job_skill_key = fact.job_skill.skill.canonical_key;
    job_skill_display_name = fact.job_skill.skill.display_name;
    job_evidence = fact.job_skill.evidence;
  }

module _ {F : Type 0} ⦃fl : Float F⦄ where
  -- A required skill of which the best strength is zero.
  unfoldable pub is_missing : SkillMatchFact F → Bool
  unfolding is_kind_none
  is_missing fact = is_kind_none fact.match_type || fl.equal fact.strength (fl.hundredths 0)

  unfoldable pub missing_required : List (SkillMatchFact F) → List MissingRequiredSkill
  unfolding is_missing missing_of
  missing_required facts = map missing_of (keep is_missing facts)
