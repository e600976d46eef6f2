-- ===== src/Matching/Coverage.antt =====
-- backend/app/services/skill_matching.py
pub mod Strongest
use job_agent.Prelude.{
  ℕ, String, Bool, true, false, Option, none, some, List, [], ◌∷◌, ◌==◌, ◌*◌, not, keep, first, map,
  length, if◌then◌else◌,
}
use job_agent.Prelude.Floats.{Float}
use job_agent.Models.Skills.{JobSkill, CandidateSkill}
use job_agent.Taxonomy.{RelatedToEdge, SkillTaxonomy}
use job_agent.Taxonomy.Normalizer.{relationships_for}
use job_agent.Matching.{
  SkillMatchType, direct, related, none_matched, SkillMatchFact, SkillCoverageResult,
}

module _ {F : Type 0} where
  abbrev pub is_eligible : CandidateSkill F → Bool
  is_eligible c = not c.excluded

  unfoldable pub first_direct_match : String → List (CandidateSkill F) → Option (CandidateSkill F)
  first_direct_match job_key candidates = first (λ c. c.skill.canonical_key == job_key) candidates

  -- The first edge of the candidate's skill that leads to the Job's.
  unfoldable pub edge_to : String → SkillTaxonomy F → CandidateSkill F → Option (RelatedToEdge F)
  unfolding relationships_for
  edge_to job_key t c = first (λ e. e.to_key == job_key) (relationships_for t c.skill.canonical_key)

  unfoldable pub or_later :
      CandidateSkill F
      → Option (RelatedToEdge F)
      → Option (CandidateSkill F × RelatedToEdge F)
      → Option (CandidateSkill F × RelatedToEdge F)
  or_later c none later = later
  or_later c (some e) later = some (c, e)

  unfoldable pub first_related_match :
      String
      → SkillTaxonomy F
      → List (CandidateSkill F)
      → Option (CandidateSkill F × RelatedToEdge F)
  unfolding edge_to or_later
  first_related_match job_key t [] = none
  first_related_match job_key t (c ∷ cs) =
      or_later c (edge_to job_key t c) (first_related_match job_key t cs)

module _ {F : Type 0} ⦃fl : Float F⦄ where
  unfoldable pub related_or_none :
      JobSkill F → Option (CandidateSkill F × RelatedToEdge F) → SkillMatchFact F
  related_or_none job_skill (some (c, edge)) = record {
    job_skill = job_skill;
    candidate_skill = some c;
    match_type = related;
    strength = fl.hundredths 60;
    relationship = some edge;
  }
  related_or_none job_skill none = record {
    job_skill = job_skill;
    candidate_skill = none;
    match_type = none_matched;
    strength = fl.hundredths 0;
    relationship = none;
  }

  unfoldable pub direct_or_other :
      JobSkill F → Option (CandidateSkill F) → SkillMatchFact F → SkillMatchFact F
  direct_or_other job_skill (some c) other = record {
    job_skill = job_skill;
    candidate_skill = some c;
    match_type = direct;
    strength = fl.hundredths 100;
    relationship = none;
  }
  direct_or_other job_skill none other = other

  unfoldable pub match_job_skill :
      JobSkill F → List (CandidateSkill F) → SkillTaxonomy F → SkillMatchFact F
  unfolding first_direct_match first_related_match related_or_none direct_or_other
  match_job_skill job_skill candidate_skills t =
      let eligible = keep is_eligible candidate_skills in
      let job_key = job_skill.skill.canonical_key in
      direct_or_other job_skill (first_direct_match job_key eligible)
        (related_or_none job_skill (first_related_match job_key t eligible))

  unfoldable pub match_skills :
      List (JobSkill F) → List (CandidateSkill F) → SkillTaxonomy F → List (SkillMatchFact F)
  unfolding match_job_skill
  match_skills job_skills candidate_skills t =
      map (λ j. match_job_skill j candidate_skills t) job_skills

  -- `sum(...)`: the additions from left to right, without CPython's compensation.
  unfoldable pub total_from : F → List F → F
  total_from acc [] = acc
  total_from acc (x ∷ xs) = total_from (fl.add acc x) xs

  unfoldable pub total : List F → F
  unfolding total_from
  total xs = total_from (fl.hundredths 0) xs

  unfoldable pub coverage : List (SkillMatchFact F) → Option F
  unfolding total
  coverage [] = none
  coverage (m ∷ ms) =
      some (fl.div (total (map (λ f. f.strength) (m ∷ ms))) (fl.hundredths (length (m ∷ ms) * 100)))

  -- One `if` of `_skill_score`: the two sums after it.
  weigh : F → Option F → F × F → F × F
  weigh w none sums = sums
  weigh w (some c) (weighted_sum, weight_sum) =
      (fl.add weighted_sum (fl.mul w c), fl.add weight_sum w)

  unfoldable pub skill_score : Option F → Option F → Option F
  unfolding weigh
  skill_score required preferred =
      let zero = fl.hundredths 0 in
      let (weighted_sum, weight_sum) =
        weigh (fl.hundredths 20) preferred (weigh (fl.hundredths 80) required (zero, zero)) in
      if fl.equal weight_sum zero then none else some (fl.div weighted_sum weight_sum)

  unfoldable pub compute_skill_coverage :
      List (CandidateSkill F)
      → List (JobSkill F)
      → List (JobSkill F)
      → SkillTaxonomy F
      → SkillCoverageResult F
  unfolding match_skills coverage skill_score
  compute_skill_coverage candidate_skills required_skills preferred_skills t =
      let required_matches = match_skills required_skills candidate_skills t in
      let preferred_matches = match_skills preferred_skills candidate_skills t in
      record {
        required_matches = required_matches;
        preferred_matches = preferred_matches;
        required_skill_coverage = coverage required_matches;
        preferred_skill_coverage = coverage preferred_matches;
        skill_score = skill_score (coverage required_matches) (coverage preferred_matches);
      }
