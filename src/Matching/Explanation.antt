-- ===== src/Matching/Explanation.antt =====
-- backend/app/services/match_explanations.py and the payloads of backend/app/schemas/matching.py.
pub mod Valid
use job_agent.Prelude.{
  ℕ, String, Bool, true, false, Option, none, some, List, [], ◌∷◌, ◌++◌, ◌==◌, ◌&&◌, ◌||◌, not, any,
  keep, map, length, ltb, leb, eqb, len, is_none, is_blank, strip, if◌then◌else◌, Outcome, returned,
  raised,
}
use job_agent.Prelude.Floats.{Float}
use job_agent.Prelude.Dict.{Dict, lookup}
use job_agent.Prelude.Outcomes.{◌>>=◌, ◌>>◌, map_outcome}
use job_agent.Prelude.Words.{text_append, join}
use job_agent.Models.Skills.{SkillRef, JobSkill, CandidateSkill}
use job_agent.Taxonomy.{RelatedToEdge}
use job_agent.Matching.{
  SkillMatchType, direct, related, none_matched, SkillMatchFact, SkillCoverageResult,
  MatchScoreComponents, ScoredMatchCandidate, MatchError, blank_job_id, missing_candidate,
  missing_relationship, invalid_evidence, invalid_result, invalid_results,
}
use job_agent.Matching.Components.{WorkMode}
use job_agent.Matching.Evidence.{
  MatchSkillEvidence, MissingRequiredSkill, matched_skills, related_skills, missing_required,
}

pub record MatchResult (F : Type 0) : Type 0 where
  pub job_id : String
  pub title : Option String
  pub company : Option String
  pub display_label : Option String
  pub location : Option String
  pub work_mode : WorkMode
  pub source_url : Option String
  pub final_score : F
  pub quality_multiplier : F
  pub components : MatchScoreComponents F
  pub effective_weights : Dict F
  pub matched_required_skills : List (MatchSkillEvidence F)
  pub matched_preferred_skills : List (MatchSkillEvidence F)
  pub related_skills : List (MatchSkillEvidence F)
  pub missing_required_skills : List MissingRequiredSkill
  pub summary : String

pub record MatchJobsResultData (F : Type 0) : Type 0 where
  pub results : List (MatchResult F)
  pub count : ℕ
  pub limit : ℕ

pub record MatchExplanationInput (F : Type 0) : Type 0 where
  pub scored : ScoredMatchCandidate F
  pub skill_coverage : SkillCoverageResult F
  pub title : Option String
  pub company : Option String
  pub location : Option String
  pub work_mode : WorkMode
  pub source_url : Option String
  pub display_label : Option String

-- The text of an optional field that is neither missing nor empty.
text_or : String → Option String → String
text_or other none = other
text_or other (some s) = if s == "" then other else s

-- `if items: parts.append(prefix + details + ".")`
sentence : String → String → List String → List String
sentence prefix sep [] = []
sentence prefix sep (d ∷ ds) = text_append prefix (text_append (join sep (d ∷ ds)) ".") ∷ []

-- `MatchResult`: `job_id` and `summary` are not empty, the label has at most 140 characters.
label_fits : Option String → Bool
label_fits none = true
label_fits (some label) = leb (len label) 140

module _ {F : Type 0} where
  unavailable : String → Option F → List String → List String
  unavailable name none rest = name ∷ rest
  unavailable name (some value) rest = rest

  unfoldable pub unavailable_component_names : MatchScoreComponents F → List String
  unfolding unavailable
  unavailable_component_names c = unavailable "skill_score" c.skill_score (
      unavailable "seniority_score" c.seniority_score (
        unavailable "experience_score" c.experience_score (
          unavailable "location_score" c.location_score
            (unavailable "work_mode_score" c.work_mode_score []))))

module _ {F : Type 0} ⦃fl : Float F⦄ where
  -- A weight that is missing is written as Python writes `None`.
  weight_text : Option (RelatedToEdge F) → String
  weight_text none = "None"
  weight_text (some e) = fl.show e.weight

  direct_detail : MatchSkillEvidence F → String
  direct_detail e =
      join ""
        (e.job_skill_display_name ∷ " (direct via " ∷ e.candidate_skill_display_name ∷ ")" ∷ [])

  related_detail : MatchSkillEvidence F → String
  unfolding weight_text
  related_detail e = join "" (
      e.job_skill_display_name
      ∷ " (related via "
      ∷ e.candidate_skill_display_name
      ∷ ", seed weight "
      ∷ weight_text e.relationship
      ∷ ")"
      ∷ [])

  head_sentence : F → String → Option String → String
  unfolding text_or
  head_sentence final_score subject company =
      let named = text_or "" company in
      if named == ""
      then join "" ("Match score " ∷ fl.show final_score ∷ " for " ∷ subject ∷ "." ∷ [])
      else join ""
          ("Match score " ∷ fl.show final_score ∷ " for " ∷ subject ∷ " at " ∷ named ∷ "." ∷ [])

  unfoldable pub build_summary :
      MatchExplanationInput F
      → List (MatchSkillEvidence F)
      → List (MatchSkillEvidence F)
      → List MissingRequiredSkill
      → String
  unfolding head_sentence text_or sentence direct_detail related_detail unavailable_component_names
      join
  build_summary item matched_required related_ones missing =
      let components = item.scored.components in
      let subject = text_or components.job_id item.title in
      join " " (
        head_sentence item.scored.final_score subject item.company
          ∷ sentence "Matched required skills: " "; " (map direct_detail matched_required)
        ++ sentence "Related skills: " "; " (map related_detail related_ones)
        ++ sentence "Missing required skills: " ", " (map (λ m. m.job_skill_display_name) missing)
        ++ sentence "Unavailable components: " ", " (unavailable_component_names components))

  unfoldable pub validate_result : MatchResult F → Outcome MatchError (MatchResult F)
  unfolding label_fits
  validate_result r =
      if r.job_id == "" || r.summary == "" || not (label_fits r.display_label)
      then raised invalid_result
      else returned r

  unfoldable pub project_match_result : MatchExplanationInput F → Outcome MatchError (MatchResult F)
  unfolding matched_skills related_skills missing_required build_summary validate_result
  project_match_result item =
      if is_blank item.scored.components.job_id then raised blank_job_id else do
        matched_required ← matched_skills item.skill_coverage.required_matches
        matched_preferred ← matched_skills item.skill_coverage.preferred_matches
        related_ones ←
            related_skills item.skill_coverage.required_matches
              item.skill_coverage.preferred_matches
        validate_result record {
          job_id = item.scored.components.job_id;
          title = item.title;
          company = item.company;
          display_label = item.display_label;
          location = item.location;
          work_mode = item.work_mode;
          source_url = item.source_url;
          final_score = item.scored.final_score;
          quality_multiplier = item.scored.quality_multiplier;
          components = item.scored.components;
          effective_weights = item.scored.effective_weights;
          matched_required_skills = matched_required;
          matched_preferred_skills = matched_preferred;
          related_skills = related_ones;
          missing_required_skills = missing_required item.skill_coverage.required_matches;
          summary =
              build_summary item matched_required related_ones
                (missing_required item.skill_coverage.required_matches);
        }

  -- `MatchJobsResultData` with its bounds and `couple_count_to_results`.
  unfoldable pub validate_results :
      MatchJobsResultData F → Outcome MatchError (MatchJobsResultData F)
  validate_results d =
      if ltb d.limit 1
        || ltb 10 d.limit
        || not (eqb d.count (length d.results))
        || ltb d.limit d.count
      then raised invalid_results
      else returned d

  unfoldable pub project_match_jobs_result :
      List (MatchExplanationInput F) → ℕ → Outcome MatchError (MatchJobsResultData F)
  unfolding project_match_result validate_results
  project_match_jobs_result items limit = do
    results ← map_outcome project_match_result items
    validate_results record { results = results; count = length results; limit = limit }
