-- ===== src/Matching/Scoring.antt =====
-- backend/app/services/match_scoring.py: one Job and many Jobs through the same components.
pub mod Agreement
pub mod Totality
use job_agent.Prelude.{ℕ, String, Option, none, some, List, [], ◌∷◌, map, Outcome, returned, raised}
use job_agent.Prelude.Floats.{Float}
use job_agent.Prelude.Dict.{Dict, lookup, set_item}
use job_agent.Prelude.Outcomes.{◌>>=◌, map_outcome}
use job_agent.Prelude.Words.{Unicode}
use job_agent.Models.Skills.{JobSkill, CandidateSkill}
use job_agent.Taxonomy.{SkillTaxonomy}
use job_agent.Matching.{
  SkillCoverageResult, MatchScoreComponents, ScoredMatchCandidate, MatchError, key_error,
}
use job_agent.Matching.Coverage.{compute_skill_coverage}
use job_agent.Matching.Components.{
  Seniority, WorkMode, compute_seniority_score, compute_experience_score, compute_location_score,
  compute_work_mode_score, score_match_candidate,
}
use job_agent.Matching.Ranking.{rank_match_candidates}
use job_agent.Matching.Labels.{derive_saved_job_display_label}
use job_agent.Matching.Explanation.{
  MatchExplanationInput, MatchResult, MatchJobsResultData, project_match_result,
  project_match_jobs_result,
}

-- `JobPostExtraction`, the fields that scoring reads.
pub record JobPostExtraction (F : Type 0) : Type 0 where
  pub title : Option String
  pub company : Option String
  pub summary : String
  pub required_skills : List (JobSkill F)
  pub preferred_skills : List (JobSkill F)
  pub seniority : Seniority
  pub min_experience_years : Option F
  pub location : Option String
  pub work_mode : WorkMode

-- `saved_on` is the date of `saved_at` in UTC.
pub record JobScoringFacts (F : Type 0) : Type 0 where
  pub job_id : String
  pub semantic_similarity : F
  pub extraction : JobPostExtraction F
  pub jd_quality : String
  pub source_url : Option String
  pub saved_on : String

-- What scoring reads of `CandidateProfile` and of `JobPreferences`.
pub record Candidate (F : Type 0) : Type 0 where
  pub total_experience_years : Option F
  pub skills : List (CandidateSkill F)
  pub preferred_locations : List String
  pub acceptable_work_modes : List WorkMode
  pub target_seniority : List Seniority

pub record Built (F : Type 0) : Type 0 where
  pub components_by_id : Dict (MatchScoreComponents F)
  pub coverage_by_id : Dict (SkillCoverageResult F)
  pub meta_by_id : Dict (JobScoringFacts F)

module _ {F : Type 0} ⦃fl : Float F⦄ (u : Unicode) (t : SkillTaxonomy F) (p : Candidate F) where
  unfoldable pub job_coverage : JobScoringFacts F → SkillCoverageResult F
  unfolding compute_skill_coverage
  job_coverage job =
      compute_skill_coverage p.skills job.extraction.required_skills job.extraction.preferred_skills
        t

  unfoldable pub job_components : JobScoringFacts F → MatchScoreComponents F
  unfolding job_coverage compute_seniority_score compute_experience_score compute_location_score
      compute_work_mode_score
  job_components job = record {
    job_id = job.job_id;
    semantic_similarity = job.semantic_similarity;
    skill_score = (job_coverage job).skill_score;
    seniority_score = compute_seniority_score job.extraction.seniority p.target_seniority;
    experience_score =
        compute_experience_score p.total_experience_years job.extraction.min_experience_years;
    location_score = compute_location_score u job.extraction.location p.preferred_locations;
    work_mode_score = compute_work_mode_score job.extraction.work_mode p.acceptable_work_modes;
    jd_quality = job.jd_quality;
  }

  unfoldable pub build_match_score_components :
      JobScoringFacts F → MatchScoreComponents F × SkillCoverageResult F
  unfolding job_components job_coverage
  build_match_score_components job = (job_components job, job_coverage job)

  explain :
      ScoredMatchCandidate F → SkillCoverageResult F → JobScoringFacts F → MatchExplanationInput F
  unfolding derive_saved_job_display_label
  explain scored coverage job = record {
    scored = scored;
    skill_coverage = coverage;
    title = job.extraction.title;
    company = job.extraction.company;
    location = job.extraction.location;
    work_mode = job.extraction.work_mode;
    source_url = job.source_url;
    display_label = some (
        derive_saved_job_display_label u job.extraction.title job.extraction.company
          (some job.extraction.summary) job.saved_on);
  }

  unfoldable pub score_single_job : JobScoringFacts F → Outcome MatchError (MatchExplanationInput F)
  unfolding build_match_score_components score_match_candidate explain
  score_single_job job = do
    scored ← score_match_candidate (build_match_score_components job).0
    returned (explain scored (build_match_score_components job).1 job)

  unfoldable pub project_single_job_match : JobScoringFacts F → Outcome MatchError (MatchResult F)
  unfolding score_single_job project_match_result
  project_single_job_match job = do item ← score_single_job job; project_match_result item

  -- The three dictionaries by `job_id`; `add_candidate` is one turn of the loop.
  unfoldable pub add_candidate : JobScoringFacts F → Built F → Built F
  unfolding build_match_score_components
  add_candidate job b = record {
    components_by_id = set_item job.job_id (build_match_score_components job).0 b.components_by_id;
    coverage_by_id = set_item job.job_id (build_match_score_components job).1 b.coverage_by_id;
    meta_by_id = set_item job.job_id job b.meta_by_id;
  }

  unfoldable pub build_all : List (JobScoringFacts F) → Built F → Built F
  unfolding add_candidate
  build_all [] b = b
  build_all (job ∷ jobs) b = build_all jobs (add_candidate job b)

  -- `coverage_by_id[...]` and `meta_by_id[...]`
  explain_found :
      ScoredMatchCandidate F
      → Option (SkillCoverageResult F)
      → Option (JobScoringFacts F)
      → Outcome MatchError (MatchExplanationInput F)
  unfolding explain
  explain_found scored (some coverage) (some job) = returned (explain scored coverage job)
  explain_found scored _ _ = raised key_error

  unfoldable pub explain_ranked :
      Built F → ScoredMatchCandidate F → Outcome MatchError (MatchExplanationInput F)
  unfolding explain_found
  explain_ranked b scored =
      explain_found scored (lookup scored.components.job_id b.coverage_by_id)
        (lookup scored.components.job_id b.meta_by_id)

  unfoldable pub score_retrieved_candidates :
      List (JobScoringFacts F) → ℕ → Outcome MatchError (MatchJobsResultData F)
  unfolding build_all rank_match_candidates explain_ranked project_match_jobs_result
  score_retrieved_candidates candidates limit =
      let built =
        build_all candidates
          record { components_by_id = []; coverage_by_id = []; meta_by_id = [] } in
      do
        ranked ← rank_match_candidates (map (λ r. r.1) built.components_by_id) limit
        items ← map_outcome (explain_ranked built) ranked
        project_match_jobs_result items limit
