-- ===== src/Matching/Scoring/Totality.antt =====
-- A Job that can be scored is projected, and its required skills are accounted for.
use mathlib.Core.Path.{subst}
use job_agent.Prelude.{
  if-false, true, false, some, ◌≡◌, ◌≤◌, ◌+◌, refl, sym, ap, arith, All, count_if, length,
  length-map, is_blank, len, returned, raised,
}
use job_agent.Prelude.Floats.{Float, IsNumeric}
use job_agent.Prelude.Outcomes.{and_then-holds}
use job_agent.Prelude.Words.{Unicode}
use job_agent.Taxonomy.{SkillTaxonomy}
use job_agent.Matching.{ScoredMatchCandidate, blank_job_id}
use job_agent.Matching.Coverage.{match_skills, compute_skill_coverage}
use job_agent.Matching.Components.Weighted.{is_scorable, score_match_candidate-total}
use job_agent.Matching.Labels.Bounds.{label_fits_lem}
use job_agent.Matching.Evidence.{matched_skills, related_skills, missing_required, is_related_match}
use job_agent.Matching.Evidence.Accounted.{
  HasSource, match_skills-IsAccounted, counts, matched_skills-total, related_skills-total,
  length-missing_required,
}
use job_agent.Matching.Explanation.{MatchResult, project_match_result}
use job_agent.Matching.Explanation.Valid.{validate_result-valid, build_summary-text, not_empty}
use job_agent.Matching.Scoring.Agreement.{score_match_candidate-components}
use job_agent.Matching.Scoring.{
  build_match_score_components, JobScoringFacts, Candidate, job_components, job_coverage, explain,
  score_single_job, project_single_job_match,
}

module _ {F : Type 0} ⦃fl : Float F⦄ (numeric : IsNumeric fl) (u : Unicode) (t : SkillTaxonomy F)
    (p : Candidate F) where
  -- The required skills of the Job are the direct and the related matches and the gaps; the
  -- related matches hold those of the preferred skills too.
  unfoldable pub AccountsFor : JobScoringFacts F → MatchResult F → Type 0
  AccountsFor job r =
      let preferred = match_skills job.extraction.preferred_skills p.skills t in
      length r.matched_required_skills
        + (length r.related_skills + length r.missing_required_skills)
      ≡ length job.extraction.required_skills + count_if is_related_match preferred

  result_total :
      (job : JobScoringFacts F) (s : ScoredMatchCandidate F)
      → All HasSource t.relationships
      → is_blank s.components.job_id ≡ false
      → len job.saved_on ≤ 10
      → (r : MatchResult F) × (project_match_result (explain u t p s (job_coverage u t p job) job)
          ≡ returned r)
        × AccountsFor job r
  unfolding project_match_result AccountsFor explain job_coverage compute_skill_coverage
  result_total job s sources solid date =
      let required = match_skills job.extraction.required_skills p.skills t in
      let preferred = match_skills job.extraction.preferred_skills p.skills t in
      let required_ok =
        match_skills-IsAccounted numeric t p.skills job.extraction.required_skills sources in
      let preferred_ok =
        match_skills-IsAccounted numeric t p.skills job.extraction.preferred_skills sources in
      let (ds, directs, d) = matched_skills-total numeric required required_ok in
      let (ps, preferreds, _) = matched_skills-total numeric preferred preferred_ok in
      let (rs, relateds, r) =
        related_skills-total numeric required preferred required_ok preferred_ok in
      let skills : length required ≡ length job.extraction.required_skills =
        unfold match_skills in length-map _ job.extraction.required_skills in
      if-false (λ o. (r : MatchResult F) × (o ≡ returned r) × AccountsFor job r)
        (is_blank s.components.job_id) (raised blank_job_id) _ solid
        (and_then-holds (AccountsFor job) (matched_skills required) _ directs (
          and_then-holds (AccountsFor job) (matched_skills preferred) _ preferreds (
            and_then-holds (AccountsFor job) (related_skills required preferred) _ relateds (
              _,
              validate_result-valid _ _ (not_empty s.components.job_id solid)
                  (build_summary-text (explain u t p s (job_coverage u t p job) job) ds rs
                    (missing_required required))
                  refl
                  (label_fits_lem u job.extraction.title job.extraction.company
                    (some job.extraction.summary) job.saved_on date),
              omega (
                arith,
                d,
                r,
                length-missing_required numeric required,
                counts numeric required required_ok,
                skills,
              ),
            ))))

  -- A Job of full or partial quality with an id is projected: each of its required skills is a
  -- direct match, a related match or a gap.
  pub project_single_job_match-total :
      (job : JobScoringFacts F)
      → All HasSource t.relationships
      → is_scorable job.jd_quality ≡ true
      → is_blank job.job_id ≡ false
      → len job.saved_on ≤ 10
      → (r : MatchResult F) × (project_single_job_match u t p job ≡ returned r) × AccountsFor job r
  unfolding project_single_job_match score_single_job build_match_score_components job_components
  project_single_job_match-total job sources quality solid date =
      let (s, scored) = score_match_candidate-total (job_components u t p job) quality in
      let same : s.components.job_id ≡ job.job_id =
        ap (λ c. c.job_id) (score_match_candidate-components (job_components u t p job) scored) in
      let one : score_single_job u t p job
          ≡ returned (explain u t p s (job_coverage u t p job) job) =
        rw scored refl in
      and_then-holds (AccountsFor job) (score_single_job u t p job) project_match_result one
        (result_total job s sources (subst (λ i. is_blank i ≡ false) (sym same) solid) date)
