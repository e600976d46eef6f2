-- ===== src/Matching/Scoring/Agreement.antt =====
-- The results of many Jobs are those of the single Jobs.
use mathlib.Core.Path.{subst}
use job_agent.Prelude.{
  ℕ, some, List, [], ◌∷◌, ◌≡◌, refl, sym, ap, ◌∙◌, map, All, IsIn, All-IsIn, returned,
}
use job_agent.Prelude.Floats.{Float}
use job_agent.Prelude.Dict.{
  Dict, lookup, set_item, All-set_item, IsUnique, set_item-IsUnique, IsUnique-lookup, map_values,
  set_item-map_values, lookup-map_values,
}
use job_agent.Prelude.Sorting.{sort, All-sort}
use job_agent.Prelude.Slices.{All-take}
use job_agent.Prelude.Outcomes.{
  and_then-returned, returned-inj, check-returned, map_outcome, map_outcome-All,
}
use job_agent.Prelude.Words.{Unicode}
use job_agent.Taxonomy.{SkillTaxonomy}
use job_agent.Matching.{MatchScoreComponents, ScoredMatchCandidate}
use job_agent.Matching.Components.{
  quality_multiplier, score_match_candidate, weighted_value, effective_component_weights,
  available_weighted_components,
}
use job_agent.Matching.Ranking.{
  key_before, validate_match_limit, order_scored_match_candidates, rank_match_candidates,
}
use job_agent.Matching.Explanation.{
  MatchExplanationInput, MatchResult, MatchJobsResultData, project_match_result, validate_results,
  project_match_jobs_result,
}
use job_agent.Matching.Scoring.{
  JobScoringFacts, Candidate, Built, job_components, job_coverage, build_match_score_components,
  explain, score_single_job, project_single_job_match, add_candidate, build_all, explain_found,
  explain_ranked, score_retrieved_candidates,
}

module _ {F : Type 0} ⦃fl : Float F⦄ where
  pub score_match_candidate-components :
      (c : MatchScoreComponents F) {s : ScoredMatchCandidate F}
      → score_match_candidate c ≡ returned s
      → s.components ≡ c
  unfolding score_match_candidate
  score_match_candidate-components c h =
      let (m, _, h1) = and_then-returned (quality_multiplier c.jd_quality) _ h in
      let (products, _, h2) =
        and_then-returned
          (map_outcome
            (weighted_value (effective_component_weights (available_weighted_components c)))
            (available_weighted_components c))
          _ h1 in
      ap (λ s. s.components) (sym (returned-inj h2))

  module _ (u : Unicode) (t : SkillTaxonomy F) (p : Candidate F) where
    -- The three dictionaries hold the values of one dictionary of Jobs, each of them a candidate.
    abbrev IsBuilt : List (JobScoringFacts F) → Built F → Type 0
    IsBuilt jobs b =
        (b.components_by_id ≡ map_values (job_components u t p) b.meta_by_id)
        × (b.coverage_by_id ≡ map_values (job_coverage u t p) b.meta_by_id)
        × IsUnique b.meta_by_id
        × All (λ r. (r.0 ≡ r.1.job_id) × IsIn r.1 jobs) b.meta_by_id

    add_candidate-IsBuilt :
        (jobs : List (JobScoringFacts F)) (job : JobScoringFacts F) (b : Built F)
        → IsIn job jobs
        → IsBuilt jobs b
        → IsBuilt jobs (add_candidate u t p job b)
    unfolding add_candidate build_match_score_components
    add_candidate-IsBuilt jobs job b there h = (
      ap (set_item job.job_id (job_components u t p job)) h.0
          ∙ set_item-map_values (job_components u t p) job.job_id job b.meta_by_id,
      ap (set_item job.job_id (job_coverage u t p job)) h.1
          ∙ set_item-map_values (job_coverage u t p) job.job_id job b.meta_by_id,
      set_item-IsUnique job.job_id job b.meta_by_id h.2,
      All-set_item (λ r. (r.0 ≡ r.1.job_id) × IsIn r.1 jobs) job.job_id job b.meta_by_id
          (refl, there) h.3,
    )

    build_all-IsBuilt :
        (jobs rest : List (JobScoringFacts F)) (b : Built F)
        → All (λ job. IsIn job jobs) rest
        → IsBuilt jobs b
        → IsBuilt jobs (build_all u t p rest b)
    unfolding build_all
    build_all-IsBuilt jobs [] b there h = h
    build_all-IsBuilt jobs (job ∷ rest) b there h =
        build_all-IsBuilt jobs rest (add_candidate u t p job b) there.1
          (add_candidate-IsBuilt jobs job b there.0 h)

    -- A score of one of the candidates, which its id finds.
    abbrev IsScoreOf : List (JobScoringFacts F) → Built F → ScoredMatchCandidate F → Type 0
    IsScoreOf jobs b s =
        (job : JobScoringFacts F) × IsIn job jobs
        × (lookup s.components.job_id b.meta_by_id ≡ some job)
        × (score_match_candidate (job_components u t p job) ≡ returned s)

    -- The components of one of the candidates, which its id finds.
    IsRowOf : List (JobScoringFacts F) → Dict (JobScoringFacts F) → MatchScoreComponents F → Type 0
    IsRowOf jobs meta c =
        (job : JobScoringFacts F) × IsIn job jobs
        × (lookup c.job_id meta ≡ some job)
        × (job_components u t p job ≡ c)

    -- Every row of `components_by_id` is of a candidate that its id finds.
    IsBuilt-rows :
        (jobs : List (JobScoringFacts F)) (meta : Dict (JobScoringFacts F))
        → All (λ r. (r.0 ≡ r.1.job_id) × IsIn r.1 jobs) meta
        → (whole : Dict (JobScoringFacts F)) → All (λ r. lookup r.0 whole ≡ some r.1) meta
        → All (IsRowOf jobs whole) (map (λ r. r.1) (map_values (job_components u t p) meta))
    unfolding job_components IsRowOf
    IsBuilt-rows jobs [] rows whole found = tt
    IsBuilt-rows jobs (r ∷ meta) rows whole found = (
      (r.1, rows.0.1, subst (λ k. lookup k whole ≡ some r.1) rows.0.0 found.0, refl),
      IsBuilt-rows jobs meta rows.1 whole found.1,
    )

    ranked_scores :
        (jobs : List (JobScoringFacts F)) (b : Built F) (limit : ℕ)
        {ranked : List (ScoredMatchCandidate F)}
        → IsBuilt jobs b
        → rank_match_candidates (map (λ r. r.1) b.components_by_id) limit ≡ returned ranked
        → All (IsScoreOf jobs b) ranked
    unfolding rank_match_candidates order_scored_match_candidates IsRowOf
    ranked_scores jobs b limit h e =
        let (scored, scores, e1) =
          and_then-returned (map_outcome score_match_candidate (map (λ r. r.1) b.components_by_id))
            _ e in
        let (_, _, e2) = and_then-returned (validate_match_limit limit) _ e1 in
        let rows =
          IsBuilt-rows jobs b.meta_by_id h.3 b.meta_by_id (IsUnique-lookup b.meta_by_id h.2) in
        let good : All (IsScoreOf jobs b) scored =
          map_outcome-All score_match_candidate (IsRowOf jobs b.meta_by_id) (IsScoreOf jobs b)
            (λ c s r one. (
              r.0,
              r.1,
              ap (λ d. lookup d.job_id b.meta_by_id) (score_match_candidate-components c one) ∙ r.2,
              ap score_match_candidate r.3 ∙ one,
            ))
            (map (λ r. r.1) b.components_by_id)
            (subst (λ d. All (IsRowOf jobs b.meta_by_id) (map (λ r. r.1) d)) (sym h.0) rows)
            scores in
        subst (All (IsScoreOf jobs b)) (returned-inj e2) (
          All-take (IsScoreOf jobs b) limit (sort key_before scored)
            (All-sort key_before (IsScoreOf jobs b) scored good))

    -- A Job of the list and its single result.
    abbrev pub IsResultOf : List (JobScoringFacts F) → MatchResult F → Type 0
    IsResultOf jobs r =
        (job : JobScoringFacts F) × IsIn job jobs
        × (project_single_job_match u t p job ≡ returned r)

    abbrev IsInputOf : List (JobScoringFacts F) → MatchExplanationInput F → Type 0
    IsInputOf jobs item =
        (job : JobScoringFacts F) × IsIn job jobs × (score_single_job u t p job ≡ returned item)

    explain_ranked-IsInputOf :
        (jobs : List (JobScoringFacts F)) (b : Built F)
        → IsBuilt jobs b
        → (s : ScoredMatchCandidate F) (item : MatchExplanationInput F) → IsScoreOf jobs b s
        → explain_ranked u t p b s ≡ returned item
        → IsInputOf jobs item
    unfolding explain_ranked score_single_job build_match_score_components explain_found
    explain_ranked-IsInputOf jobs b h s item r e =
        let covered : lookup s.components.job_id b.coverage_by_id ≡ some (job_coverage u t p r.0) =
          ap (lookup s.components.job_id) h.1
          ∙ lookup-map_values (job_coverage u t p) s.components.job_id b.meta_by_id r.2 in
        let shown : explain_ranked u t p b s
            ≡ returned (explain u t p s (job_coverage u t p r.0) r.0) =
          rw (covered, r.2) refl in
        (r.0, r.1, rw r.3 (sym shown ∙ e))

    -- Each result of the many Jobs is the result that its Job has on its own.
    pub score_retrieved_candidates-IsResultOf :
        (jobs : List (JobScoringFacts F)) (limit : ℕ) {found : MatchJobsResultData F}
        → score_retrieved_candidates u t p jobs limit ≡ returned found
        → All (IsResultOf jobs) found.results
    unfolding score_retrieved_candidates project_match_jobs_result validate_results
        project_single_job_match
    score_retrieved_candidates-IsResultOf jobs limit e =
        let start : Built F = record {
          components_by_id = [];
          coverage_by_id = [];
          meta_by_id = [];
        } in
        let built = build_all-IsBuilt jobs jobs start (All-IsIn jobs) (refl, refl, tt, tt) in
        let b = build_all u t p jobs start in
        let (ranked, ranks, e1) =
          and_then-returned (rank_match_candidates (map (λ r. r.1) b.components_by_id) limit) _ e in
        let (items, explained, e2) =
          and_then-returned (map_outcome (explain_ranked u t p b) ranked) _ e1 in
        let (results, projected, e3) =
          and_then-returned (map_outcome project_match_result items) _ e2 in
        let inputs =
          map_outcome-All (explain_ranked u t p b) (IsScoreOf jobs b) (IsInputOf jobs)
            (explain_ranked-IsInputOf jobs b built) ranked (ranked_scores jobs b limit built ranks)
            explained in
        let outcome =
          map_outcome-All project_match_result (IsInputOf jobs) (IsResultOf jobs)
            (λ item result r one. (r.0, r.1, rw r.2 one)) items inputs projected in
        let checked = check-returned _ _ _ e3 in
        subst (λ f. All (IsResultOf jobs) f.results) checked.1 outcome
