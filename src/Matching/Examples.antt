-- ===== src/Matching/Examples.antt =====
-- A candidate who knows React, two Jobs, and the properties at them.
use mathlib.Core.List.{Permᴰ}
use job_agent.Prelude.{
  String, Bool, true, false, Option, none, some, List, [], ◌∷◌, ◌≡◌, ◌⊎◌, ◌≤◌, refl, All, is_blank,
  len, cut, Outcome, returned, raised, ℤ, pos, map, arith,
}
use job_agent.Prelude.Ascii.{ascii}
use job_agent.Prelude.Cents.{cents, numbers, cents-IsNumeric}
use job_agent.Prelude.Sorting.{insert, text_ltb}
use job_agent.Models.Skills.{SkillRef, JobSkill, CandidateSkill, SkillProficiency, SkillSource}
use job_agent.Taxonomy.{SkillTaxonomy}
use job_agent.Matching.{
  ScoredMatchCandidate, MatchScoreComponents, limit_out_of_range, unscorable_job, MatchError,
}
use job_agent.Matching.Coverage.{match_job_skill}
use job_agent.Matching.Coverage.Strongest.{IsStrongest, match_job_skill-IsStrongest}
use job_agent.Matching.Components.{Seniority, WorkMode}
use job_agent.Matching.Components.Weighted.{is_scorable}
use job_agent.Matching.Evidence.Accounted.{HasSource}
use job_agent.Matching.Ranking.{order_scored_match_candidates}
use job_agent.Matching.Ranking.Top.{
  IsTop, is_valid_limit, order_scored_match_candidates-IsTop, order_scored_match_candidates-Perm,
}
use job_agent.Matching.Explanation.{MatchResult, MatchJobsResultData}
use job_agent.Matching.Scoring.{
  JobScoringFacts, Candidate, project_single_job_match, score_retrieved_candidates,
}
use job_agent.Matching.Scoring.Agreement.{IsResultOf, score_retrieved_candidates-IsResultOf}
use job_agent.Matching.Scoring.Totality.{AccountsFor, project_single_job_match-total}

abbrev skill : String → SkillRef
skill key = record { canonical_key = key; display_name = key; aliases = []; category = none }

abbrev knows : String → Bool → CandidateSkill ℤ
knows key excluded = record {
  skill = skill key;
  confidence = pos 90;
  proficiency = SkillProficiency.advanced;
  years = none;
  source = SkillSource.cv;
  excluded = excluded;
  evidence = [];
}

abbrev wants : String → JobSkill ℤ
wants key = record { skill = skill key; confidence = pos 80; evidence = [] }

-- React leads to JavaScript.
abbrev taxonomy : SkillTaxonomy ℤ
taxonomy = record {
  skills = [];
  relationships =
      record { from_key = "react"; to_key = "javascript"; weight = pos 80; source = "seed" } ∷ [];
  alias_index = [];
  by_key = [];
}

abbrev candidate : Candidate ℤ
candidate = record {
  total_experience_years = some (pos 300);
  skills = knows "javascript" true ∷ knows "react" false ∷ [];
  preferred_locations = "Hanoi" ∷ [];
  acceptable_work_modes = WorkMode.remote ∷ [];
  target_seniority = Seniority.junior ∷ [];
}

abbrev job_wanting : String → String → String → JobScoringFacts ℤ
job_wanting job_id key quality = record {
  job_id = job_id;
  semantic_similarity = pos 50;
  extraction = record {
    title = some "Developer";
    company = none;
    summary = "Web pages.";
    required_skills = wants key ∷ [];
    preferred_skills = [];
    seniority = Seniority.unknown_seniority;
    min_experience_years = some (pos 600);
    location = none;
    work_mode = WorkMode.remote;
  };
  jd_quality = quality;
  source_url = none;
  saved_on = "2026-01-31";
}

program : Unit {0}
unfolding ascii cents is_blank cut insert text_ltb match_job_skill order_scored_match_candidates
    project_single_job_match score_retrieved_candidates
program = tt

match_job_skill-IsStrongest_example :
    IsStrongest
      (wants "javascript")
      taxonomy
      candidate.skills
      (match_job_skill (wants "javascript") candidate.skills taxonomy)
match_job_skill-IsStrongest_example =
    match_job_skill-IsStrongest (wants "javascript") taxonomy candidate.skills

abbrev listed : {A : Type 0} → Option A → List A
listed none = []
listed (some x) = x ∷ []

-- The excluded skill is passed over: the match is React, by its edge.
matches_related :
    map
      (λ (c : CandidateSkill ℤ). c.skill.canonical_key)
      (listed (match_job_skill (wants "javascript") candidate.skills taxonomy).candidate_skill)
    ≡ "react" ∷ []
unfolding program
matches_related = refl

abbrev components : String → ℤ → MatchScoreComponents ℤ
components job_id similarity = record {
  job_id = job_id;
  semantic_similarity = similarity;
  skill_score = none;
  seniority_score = none;
  experience_score = none;
  location_score = none;
  work_mode_score = none;
  jd_quality = "full";
}

abbrev scored : String → ℤ → ScoredMatchCandidate ℤ
scored job_id score = record {
  components = components job_id score;
  base_score = score;
  final_score = score;
  quality_multiplier = pos 100;
  effective_weights = [];
}

abbrev some_candidates : List (ScoredMatchCandidate ℤ)
some_candidates = scored "b" (pos 40) ∷ scored "a" (pos 40) ∷ scored "c" (pos 70) ∷ []

best_two :
    order_scored_match_candidates some_candidates 2
    ≡ returned (scored "c" (pos 70) ∷ scored "a" (pos 40) ∷ [])
unfolding program
best_two = refl

order_scored_match_candidates-IsTop_example :
    ((is_valid_limit 2 ≡ false)
      × (order_scored_match_candidates some_candidates 2 ≡ raised limit_out_of_range))
    ⊎ ((top : List (ScoredMatchCandidate ℤ)) × (order_scored_match_candidates some_candidates 2
          ≡ returned top)
        × IsTop 2 some_candidates top)
order_scored_match_candidates-IsTop_example =
    order_scored_match_candidates-IsTop cents-IsNumeric some_candidates 2

abbrev swapped : List (ScoredMatchCandidate ℤ)
swapped = scored "a" (pos 40) ∷ scored "b" (pos 40) ∷ scored "c" (pos 70) ∷ []

order_scored_match_candidates-Perm_example :
    order_scored_match_candidates some_candidates 2 ≡ order_scored_match_candidates swapped 2
order_scored_match_candidates-Perm_example =
    order_scored_match_candidates-Perm cents-IsNumeric some_candidates swapped 2
      (Permᴰ.swap refl refl) (((refl, (refl, tt)), ((refl, tt), (tt, tt))))

abbrev jobs : List (JobScoringFacts ℤ)
jobs =
    job_wanting "j1" "go" "full"
    ∷ job_wanting "j2" "javascript" "partial"
    ∷ job_wanting "j3" "react" "full"
    ∷ []

abbrev nothing_found : MatchJobsResultData ℤ
nothing_found = record { results = []; count = 0; limit = 0 }

found_of : Outcome MatchError (MatchJobsResultData ℤ) → MatchJobsResultData ℤ
found_of (returned d) = d
found_of (raised e) = nothing_found

found : MatchJobsResultData ℤ
unfolding program found_of
found = found_of (score_retrieved_candidates ascii taxonomy candidate jobs 2)

finds_two : score_retrieved_candidates ascii taxonomy candidate jobs 2 ≡ returned found
unfolding program found_of found
finds_two = refl

best_first : map (λ (r : MatchResult ℤ). r.job_id) found.results ≡ "j3" ∷ "j2" ∷ []
unfolding program found_of found
best_first = refl

unscorable_raises :
    project_single_job_match ascii taxonomy candidate (job_wanting "j4" "go" "unscorable")
    ≡ raised unscorable_job
unfolding program
unscorable_raises = refl

score_retrieved_candidates-IsResultOf_example :
    All (IsResultOf ascii taxonomy candidate jobs) found.results
score_retrieved_candidates-IsResultOf_example =
    score_retrieved_candidates-IsResultOf ascii taxonomy candidate jobs 2 finds_two

sourced : All HasSource taxonomy.relationships
unfolding program
sourced = (refl, tt)

graded : is_scorable "partial" ≡ true
unfolding is_scorable
graded = refl

named : is_blank "j2" ≡ false
unfolding program
named = refl

dated : len "2026-01-31" ≤ 10
dated = omega arith

project_single_job_match-total_example :
    (r : MatchResult ℤ) × (project_single_job_match ascii taxonomy candidate
        (job_wanting "j2" "javascript" "partial")
      ≡ returned r)
    × AccountsFor cents-IsNumeric ascii taxonomy candidate
        (job_wanting "j2" "javascript" "partial")
        r
project_single_job_match-total_example =
    project_single_job_match-total cents-IsNumeric ascii taxonomy candidate
      (job_wanting "j2" "javascript" "partial") sourced graded named dated
