-- ===== src/Matching/Components.antt =====
-- backend/app/services/match_components.py: the scores of the components and their weighted sum.
pub mod Weighted
use job_agent.Prelude.{
  ℕ, String, Bool, true, false, Option, none, some, List, [], ◌∷◌, ◌==◌, not, any, keep, map, eqb,
  if◌then◌else◌, Outcome, returned, raised,
}
use job_agent.Prelude.Floats.{Float}
use job_agent.Prelude.Dict.{Dict, lookup}
use job_agent.Prelude.Outcomes.{◌>>=◌, map_outcome}
use job_agent.Prelude.Words.{Unicode, collapse_whitespace}
use job_agent.Matching.{
  MatchScoreComponents, ScoredMatchCandidate, MatchError, unscorable_job, unknown_quality,
  key_error,
}
use job_agent.Matching.Coverage.{total}

-- `JobSeniority` and `TargetSeniority`
pub data Seniority : Type 0 where
  intern junior mid senior lead unknown_seniority : Seniority

-- `JobWorkMode`; `WorkMode` is the same without the last.
pub data WorkMode : Type 0 where
  remote hybrid onsite unknown_mode : WorkMode

seniority_code : Seniority → ℕ
seniority_code intern = 0
seniority_code junior = 1
seniority_code mid = 2
seniority_code senior = 3
seniority_code lead = 4
seniority_code unknown_seniority = 5

unfoldable pub same_seniority : Seniority → Seniority → Bool
unfolding seniority_code
same_seniority a b = eqb (seniority_code a) (seniority_code b)

mode_code : WorkMode → ℕ
mode_code remote = 0
mode_code hybrid = 1
mode_code onsite = 2
mode_code unknown_mode = 3

unfoldable pub same_mode : WorkMode → WorkMode → Bool
unfolding mode_code
same_mode a b = eqb (mode_code a) (mode_code b)

is_empty : {A : Type 0} → List A → Bool
is_empty [] = true
is_empty (x ∷ xs) = false

-- `" ".join(unicodedata.normalize("NFKC", raw).split()).casefold()`
unfoldable pub normalize_location_for_match : Unicode → String → String
unfolding collapse_whitespace
normalize_location_for_match u raw = u.casefold (collapse_whitespace (u.nfkc raw))

module _ {F : Type 0} ⦃fl : Float F⦄ where
  -- `1.0 if found else 0.0`
  unfoldable pub membership : Bool → F
  membership found = if found then fl.hundredths 100 else fl.hundredths 0

  -- `max(0.0, min(1.0, value))`: Python keeps the first of two values unless the second is beyond it.
  unfoldable pub clamp_unit : F → F
  clamp_unit value =
      let low = if fl.less value (fl.hundredths 100) then value else fl.hundredths 100 in
      if fl.less (fl.hundredths 0) low then low else fl.hundredths 0

  unfoldable pub compute_seniority_score : Seniority → List Seniority → Option F
  unfolding same_seniority is_empty membership
  compute_seniority_score job_seniority target_seniority =
      if same_seniority job_seniority unknown_seniority
      then none
      else if is_empty target_seniority
      then none
      else some (membership (any (same_seniority job_seniority) target_seniority))

  unfoldable pub compute_experience_score : Option F → Option F → Option F
  unfolding clamp_unit
  compute_experience_score (some candidate_years) (some min_experience_years) = some (
      if fl.equal min_experience_years (fl.hundredths 0)
      then fl.hundredths 100
      else if fl.at_most min_experience_years candidate_years
      then fl.hundredths 100
      else clamp_unit (fl.div candidate_years min_experience_years))
  compute_experience_score _ _ = none

  located : Unicode → String → List String → Option F
  unfolding membership normalize_location_for_match is_empty
  located u job_location preferred_locations =
      let normalized = normalize_location_for_match u job_location in
      let preferences =
        keep (λ p. not (p == "")) (map (normalize_location_for_match u) preferred_locations) in
      if normalized == ""
      then none
      else if is_empty preferences
      then none
      else some (membership (any (λ p. normalized == p) preferences))

  unfoldable pub compute_location_score : Unicode → Option String → List String → Option F
  unfolding located
  compute_location_score u none preferred_locations = none
  compute_location_score u (some job_location) preferred_locations =
      located u job_location preferred_locations

  unfoldable pub compute_work_mode_score : WorkMode → List WorkMode → Option F
  unfolding same_mode is_empty membership
  compute_work_mode_score job_work_mode acceptable_work_modes =
      if same_mode job_work_mode unknown_mode
      then none
      else if is_empty acceptable_work_modes
      then none
      else some (membership (any (same_mode job_work_mode) acceptable_work_modes))

  unfoldable pub quality_multiplier : String → Outcome MatchError F
  quality_multiplier jd_quality =
      if jd_quality == "full"
      then returned (fl.hundredths 100)
      else if jd_quality == "partial"
      then returned (fl.hundredths 85)
      else if jd_quality == "unscorable"
      then raised unscorable_job
      else raised unknown_quality

  unfoldable pub weighted_component_values : MatchScoreComponents F → List (String × F × Option F)
  weighted_component_values c =
      ("semantic_similarity", fl.hundredths 30, some c.semantic_similarity)
      ∷ ("skill_score", fl.hundredths 40, c.skill_score)
      ∷ ("seniority_score", fl.hundredths 10, c.seniority_score)
      ∷ ("experience_score", fl.hundredths 10, c.experience_score)
      ∷ ("location_score", fl.hundredths 5, c.location_score)
      ∷ ("work_mode_score", fl.hundredths 5, c.work_mode_score)
      ∷ []

  if_available : String → F → Option F → List (String × F × F) → List (String × F × F)
  if_available name weight none rest = rest
  if_available name weight (some value) rest = (name, weight, value) ∷ rest

  available : List (String × F × Option F) → List (String × F × F)
  unfolding if_available
  available [] = []
  available ((name, weight, value) ∷ rest) = if_available name weight value (available rest)

  unfoldable pub available_weighted_components : MatchScoreComponents F → List (String × F × F)
  unfolding available weighted_component_values
  available_weighted_components c = available (weighted_component_values c)

  -- The names differ, so the comprehension sets each key once.
  unfoldable pub effective_component_weights : List (String × F × F) → Dict F
  unfolding total
  effective_component_weights weighted =
      let total_weight = total (map (λ w. w.1) weighted) in
      map (λ w. (w.0, fl.div w.1 total_weight)) weighted

  -- `effective_weights[name]`
  weight_of : Option F → Outcome MatchError F
  weight_of none = raised key_error
  weight_of (some w) = returned w

  -- `value * effective_weights[name]`
  unfoldable pub weighted_value : Dict F → String × F × F → Outcome MatchError F
  unfolding weight_of
  weighted_value effective c = do
    weight ← weight_of (lookup c.0 effective)
    returned (fl.mul c.2 weight)

  unfoldable pub score_match_candidate :
      MatchScoreComponents F → Outcome MatchError (ScoredMatchCandidate F)
  unfolding quality_multiplier available_weighted_components effective_component_weights
      weighted_value total
  score_match_candidate components = do
    multiplier ← quality_multiplier components.jd_quality
    products ←
        map_outcome
          (weighted_value (effective_component_weights (available_weighted_components components)))
          (available_weighted_components components)
    returned record {
      components = components;
      base_score = total products;
      final_score = fl.mul (total products) multiplier;
      quality_multiplier = multiplier;
      effective_weights = effective_component_weights (available_weighted_components components);
    }
