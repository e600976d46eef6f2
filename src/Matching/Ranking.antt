-- ===== src/Matching/Ranking.antt =====
-- backend/app/services/match_components.py: the order of the scored candidates and the limit.
pub mod Order
pub mod Top
use job_agent.Prelude.{
  ℕ, String, Bool, true, false, Option, none, some, List, [], ◌∷◌, not, ◌&&◌, ◌||◌, map, take, ltb,
  is_none, if◌then◌else◌, Outcome, returned, raised,
}
use job_agent.Prelude.Floats.{Float}
use job_agent.Prelude.Sorting.{text_ltb, sort}
use job_agent.Prelude.Outcomes.{◌>>=◌, ◌>>◌, map_outcome}
use job_agent.Matching.{MatchScoreComponents, ScoredMatchCandidate, MatchError, limit_out_of_range}
use job_agent.Matching.Components.{score_match_candidate}

same_bool : Bool → Bool → Bool
same_bool true b = b
same_bool false b = not b

-- A limit that is no `int` does not occur: the parameter is a number.
unfoldable pub validate_match_limit : ℕ → Outcome MatchError (Unit {0})
validate_match_limit limit =
    if ltb limit 1 || ltb 10 limit then raised limit_out_of_range else returned tt

module _ {F : Type 0} ⦃fl : Float F⦄ where
  or_zero : Option F → F
  or_zero none = fl.hundredths 0
  or_zero (some x) = x

  -- `_scored_match_order_key`, with the keys compared as Python compares tuples: by the first
  -- position where they differ.
  unfoldable pub key_before : ScoredMatchCandidate F → ScoredMatchCandidate F → Bool
  unfolding or_zero same_bool
  key_before a b =
      let final = λ (c : ScoredMatchCandidate F). fl.neg c.final_score in
      let absent = λ (c : ScoredMatchCandidate F). is_none c.components.skill_score in
      let skill = λ (c : ScoredMatchCandidate F). fl.neg (or_zero c.components.skill_score) in
      let similarity = λ (c : ScoredMatchCandidate F). fl.neg c.components.semantic_similarity in
      if not (fl.equal (final a) (final b))
      then fl.less (final a) (final b)
      else if not (same_bool (absent a) (absent b))
      then not (absent a) && absent b
      else if not (fl.equal (skill a) (skill b))
      then fl.less (skill a) (skill b)
      else if not (fl.equal (similarity a) (similarity b))
      then fl.less (similarity a) (similarity b)
      else text_ltb a.components.job_id b.components.job_id

  unfoldable pub order_scored_match_candidates :
      List (ScoredMatchCandidate F) → ℕ → Outcome MatchError (List (ScoredMatchCandidate F))
  unfolding validate_match_limit sort key_before
  order_scored_match_candidates candidates limit = do
    _ ← validate_match_limit limit
    returned (take limit (sort key_before candidates))

  unfoldable pub rank_match_candidates :
      List (MatchScoreComponents F) → ℕ → Outcome MatchError (List (ScoredMatchCandidate F))
  unfolding score_match_candidate order_scored_match_candidates
  rank_match_candidates candidates limit = do
    scored ← map_outcome score_match_candidate candidates
    order_scored_match_candidates scored limit
