-- ===== src/Matching/Components/Weighted.antt =====
-- A Job of full or partial quality gets a score.
use job_agent.Prelude.{
  String, Bool, true, List, [], ◌∷◌, ◌==◌, ◌||◌, ◌≡◌, refl, arith, map, All, All-weaken, is_some,
  Bool-cases, Option-cases, inl, inr, eq_refl, returned,
}
use job_agent.Prelude.Floats.{Float}
use job_agent.Prelude.Dict.{Dict, lookup}
use job_agent.Prelude.Outcomes.{map_outcome, map_outcome-total, and_then-total}
use job_agent.Matching.{MatchScoreComponents, ScoredMatchCandidate}
use job_agent.Matching.Coverage.{total}
use job_agent.Matching.Components.{
  quality_multiplier, weight_of, weighted_value, available_weighted_components,
  effective_component_weights, score_match_candidate,
}

unfoldable pub is_scorable : String → Bool
is_scorable jd_quality = jd_quality == "full" || jd_quality == "partial"

module _ {F : Type 0} ⦃fl : Float F⦄ where
  abbrev Has : Dict F → String × F × F → Type 0
  Has d c = is_some (lookup c.0 d) ≡ true

  Has-later : (r : String × F) (d : Dict F) (c : String × F × F) → Has d c → Has (r ∷ d) c
  Has-later r d c h = ground arith

  Has-own : (f : F → F) (cs : List (String × F × F)) → All (Has (map (λ c. (c.0, f c.1)) cs)) cs
  Has-own f [] = tt
  Has-own f (c ∷ cs) =
      let rest : Dict F = map (λ c. (c.0, f c.1)) cs in
      (
        ground (arith, eq_refl c.0),
        All-weaken (Has rest) (Has ((c.0, f c.1) ∷ rest)) (Has-later (c.0, f c.1) rest) cs
            (Has-own f cs),
      )

  weighted_value-total :
      (d : Dict F) (c : String × F × F) → Has d c → (x : F) × (weighted_value d c ≡ returned x)
  unfolding weighted_value weight_of
  weighted_value-total d c h = elim (Option-cases (lookup c.0 d)) [
    | inl e ↦ ground arith
    | inr (w, e) ↦ (fl.mul c.2 w, rw e refl)
  ]

  quality_multiplier-total :
      (q : String) → is_scorable q ≡ true → (m : F) × (quality_multiplier q ≡ returned m)
  unfolding quality_multiplier is_scorable
  quality_multiplier-total q h = elim (Bool-cases (q == "full")) [
    | inl e ↦ (fl.hundredths 100, rw e refl)
    | inr e ↦ (fl.hundredths 85, ground arith)
  ]

  pub score_match_candidate-total :
      (c : MatchScoreComponents F)
      → is_scorable c.jd_quality ≡ true
      → (s : ScoredMatchCandidate F) × (score_match_candidate c ≡ returned s)
  unfolding score_match_candidate effective_component_weights
  score_match_candidate-total c h =
      let (m, graded) = quality_multiplier-total c.jd_quality h in
      let weighted = available_weighted_components c in
      let sum = total (map (λ w. w.1) weighted) in
      let (products, summed) =
        map_outcome-total (weighted_value (effective_component_weights weighted))
          (Has (effective_component_weights weighted))
          (weighted_value-total (effective_component_weights weighted)) weighted
          (Has-own (λ w. fl.div w sum) weighted) in
      and_then-total (quality_multiplier c.jd_quality) _ graded (
        and_then-total
          (map_outcome (weighted_value (effective_component_weights weighted)) weighted) _ summed
          (_, refl))
