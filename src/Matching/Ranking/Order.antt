-- ===== src/Matching/Ranking/Order.antt =====
-- The order of `_scored_match_order_key`, described key by key.
use job_agent.Prelude.{String, Bool, ◌≡◌, refl, arith, not, ◌&&◌, ◌||◌, is_none, if◌then◌else◌}
use job_agent.Prelude.Floats.{Float, IsNumeric}
use job_agent.Prelude.Sorting.{text_ltb, text_ltb-asym}
use job_agent.Prelude.Sorted.{IsOrder, text_ltb-negtrans}
use job_agent.Prelude.Lexicographic.{◌then_by◌, then_by-IsOrder}
use job_agent.Matching.{ScoredMatchCandidate}
use job_agent.Matching.Ranking.{key_before, same_bool, or_zero}

module _ {F : Type 0} ⦃fl : Float F⦄ where
  abbrev pub higher :
      (ScoredMatchCandidate F → F) → ScoredMatchCandidate F → ScoredMatchCandidate F → Bool
  higher f a b = fl.less (f b) (f a)

  unfoldable pub skill_or_zero : ScoredMatchCandidate F → F
  unfolding or_zero
  skill_or_zero c = or_zero c.components.skill_score

  abbrev pub has_skill_score : ScoredMatchCandidate F → ScoredMatchCandidate F → Bool
  has_skill_score a b = not (is_none a.components.skill_score) && is_none b.components.skill_score

  abbrev pub smaller_id : ScoredMatchCandidate F → ScoredMatchCandidate F → Bool
  smaller_id a b = text_ltb a.components.job_id b.components.job_id

  -- The higher final score first, then one with a skill score before one without, then the higher
  -- skill score, then the higher similarity, then the smaller id.
  unfoldable pub outranks : ScoredMatchCandidate F → ScoredMatchCandidate F → Bool
  unfolding skill_or_zero
  outranks =
      higher (λ c. c.final_score)
      then_by has_skill_score
      then_by higher skill_or_zero
      then_by higher (λ c. c.components.semantic_similarity)
      then_by smaller_id

  module _ (numeric : IsNumeric fl) where
    higher-IsOrder : (f : ScoredMatchCandidate F → F) → IsOrder (higher f)
    higher-IsOrder f = record {
      asym = λ a b h. numeric.asym (f b) (f a) h;
      negtrans = λ a b c h k. numeric.negtrans (f c) (f b) (f a) k h;
    }

    has_skill_score-IsOrder : IsOrder has_skill_score
    has_skill_score-IsOrder = record {
      asym = λ a b h. ground arith;
      negtrans = λ a b c h k. ground arith;
    }

    smaller_id-IsOrder : IsOrder smaller_id
    smaller_id-IsOrder = record {
      asym = λ a b h. text_ltb-asym a.components.job_id b.components.job_id h;
      negtrans = λ a b c h k.
          text_ltb-negtrans a.components.job_id b.components.job_id c.components.job_id h k;
    }

    pub outranks-IsOrder : IsOrder outranks
    unfolding outranks
    outranks-IsOrder = then_by-IsOrder _ _ (higher-IsOrder (λ c. c.final_score)) (
        then_by-IsOrder _ _ has_skill_score-IsOrder (
          then_by-IsOrder _ _ (higher-IsOrder skill_or_zero) (
            then_by-IsOrder _ _ (higher-IsOrder (λ c. c.components.semantic_similarity))
              smaller_id-IsOrder)))

    -- A position of the tuple, compared on the negated scores.
    negated :
        (x y : F) (rest : Bool)
        → (if not (fl.equal (fl.neg x) (fl.neg y)) then fl.less (fl.neg x) (fl.neg y) else rest)
          ≡ (if fl.less y x || fl.less x y then fl.less y x else rest)
    negated x y rest = ground (
      arith,
      numeric.equal-not-less (fl.neg x) (fl.neg y),
      numeric.neg-less x y,
      numeric.neg-less y x,
    )

    present :
        (a b rest : Bool)
        → (if not (same_bool a b) then not a && b else rest)
          ≡ (if (not a && b) || (not b && a) then not a && b else rest)
    unfolding same_bool
    present a b rest = ground arith

    text_last : (s t : String) → text_ltb s t ≡ text_ltb s t
    text_last s t = refl

    -- The tuple order is the order described.
    pub key_before-outranks : (a b : ScoredMatchCandidate F) → key_before a b ≡ outranks a b
    unfolding key_before outranks skill_or_zero
    key_before-outranks a b = rw (negated, present, negated, negated) refl
