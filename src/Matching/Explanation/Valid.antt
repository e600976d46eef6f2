-- ===== src/Matching/Explanation/Valid.antt =====
-- The results that `MatchResult` accepts.
use Prim.Native.Char.{Char}
use mathlib.Core.Path.{subst}
use job_agent.Prelude.{
  Bool-cases, inl, inr, eq_iff, String, Bool, true, false, Option, some, List, [], ◌∷◌, ◌==◌, ◌≡◌,
  refl, ap, ◌∙◌, arith, is_blank, strip, leb, len, returned, if◌then◌else◌,
}
use job_agent.Prelude.Floats.{Float}
use job_agent.Prelude.Words.{join}
use job_agent.Matching.Evidence.{MatchSkillEvidence, MissingRequiredSkill}
use job_agent.Matching.Explanation.{
  MatchExplanationInput, MatchResult, validate_result, build_summary, label_fits, head_sentence,
  text_or,
}

blank_nil : is_blank "" ≡ true
unfolding is_blank strip
blank_nil = refl

pub not_empty : (s : String) → is_blank s ≡ false → (s == "") ≡ false
not_empty s h = elim (Bool-cases (s == "")) [
  | inl e ↦
      let same : s ≡ "" = (eq_iff s "").0 e in
      let solid : is_blank "" ≡ false = subst (λ t. is_blank t ≡ false) same h in
      ground (arith, blank_nil)
  | inr e ↦ e
]

not_nil : (c : Char) (s : String) → (String.◌∷◌ c s == "") ≡ false
not_nil c s = elim (Bool-cases (String.◌∷◌ c s == "")) [
  | inl e ↦ let gone = ap len ((eq_iff (String.◌∷◌ c s) "").0 e) in ground (arith, gone)
  | inr e ↦ e
]

join-text :
    (c : Char) (s : String) (ws : List String) → (join " " (String.◌∷◌ c s ∷ ws) == "") ≡ false
unfolding join
join-text c s [] = not_nil c s
join-text c s (w ∷ ws) = not_nil c _

either_text :
    (b : Bool) (c : Char) (s t : String)
    → (d : Char) × (r : String) × ((if b then String.◌∷◌ c s else String.◌∷◌ c t) ≡ String.◌∷◌ d r)
either_text true c s t = (c, s, refl)
either_text false c s t = (c, t, refl)

module _ {F : Type 0} ⦃fl : Float F⦄ where
  pub validate_result-valid :
      (r : MatchResult F) (label : String)
      → (r.job_id == "") ≡ false
      → (r.summary == "") ≡ false
      → r.display_label ≡ some label
      → leb (len label) 140 ≡ true
      → validate_result r ≡ returned r
  unfolding validate_result label_fits
  validate_result-valid r label i s d l =
      let fits : label_fits r.display_label ≡ true = ap label_fits d ∙ l in ground arith

  -- The first sentence begins with `M`.
  head_sentence-text :
      (score : F) (subject : String) (company : Option String)
      → (c : Char) × (s : String) × (head_sentence score subject company ≡ String.◌∷◌ c s)
  unfolding head_sentence join
  head_sentence-text score subject company = either_text (text_or "" company == "") _ _ _

  pub build_summary-text :
      (item : MatchExplanationInput F) (a b : List (MatchSkillEvidence F))
      (c : List MissingRequiredSkill)
      → (build_summary item a b c == "") ≡ false
  unfolding build_summary
  build_summary-text item a b c =
      let (d, s, e) =
        head_sentence-text item.scored.final_score
          (text_or item.scored.components.job_id item.title) item.company in
      rw e (join-text d s _)
