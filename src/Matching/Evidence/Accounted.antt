-- ===== src/Matching/Evidence/Accounted.antt =====
-- Each required skill is a direct match, a related match or a gap.
use job_agent.Prelude.{
  ℕ, String, Bool, true, false, Option, none, some, List, [], ◌∷◌, ◌++◌, ◌≡◌, ◌⊎◌, ◌+◌, refl, ◌∙◌,
  arith, All, All-keep_of, keep, count_if, length, length-keep, length-map, is_blank, inl, inr, ltb,
  returned, if◌then◌else◌,
}
use job_agent.Prelude.Table.{All-append, All-keep, All-first}
use job_agent.Prelude.Counts.{count_if-append}
use job_agent.Prelude.Floats.{Float, IsNumeric}
use job_agent.Prelude.Outcomes.{map_outcome, map_outcome-total, length-map_outcome}
use job_agent.Models.Skills.{JobSkill, CandidateSkill}
use job_agent.Taxonomy.{RelatedToEdge, SkillTaxonomy}
use job_agent.Taxonomy.Normalizer.{relationships_for}
use job_agent.Matching.{SkillMatchFact}
use job_agent.Matching.Coverage.{
  is_eligible, first_direct_match, edge_to, or_later, first_related_match, related_or_none,
  direct_or_other, match_job_skill, match_skills,
}
use job_agent.Matching.Evidence.{
  MatchSkillEvidence, couple_match_type_and_relationship, skill_evidence, is_direct_match,
  is_related_match, is_missing, evidence_of, matched_skills, related_skills, missing_required,
}

module _ {F : Type 0} where
  -- The source of an edge is not blank, which `MatchSkillEvidence` asks for.
  abbrev pub HasSource : RelatedToEdge F → Type 0
  HasSource e = is_blank e.source ≡ false

  abbrev HasSourceIfAny : Option (CandidateSkill F × RelatedToEdge F) → Type 0
  HasSourceIfAny none = Unit
  HasSourceIfAny (some p) = HasSource p.1

  or_later-HasSource :
      (c : CandidateSkill F) (o : Option (RelatedToEdge F))
      (later : Option (CandidateSkill F × RelatedToEdge F))
      → ((e : RelatedToEdge F) → o ≡ some e → HasSource e)
      → HasSourceIfAny later
      → HasSourceIfAny (or_later c o later)
  unfolding or_later
  or_later-HasSource c none later f h = h
  or_later-HasSource c (some e) later f h = f e refl

  first_related_match-HasSource :
      (key : String) (t : SkillTaxonomy F) (cs : List (CandidateSkill F))
      → All HasSource t.relationships
      → HasSourceIfAny (first_related_match key t cs)
  unfolding first_related_match edge_to relationships_for
  first_related_match-HasSource key t [] h = tt
  first_related_match-HasSource key t (c ∷ cs) h =
      or_later-HasSource c (edge_to key t c) (first_related_match key t cs)
        (λ e found. All-first HasSource _ _ (All-keep HasSource _ t.relationships h) found)
        (first_related_match-HasSource key t cs h)

module _ {F : Type 0} ⦃fl : Float F⦄ (numeric : IsNumeric fl) where
  nonzero : (n : ℕ) → ltb 0 n ≡ true → fl.equal (fl.hundredths n) (fl.hundredths 0) ≡ false
  nonzero n h = ground (
    arith,
    numeric.equal-not-less (fl.hundredths n) (fl.hundredths 0),
    numeric.less-hundredths n 0,
    numeric.less-hundredths 0 n,
  )

  -- The fact falls under exactly one of the three lists, and has evidence if under the first two.
  pub IsAccounted : SkillMatchFact F → Type 0
  IsAccounted fact =
      ((if is_direct_match fact then 1 else 0)
          + ((if is_related_match fact then 1 else 0) + (if is_missing fact then 1 else 0))
        ≡ 1)
      × ((fact.candidate_skill ≡ none)
          ⊎ ((e : MatchSkillEvidence F) × (skill_evidence fact ≡ returned e)))

  related_or_none-IsAccounted :
      (j : JobSkill F) (o : Option (CandidateSkill F × RelatedToEdge F))
      → HasSourceIfAny o
      → IsAccounted (related_or_none j o)
  unfolding IsAccounted related_or_none is_direct_match is_related_match is_missing skill_evidence
      couple_match_type_and_relationship
  related_or_none-IsAccounted j none h = (refl, inl refl)
  related_or_none-IsAccounted j (some p) h = (
    rw (nonzero 60 refl) refl,
    inr (evidence_of (related_or_none j (some p)) p.0 false (some p.1), rw h refl),
  )

  direct_or_other-IsAccounted :
      (j : JobSkill F) (o : Option (CandidateSkill F)) (other : SkillMatchFact F)
      → IsAccounted other
      → IsAccounted (direct_or_other j o other)
  unfolding IsAccounted direct_or_other is_direct_match is_related_match is_missing skill_evidence
      couple_match_type_and_relationship
  direct_or_other-IsAccounted j none other h = h
  direct_or_other-IsAccounted j (some c) other h = (rw (nonzero 100 refl) refl, inr (_, refl))

  match_job_skill-IsAccounted :
      (t : SkillTaxonomy F) (cs : List (CandidateSkill F)) (j : JobSkill F)
      → All HasSource t.relationships
      → IsAccounted (match_job_skill j cs t)
  unfolding match_job_skill
  match_job_skill-IsAccounted t cs j h =
      let key = j.skill.canonical_key in
      let eligible = keep is_eligible cs in
      direct_or_other-IsAccounted j (first_direct_match key eligible) _ (
        related_or_none-IsAccounted j (first_related_match key t eligible)
          (first_related_match-HasSource key t eligible h))

  pub match_skills-IsAccounted :
      (t : SkillTaxonomy F) (cs : List (CandidateSkill F)) (js : List (JobSkill F))
      → All HasSource t.relationships
      → All IsAccounted (match_skills js cs t)
  unfolding match_skills
  match_skills-IsAccounted t cs [] h = tt
  match_skills-IsAccounted t cs (j ∷ js) h =
      (match_job_skill-IsAccounted t cs j h, match_skills-IsAccounted t cs js h)

  pub counts :
      (facts : List (SkillMatchFact F))
      → All IsAccounted facts
      → count_if is_direct_match facts
          + (count_if is_related_match facts + count_if is_missing facts)
        ≡ length facts
  unfolding IsAccounted
  counts [] h = refl
  counts (f ∷ fs) h = omega (arith, h.0.0, counts fs h.1)

  HasEvidence : SkillMatchFact F → Type 0
  HasEvidence fact = (e : MatchSkillEvidence F) × (skill_evidence fact ≡ returned e)

  direct-HasEvidence :
      (f : SkillMatchFact F) → IsAccounted f → is_direct_match f ≡ true → HasEvidence f
  unfolding IsAccounted HasEvidence is_direct_match
  direct-HasEvidence f h d = elim h.1 [ inl n ↦ ground (arith, n) | inr e ↦ e ]

  related-HasEvidence :
      (f : SkillMatchFact F) → IsAccounted f → is_related_match f ≡ true → HasEvidence f
  unfolding IsAccounted HasEvidence is_related_match
  related-HasEvidence f h d = elim h.1 [ inl n ↦ ground (arith, n) | inr e ↦ e ]

  -- A filtered list of facts has its evidence, one for each fact.
  evidences_total :
      (q : SkillMatchFact F → Bool)
      → ((f : SkillMatchFact F) → IsAccounted f → q f ≡ true → HasEvidence f)
      → (facts : List (SkillMatchFact F)) → All IsAccounted facts
      → (es : List (MatchSkillEvidence F)) × (map_outcome skill_evidence (keep q facts)
          ≡ returned es)
        × (length es ≡ count_if q facts)
  unfolding HasEvidence
  evidences_total q f facts h =
      let (es, found) =
        map_outcome-total skill_evidence HasEvidence (λ x e. e) (keep q facts)
          (All-keep_of IsAccounted HasEvidence q f facts h) in
      (es, found, length-map_outcome skill_evidence (keep q facts) found ∙ length-keep q facts)

  pub matched_skills-total :
      (facts : List (SkillMatchFact F))
      → All IsAccounted facts
      → (es : List (MatchSkillEvidence F)) × (matched_skills facts ≡ returned es)
        × (length es ≡ count_if is_direct_match facts)
  unfolding matched_skills
  matched_skills-total = evidences_total is_direct_match direct-HasEvidence

  pub related_skills-total :
      (required preferred : List (SkillMatchFact F))
      → All IsAccounted required
      → All IsAccounted preferred
      → (es : List (MatchSkillEvidence F)) × (related_skills required preferred ≡ returned es)
        × (length es ≡ count_if is_related_match required + count_if is_related_match preferred)
  unfolding related_skills
  related_skills-total required preferred h k =
      let (es, found, size) =
        evidences_total is_related_match related-HasEvidence (required ++ preferred)
          (All-append IsAccounted required preferred h k) in
      (es, found, size ∙ count_if-append is_related_match required preferred)

  pub length-missing_required :
      (facts : List (SkillMatchFact F))
      → length (missing_required facts) ≡ count_if is_missing facts
  unfolding missing_required
  length-missing_required facts =
      length-map _ (keep is_missing facts) ∙ length-keep is_missing facts
