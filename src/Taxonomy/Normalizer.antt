-- ===== src/Taxonomy/Normalizer.antt =====
-- backend/app/services/skill_normalization.py: `SkillNormalizer`.
use job_agent.Prelude.{
  String, Bool, Option, none, some, List, [], ◌==◌, keep, is_some, is_blank, strip, if◌then◌else◌,
  Outcome, returned, raised,
}
use job_agent.Prelude.Dict.{lookup}
use job_agent.Prelude.Outcomes.{◌>>=◌, map_outcome}
use job_agent.Prelude.Words.{Unicode}
use job_agent.Models.Skills.{SkillRef, CandidateSkill}
use job_agent.Taxonomy.{
  SkillTaxonomyError, empty_name, not_a_seed_skill, SeedSkill, RelatedToEdge, SkillTaxonomy,
}
use job_agent.Taxonomy.Text.{
  comparison_fingerprint, derive_unknown_canonical_key, display_name_from_raw,
}

abbrev pub skill_ref : SeedSkill → SkillRef
skill_ref seed = record {
  canonical_key = seed.canonical_key;
  display_name = seed.display_name;
  aliases = seed.aliases;
  category = seed.category;
}

-- `by_key[known_key]`; a key that is missing is the `KeyError`.
known : Option SeedSkill → Outcome SkillTaxonomyError SkillRef
known none = raised not_a_seed_skill
known (some seed) = returned (skill_ref seed)

unknown_ref : Unicode → String → Outcome SkillTaxonomyError SkillRef
unfolding derive_unknown_canonical_key display_name_from_raw
unknown_ref u raw_name = do
  key ← derive_unknown_canonical_key u raw_name
  name ← display_name_from_raw u raw_name
  returned record { canonical_key = key; display_name = name; aliases = []; category = none }

lookup_text : SkillRef → String
lookup_text skill =
    if is_blank skill.display_name then skill.canonical_key else strip skill.display_name

module _ {F : Type 0} where
  resolve : Unicode → SkillTaxonomy F → String → Option String → Outcome SkillTaxonomyError SkillRef
  unfolding known unknown_ref
  resolve u t raw_name none = unknown_ref u raw_name
  resolve u t raw_name (some known_key) = known (lookup known_key t.by_key)

  unfoldable pub normalize_name :
      Unicode → SkillTaxonomy F → String → Outcome SkillTaxonomyError SkillRef
  unfolding resolve comparison_fingerprint
  normalize_name u t raw_name =
      let fingerprint = comparison_fingerprint u raw_name in
      if fingerprint == ""
      then raised empty_name
      else resolve u t raw_name (lookup fingerprint t.alias_index)

  unfoldable pub normalize_candidate_skill :
      Unicode → SkillTaxonomy F → CandidateSkill F → Outcome SkillTaxonomyError (CandidateSkill F)
  unfolding normalize_name lookup_text
  normalize_candidate_skill u t s = do
    normalized ← normalize_name u t (lookup_text s.skill)
    returned record {
      skill = normalized;
      confidence = s.confidence;
      proficiency = s.proficiency;
      years = s.years;
      source = s.source;
      excluded = s.excluded;
      evidence = s.evidence;
    }

  unfoldable pub normalize_names :
      Unicode → SkillTaxonomy F → List String → Outcome SkillTaxonomyError (List SkillRef)
  unfolding normalize_name
  normalize_names u t names = map_outcome (normalize_name u t) names

  unfoldable pub relationships_for : SkillTaxonomy F → String → List (RelatedToEdge F)
  relationships_for t canonical_key = keep (λ e. e.from_key == canonical_key) t.relationships

  unfoldable pub is_seed_skill : SkillTaxonomy F → String → Bool
  is_seed_skill t canonical_key = is_some (lookup canonical_key t.by_key)
