-- ===== src/Taxonomy/Loading/Accepted.antt =====
-- What a seed that `load_skill_taxonomy` accepts is known to hold.
use mathlib.Core.Path.{subst}
use job_agent.Prelude.{String, some, List, [], ◌∷◌, ◌≡◌, refl, map, All, All-weaken, returned}
use job_agent.Prelude.Sorting.{sort, All-sort}
use job_agent.Prelude.Floats.{Float}
use job_agent.Prelude.Dict.{lookup}
use job_agent.Prelude.Outcomes.{and_then-returned, returned-inj}
use job_agent.Prelude.Words.{Unicode}
use job_agent.Taxonomy.{Value, SeedSkill, RelatedToEdge, SkillTaxonomy}
use job_agent.Taxonomy.Text.{comparison_fingerprint}
use job_agent.Taxonomy.Reading.{require_mapping, require_field, reject_unexpected, read_list, get}
use job_agent.Taxonomy.Loading.{
  Tables, labels, load_skills, load_relationships, ordered_skills, key_before, edge_before,
  load_skill_taxonomy,
}
use job_agent.Taxonomy.Loading.Indexed.{Finds}
use job_agent.Taxonomy.Loading.Resolved.{IsResolved, load_skills-AreResolved}
use job_agent.Taxonomy.Loading.Related.{
  OnceIn, IsApproved, sort-OnceIn, load_relationships-IsApproved,
}
use job_agent.Taxonomy.Normalizer.{skill_ref, normalize_name}

All-map :
    {A B : Type 0} (f : A → B) (P : B → Type 0) (xs : List A)
    → All (λ x. P (f x)) xs
    → All P (map f xs)
All-map f P [] h = tt
All-map f P (x ∷ xs) h = (h.0, All-map f P xs h.1)

module _ {F : Type 0} ⦃fl : Float F⦄ (u : Unicode) where
  -- The steps of a load that succeeds.
  load_skill_taxonomy-steps :
      (seed : Value F) {t : SkillTaxonomy F}
      → load_skill_taxonomy u seed ≡ returned t
      → (tables : Tables) × (entries : List (Value F)) × (rels : List (Value F)) × (es : List
          (RelatedToEdge F))
        × (load_skills u entries record { by_key = []; alias_index = [] } ≡ returned tables)
        × (load_relationships u tables.by_key rels [] ≡ returned es)
        × (record {
          skills = ordered_skills tables.by_key;
          relationships = sort edge_before es;
          alias_index = tables.alias_index;
          by_key = tables.by_key;
        }
            ≡ t)
  unfolding load_skill_taxonomy
  load_skill_taxonomy-steps seed h =
      let (root, _, h1) = and_then-returned (require_mapping seed) _ h in
      let (entries, _, h2) = and_then-returned (require_field (get "skills" root)) _ h1 in
      let (rels, _, h3) = and_then-returned (read_list "relationships" root) _ h2 in
      let (_, _, h4) =
        and_then-returned (reject_unexpected ("skills" ∷ "relationships" ∷ []) root) _ h3 in
      let (tables, skilled, h5) =
        and_then-returned (load_skills u entries record { by_key = []; alias_index = [] }) _ h4 in
      let (es, related, h6) = and_then-returned (load_relationships u tables.by_key rels []) _ h5 in
      (tables, entries, rels, es, skilled, related, returned-inj h6)

  -- A relationship of an accepted seed joins two different seed skills with a weight in (0, 1],
  -- and no other has its ends and its source.
  pub load_skill_taxonomy-IsApproved :
      (seed : Value F) {t : SkillTaxonomy F}
      → load_skill_taxonomy u seed ≡ returned t
      → All (IsApproved t.by_key) t.relationships × All (OnceIn t.relationships) t.relationships
  load_skill_taxonomy-IsApproved seed h =
      let (tables, entries, rels, es, skilled, related, same) = load_skill_taxonomy-steps seed h in
      let (approved, once) = load_relationships-IsApproved u tables.by_key rels [] tt tt related in
      subst
        (λ t.
          All (IsApproved t.by_key) t.relationships × All (OnceIn t.relationships) t.relationships)
        same (All-sort edge_before (IsApproved tables.by_key) es approved, sort-OnceIn es once)

  -- A name is read as the seed skill.
  abbrev pub NamesAs : SkillTaxonomy F → SeedSkill → String → Type 0
  NamesAs t seed label =
      (raw : String)
      → comparison_fingerprint u raw ≡ comparison_fingerprint u label
      → normalize_name u t raw ≡ returned (skill_ref seed)

  Finds-NamesAs :
      (tables : Tables) (t : SkillTaxonomy F) (p : String × SeedSkill) (label : String)
      → t.by_key ≡ tables.by_key
      → t.alias_index ≡ tables.alias_index
      → lookup p.0 tables.by_key ≡ some p.1
      → Finds u tables.alias_index p.0 label
      → NamesAs t p.1 label
  unfolding normalize_name
  Finds-NamesAs tables t p label same_keys same_index row found raw agree =
      rw (agree, found.1, same_index, found.0, same_keys, row) refl

  -- Each label of each skill of an accepted seed, in any spelling with its fingerprint, is
  -- normalized to this skill.
  pub load_skill_taxonomy-NamesAs :
      (seed : Value F) {t : SkillTaxonomy F}
      → load_skill_taxonomy u seed ≡ returned t
      → All (λ s. All (NamesAs t s) (labels s)) t.skills
  unfolding ordered_skills
  load_skill_taxonomy-NamesAs seed h =
      let (tables, entries, rels, es, skilled, related, same) = load_skill_taxonomy-steps seed h in
      let start : Tables = record { by_key = []; alias_index = [] } in
      let resolved = load_skills-AreResolved u entries start tt skilled in
      subst (λ t. All (λ s. All (NamesAs t s) (labels s)) t.skills) same
        (All-map (λ p. p.1) (λ s. All (NamesAs _ s) (labels s)) (sort key_before tables.by_key)
          (All-sort key_before _ tables.by_key (
            All-weaken (IsResolved u tables) _
              (λ p r.
                All-weaken (Finds u tables.alias_index p.0) (NamesAs _ p.1)
                  (λ label f. Finds-NamesAs tables _ p label refl refl r.1 f) (labels p.1) r.2)
              tables.by_key resolved)))
