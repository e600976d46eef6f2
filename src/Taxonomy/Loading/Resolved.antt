-- ===== src/Taxonomy/Loading/Resolved.antt =====
-- The tables that `load_skill_taxonomy` builds from the skills of the seed.
use job_agent.Prelude.{
  String, false, none, some, List, [], ◌∷◌, ◌==◌, ◌≡◌, refl, sym, ◌∙◌, arith, All, All-weaken,
  Bool-cases, Option-cases, inl, inr, eq_iff, returned,
}
use mathlib.Core.Path.{subst}
use job_agent.Prelude.Table.{All-append}
use job_agent.Prelude.Dict.{
  Dict, lookup, set_item, lookup-set_item_self, lookup-set_item_ne, set_item-fresh,
}
use job_agent.Prelude.Outcomes.{and_then-returned, returned-inj}
use job_agent.Prelude.Words.{Unicode}
use job_agent.Taxonomy.{Value, null, SeedSkill}
use job_agent.Taxonomy.Text.{clean}
use job_agent.Taxonomy.Reading.{
  require_mapping, reject_unexpected, read_text, read_list, get, check_key, clean_aliases,
  parse_optional_category, read_skill, skill_keys,
}
use job_agent.Taxonomy.Loading.{Tables, labels, index_labels, add_skill, load_skills}
use job_agent.Taxonomy.Loading.Indexed.{Grows, Finds, index_labels-Grows}

check_key-fresh :
    (u : Unicode) (by_key : Dict SeedSkill) (k : String) {key : String}
    → check_key u by_key k ≡ returned key
    → lookup key by_key ≡ none
unfolding check_key
check_key-fresh u by_key k h = elim (Option-cases (lookup k by_key)) [
  | inl e ↦ ground arith
  | inr (_, e) ↦ ground arith
]

module _ (u : Unicode) where
  -- A row of `by_key` stands under its own key and is found by each of its labels.
  abbrev pub IsResolved : Tables → String × SeedSkill → Type 0
  IsResolved t p =
      (p.0 ≡ p.1.canonical_key)
      × (lookup p.0 t.by_key ≡ some p.1)
      × All (Finds u t.alias_index p.0) (labels p.1)

  abbrev pub AreResolved : Tables → Type 0
  AreResolved t = All (IsResolved t) t.by_key

  -- Another row's key is not the new one.
  apart :
      (k j : String) (by_key : Dict SeedSkill) (s : SeedSkill)
      → lookup k by_key ≡ none
      → lookup j by_key ≡ some s
      → (k == j) ≡ false
  apart k j by_key s h e = elim (Bool-cases (k == j)) [
    | inl t ↦
        let same : k ≡ j = (eq_iff k j).0 t in
        let lost : lookup j by_key ≡ none = rw (sym same) h in cc
    | inr n ↦ n
  ]

  kept-IsResolved :
      (by_key : Dict SeedSkill) (index after : Dict String) (seed : SeedSkill)
      → lookup seed.canonical_key by_key ≡ none
      → Grows index after
      → (p : String × SeedSkill) → IsResolved record { by_key = by_key; alias_index = index } p
      → IsResolved
          record { by_key = set_item seed.canonical_key seed by_key; alias_index = after }
          p
  kept-IsResolved by_key index after seed fresh grows p h = (
    h.0,
    lookup-set_item_ne seed.canonical_key p.0 seed by_key
          (apart seed.canonical_key p.0 by_key p.1 fresh h.1)
        ∙ h.1,
    All-weaken (Finds u index p.0) (Finds u after p.0) (λ l e. (grows _ p.0 e.0, e.1)) (labels p.1)
        h.2,
  )

module _ {F : Type 0} (u : Unicode) where
  read_skill-fresh :
      (by_key : Dict SeedSkill) (entry : Value F) {seed : SeedSkill}
      → read_skill u by_key entry ≡ returned seed
      → lookup seed.canonical_key by_key ≡ none
  unfolding read_skill
  read_skill-fresh by_key entry h =
      let (fields, _, h1) = and_then-returned (require_mapping entry) _ h in
      let (_, _, h2) = and_then-returned (reject_unexpected skill_keys fields) _ h1 in
      let (raw_key, _, h3) = and_then-returned (read_text null "canonical_key" fields) _ h2 in
      let (raw_name, _, h4) = and_then-returned (read_text null "display_name" fields) _ h3 in
      let (raw_aliases, _, h5) = and_then-returned (read_list "aliases" fields) _ h4 in
      let (key, checked, h6) = and_then-returned (check_key u by_key (clean u raw_key)) _ h5 in
      let (aliases, _, h7) = and_then-returned (clean_aliases u raw_aliases) _ h6 in
      let (category, _, h8) =
        and_then-returned (parse_optional_category u (get "category" fields)) _ h7 in
      let fresh = check_key-fresh u by_key (clean u raw_key) checked in ground (arith, fresh, h8)

  add_skill-AreResolved :
      (entry : Value F) (t : Tables) {after : Tables}
      → AreResolved u t
      → add_skill u entry t ≡ returned after
      → AreResolved u after
  unfolding add_skill
  add_skill-AreResolved entry t h e =
      let (seed, read, e1) = and_then-returned (read_skill u t.by_key entry) _ e in
      let (index, indexed, e2) =
        and_then-returned (index_labels u seed.canonical_key (labels seed) t.alias_index) _ e1 in
      let fresh = read_skill-fresh t.by_key entry read in
      let grown =
        index_labels-Grows u seed.canonical_key (labels seed) t.alias_index index indexed in
      let tables : Tables = record {
        by_key = set_item seed.canonical_key seed t.by_key;
        alias_index = index;
      } in
      let older =
        All-weaken (IsResolved u t) (IsResolved u tables)
          (kept-IsResolved u t.by_key t.alias_index index seed fresh grown.0) t.by_key h in
      let newest : IsResolved u tables (seed.canonical_key, seed) =
        (refl, lookup-set_item_self seed.canonical_key seed t.by_key, grown.1) in
      subst (AreResolved u) (returned-inj e2) (
        subst (All (IsResolved u tables))
          (sym (set_item-fresh seed.canonical_key seed t.by_key fresh))
          (All-append (IsResolved u tables) t.by_key ((seed.canonical_key, seed) ∷ []) older
            (newest, tt)))

  pub load_skills-AreResolved :
      (entries : List (Value F)) (t : Tables) {after : Tables}
      → AreResolved u t
      → load_skills u entries t ≡ returned after
      → AreResolved u after
  unfolding load_skills
  load_skills-AreResolved [] t h e = subst (AreResolved u) (returned-inj e) h
  load_skills-AreResolved (entry ∷ entries) t h e =
      let (mid, added, rest) = and_then-returned (add_skill u entry t) (load_skills u entries) e in
      load_skills-AreResolved entries mid (add_skill-AreResolved entry t h added) rest
