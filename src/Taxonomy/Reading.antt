-- ===== src/Taxonomy/Reading.antt =====
-- backend/app/services/skill_normalization.py: `load_skill_taxonomy` on one entry of the seed.
use job_agent.Prelude.{
  String, Option, none, some, List, [], ◌∷◌, ◌==◌, ◌&&◌, ◌||◌, not, any, is_some, is_blank,
  if◌then◌else◌, Outcome, returned, raised,
}
use job_agent.Prelude.Floats.{Float}
use job_agent.Prelude.Dict.{Dict, lookup}
use job_agent.Prelude.Outcomes.{◌>>=◌, map_outcome}
use job_agent.Prelude.Words.{Unicode, any_char}
use job_agent.Taxonomy.{
  SkillTaxonomyError, not_an_object, not_a_list, unexpected_keys, blank_text, bad_key,
  duplicate_key, bad_category, not_a_seed_skill, self_loop, bad_weight, Value, null, number, text,
  array, object, Values, no_items, next_item, Fields, no_fields, field, SeedSkill, RelatedToEdge,
}
use job_agent.Taxonomy.Text.{clean, is_blank_char}

abbrev pub skill_keys : List String
skill_keys = "canonical_key" ∷ "display_name" ∷ "aliases" ∷ "category" ∷ []

abbrev pub relationship_keys : List String
relationship_keys = "from" ∷ "to" ∷ "weight" ∷ "source" ∷ []

or_none : String → Option String
or_none s = if s == "" then none else some s

module _ {F : Type 0} where
  unfoldable pub items_of : Values F → List (Value F)
  items_of no_items = []
  items_of (next_item v vs) = v ∷ items_of vs

  keys_of : Fields F → List String
  keys_of no_fields = []
  keys_of (field k v rest) = k ∷ keys_of rest

  -- `item.get(k)`
  unfoldable pub get : String → Fields F → Option (Value F)
  get k no_fields = none
  get k (field j v rest) = let later = get k rest in if j == k then some v else later

  -- `item.get(k, default)`
  get_or : Value F → Option (Value F) → Value F
  get_or default none = default
  get_or default (some v) = v

  unfoldable pub require_mapping : Value F → Outcome SkillTaxonomyError (Fields F)
  require_mapping (object o) = returned o
  require_mapping v = raised not_an_object

  unfoldable pub require_list : Value F → Outcome SkillTaxonomyError (List (Value F))
  unfolding items_of
  require_list (array vs) = returned (items_of vs)
  require_list v = raised not_a_list

  -- `isinstance(value, str) and value.strip()`
  unfoldable pub require_text : Value F → Outcome SkillTaxonomyError String
  require_text (text s) = if is_blank s then raised blank_text else returned s
  require_text v = raised blank_text

  -- `set(item.keys()) - allowed`
  unfoldable pub reject_unexpected : List String → Fields F → Outcome SkillTaxonomyError (Unit {0})
  unfolding keys_of
  reject_unexpected allowed fields =
      if any (λ k. not (any (λ a. a == k) allowed)) (keys_of fields)
      then raised unexpected_keys
      else returned tt

  -- `_require_list(root.get(k))`
  unfoldable pub require_field : Option (Value F) → Outcome SkillTaxonomyError (List (Value F))
  unfolding require_list
  require_field none = raised not_a_list
  require_field (some v) = require_list v

  unfoldable pub read_list : String → Fields F → Outcome SkillTaxonomyError (List (Value F))
  unfolding get get_or require_list
  read_list k fields = require_list (get_or (array no_items) (get k fields))

  -- A missing field is read as `default`.
  unfoldable pub read_text : Value F → String → Fields F → Outcome SkillTaxonomyError String
  unfolding get get_or require_text
  read_text default k fields = require_text (get_or default (get k fields))

  unfoldable pub parse_weight : ⦃fl : Float F⦄ → Option (Value F) → Outcome SkillTaxonomyError F
  parse_weight ⦃fl⦄ (some (number w)) =
      if fl.less (fl.hundredths 0) w && fl.at_most w (fl.hundredths 100)
      then returned w
      else raised bad_weight
  parse_weight ⦃fl⦄ v = raised bad_weight

unfoldable pub check_key : Unicode → Dict SeedSkill → String → Outcome SkillTaxonomyError String
unfolding is_blank_char
check_key u by_key key =
    if any_char is_blank_char key || not (key == u.casefold key)
    then raised bad_key
    else if is_some (lookup key by_key)
    then raised duplicate_key
    else returned key

module _ {F : Type 0} (u : Unicode) where
  unfoldable pub parse_optional_category :
      Option (Value F) → Outcome SkillTaxonomyError (Option String)
  unfolding or_none clean
  parse_optional_category none = returned none
  parse_optional_category (some null) = returned none
  parse_optional_category (some (text s)) = returned (or_none (clean u s))
  parse_optional_category (some v) = raised bad_category

  clean_alias : Value F → Outcome SkillTaxonomyError String
  unfolding require_text clean
  clean_alias v = do alias ← require_text v; returned (clean u alias)

  unfoldable pub clean_aliases : List (Value F) → Outcome SkillTaxonomyError (List String)
  unfolding clean_alias
  clean_aliases vs = map_outcome clean_alias vs

  unfoldable pub read_skill : Dict SeedSkill → Value F → Outcome SkillTaxonomyError SeedSkill
  unfolding require_mapping reject_unexpected read_text read_list check_key clean clean_aliases
      parse_optional_category get
  read_skill by_key entry = do
    fields ← require_mapping entry
    _ ← reject_unexpected skill_keys fields
    canonical_key ← read_text null "canonical_key" fields
    display_name ← read_text null "display_name" fields
    aliases_seq ← read_list "aliases" fields
    key ← check_key u by_key (clean u canonical_key)
    aliases ← clean_aliases aliases_seq
    category ← parse_optional_category (get "category" fields)
    returned record {
      canonical_key = key;
      display_name = clean u display_name;
      aliases = aliases;
      category = category;
    }

unfoldable pub check_endpoints :
    Dict SeedSkill → String → String → Outcome SkillTaxonomyError (Unit {0})
check_endpoints by_key from_key to_key =
    if not (is_some (lookup from_key by_key))
    then raised not_a_seed_skill
    else if not (is_some (lookup to_key by_key))
    then raised not_a_seed_skill
    else if from_key == to_key
    then raised self_loop
    else returned tt

module _ {F : Type 0} ⦃fl : Float F⦄ (u : Unicode) where
  unfoldable pub read_relationship :
      Dict SeedSkill → Value F → Outcome SkillTaxonomyError (RelatedToEdge F)
  unfolding require_mapping reject_unexpected read_text check_endpoints clean parse_weight get
  read_relationship by_key entry = do
    fields ← require_mapping entry
    _ ← reject_unexpected relationship_keys fields
    from_key ← read_text null "from" fields
    to_key ← read_text null "to" fields
    source ← read_text (text "seed") "source" fields
    _ ← check_endpoints by_key (clean u from_key) (clean u to_key)
    weight ← parse_weight (get "weight" fields)
    returned record {
      from_key = clean u from_key;
      to_key = clean u to_key;
      weight = weight;
      source = clean u source;
    }
