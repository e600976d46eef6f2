-- ===== src/Taxonomy/Loading/Related.antt =====
-- The relationships that `load_skill_taxonomy` reads.
use mathlib.Core.Path.{subst}
use job_agent.Prelude.{
  String, true, false, Option, none, some, List, [], ◌∷◌, ◌==◌, ◌++◌, ◌≡◌, ◌∙◌, arith, All,
  All-weaken, any, count_if, is_some, eq_iff, eq_refl, returned,
}
use job_agent.Prelude.Table.{All-append}
use job_agent.Prelude.Counts.{count_if-append, count_if_of_any-false}
use job_agent.Prelude.Sorting.{sort, All-sort, count_if-sort}
use job_agent.Prelude.Floats.{Float}
use job_agent.Prelude.Dict.{Dict, lookup}
use job_agent.Prelude.Outcomes.{and_then-returned, returned-inj, check-returned}
use job_agent.Prelude.Words.{Unicode}
use job_agent.Taxonomy.{duplicate_relationship, Value, null, text, number, SeedSkill, RelatedToEdge}
use job_agent.Taxonomy.Text.{clean}
use job_agent.Taxonomy.Reading.{
  require_mapping, reject_unexpected, read_text, get, check_endpoints, parse_weight,
  read_relationship, relationship_keys,
}
use job_agent.Taxonomy.Loading.{same_edge, edge_before, add_relationship, load_relationships}

module _ {F : Type 0} where
  same_edge-sym : (e f : RelatedToEdge F) → same_edge e f ≡ false → same_edge f e ≡ false
  same_edge-sym e f h = ground (
    arith,
    eq_iff e.from_key f.from_key,
    eq_iff f.from_key e.from_key,
    eq_iff e.to_key f.to_key,
    eq_iff f.to_key e.to_key,
    eq_iff e.source f.source,
    eq_iff f.source e.source,
  )

  same_edge_refl : (e : RelatedToEdge F) → same_edge e e ≡ true
  same_edge_refl e = ground (arith, eq_refl e.from_key, eq_refl e.to_key, eq_refl e.source)

  abbrev pub OnceIn : List (RelatedToEdge F) → RelatedToEdge F → Type 0
  OnceIn es e = count_if (same_edge e) es ≡ 1

  OnceIn-snoc :
      (es : List (RelatedToEdge F)) (new : RelatedToEdge F) (ds : List (RelatedToEdge F))
      → All (OnceIn es) ds
      → any (same_edge new) ds ≡ false
      → All (OnceIn (es ++ new ∷ [])) ds
  OnceIn-snoc es new [] h n = tt
  OnceIn-snoc es new (d ∷ ds) h n = (
    ground (
      arith,
      h.0,
      count_if-append (same_edge d) es (new ∷ []),
      same_edge-sym new d (ground arith),
    ),
    OnceIn-snoc es new ds h.1 (ground arith),
  )

  OnceIn-grown :
      (es : List (RelatedToEdge F)) (new : RelatedToEdge F)
      → All (OnceIn es) es
      → any (same_edge new) es ≡ false
      → All (OnceIn (es ++ new ∷ [])) (es ++ new ∷ [])
  OnceIn-grown es new h n =
      let last : OnceIn (es ++ new ∷ []) new = ground (
        arith,
        count_if-append (same_edge new) es (new ∷ []),
        count_if_of_any-false (same_edge new) es n,
        same_edge_refl new,
      ) in
      All-append (OnceIn (es ++ new ∷ [])) es (new ∷ []) (OnceIn-snoc es new es h n) (last, tt)

  pub sort-OnceIn :
      (es : List (RelatedToEdge F))
      → All (OnceIn es) es
      → All (OnceIn (sort edge_before es)) (sort edge_before es)
  sort-OnceIn es h = All-sort edge_before (OnceIn (sort edge_before es)) es (
      All-weaken (OnceIn es) (OnceIn (sort edge_before es))
        (λ e c. count_if-sort edge_before (same_edge e) es ∙ c) es h)

check_endpoints-returned :
    (by_key : Dict SeedSkill) (i j : String)
    → check_endpoints by_key i j ≡ returned tt
    → (is_some (lookup i by_key) ≡ true) × (is_some (lookup j by_key) ≡ true) × ((i == j) ≡ false)
unfolding check_endpoints
check_endpoints-returned by_key i j h = ground arith

module _ {F : Type 0} ⦃fl : Float F⦄ where
  parse_weight-returned :
      (v : Option (Value F)) {w : F}
      → parse_weight v ≡ returned w
      → (fl.less (fl.hundredths 0) w ≡ true) × (fl.at_most w (fl.hundredths 100) ≡ true)
  unfolding parse_weight
  parse_weight-returned none h = cc
  parse_weight-returned (some (number x)) h = ground arith
  parse_weight-returned (some v) h = cc

  -- Both ends are seed skills, they differ, and the weight is in (0, 1].
  abbrev pub IsApproved : Dict SeedSkill → RelatedToEdge F → Type 0
  IsApproved by_key e =
      (is_some (lookup e.from_key by_key) ≡ true)
      × (is_some (lookup e.to_key by_key) ≡ true)
      × ((e.from_key == e.to_key) ≡ false)
      × (fl.less (fl.hundredths 0) e.weight ≡ true)
      × (fl.at_most e.weight (fl.hundredths 100) ≡ true)

  read_relationship-IsApproved :
      (u : Unicode) (by_key : Dict SeedSkill) (entry : Value F) {edge : RelatedToEdge F}
      → read_relationship u by_key entry ≡ returned edge
      → IsApproved by_key edge
  unfolding read_relationship
  read_relationship-IsApproved u by_key entry h =
      let (fields, _, h1) = and_then-returned (require_mapping entry) _ h in
      let (_, _, h2) = and_then-returned (reject_unexpected relationship_keys fields) _ h1 in
      let (from_key, _, h3) = and_then-returned (read_text null "from" fields) _ h2 in
      let (to_key, _, h4) = and_then-returned (read_text null "to" fields) _ h3 in
      let (source, _, h5) = and_then-returned (read_text (text "seed") "source" fields) _ h4 in
      let (_, ends, h6) =
        and_then-returned (check_endpoints by_key (clean u from_key) (clean u to_key)) _ h5 in
      let (weight, weighed, h7) = and_then-returned (parse_weight (get "weight" fields)) _ h6 in
      let e = check_endpoints-returned by_key (clean u from_key) (clean u to_key) ends in
      let w = parse_weight-returned (get "weight" fields) weighed in
      subst (IsApproved by_key) (returned-inj h7) (e.0, e.1, e.2, w.0, w.1)

  pub load_relationships-IsApproved :
      (u : Unicode) (by_key : Dict SeedSkill) (entries : List (Value F))
      (seen : List (RelatedToEdge F)) {after : List (RelatedToEdge F)}
      → All (IsApproved by_key) seen
      → All (OnceIn seen) seen
      → load_relationships u by_key entries seen ≡ returned after
      → All (IsApproved by_key) after × All (OnceIn after) after
  unfolding load_relationships add_relationship
  load_relationships-IsApproved u by_key [] seen ok once h =
      subst (λ es. All (IsApproved by_key) es × All (OnceIn es) es) (returned-inj h) (ok, once)
  load_relationships-IsApproved u by_key (entry ∷ entries) seen ok once h =
      let (mid, added, rest) =
        and_then-returned (add_relationship u by_key entry seen)
          (load_relationships u by_key entries) h in
      let (edge, read, checked) = and_then-returned (read_relationship u by_key entry) _ added in
      let (fresh, grown) =
        check-returned (any (same_edge edge) seen) duplicate_relationship (seen ++ edge ∷ [])
          checked in
      let approved = read_relationship-IsApproved u by_key entry read in
      load_relationships-IsApproved u by_key entries mid
        (subst (All (IsApproved by_key)) grown
          (All-append (IsApproved by_key) seen (edge ∷ []) ok (approved, tt)))
        (subst (λ es. All (OnceIn es) es) grown (OnceIn-grown seen edge once fresh)) rest
