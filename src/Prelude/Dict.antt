-- ===== src/Prelude/Dict.antt =====
-- Python's `dict` with text keys, in insertion order.
use mathlib.Core.Path.{◌≡◌, refl, ap, subst, sym, ◌∙◌}
use mathlib.Core.Bool.{true, false, ◌||◌}
use mathlib.Core.List.{List, [], ◌∷◌, ◌++◌}
use mathlib.Core.Option.{Option, none, some}
use mathlib.Core.Logic.{inl, inr}
use Prim.Native.String.{String}
use native.Mathlib.Omega.{arith}
use text.Mathlib.Text.{◌==◌}
use text.Mathlib.TextEquality.{eq_iff}
use text.Mathlib.TextPositions.{eq_refl}
use job_agent.Prelude.Lists.{any, All, All-weaken, IsIn, All-IsIn}
use job_agent.Prelude.Table.{some-inj}
use job_agent.Prelude.Tests.{if◌then◌else◌, Bool-cases, is_some}

abbrev pub Dict : Type 0 → Type 0
Dict A = List (String × A)

module _ {A : Type 0} where
  abbrev pub lookup : String → Dict A → Option A
  lookup k [] = none
  lookup k (p ∷ d) = let later = lookup k d in if p.0 == k then some p.1 else later

  -- `d[k] = v`: a known key keeps its place.
  abbrev pub set_item : String → A → Dict A → Dict A
  set_item k v [] = (k, v) ∷ []
  set_item k v (p ∷ d) = let rest = set_item k v d in if p.0 == k then (k, v) ∷ d else p ∷ rest

  pub lookup-set_item_self : (k : String) (v : A) (d : Dict A) → lookup k (set_item k v d) ≡ some v
  lookup-set_item_self k v [] = rw (eq_refl k) refl
  lookup-set_item_self k v (p ∷ d) = ground (arith, eq_refl k, lookup-set_item_self k v d)

  pub lookup-set_item_ne :
      (k j : String) (v : A) (d : Dict A)
      → (k == j) ≡ false
      → lookup j (set_item k v d) ≡ lookup j d
  lookup-set_item_ne k j v [] h = rw h refl
  lookup-set_item_ne k j v (p ∷ d) h = elim (Bool-cases (p.0 == k)) [
    | inl e ↦
        let same : p.0 ≡ k = (eq_iff p.0 k).0 e in
        let missed : (p.0 == j) ≡ false = rw same h in rw (e, h, missed) refl
    | inr e ↦ rw (e, lookup-set_item_ne k j v d h) refl
  ]

  pub set_item-fresh :
      (k : String) (v : A) (d : Dict A) → lookup k d ≡ none → set_item k v d ≡ d ++ (k, v) ∷ []
  set_item-fresh k v [] h = refl
  set_item-fresh k v (p ∷ d) h = ground (arith, set_item-fresh k v d)

  pub All-set_item :
      (P : String × A → Type 0) (k : String) (v : A) (d : Dict A)
      → P (k, v)
      → All P d
      → All P (set_item k v d)
  All-set_item P k v [] new h = (new, tt)
  All-set_item P k v (p ∷ d) new h = elim (Bool-cases (p.0 == k)) [
    | inl e ↦ rw e (new, h.1)
    | inr e ↦ rw e (h.0, All-set_item P k v d new h.1)
  ]

  -- No key stands twice.
  abbrev pub IsUnique : Dict A → Type 0
  IsUnique [] = Unit
  IsUnique (p ∷ d) = (lookup p.0 d ≡ none) × IsUnique d

  pub set_item-IsUnique : (k : String) (v : A) (d : Dict A) → IsUnique d → IsUnique (set_item k v d)
  set_item-IsUnique k v [] h = (refl, tt)
  set_item-IsUnique k v (p ∷ d) h = elim (Bool-cases (p.0 == k)) [
    | inl e ↦
        let same : p.0 ≡ k = (eq_iff p.0 k).0 e in
        let alone : lookup k d ≡ none = rw (sym same) h.0 in rw e (alone, h.1)
    | inr e ↦
        let other : (k == p.0) ≡ false = ground (arith, eq_iff k p.0, eq_refl k) in
        rw e (lookup-set_item_ne k p.0 v d other ∙ h.0, set_item-IsUnique k v d h.1)
  ]

  pub row_found :
      (k : String) (p : String × A) (d : Dict A) {v : A}
      → (p.0 == k) ≡ true
      → lookup k (p ∷ d) ≡ some v
      → some p.1 ≡ some v
  row_found k p d e h = ground arith

  found_later :
      (p q : String × A) (d : Dict A)
      → lookup p.0 d ≡ none
      → lookup q.0 d ≡ some q.1
      → lookup q.0 (p ∷ d) ≡ some q.1
  found_later p q d h e = elim (Bool-cases (p.0 == q.0)) [
    | inl t ↦
        let same : p.0 ≡ q.0 = (eq_iff p.0 q.0).0 t in
        let lost : lookup q.0 d ≡ none = rw (sym same) h in cc
    | inr n ↦ rw n e
  ]

  -- Each row of a dictionary is what its key finds.
  pub IsUnique-lookup : (d : Dict A) → IsUnique d → All (λ p. lookup p.0 d ≡ some p.1) d
  IsUnique-lookup [] h = tt
  IsUnique-lookup (p ∷ d) h = (
    rw (eq_refl p.0) refl,
    All-weaken _ _ (λ q e. found_later p q d h.0 e) d (IsUnique-lookup d h.1),
  )

module _ {A B : Type 0} (f : A → B) where
  -- `{k: f(v) for k, v in d.items()}`
  abbrev pub map_values : Dict A → Dict B
  map_values [] = []
  map_values (p ∷ d) = (p.0, f p.1) ∷ map_values d

  pub set_item-map_values :
      (k : String) (v : A) (d : Dict A)
      → set_item k (f v) (map_values d) ≡ map_values (set_item k v d)
  set_item-map_values k v [] = refl
  set_item-map_values k v (p ∷ d) = elim (Bool-cases (p.0 == k)) [
    | inl e ↦ rw e refl
    | inr e ↦ rw (e, set_item-map_values k v d) refl
  ]

  pub lookup-map_values :
      (k : String) (d : Dict A) {v : A} → lookup k d ≡ some v → lookup k (map_values d) ≡ some (f v)
  lookup-map_values k [] h = cc
  lookup-map_values k (p ∷ d) h = elim (Bool-cases (p.0 == k)) [
    | inl e ↦ rw e (ap (λ x. some (f x)) (some-inj (row_found k p d e h)))
    | inr e ↦ rw e (lookup-map_values k d (ground arith))
  ]

module _ {A : Type 0} where
  fill : Dict A → List (String × A) → Dict A
  fill d [] = d
  fill d (p ∷ ps) = fill (set_item p.0 p.1 d) ps

  -- `{k: v for …}`: of two rows with one key the later is kept.
  unfoldable pub dict_of : List (String × A) → Dict A
  unfolding fill
  dict_of ps = fill [] ps

  fill-IsIn :
      (whole rest : List (String × A)) (d : Dict A)
      → All (λ p. IsIn p whole) rest
      → All (λ p. IsIn p whole) d
      → All (λ p. IsIn p whole) (fill d rest)
  unfolding fill
  fill-IsIn whole [] d r h = h
  fill-IsIn whole (p ∷ ps) d r h =
      fill-IsIn whole ps (set_item p.0 p.1 d) r.1 (All-set_item (λ q. IsIn q whole) p.0 p.1 d r.0 h)

  All-lookup :
      (P : String × A → Type 0) (k : String) (d : Dict A) {v : A}
      → All P d
      → lookup k d ≡ some v
      → (j : String) × ((j == k) ≡ true) × P (j, v)
  All-lookup P k [] h e = cc
  All-lookup P k (p ∷ d) h e = elim (Bool-cases (p.0 == k)) [
    | inl t ↦ (p.0, t, subst (λ x. P (p.0, x)) (some-inj (row_found k p d t e)) h.0)
    | inr n ↦ All-lookup P k d h.1 (ground arith)
  ]

  -- What is found stands among the rows.
  pub dict_of-IsIn :
      (k : String) (ps : List (String × A)) {v : A}
      → lookup k (dict_of ps) ≡ some v
      → IsIn (k, v) ps
  unfolding dict_of
  dict_of-IsIn k ps {v} e =
      let (j, t, there) =
        All-lookup (λ p. IsIn p ps) k (fill [] ps) (fill-IsIn ps ps [] (All-IsIn ps) tt) e in
      subst (λ i. IsIn (i, v) ps) ((eq_iff j k).0 t) there

  is_some-fill :
      (k : String) (ps : List (String × A)) (d : Dict A)
      → is_some (lookup k d) || any (λ p. p.0 == k) ps ≡ true
      → is_some (lookup k (fill d ps)) ≡ true
  unfolding fill
  is_some-fill k [] d h = ground arith
  is_some-fill k (p ∷ ps) d h =
      is_some-fill k ps (set_item p.0 p.1 d) (elim (Bool-cases (p.0 == k)) [
        | inl e ↦
            let same : p.0 ≡ k = (eq_iff p.0 k).0 e in
            let set : lookup k (set_item p.0 p.1 d) ≡ some p.1 =
              subst (λ i. lookup i (set_item p.0 p.1 d) ≡ some p.1) same
                (lookup-set_item_self p.0 p.1 d) in
            rw set refl
        | inr e ↦ rw (lookup-set_item_ne p.0 k p.1 d e) (ground arith)
      ])

  -- A key of the rows is found.
  pub is_some-dict_of :
      (k : String) (ps : List (String × A))
      → any (λ p. p.0 == k) ps ≡ true
      → is_some (lookup k (dict_of ps)) ≡ true
  unfolding dict_of
  is_some-dict_of k ps h = is_some-fill k ps [] h
