-- ===== src/Matching/Ranking/Top.antt =====
-- What `order_scored_match_candidates` returns.
use mathlib.Core.List.{Permᴰ}
use mathlib.Core.Path.{subst, fun_ext}
use Prim.Native.Nat.{min}
use job_agent.Prelude.{
  ℕ, All-weaken, String, Bool, true, false, List, [], ◌∷◌, ◌++◌, ◌≡◌, ◌⊎◌, refl, sym, ap, ◌∙◌,
  arith, not, ◌||◌, ◌==◌, All, take, length, ltb, Bool-cases, inl, inr, eq_iff, returned, raised,
}
use job_agent.Prelude.Floats.{Float, IsNumeric}
use job_agent.Prelude.Sorting.{text_ltb, sort}
use job_agent.Prelude.Sorted.{IsSorted, sort-IsSorted, text_ltb-total}
use job_agent.Prelude.Permuted.{Differs, Separated, Perm-sort, sort-Perm}
use job_agent.Prelude.Slices.{
  drop, Beats, take-drop, length-take, length-Perm, take-IsSorted, take-Beats-drop,
}
use job_agent.Matching.{ScoredMatchCandidate, limit_out_of_range}
use job_agent.Matching.Ranking.{key_before, validate_match_limit, order_scored_match_candidates}
use job_agent.Matching.Ranking.Order.{outranks, outranks-IsOrder, key_before-outranks}

text_differs : (s t : String) → (s == t) ≡ false → (text_ltb s t || text_ltb t s) ≡ true
text_differs s t h = ground (arith, text_ltb-total s t, eq_iff s t)

-- The limits from 1 to 10.
abbrev pub is_valid_limit : ℕ → Bool
is_valid_limit limit = not (ltb limit 1 || ltb 10 limit)

module _ {F : Type 0} ⦃fl : Float F⦄ where
  -- The candidates fall into the list returned and a rest: the list is sorted, as long as the
  -- limit and the number of candidates allow, and nothing of the rest outranks an item of it.
  abbrev pub IsTop : ℕ → List (ScoredMatchCandidate F) → List (ScoredMatchCandidate F) → Type 0
  IsTop limit candidates top =
      (rest : List (ScoredMatchCandidate F)) × Permᴰ candidates (top ++ rest)
      × IsSorted outranks top
      × Beats outranks top rest
      × (length top ≡ min limit (length candidates))

  -- No two candidates have the same id.
  abbrev pub HasDistinctIds : List (ScoredMatchCandidate F) → Type 0
  HasDistinctIds [] = Unit
  HasDistinctIds (c ∷ cs) =
      All (λ d. (c.components.job_id == d.components.job_id) ≡ false) cs × HasDistinctIds cs

  apart :
      (a b : ScoredMatchCandidate F)
      → (a.components.job_id == b.components.job_id) ≡ false
      → Differs outranks a b
  unfolding outranks
  apart a b h = ground (arith, text_differs a.components.job_id b.components.job_id h)

  HasDistinctIds-Separated :
      (cs : List (ScoredMatchCandidate F)) → HasDistinctIds cs → Separated outranks cs
  HasDistinctIds-Separated [] h = tt
  HasDistinctIds-Separated (c ∷ cs) h = (
    All-weaken _ (Differs outranks c) (λ d n. apart c d n) cs h.0,
    HasDistinctIds-Separated cs h.1,
  )

  module _ (numeric : IsNumeric fl) where
    key_before-eq : key_before {F = F} ≡ outranks
    key_before-eq = fun_ext λ a. fun_ext λ b. key_before-outranks numeric a b

    order-returned :
        (cs : List (ScoredMatchCandidate F)) (limit : ℕ)
        → is_valid_limit limit ≡ true
        → order_scored_match_candidates cs limit ≡ returned (take limit (sort outranks cs))
    unfolding order_scored_match_candidates validate_match_limit
    order-returned cs limit h = rw (key_before-eq) (ground arith)

    take-IsTop :
        (cs : List (ScoredMatchCandidate F)) (limit : ℕ)
        → IsTop limit cs (take limit (sort outranks cs))
    take-IsTop cs limit =
        let sorted = sort-IsSorted outranks (outranks-IsOrder numeric) cs in
        (
          drop limit (sort outranks cs),
          subst (Permᴰ cs) (sym (take-drop limit (sort outranks cs))) (Perm-sort outranks cs),
          take-IsSorted outranks limit (sort outranks cs) sorted,
          take-Beats-drop outranks limit (sort outranks cs) sorted,
          length-take limit (sort outranks cs)
              ∙ sym (ap (min limit) (length-Perm (Perm-sort outranks cs))),
        )

    -- With a limit from 1 to 10 the best candidates are returned, in their order; any other limit
    -- raises.
    pub order_scored_match_candidates-IsTop :
        (cs : List (ScoredMatchCandidate F)) (limit : ℕ)
        → ((is_valid_limit limit ≡ false)
            × (order_scored_match_candidates cs limit ≡ raised limit_out_of_range))
          ⊎ ((top : List (ScoredMatchCandidate F)) × (order_scored_match_candidates cs limit
                ≡ returned top)
              × IsTop limit cs top)
    unfolding order_scored_match_candidates validate_match_limit
    order_scored_match_candidates-IsTop cs limit = elim (Bool-cases (is_valid_limit limit)) [
      | inl h ↦ inr (take limit (sort outranks cs), order-returned cs limit h, take-IsTop cs limit)
      | inr h ↦ inl (h, ground arith)
    ]

    -- The order in which the candidates are given does not show in the result.
    pub order_scored_match_candidates-Perm :
        (cs ds : List (ScoredMatchCandidate F)) (limit : ℕ)
        → Permᴰ cs ds
        → HasDistinctIds cs
        → order_scored_match_candidates cs limit ≡ order_scored_match_candidates ds limit
    unfolding order_scored_match_candidates
    order_scored_match_candidates-Perm cs ds limit p h =
        rw
          (
            key_before-eq,
            sort-Perm outranks (outranks-IsOrder numeric) p (HasDistinctIds-Separated cs h),
          )
          refl
