-- ===== src/TailoringGuard/Fields/Grounded.antt =====
-- What a field without an issue satisfies.
use job_agent.Prelude.{
  String, Bool, true, false, Option, none, some, List, [], ◌∷◌, ◌==◌, ◌++◌, ◌≡◌, ◌≤◌, refl, arith,
  not, ◌&&◌, ◌||◌, len, length, ltb, All, Bool-cases, inl, inr, if◌then◌else◌,
}
use job_agent.Prelude.Dict.{lookup}
use job_agent.Models.Tailored.{SourceBoundText, TailoredFactEvidence}
use job_agent.TailoringGraph.{Issue, FactBank}
use job_agent.TailoringGuard.{Checks, issue, Field}
use job_agent.TailoringGuard.Fields.{
  has_duplicates, is_empty, Cited, cite_fact, cite, is_unsupported, check_cited, check_field,
  check_fields,
}

-- A fact of the section with this text.
abbrev pub IsEvidence : FactBank → String → String → String → Type 0
IsEvidence bank section_id fact_id source_text =
    (e : TailoredFactEvidence) × (lookup fact_id bank ≡ some e)
    × ((e.section_id == section_id) ≡ true)
    × (e.source_text ≡ source_text)

-- The texts of the facts, one after the other.
abbrev pub AreEvidence : FactBank → String → List String → List String → Type 0
AreEvidence bank section_id [] [] = Unit
AreEvidence bank section_id (i ∷ is) (t ∷ ts) =
    IsEvidence bank section_id i t × AreEvidence bank section_id is ts
AreEvidence bank section_id _ _ = ⊥

all_clear :
    (a b c : Bool) (x y z : Issue) (rest : List Issue)
    → (if a then x ∷ [] else if b then y ∷ [] else if c then z ∷ [] else rest) ≡ []
    → (a ≡ false) × (b ≡ false) × (c ≡ false) × (rest ≡ [])
all_clear true b c x y z rest h = cc
all_clear false true c x y z rest h = cc
all_clear false false true x y z rest h = cc
all_clear false false false x y z rest h = (refl, refl, refl, h)

pub append-empty : (xs ys : List Issue) → (xs ++ ys) ≡ [] → (xs ≡ []) × (ys ≡ [])
append-empty [] ys h = (refl, h)
append-empty (x ∷ xs) ys h = cc

module _ (checks : Checks) where
  -- A text within its bounds, whose facts are different facts of the section; a text that is not
  -- empty cites some, and passes the checks against them.
  abbrev pub IsGrounded : String → SourceBoundText → Type 0
  IsGrounded section_id bound =
      (len bound.text ≤ 4000)
      × (length bound.source_fact_ids ≤ 64)
      × (has_duplicates bound.source_fact_ids ≡ false)
      × (cited : List String) × AreEvidence checks.fact_bank section_id bound.source_fact_ids cited
      × ((bound.text == "") ≡ false
          → (is_empty bound.source_fact_ids ≡ false)
            × (is_unsupported checks bound.text cited ≡ false))

  cite_fact-AreEvidence :
      (path section_id i : String) (ids : List String) (o : Option TailoredFactEvidence) (c : Cited)
      → lookup i checks.fact_bank ≡ o
      → (cite_fact path section_id o c).0 ≡ []
      → (c.0 ≡ [] → AreEvidence checks.fact_bank section_id ids c.1)
      → AreEvidence checks.fact_bank section_id (i ∷ ids) (cite_fact path section_id o c).1
  unfolding cite_fact
  cite_fact-AreEvidence path section_id i ids none c e h rest = cc
  cite_fact-AreEvidence path section_id i ids (some ev) c e h rest =
      elim (Bool-cases (ev.section_id == section_id)) [
        | inl t ↦ let clear : c.0 ≡ [] = ground arith in rw t ((ev, e, t, refl), rest clear)
        | inr n ↦ ground arith
      ]

  cite-AreEvidence :
      (path section_id : String) (ids : List String)
      → (cite checks.fact_bank path section_id ids).0 ≡ []
      → AreEvidence checks.fact_bank section_id ids (cite checks.fact_bank path section_id ids).1
  unfolding cite
  cite-AreEvidence path section_id [] h = tt
  cite-AreEvidence path section_id (i ∷ ids) h =
      cite_fact-AreEvidence path section_id i ids (lookup i checks.fact_bank)
        (cite checks.fact_bank path section_id ids) refl h (cite-AreEvidence path section_id ids)

  check_cited-clear :
      (path value : String) (c : Cited)
      → check_cited checks path value c ≡ []
      → (c.0 ≡ []) × ((value == "") ≡ false → is_unsupported checks value c.1 ≡ false)
  unfolding check_cited
  check_cited-clear path value (i ∷ issues, cited) h = cc
  check_cited-clear path value ([], cited) h = (refl, λ filled. ground arith)

  check_field-IsGrounded :
      (section_id path : String) (bound : SourceBoundText)
      → check_field checks section_id (path, bound) ≡ []
      → IsGrounded section_id bound
  unfolding check_field
  check_field-IsGrounded section_id path bound h =
      let (large, unsourced, repeated, cited_clear) =
        all_clear (ltb 4000 (len bound.text) || ltb 64 (length bound.source_fact_ids))
          (not (bound.text == "") && is_empty bound.source_fact_ids)
          (has_duplicates bound.source_fact_ids) (issue "CONTENT_BOUNDS_EXCEEDED" path)
          (issue "EMPTY_PROVENANCE" path) (issue "UNKNOWN_FACT" path)
          (check_cited checks path bound.text
            (cite checks.fact_bank path section_id bound.source_fact_ids))
          h in
      let c = cite checks.fact_bank path section_id bound.source_fact_ids in
      let (clear, supported) = check_cited-clear path bound.text c cited_clear in
      (
        ground arith,
        ground arith,
        repeated,
        c.1,
        cite-AreEvidence path section_id bound.source_fact_ids clear,
        λ filled. (ground arith, supported filled),
      )

  -- Every field without an issue is grounded.
  pub check_fields-IsGrounded :
      (section_id : String) (fs : List Field)
      → check_fields checks section_id fs ≡ []
      → All (λ f. IsGrounded section_id f.1) fs
  unfolding check_fields
  check_fields-IsGrounded section_id [] h = tt
  check_fields-IsGrounded section_id (f ∷ fs) h =
      let (here, later) =
        append-empty (check_field checks section_id f) (check_fields checks section_id fs) h in
      (check_field-IsGrounded section_id f.0 f.1 here, check_fields-IsGrounded section_id fs later)
