-- ===== src/TailoringGuard/Assembly/Grounded.antt =====
-- The content that the guard returns.
use mathlib.Core.Path.{subst}
use job_agent.Prelude.{
  ℕ, String, true, Option, none, some, List, [], ◌∷◌, ◌==◌, ◌≡◌, ◌⊎◌, refl, sym, ap, ◌∙◌, arith,
  map, All, inl, inr, IsIn, eq_iff,
}
use job_agent.Prelude.Table.{some-inj}
use job_agent.Prelude.Dict.{Dict, lookup, dict_of, dict_of-IsIn}
use job_agent.Models.Tailored.{
  TailoredSection, TailoredCvContent, TailoredSectionPatch, TailoredPatchSet,
}
use job_agent.TailoringGraph.{Issue}
use job_agent.TailoringGuard.{Checks}
use job_agent.TailoringGuard.Structure.{same_texts, is_among, validate_patch_structure_and_facts}
use job_agent.TailoringGuard.Structure.Clear.{
  IsGroundedItem, IsGroundedSection, validate-IsGroundedSection,
}
use job_agent.TailoringGuard.Assembly.{assemble_guarded_content, guarded_by, guard_tailored_patch}
use job_agent.TailoringGuard.Assembly.Preserved.{
  patch_of, HasIdentityOf, Follows, AreFollowed, assemble_sections-AreFollowed,
}

is_among-same_texts :
    (x : String) (xs ys : List String)
    → same_texts xs ys ≡ true
    → is_among x xs ≡ true
    → is_among x ys ≡ true
is_among-same_texts x [] [] h a = a
is_among-same_texts x [] (y ∷ ys) h a = cc
is_among-same_texts x (z ∷ zs) [] h a = cc
is_among-same_texts x (z ∷ zs) (y ∷ ys) h a =
    let same : z ≡ y = (eq_iff z y).0 (ground arith) in
    let here : (y == x) ≡ (z == x) = rw same refl in
    ground (arith, is_among-same_texts x zs ys, here)

All-unmap :
    {A B : Type 0} (f : A → B) (P : B → Type 0) (xs : List A)
    → All P (map f xs)
    → All (λ x. P (f x)) xs
All-unmap f P [] h = tt
All-unmap f P (x ∷ xs) h = (h.0, All-unmap f P xs h.1)

module _ (checks : Checks) (allowed : List String) where
  -- A patch of this section, which is allowed, with grounded texts.
  abbrev IsPatchOf : String → TailoredSectionPatch → Type 0
  IsPatchOf i patch =
      (patch.section_id ≡ i) × (is_among i allowed ≡ true) × IsGroundedSection checks patch

  listed_patch :
      (i : String) (patch : TailoredSectionPatch) (ps : List TailoredSectionPatch)
      → IsIn {A = String × TailoredSectionPatch} (i, patch) (map (λ s. (s.section_id, s)) ps)
      → All (IsGroundedSection checks) ps
      → (is_among i (map (λ s. s.section_id) ps) ≡ true)
        × (patch.section_id ≡ i)
        × IsGroundedSection checks patch
  listed_patch i patch [] h g = ground arith
  listed_patch i patch (p ∷ ps) h g = elim h [
    | inl e ↦
        let key : i ≡ p.section_id = ap (λ q. q.0) e in
        let same : patch ≡ p = ap (λ q. q.1) e in
        (
          ground (arith, (eq_iff p.section_id i).1 (sym key)),
          ap (λ q. q.section_id) same ∙ sym key,
          subst (IsGroundedSection checks) (sym same) g.0,
        )
    | inr later ↦ let (a, b, c) = listed_patch i patch ps later g.1 in (ground arith, b, c)
  ]

  -- A section is the parent's, or it is allowed and each of its texts is grounded in it.
  abbrev pub IsGuardedSection : TailoredSection → TailoredSection → Type 0
  IsGuardedSection p s =
      HasIdentityOf p s
      × ((s ≡ p)
          ⊎ ((is_among p.id allowed ≡ true)
              × All (λ i. IsGroundedItem checks p.id (patch_of i)) s.items))

  abbrev pub AreGuarded : List TailoredSection → List TailoredSection → Type 0
  AreGuarded [] [] = Unit
  AreGuarded (p ∷ ps) (s ∷ ss) = IsGuardedSection p s × AreGuarded ps ss
  AreGuarded _ _ = ⊥

  guarded_section :
      (p s : TailoredSection) (o : Option TailoredSectionPatch)
      → ((patch : TailoredSectionPatch) → o ≡ some patch → IsPatchOf p.id patch)
      → Follows o p s
      → (s ≡ p)
        ⊎ ((is_among p.id allowed ≡ true)
            × All (λ i. IsGroundedItem checks p.id (patch_of i)) s.items)
  guarded_section p s none f h = inl h
  guarded_section p s (some patch) f h =
      let (key, among, grounded) = f patch refl in
      inr (
        among,
        All-unmap patch_of (IsGroundedItem checks p.id) s.items (
            subst (All (IsGroundedItem checks p.id)) (sym h)
              (subst (λ i. All (IsGroundedItem checks i) patch.items) key grounded)),
      )

  AreFollowed-AreGuarded :
      (d : Dict TailoredSectionPatch)
      → ((i : String) (patch : TailoredSectionPatch) → lookup i d ≡ some patch → IsPatchOf i patch)
      → (ps ss : List TailoredSection) → AreFollowed d ps ss
      → AreGuarded ps ss
  AreFollowed-AreGuarded d f [] [] h = tt
  AreFollowed-AreGuarded d f [] (s ∷ ss) h = h
  AreFollowed-AreGuarded d f (p ∷ ps) [] h = h
  AreFollowed-AreGuarded d f (p ∷ ps) (s ∷ ss) h = (
    (h.0, guarded_section p s (lookup p.id d) (f p.id) h.1),
    AreFollowed-AreGuarded d f ps ss h.2,
  )

  -- The header is the parent's, and so is each section, but for the allowed ones with grounded
  -- texts.
  abbrev pub IsGuarded : TailoredCvContent → TailoredCvContent → Type 0
  IsGuarded parent content =
      (content.header ≡ parent.header) × AreGuarded parent.sections content.sections

  assembled :
      (uuid : ℕ → String) (patch : TailoredPatchSet) (parent : TailoredCvContent) (n : ℕ)
      → validate_patch_structure_and_facts checks patch parent allowed ≡ []
      → IsGuarded parent (assemble_guarded_content uuid patch parent n).0
  unfolding assemble_guarded_content
  assembled uuid patch parent n clear =
      let (same, grounded) = validate-IsGroundedSection checks patch parent allowed clear in
      let d = dict_of (map (λ s. (s.section_id, s)) patch.sections) in
      (
        refl,
        AreFollowed-AreGuarded d
            (λ i p found.
              let (among, key, ok) =
                listed_patch i p patch.sections (dict_of-IsIn i _ found) grounded in
              (
                key,
                is_among-same_texts i (map (λ s. s.section_id) patch.sections) allowed same among,
                ok,
              ))
            parent.sections _ (assemble_sections-AreFollowed uuid d parent.sections n),
      )

  guarded_by-some :
      (uuid : ℕ → String) (issues : List Issue) (patch : TailoredPatchSet)
      (parent : TailoredCvContent) (n : ℕ) {content : TailoredCvContent} {reported : List Issue}
      → (guarded_by uuid issues patch parent n).0 ≡ (some content, reported)
      → (issues ≡ []) × ((assemble_guarded_content uuid patch parent n).0 ≡ content)
  unfolding guarded_by
  guarded_by-some uuid [] patch parent n h = (refl, some-inj (ap (λ q. q.0) h))
  guarded_by-some uuid (i ∷ issues) patch parent n h = ground arith

  -- A content that the guard returns keeps the header and the sections of the parent, except for
  -- the items of the allowed sections, in which every text is grounded.
  pub guard_tailored_patch-IsGuarded :
      (uuid : ℕ → String) (patch : TailoredPatchSet) (parent : TailoredCvContent) (n : ℕ)
      {content : TailoredCvContent} {reported : List Issue}
      → (guard_tailored_patch uuid checks patch parent allowed n).0 ≡ (some content, reported)
      → IsGuarded parent content
  unfolding guard_tailored_patch
  guard_tailored_patch-IsGuarded uuid patch parent n h =
      let issues = validate_patch_structure_and_facts checks patch parent allowed in
      let (clear, same) = guarded_by-some uuid issues patch parent n h in
      subst (IsGuarded parent) same (assembled uuid patch parent n clear)

  -- What the guard returns is the assembled content, of a patch without issues.
  pub guard_tailored_patch-some :
      (uuid : ℕ → String) (patch : TailoredPatchSet) (parent : TailoredCvContent) (n : ℕ)
      {content : TailoredCvContent} {reported : List Issue}
      → (guard_tailored_patch uuid checks patch parent allowed n).0 ≡ (some content, reported)
      → (validate_patch_structure_and_facts checks patch parent allowed ≡ [])
        × ((assemble_guarded_content uuid patch parent n).0 ≡ content)
  unfolding guard_tailored_patch
  guard_tailored_patch-some uuid patch parent n h =
      guarded_by-some uuid (validate_patch_structure_and_facts checks patch parent allowed) patch
        parent n h
