-- ===== src/TailoringGuard/Manual/Edited.antt =====
-- backend/app/services/cv_tailoring_guard.py: the content of a manual edit that
-- `guard_manual_tailored_content` accepts, beside the edit and the parent.
use mathlib.Core.Path.{subst}
use job_agent.Prelude.{
  ℕ, String, true, false, Option, none, some, List, [], ◌∷◌, ◌≡◌, ◌⊎◌, ◌+◌, refl, sym, ap, ◌∙◌,
  keep, map, All, All-IsIn, IsIn, length, arith, is_some, Bool-cases, inl, inr,
}
use job_agent.Prelude.Members.{keep_of_IsIn, keep-holds}
use job_agent.Prelude.Dict.{lookup, dict_of, dict_of-IsIn, is_some-dict_of}
use job_agent.Models.Tailored.{TailoredSection, TailoredCvContent, TailoredSectionPatch}
use job_agent.TailoringGraph.{Issue}
use job_agent.TailoringGuard.{Checks}
use job_agent.TailoringGuard.Fields.{has_duplicates}
use job_agent.TailoringGuard.Structure.{is_among, validate_patch_structure_and_facts}
use job_agent.TailoringGuard.Structure.Clear.{validate-IsGroundedSection, validate-distinct}
use job_agent.TailoringGuard.Assembly.{guard_tailored_patch, assemble_guarded_content}
use job_agent.TailoringGuard.Assembly.Preserved.{
  patch_of, HasIdentityOf, Follows, AreFollowed, assemble_sections-AreFollowed,
}
use job_agent.TailoringGuard.Assembly.Grounded.{
  IsGuarded, guard_tailored_patch-IsGuarded, guard_tailored_patch-some,
}
use job_agent.TailoringGuard.Manual.{
  same_identity, first_changed, manual_content_identity_issues, manual_content_patch, manual_checks,
  guard_unless, guard_manual_tailored_content,
}
use job_agent.TailoringGuard.Manual.Identity.{same_identity_lem, no_identity_issue}
use job_agent.TailoringGuard.Manual.Patches.{
  edit_patch, rows, row_of, unique_section, any_row, same_texts_lem, ids_of_patches,
}

-- Section for section: the edit and the accepted content keep the identity of the parent's section; an
-- allowed section has the items of the edit, and any other is the parent's.
abbrev pub AreEdited :
    List String → List TailoredSection → List TailoredSection → List TailoredSection → Type 0
AreEdited allowed [] [] [] = Unit
AreEdited allowed (c ∷ cs) (p ∷ ps) (s ∷ ss) =
    HasIdentityOf p c
    × HasIdentityOf p s
    × (((is_among p.id allowed ≡ true) × (map patch_of s.items ≡ map patch_of c.items))
        ⊎ ((is_among p.id allowed ≡ false) × (s ≡ p)))
    × AreEdited allowed cs ps ss
AreEdited allowed _ _ _ = ⊥

module _ (allowed : List String) (whole : List TailoredSection)
    (distinct : has_duplicates (map (λ s. s.id) (keep (λ s. is_among s.id allowed) whole))
      ≡ false) where
  found_edit :
      (i : String) (c : TailoredSection) (v : TailoredSectionPatch)
      → IsIn c (keep (λ s. is_among s.id allowed) whole)
      → c.id ≡ i
      → lookup i (dict_of (rows allowed whole)) ≡ some v
      → v ≡ edit_patch c
  found_edit i c v at named found =
      let (s, there, key, value) =
        row_of allowed i v whole (dict_of-IsIn i (rows allowed whole) found) in
      value
      ∙ ap edit_patch (
          unique_section s c (keep (λ s. is_among s.id allowed) whole) distinct there at
            (sym key ∙ sym named))

  edited_section :
      (c p s : TailoredSection)
      → IsIn c whole
      → HasIdentityOf p c
      → (o : Option TailoredSectionPatch) → lookup p.id (dict_of (rows allowed whole)) ≡ o
      → Follows o p s
      → ((is_among p.id allowed ≡ true) × (map patch_of s.items ≡ map patch_of c.items))
        ⊎ ((is_among p.id allowed ≡ false) × (s ≡ p))
  edited_section c p s at same none found follows = elim (Bool-cases (is_among p.id allowed)) [
    | inr e ↦ inr (e, follows)
    | inl e ↦
        let mine : is_among c.id allowed ≡ true = ap (λ i. is_among i allowed) same.0 ∙ e in
        let kept = keep_of_IsIn (λ s. is_among s.id allowed) c whole at mine in
        let row =
          is_some-dict_of p.id (rows allowed whole)
            (any_row c p.id (keep (λ s. is_among s.id allowed) whole) kept same.0) in
        let lost : is_some (lookup p.id (dict_of (rows allowed whole))) ≡ false = rw found refl in
        cc
  ]
  edited_section c p s at same (some v) found follows =
      let (t, there, key, value) =
        row_of allowed p.id v whole (dict_of-IsIn p.id (rows allowed whole) found) in
      let e : is_among p.id allowed ≡ true =
        ap (λ i. is_among i allowed) key ∙ keep-holds (λ s. is_among s.id allowed) t whole there in
      let mine : is_among c.id allowed ≡ true = ap (λ i. is_among i allowed) same.0 ∙ e in
      let kept = keep_of_IsIn (λ s. is_among s.id allowed) c whole at mine in
      inl (e, follows ∙ ap (λ v. v.items) (found_edit p.id c v kept same.0 found))

  edited_sections :
      (index : ℕ) (cs ps ss : List TailoredSection)
      → All (λ c. IsIn c whole) cs
      → length cs ≡ length ps
      → first_changed index cs ps ≡ []
      → AreFollowed (dict_of (rows allowed whole)) ps ss
      → AreEdited allowed cs ps ss
  unfolding first_changed
  edited_sections index [] [] [] at n h f = tt
  edited_sections index [] [] (s ∷ ss) at n h f = f
  edited_sections index [] (p ∷ ps) ss at n h f = absurd (omega arith)
  edited_sections index (c ∷ cs) [] ss at n h f = absurd (omega arith)
  edited_sections index (c ∷ cs) (p ∷ ps) [] at n h f = f
  edited_sections index (c ∷ cs) (p ∷ ps) (s ∷ ss) at n h f =
      elim (Bool-cases (same_identity c p)) [
        | inr e ↦ ground arith
        | inl e ↦
            let same = same_identity_lem c p e in
            (
              same,
              f.0,
              edited_section c p s at.0 same (lookup p.id (dict_of (rows allowed whole))) refl f.1,
              edited_sections (index + 1) cs ps ss at.1 (omega arith) (ground arith) f.2,
            )
      ]

guard_unless-some :
    (uuid : ℕ → String) (checks : Checks) (issues : List Issue) (content parent : TailoredCvContent)
    (allowed : List String) (n : ℕ) {accepted : TailoredCvContent} {reported : List Issue}
    → (guard_unless uuid checks issues content parent allowed n).0 ≡ (some accepted, reported)
    → (issues ≡ [])
      × ((guard_tailored_patch uuid
            (manual_checks checks)
            (manual_content_patch content allowed)
            parent
            allowed
            n).0
          ≡ (some accepted, reported))
unfolding guard_unless
guard_unless-some uuid checks (i ∷ issues) content parent allowed n h = ground arith
guard_unless-some uuid checks [] content parent allowed n h = (refl, h)

module _ (uuid : ℕ → String) (checks : Checks) (content parent : TailoredCvContent)
    (allowed : List String) (n : ℕ) where
  patch_followed :
      AreFollowed
        (dict_of (rows allowed content.sections))
        parent.sections
        (assemble_guarded_content uuid (manual_content_patch content allowed) parent n).0.sections
  unfolding assemble_guarded_content manual_content_patch
  patch_followed = assemble_sections-AreFollowed uuid _ parent.sections n

  edits_distinct :
      validate_patch_structure_and_facts
          (manual_checks checks)
          (manual_content_patch content allowed)
          parent
          allowed
        ≡ []
      → has_duplicates (map (λ s. s.id) (keep (λ s. is_among s.id allowed) content.sections))
        ≡ false
  unfolding manual_content_patch
  edits_distinct clear =
      let patch = manual_content_patch content allowed in
      let kept = keep (λ s. is_among s.id allowed) content.sections in
      let named =
        same_texts_lem (map (λ s. s.section_id) patch.sections) allowed
          (validate-IsGroundedSection (manual_checks checks) patch parent allowed clear).0 in
      ap has_duplicates (sym (ids_of_patches kept) ∙ named)
      ∙ validate-distinct (manual_checks checks) patch parent allowed clear

  -- A manual edit that is accepted has the header of the parent, and its sections one for one with
  -- their ids, ordinals, headings and kinds. The accepted content has the header and the sections of
  -- the parent too: an allowed section has the items of the edit, apart from their ids, and any other
  -- is the parent's. Every text of a section that is not the parent's is grounded, where the semantic
  -- check is not required and the deterministic one is.
  pub guard_manual_tailored_content-IsEdited :
      {accepted : TailoredCvContent} {reported : List Issue}
      → (guard_manual_tailored_content uuid checks content parent allowed n).0
        ≡ (some accepted, reported)
      → (content.header ≡ parent.header)
        × AreEdited allowed content.sections parent.sections accepted.sections
        × IsGuarded
            (record checks {
              require_semantic_support = false;
              require_deterministic_support = true;
            })
            allowed
            parent
            accepted
  unfolding guard_manual_tailored_content
  guard_manual_tailored_content-IsEdited {accepted} h =
      let issues = manual_content_identity_issues content parent in
      let patch = manual_content_patch content allowed in
      let (clear, guarded) = guard_unless-some uuid checks issues content parent allowed n h in
      let (header, lengths, unchanged) = no_identity_issue content parent clear in
      let (valid, same) =
        guard_tailored_patch-some (manual_checks checks) allowed uuid patch parent n guarded in
      let followed =
        subst
          (λ (a : TailoredCvContent).
            AreFollowed (dict_of (rows allowed content.sections)) parent.sections a.sections)
          same patch_followed in
      (
        header,
        edited_sections allowed content.sections (edits_distinct valid) 0 content.sections
            parent.sections accepted.sections (All-IsIn content.sections) lengths unchanged
            followed,
        guard_tailored_patch-IsGuarded (manual_checks checks) allowed uuid patch parent n guarded,
      )
