-- ===== src/TailoringGuard/Manual/Patches.antt =====
-- The patches of the allowed sections of an edit, by the ids of the sections.
use job_agent.Prelude.{
  String, true, false, List, [], ◌∷◌, ◌==◌, ◌≡◌, ◌⊎◌, refl, sym, ap, ◌∙◌, keep, map, any, IsIn,
  arith, eq_iff, Bool-cases, inl, inr,
}
use job_agent.Models.Tailored.{TailoredSection, TailoredSectionPatch}
use job_agent.TailoringGuard.Fields.{has_duplicates}
use job_agent.TailoringGuard.Structure.{is_among, same_texts}
use job_agent.TailoringGuard.Assembly.Preserved.{patch_of}

-- The section patches of an edit.
abbrev pub edit_patch : TailoredSection → TailoredSectionPatch
edit_patch s = record { section_id = s.id; items = map patch_of s.items }

abbrev pub rows : List String → List TailoredSection → List (String × TailoredSectionPatch)
rows allowed sections =
    map (λ (s : TailoredSectionPatch). (s.section_id, s))
      (map edit_patch (keep (λ s. is_among s.id allowed) sections))

later_row :
    (allowed : List String) (k : String) (v : TailoredSectionPatch) (c : TailoredSection)
    (cs : List TailoredSection)
    → IsIn {A = String × TailoredSectionPatch} (k, v) ((c.id, edit_patch c) ∷ rows allowed cs)
    → ((k ≡ c.id) × (v ≡ edit_patch c))
      ⊎ IsIn {A = String × TailoredSectionPatch} (k, v) (rows allowed cs)
later_row allowed k v c cs h = elim h [
  | inl e ↦ inl (ap (λ q. q.0) e, ap (λ q. q.1) e)
  | inr later ↦ inr later
]

pub row_of :
    (allowed : List String) (k : String) (v : TailoredSectionPatch)
    (sections : List TailoredSection)
    → IsIn {A = String × TailoredSectionPatch} (k, v) (rows allowed sections)
    → (s : TailoredSection) × IsIn s (keep (λ s. is_among s.id allowed) sections)
      × (k ≡ s.id)
      × (v ≡ edit_patch s)
row_of allowed k v [] h = absurd h
row_of allowed k v (c ∷ cs) h = elim (Bool-cases (is_among c.id allowed)) [
  | inr e ↦ rw e (row_of allowed k v cs (rw e at h))
  | inl e ↦ elim (later_row allowed k v c cs (rw e at h)) [
    | inl (key, value) ↦ rw e (c, inl refl, key, value)
    | inr later ↦
        let (s, at, key, value) = row_of allowed k v cs later in rw e (s, inr at, key, value)
  ]
]

any_id :
    (c : TailoredSection) (i : String) (kept : List TailoredSection)
    → IsIn c kept
    → c.id ≡ i
    → any (λ y. y == i) (map (λ s. s.id) kept) ≡ true
any_id c i [] h e = absurd h
any_id c i (x ∷ kept) h e = elim h [
  | inl same ↦
      let named : x.id ≡ i = sym (ap (λ s. s.id) same) ∙ e in
      ground (arith, (eq_iff x.id i).1 named)
  | inr later ↦ ground (arith, any_id c i kept later e)
]

pub unique_section :
    (s c : TailoredSection) (kept : List TailoredSection)
    → has_duplicates (map (λ s. s.id) kept) ≡ false
    → IsIn s kept
    → IsIn c kept
    → s.id ≡ c.id
    → s ≡ c
unique_section s c [] d hs hc e = absurd hs
unique_section s c (x ∷ kept) d hs hc e = elim hs [
  | inl here ↦ elim hc [
    | inl there ↦ here ∙ sym there
    | inr later ↦ let twice = any_id c x.id kept later (sym e ∙ ap (λ y. y.id) here) in ground arith
  ]
  | inr later ↦ elim hc [
    | inl there ↦ let twice = any_id s x.id kept later (e ∙ ap (λ y. y.id) there) in ground arith
    | inr other ↦ unique_section s c kept (ground arith) later other e
  ]
]

pub any_row :
    (c : TailoredSection) (i : String) (kept : List TailoredSection)
    → IsIn c kept
    → c.id ≡ i
    → any
        (λ (q : String × TailoredSectionPatch). q.0 == i)
        (map (λ (s : TailoredSectionPatch). (s.section_id, s)) (map edit_patch kept))
      ≡ true
any_row c i [] h e = absurd h
any_row c i (x ∷ kept) h e = elim h [
  | inl same ↦
      let named : x.id ≡ i = sym (ap (λ s. s.id) same) ∙ e in
      ground (arith, (eq_iff x.id i).1 named)
  | inr later ↦ ground (arith, any_row c i kept later e)
]

pub same_texts_lem : (xs ys : List String) → same_texts xs ys ≡ true → xs ≡ ys
same_texts_lem [] [] h = refl
same_texts_lem [] (y ∷ ys) h = cc
same_texts_lem (x ∷ xs) [] h = cc
same_texts_lem (x ∷ xs) (y ∷ ys) h =
    let head = (eq_iff x y).0 (ground arith) in let rest = same_texts_lem xs ys (ground arith) in cc

pub ids_of_patches :
    (kept : List TailoredSection)
    → map (λ (s : TailoredSectionPatch). s.section_id) (map edit_patch kept) ≡ map (λ s. s.id) kept
ids_of_patches [] = refl
ids_of_patches (s ∷ kept) = ap (λ rest. s.id ∷ rest) (ids_of_patches kept)
