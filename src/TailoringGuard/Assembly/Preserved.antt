-- ===== src/TailoringGuard/Assembly/Preserved.antt =====
-- The sections after a patch, beside those of the parent.
use job_agent.Prelude.{ℕ, String, Option, none, some, List, [], ◌∷◌, ◌≡◌, refl, ap, map}
use job_agent.Prelude.Dict.{Dict, lookup}
use job_agent.Models.Tailored.{
  TailoredItem, TailoredSection, TailoredItemPatch, TailoredSectionPatch,
}
use job_agent.TailoringGuard.Assembly.{
  item_id, with_id, assemble_items, assemble_section, assemble_sections,
}

-- An item without its id.
abbrev pub patch_of : TailoredItem → TailoredItemPatch
patch_of i = record {
  source_entry_id = i.source_entry_id;
  title = i.title;
  subtitle = i.subtitle;
  date_text = i.date_text;
  location = i.location;
  body = i.body;
  bullets = i.bullets;
  attributes = i.attributes;
}

-- The id, the heading, the kind and the place stay.
abbrev pub HasIdentityOf : TailoredSection → TailoredSection → Type 0
HasIdentityOf p s =
    (s.id ≡ p.id) × (s.ordinal ≡ p.ordinal) × (s.heading ≡ p.heading) × (s.kind ≡ p.kind)

-- A section without a patch is the parent's; otherwise it has the items of its patch.
abbrev pub Follows : Option TailoredSectionPatch → TailoredSection → TailoredSection → Type 0
Follows none p s = s ≡ p
Follows (some patch) p s = map patch_of s.items ≡ patch.items

abbrev pub AreFollowed :
    Dict TailoredSectionPatch → List TailoredSection → List TailoredSection → Type 0
AreFollowed d [] [] = Unit
AreFollowed d (p ∷ ps) (s ∷ ss) =
    HasIdentityOf p s × Follows (lookup p.id d) p s × AreFollowed d ps ss
AreFollowed d _ _ = ⊥

module _ (uuid : ℕ → String) where
  map-assemble_items :
      (used : List String) (ps : List TailoredItemPatch) (n : ℕ)
      → map patch_of (assemble_items uuid used ps n).0 ≡ ps
  unfolding assemble_items with_id
  map-assemble_items used [] n = refl
  map-assemble_items used (p ∷ ps) n =
      let i = item_id uuid used p.source_entry_id n in
      ap (λ rest. p ∷ rest) (map-assemble_items (i.0 ∷ used) ps i.1)

  assemble_section-Follows :
      (p : TailoredSection) (o : Option TailoredSectionPatch) (n : ℕ)
      → HasIdentityOf p (assemble_section uuid p o n).0
        × Follows o p (assemble_section uuid p o n).0
  unfolding assemble_section
  assemble_section-Follows p none n = ((refl, refl, refl, refl), refl)
  assemble_section-Follows p (some patch) n =
      ((refl, refl, refl, refl), map-assemble_items [] patch.items n)

  pub assemble_sections-AreFollowed :
      (d : Dict TailoredSectionPatch) (ps : List TailoredSection) (n : ℕ)
      → AreFollowed d ps (assemble_sections uuid d ps n).0
  unfolding assemble_sections
  assemble_sections-AreFollowed d [] n = tt
  assemble_sections-AreFollowed d (p ∷ ps) n =
      let h = assemble_section-Follows p (lookup p.id d) n in
      (h.0, h.1, assemble_sections-AreFollowed d ps (assemble_section uuid p (lookup p.id d) n).1)
