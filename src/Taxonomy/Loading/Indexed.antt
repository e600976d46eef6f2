-- ===== src/Taxonomy/Loading/Indexed.antt =====
-- What the index of labels holds while `load_skill_taxonomy` reads the skills.
use job_agent.Prelude.{
  String, false, some, List, [], ◌∷◌, ◌==◌, ◌≡◌, refl, sym, ap, ◌∙◌, arith, All, Bool-cases, inl,
  inr, eq_iff, returned,
}
use job_agent.Prelude.Dict.{Dict, lookup, set_item, lookup-set_item_self, lookup-set_item_ne}
use job_agent.Prelude.Outcomes.{and_then-returned}
use job_agent.Prelude.Words.{Unicode}
use job_agent.Taxonomy.Text.{comparison_fingerprint}
use job_agent.Taxonomy.Loading.{points_elsewhere, index_label, index_labels}

-- No entry is lost or redirected.
abbrev pub Grows : Dict String → Dict String → Type 0
Grows old new = (f k : String) → lookup f old ≡ some k → lookup f new ≡ some k

points_elsewhere-same : (key k : String) → points_elsewhere key (some k) ≡ false → k ≡ key
unfolding points_elsewhere
points_elsewhere-same key k h = (eq_iff k key).0 (ground arith)

module _ (u : Unicode) where
  abbrev pub Finds : Dict String → String → String → Type 0
  Finds index key label =
      (lookup (comparison_fingerprint u label) index ≡ some key)
      × ((comparison_fingerprint u label == "") ≡ false)

  set_item-Grows :
      (key fp : String) (index : Dict String)
      → points_elsewhere key (lookup fp index) ≡ false
      → Grows index (set_item fp key index)
  set_item-Grows key fp index h f k e = elim (Bool-cases (fp == f)) [
    | inl t ↦
        let same : fp ≡ f = (eq_iff fp f).0 t in
        let found : lookup fp index ≡ some k = rw same e in
        let held : points_elsewhere key (some k) ≡ false =
          sym (ap (points_elsewhere key) found) ∙ h in
        rw (sym same, lookup-set_item_self fp key index, points_elsewhere-same key k held) refl
    | inr n ↦ lookup-set_item_ne fp f key index n ∙ e
  ]

  index_label-returned :
      (key label : String) (index after : Dict String)
      → index_label u key label index ≡ returned after
      → (points_elsewhere key (lookup (comparison_fingerprint u label) index) ≡ false)
        × (set_item (comparison_fingerprint u label) key index ≡ after)
        × ((comparison_fingerprint u label == "") ≡ false)
  unfolding index_label
  index_label-returned key label index after h = ground arith

  index_label-Grows :
      (key label : String) (index after : Dict String)
      → index_label u key label index ≡ returned after
      → Grows index after × Finds after key label
  index_label-Grows key label index after h =
      let r = index_label-returned key label index after h in
      rw (sym r.1) (
        set_item-Grows key (comparison_fingerprint u label) index r.0,
        (lookup-set_item_self (comparison_fingerprint u label) key index, r.2),
      )

  pub index_labels-Grows :
      (key : String) (ls : List String) (index after : Dict String)
      → index_labels u key ls index ≡ returned after
      → Grows index after × All (Finds after key) ls
  unfolding index_labels
  index_labels-Grows key [] index after h = ground arith
  index_labels-Grows key (l ∷ ls) index after h =
      let (mid, first_part, last_part) =
        and_then-returned (index_label u key l index) (index_labels u key ls) h in
      let one = index_label-Grows key l index mid first_part in
      let others = index_labels-Grows key ls mid after last_part in
      (λ f k e. others.0 f k (one.0 f k e), ((others.0 _ key one.1.0, one.1.1), others.1))
