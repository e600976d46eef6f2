-- ===== src/Profiles/Saved.antt =====
-- What an upsert of a draft saves, and when a deletion takes it.
use job_agent.Prelude.{
  ℕ, String, true, false, Option, none, some, ◌≡◌, refl, arith, ◌∙◌, ap, sym, ◌⊎◌, eq_refl, first,
  any, is_blank, strip, Bool-cases, Option-cases, inl, inr, returned, raised,
}
use job_agent.Prelude.Text.{strip_idem, is_blank-strip}
use job_agent.Prelude.Table.{first-holds, first-put_first_self, first-snoc}
use job_agent.Prelude.Counts.{any-weaken}
use job_agent.Models.Profiles.{ProfileDraft}
use job_agent.Models.Database.{Database}
use job_agent.Profiles.{
  profile_repository_error, required, targets, get_profile, get_draft_for_profile,
}
use job_agent.Profiles.Drafts.{
  required_if_set, DraftValues, changed_draft, flush_changed, change_draft, new_draft, collides,
  insert_draft, create_draft, save_draft, upsert_draft_for_profile, delete_found,
  delete_draft_for_profile,
}

insert_draft-found :
    (row d : ProfileDraft) (db : Database)
    → (insert_draft row db).0 ≡ returned d
    → first (targets row.target_profile_id) (insert_draft row db).1.drafts ≡ some d
unfolding insert_draft
insert_draft-found row d db saved = elim (Bool-cases (any (collides row) db.drafts)) [
  | inl e ↦ ground arith
  | inr e ↦
      let free =
        any-weaken (collides row) (targets row.target_profile_id) db.drafts (λ x t. ground arith)
          e in
      ground (
        arith,
        first-snoc (targets row.target_profile_id) row db.drafts free,
        eq_refl row.target_profile_id,
      )
]

flush_changed-found :
    (p : String) (row next d : ProfileDraft) (db : Database)
    → first (targets p) db.drafts ≡ some row
    → targets p next ≡ true
    → (flush_changed p next db).0 ≡ returned d
    → first (targets p) (flush_changed p next db).1.drafts ≡ some d
unfolding flush_changed
flush_changed-found p row next d db found aimed saved =
    ground (arith, first-put_first_self (targets p) next row db.drafts aimed found)

save_draft-found :
    (p i : String) (now : ℕ) (v : DraftValues) (d : ProfileDraft) (db : Database)
    → (save_draft p i now v (first (targets p) db.drafts) db).0 ≡ returned d
    → first (targets p) (save_draft p i now v (first (targets p) db.drafts) db).1.drafts ≡ some d
unfolding save_draft change_draft create_draft get_profile required
save_draft-found p i now v d db saved = elim (Option-cases (first (targets p) db.drafts)) [
  | inl e ↦ ground (arith, insert_draft-found (new_draft i now p v) d db)
  | inr (row, e) ↦ ground (
    arith,
    flush_changed-found p row (changed_draft now v row) d db e
        (first-holds (targets p) db.drafts e),
  )
]

required_if_set_cases :
    (o : Option String)
    → ((db : Database) → required_if_set o db ≡ (raised profile_repository_error, db))
      ⊎ ((v : Option String) × ((db : Database) → required_if_set o db ≡ (returned v, db)))
unfolding required_if_set
required_if_set_cases none = inr (none, λ db. refl)
required_if_set_cases (some s) = elim (Bool-cases (is_blank s)) [
  | inl e ↦ inl (λ db. rw e refl)
  | inr e ↦ inr (some (strip s), λ db. rw e refl)
]

read_draft :
    (p : String) (db : Database)
    → is_blank p ≡ false
    → get_draft_for_profile (strip p) db ≡ (returned (first (targets (strip p)) db.drafts), db)
unfolding get_draft_for_profile required
read_draft p db named = ground (arith, strip_idem p, is_blank-strip p)

-- An upsert is refused for its ids, or saves under the profile's id.
pub upsert_cases :
    (i : String) (now : ℕ) (p : String) (v : DraftValues)
    → ((db : Database)
        → upsert_draft_for_profile i now p v db ≡ (raised profile_repository_error, db))
      ⊎ ((w : DraftValues) × ((db : Database)
            → upsert_draft_for_profile i now p v db
              ≡ save_draft (strip p) i now w (first (targets (strip p)) db.drafts) db))
unfolding upsert_draft_for_profile required
upsert_cases i now p v = elim (Bool-cases (is_blank p)) [
  | inl blank ↦ inl (λ db. rw blank refl)
  | inr named ↦ elim (required_if_set_cases v.source_attachment_id) [
    | inl f ↦ inl (λ db. ground (arith, f db))
    | inr (source, f) ↦ elim (required_if_set_cases v.reextract_operation_id) [
      | inl g ↦ inl (λ db. ground (arith, f db, g db))
      | inr (operation, g) ↦ inr (
        record v { source_attachment_id = source; reextract_operation_id = operation },
        λ db. ground (arith, f db, g db, read_draft p db named),
      )
    ]
  ]
]

-- A draft that an upsert returns is the draft that the profile then has.
pub upsert_draft_for_profile-found :
    (new_id : String) (now : ℕ) (profile_id : String) (values : DraftValues) (db : Database)
    (d : ProfileDraft)
    → (upsert_draft_for_profile new_id now profile_id values db).0 ≡ returned d
    → first
        (targets (strip profile_id))
        (upsert_draft_for_profile new_id now profile_id values db).1.drafts
      ≡ some d
upsert_draft_for_profile-found i now p v db d saved = elim (upsert_cases i now p v) [
  | inl f ↦ let wrong = f db in ground arith
  | inr (w, f) ↦
      rw (f db) (save_draft-found (strip p) i now w d db (sym (ap (λ r. r.0) (f db)) ∙ saved))
]

-- A deletion is refused for its ids, or deletes what it finds under the profile's id.
pub delete_cases :
    (p : String) (r : Option ℕ) (o : Option String)
    → ((db : Database) → delete_draft_for_profile p r o db ≡ (raised profile_repository_error, db))
      ⊎ ((q : Option String) × ((db : Database)
            → delete_draft_for_profile p r o db
              ≡ delete_found r q (first (targets (strip p)) db.drafts) db))
unfolding delete_draft_for_profile required
delete_cases p r o = elim (Bool-cases (is_blank p)) [
  | inl blank ↦ inl (λ db. rw blank refl)
  | inr named ↦ elim (required_if_set_cases o) [
    | inl f ↦ inl (λ db. ground (arith, f db))
    | inr (q, f) ↦ inr (q, λ db. ground (arith, f db, read_draft p db named))
  ]
]
