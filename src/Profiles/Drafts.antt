-- ===== src/Profiles/Drafts.antt =====
-- backend/app/repositories/profiles.py: the upsert and the revision-checked deletion of drafts.
-- The new id and the clock are arguments.
use job_agent.Prelude.{
  ℕ, String, Bool, true, false, not, ◌&&◌, ◌||◌, Option, none, some, List, [], ◌∷◌, ◌++◌, ◌==◌,
  first, any, keep, eqb, is_some, is_blank, strip, if◌then◌else◌, returned, raised, Action, throw,
  ◌>>=◌,
}
use job_agent.Prelude.Table.{put_first}
use job_agent.Models.Json.{JsonObject}
use job_agent.Models.Profiles.{Profile, ProfileDraft, ProfileReextractOperation}
use job_agent.Models.Database.{Database}
use job_agent.Profiles.{
  ProfileError, profile_repository_error, profile_integrity_error, required, equals_text, targets,
  get_profile, get_draft_for_profile,
}

abbrev pub Drafts : Type 0 → Type 0
Drafts A = Action Database ProfileError A

-- `_required` on a value that may be null.
unfoldable pub required_if_set : Option String → Drafts (Option String)
required_if_set none db = (returned none, db)
required_if_set (some value) db =
    if is_blank value
    then (raised profile_repository_error, db)
    else (returned (some (strip value)), db)

abbrev pub same_text : Option String → Option String → Bool
same_text none none = true
same_text (some s) (some t) = s == t
same_text _ _ = false

-- Two rows with the same value in a unique column that may be null.
abbrev pub share_text : Option String → Option String → Bool
share_text (some s) (some t) = s == t
share_text _ _ = false

-- The values of an upsert.
pub record DraftValues : Type 0 where
  pub draft_json : JsonObject
  pub source_attachment_id : Option String
  pub reextract_operation_id : Option String

abbrev pub changed_draft : ℕ → DraftValues → ProfileDraft → ProfileDraft
changed_draft now values row = record row {
  draft_json = values.draft_json;
  source_attachment_id = values.source_attachment_id;
  updated_at = now;
}

-- The flush of a changed row, under the unique source.
unfoldable pub flush_changed : String → ProfileDraft → Drafts ProfileDraft
flush_changed p next db =
    if any
      (λ d. not (d.id == next.id) && share_text d.source_attachment_id next.source_attachment_id)
      db.drafts
    then (raised profile_integrity_error, db)
    else (returned next, record db { drafts = put_first (targets p) next db.drafts })

unfoldable pub change_draft : String → ℕ → DraftValues → ProfileDraft → Drafts ProfileDraft
change_draft p now values row =
    if not (same_text row.reextract_operation_id values.reextract_operation_id)
    then throw profile_repository_error
    else if is_some row.reextract_operation_id
        && not (same_text row.source_attachment_id values.source_attachment_id)
    then throw profile_repository_error
    else flush_changed p (changed_draft now values row)

-- The operation of a new draft, if it names one, is an operation of the profile with the same source.
unfoldable pub is_owned : String → DraftValues → List ProfileReextractOperation → Bool
is_owned p values operations = elim values.reextract_operation_id [
  | none ↦ true
  | some o ↦ elim (first (λ op. op.id == o) operations) [
    | none ↦ false
    | some op ↦
        op.profile_id == p && equals_text values.source_attachment_id op.source_attachment_id
  ]
]

abbrev pub new_draft : String → ℕ → String → DraftValues → ProfileDraft
new_draft new_id now p values = record {
  id = new_id;
  source_attachment_id = values.source_attachment_id;
  target_profile_id = p;
  reextract_operation_id = values.reextract_operation_id;
  draft_json = values.draft_json;
  created_at = now;
  updated_at = now;
}

-- The primary key and the three unique columns.
abbrev pub collides : ProfileDraft → ProfileDraft → Bool
collides a b =
    b.id == a.id
    || targets a.target_profile_id b
    || share_text b.source_attachment_id a.source_attachment_id
    || share_text b.reextract_operation_id a.reextract_operation_id

unfoldable pub insert_draft : ProfileDraft → Drafts ProfileDraft
insert_draft row db =
    if any (collides row) db.drafts
    then (raised profile_integrity_error, db)
    else (returned row, record db { drafts = db.drafts ++ row ∷ [] })

unfoldable pub create_draft :
    String → String → ℕ → DraftValues → Option Profile → Drafts ProfileDraft
create_draft p new_id now values none db = (raised profile_repository_error, db)
create_draft p new_id now values (some profile) db =
    if is_owned p values db.operations
    then insert_draft (new_draft new_id now p values) db
    else (raised profile_repository_error, db)

unfoldable pub save_draft :
    String → String → ℕ → DraftValues → Option ProfileDraft → Drafts ProfileDraft
save_draft p new_id now values (some row) = change_draft p now values row
save_draft p new_id now values none = do
  profile ← get_profile p
  create_draft p new_id now values profile

unfoldable pub upsert_draft_for_profile :
    (new_id : String) (now : ℕ) (profile_id : String) (values : DraftValues) → Drafts ProfileDraft
upsert_draft_for_profile new_id now profile_id values = do
  p ← required profile_id
  source ← required_if_set values.source_attachment_id
  operation ← required_if_set values.reextract_operation_id
  row ← get_draft_for_profile p
  save_draft p new_id now
      (record values { source_attachment_id = source; reextract_operation_id = operation }) row

abbrev pub matches_revision : Option ℕ → ProfileDraft → Bool
matches_revision none row = true
matches_revision (some revision) row = eqb row.updated_at revision

abbrev pub matches_operation : Option String → ProfileDraft → Bool
matches_operation none row = true
matches_operation (some operation_id) row = equals_text row.reextract_operation_id operation_id

unfoldable pub delete_found : Option ℕ → Option String → Option ProfileDraft → Drafts Bool
delete_found revision operation_id none db = (returned false, db)
delete_found revision operation_id (some row) db =
    if not (matches_revision revision row) || not (matches_operation operation_id row)
    then (returned false, db)
    else (returned true, record db { drafts = keep (λ d. not (d.id == row.id)) db.drafts })

unfoldable pub delete_draft_for_profile :
    (profile_id : String) (expected_revision : Option ℕ) (expected_operation_id : Option String)
    → Drafts Bool
delete_draft_for_profile profile_id expected_revision expected_operation_id = do
  p ← required profile_id
  o ← required_if_set expected_operation_id
  row ← get_draft_for_profile p
  delete_found expected_revision o row
