-- ===== src/Profiles/Rows.antt =====
-- backend/app/repositories/profiles.py: the creation and the renaming of profiles, the selection of
-- the workspace (workspace_state.py), and the constraints of the table.
use job_agent.Prelude.{
  ℕ, String, Bool, ◌&&◌, ◌||◌, Option, none, some, List, [], ◌∷◌, ◌++◌, ◌==◌, ltb, eqb, first, any,
  is_none, is_blank, strip, if◌then◌else◌, returned, raised, Action, ◌>>=◌,
}
use job_agent.Prelude.Table.{put_first}
use job_agent.Prelude.Sorting.{text_ltb, sort}
use job_agent.Models.Json.{JsonObject}
use job_agent.Models.Profiles.{ProfileState, Profile, WorkspaceState, is_ready}
use job_agent.Models.Database.{Database}
use job_agent.Profiles.{
  ProfileError, profile_repository_error, profile_integrity_error, required, profile_by_id,
}

abbrev pub Profiles : Type 0 → Type 0
Profiles A = Action Database ProfileError A

-- `ORDER BY last_opened_at DESC, updated_at DESC, id DESC`
abbrev pub last_opened_first : Profile → Profile → Bool
last_opened_first a b =
    ltb b.last_opened_at a.last_opened_at
    || (eqb b.last_opened_at a.last_opened_at
        && (ltb b.updated_at a.updated_at || (eqb b.updated_at a.updated_at && text_ltb b.id a.id)))

unfoldable pub list_profiles : Database → List Profile
list_profiles db = sort last_opened_first db.profiles

unfoldable pub get_profile_by_attachment_id : String → Profiles (Option Profile)
get_profile_by_attachment_id attachment_id = do
  a ← required attachment_id
  λ db. (returned (first (λ r. r.attachment_id == a) db.profiles), db)

-- The flush of a new profile, under the primary key, the unique attachment and the index of the single
-- incomplete profile.
unfoldable pub insert_profile : Profile → Profiles Profile
insert_profile row db =
    if any
      (λ r.
        r.id == row.id
        || r.attachment_id == row.attachment_id
        || (is_none r.profile_json && is_none row.profile_json))
      db.profiles
    then (raised profile_integrity_error, db)
    else (returned row, record db { profiles = db.profiles ++ row ∷ [] })

unfoldable pub create_pending_profile :
    (new_id : String) (now : ℕ) (attachment_id display_name : String) → Profiles Profile
create_pending_profile new_id now attachment_id display_name = do
  a ← required attachment_id
  n ← required display_name
  insert_profile (record {
    id = new_id;
    attachment_id = a;
    display_name = n;
    profile_json = none;
    location = none;
    extraction_version = none;
    source_hash = none;
    state = ProfileState.pending;
    created_at = now;
    updated_at = now;
    last_opened_at = now;
  })

unfoldable pub create_profile :
    (new_id : String) (now : ℕ) (attachment_id display_name : String) (profile_json : JsonObject)
    (location : Option String) (extraction_version source_hash : String)
    → Profiles Profile
create_profile new_id now attachment_id display_name profile_json location extraction_version
      source_hash =
    do
      a ← required attachment_id
      n ← required display_name
      v ← required extraction_version
      h ← required source_hash
      insert_profile (record {
        id = new_id;
        attachment_id = a;
        display_name = n;
        profile_json = some profile_json;
        location = location;
        extraction_version = some v;
        source_hash = some h;
        state = ProfileState.ready;
        created_at = now;
        updated_at = now;
        last_opened_at = now;
      })

-- The two assignments, written back.
unfoldable pub rename : String → ℕ → String → Option Profile → Profiles Profile
rename p now display_name none db = (raised profile_repository_error, db)
rename p now display_name (some row) db =
    if is_blank display_name
    then (raised profile_repository_error, db)
    else let next = record row { display_name = strip display_name; updated_at = now } in
      (returned next, record db { profiles = put_first (λ r. r.id == p) next db.profiles })

unfoldable pub update_display_name : (now : ℕ) (profile_id display_name : String) → Profiles Profile
update_display_name now profile_id display_name = do
  p ← required profile_id
  λ db. rename p now display_name (profile_by_id p db.profiles) db

unfoldable pub get_active_profile : Database → Option Profile
get_active_profile db = elim db.workspace [
  | none ↦ none
  | some state ↦ elim state.active_profile_id [ none ↦ none | some i ↦ profile_by_id i db.profiles ]
]

unfoldable pub get_selected_ready_profile : Database → Option Profile
get_selected_ready_profile db = elim (get_active_profile db) [
  | none ↦ none
  | some profile ↦ if is_ready profile.state then some profile else none
]

unfoldable pub get_active_profile_id : Database → Option String
get_active_profile_id db = elim db.workspace [ none ↦ none | some state ↦ state.active_profile_id ]

-- Both branches, with and without the row, leave the same row.
unfoldable pub set_active_profile_id : ℕ → Option String → Profiles WorkspaceState
set_active_profile_id now profile_id db =
    let row : WorkspaceState = record { active_profile_id = profile_id; updated_at = now } in
    (returned row, record db { workspace = some row })
