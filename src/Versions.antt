-- ===== src/Versions.antt =====
-- backend/app/repositories/cv_tailoring.py: the tailoring sessions and their chains of versions, over
-- the rows of backend/app/db/models/cv_tailoring.py. New ids and the clock are arguments; an exception
-- leaves what the statements before it wrote, which the
-- session scope of backend/app/db/session.py rolls back (Requests).
pub mod Requests
pub mod Numbers
pub mod Chain
pub mod Written
pub mod Sequences
pub mod Race
pub mod Progress
mod Examples
pub mod Writes
use job_agent.Prelude.{
  ℕ, suc, String, Bool, true, false, not, ◌&&◌, ◌||◌, Option, none, some, List, [], ◌∷◌, ◌++◌, ◌==◌,
  first, keep, any, count_if, eqb, ltb, is_some, if◌then◌else◌, Outcome, returned, raised, Action,
  pure, throw, ◌>>=◌,
}
use job_agent.Prelude.Table.{update_where, put_first}
use job_agent.Prelude.Sorting.{text_ltb, sort, top}
use job_agent.Models.Json.{JsonObject}
use job_agent.Models.Database.{TailoringState}
use job_agent.Profiles.{equals_text}
use job_agent.Models.Tailoring.{CvTailoringSession, CvTailoringVersion, Store}

pub data TailoringError : Type 0 where
  repository_error parent_conflict value_error : (message : String) → TailoringError
  integrity_error : TailoringError

abbrev pub Tailoring : Type 0 → Type 0
Tailoring A = Action Store TailoringError A

-- An instant, and whether the value names its zone.
pub record Timestamp : Type 0 where
  pub instant : ℕ
  pub is_aware : Bool

pub record CvTailoringVersionWrite : Type 0 where
  pub id : String
  pub parent_version_id : Option String
  pub created_by : String
  pub content_json : JsonObject
  pub provenance_json : JsonObject
  pub source_revision_json : JsonObject
  pub tex_relative_path : String
  pub pdf_relative_path : String
  pub tex_sha256 : String
  pub pdf_sha256 : String
  pub page_count : ℕ
  pub page_warning : Option String
  pub created_at : Timestamp

abbrev pub is_owner : String → Bool
is_owner created_by = created_by == "ai" || created_by == "user"

-- `__post_init__`, which lets the new value through or raises.
unfoldable pub post_init : CvTailoringVersionWrite → Tailoring CvTailoringVersionWrite
post_init version =
    if eqb version.page_count 0
    then throw (value_error "page_count must be a positive integer")
    else if not version.created_at.is_aware
    then throw (value_error "created_at must be timezone-aware")
    else if not (is_owner version.created_by)
    then throw (value_error "created_by is not an approved tailoring owner")
    else pure version

abbrev pub has_id : String → CvTailoringSession → Bool
has_id session_id row = row.id == session_id

abbrev pub is_in : String → CvTailoringVersion → Bool
is_in session_id v = v.session_id == session_id

-- The arguments of `create_session`.
pub record SessionWrite : Type 0 where
  pub profile_id : String
  pub source_attachment_id : String
  pub source_hash : String
  pub profile_updated_at : ℕ
  pub job_id : Option String
  pub job_updated_at : Option ℕ
  pub job_label_json : Option JsonObject
  pub instruction : String
  pub template_version : String

abbrev pub new_session : String → ℕ → SessionWrite → CvTailoringSession
new_session new_id now w = record {
  id = new_id;
  profile_id = w.profile_id;
  source_attachment_id = w.source_attachment_id;
  source_hash = w.source_hash;
  profile_updated_at = w.profile_updated_at;
  job_id = w.job_id;
  job_updated_at = w.job_updated_at;
  job_label_json = w.job_label_json;
  instruction = w.instruction;
  template_version = w.template_version;
  state = TailoringState.generating;
  latest_version_number = 0;
  error_code = none;
  created_at = now;
  updated_at = now;
}

-- The flush checks the primary key; `referenced` tells whether the rows of the other tables exist.
unfoldable pub create_session :
    (new_id : String) (now : ℕ) (referenced : Bool) (arguments : SessionWrite)
    → Tailoring CvTailoringSession
create_session new_id now referenced arguments db =
    if any (has_id new_id) db.sessions || not referenced then (raised integrity_error, db) else (
      returned (new_session new_id now arguments),
      record db { sessions = db.sessions ++ new_session new_id now arguments ∷ [] },
    )

unfoldable pub get_session : String → Store → Option CvTailoringSession
get_session session_id db = first (has_id session_id) db.sessions

-- `ORDER BY updated_at DESC, id DESC`
abbrev pub newest_first : CvTailoringSession → CvTailoringSession → Bool
newest_first a b =
    ltb b.updated_at a.updated_at || (eqb b.updated_at a.updated_at && text_ltb b.id a.id)

unfoldable pub list_sessions_for_profile : String → Store → List CvTailoringSession
list_sessions_for_profile profile_id db =
    sort newest_first (keep (λ row. row.profile_id == profile_id) db.sessions)

abbrev pub by_number : CvTailoringVersion → CvTailoringVersion → Bool
by_number a b = ltb a.version_number b.version_number

unfoldable pub list_versions : String → Store → List CvTailoringVersion
list_versions session_id db = sort by_number (keep (is_in session_id) db.versions)

unfoldable pub get_version : Option String → Store → Option CvTailoringVersion
get_version version_id db = first (λ v. equals_text version_id v.id) db.versions

unfoldable pub get_latest_version : String → Store → Option CvTailoringVersion
get_latest_version session_id db = top (λ a b. by_number b a) (keep (is_in session_id) db.versions)
