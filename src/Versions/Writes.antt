-- ===== src/Versions/Writes.antt =====
-- backend/app/repositories/cv_tailoring.py: the compare-and-set of a session's head, the changes of
-- its state and its deletion.
use job_agent.Prelude.{
  ℕ, suc, String, Bool, true, false, not, ◌&&◌, ◌||◌, Option, none, some, [], ◌∷◌, ◌++◌, ◌==◌, keep,
  any, count_if, eqb, ltb, is_some, if◌then◌else◌, Outcome, returned, raised,
}
use job_agent.Prelude.Table.{update_where, put_first}
use job_agent.Models.Database.{TailoringState}
use job_agent.Profiles.{equals_text}
use job_agent.Models.Tailoring.{CvTailoringSession, CvTailoringVersion, Store}
use job_agent.Versions.{
  TailoringError, repository_error, parent_conflict, integrity_error, Tailoring,
  CvTailoringVersionWrite, is_owner, has_id, is_in, get_session, get_version,
}

abbrev pub new_version : String → ℕ → CvTailoringVersionWrite → CvTailoringVersion
new_version session_id number version = record {
  id = version.id;
  session_id = session_id;
  version_number = number;
  parent_version_id = version.parent_version_id;
  created_by = version.created_by;
  content_json = version.content_json;
  provenance_json = version.provenance_json;
  source_revision_json = version.source_revision_json;
  tex_relative_path = version.tex_relative_path;
  pdf_relative_path = version.pdf_relative_path;
  tex_sha256 = version.tex_sha256;
  pdf_sha256 = version.pdf_sha256;
  page_count = version.page_count;
  page_warning = version.page_warning;
  created_at = version.created_at.instant;
}

abbrev pub is_numbered : String → ℕ → CvTailoringVersion → Bool
is_numbered session_id number v = is_in session_id v && eqb v.version_number number

-- The foreign key of the parent, in the same session.
abbrev pub is_parent_key : CvTailoringVersion → CvTailoringVersion → Bool
is_parent_key v p = p.session_id == v.session_id && equals_text v.parent_version_id p.id

-- The constraints of the table that the flush checks.
unfoldable pub is_accepted : CvTailoringVersion → Store → Bool
is_accepted v db =
    not (any (λ o. o.id == v.id) db.versions)
    && not (any (is_numbered v.session_id v.version_number) db.versions)
    && any (has_id v.session_id) db.sessions
    && (not (is_some v.parent_version_id) || any (is_parent_key v) db.versions)
    && (if eqb v.version_number 1
        then not (is_some v.parent_version_id)
        else ltb 1 v.version_number && is_some v.parent_version_id)
    && is_owner v.created_by
    && ltb 0 v.page_count

abbrev pub is_head : String → ℕ → CvTailoringSession → Bool
is_head session_id number row = has_id session_id row && eqb row.latest_version_number number

abbrev pub moved_to : ℕ → ℕ → CvTailoringSession → CvTailoringSession
moved_to number now row = record row {
  latest_version_number = number;
  state = TailoringState.ready;
  error_code = none;
  updated_at = now;
}

-- The insert and the compare-and-set of the head, after the checks.
unfoldable pub write_version :
    String → ℕ → ℕ → CvTailoringVersionWrite → Tailoring CvTailoringVersion
write_version session_id expected now version db =
    let row = new_version session_id (suc expected) version in
    let inserted = record db { versions = db.versions ++ row ∷ [] } in
    let swapped = record inserted {
      sessions =
          update_where (is_head session_id expected) (moved_to (suc expected) now) db.sessions;
    } in
    if not (is_accepted row db)
    then (raised integrity_error, db)
    else if not (eqb (count_if (is_head session_id expected) db.sessions) 1)
    then (raised (parent_conflict "tailoring session head changed"), swapped)
    else (returned row, swapped)

abbrev pub same_parent : Option String → Option String → Bool
same_parent none none = true
same_parent (some a) (some b) = a == b
same_parent _ _ = false

abbrev pub owns_head : ℕ → Option CvTailoringSession → Bool
owns_head number none = false
owns_head number (some owner) = eqb owner.latest_version_number number

abbrev pub is_head_version : String → ℕ → Option CvTailoringVersion → Bool
is_head_version session_id number none = false
is_head_version session_id number (some parent) = is_numbered session_id number parent

-- The checks of `create_version_cas`, and the message of the one that fails.
unfoldable pub conflict_of :
    String → ℕ → Option String → CvTailoringVersionWrite → Store → Option String
conflict_of session_id expected expected_parent version db =
    if not (owns_head expected (get_session session_id db))
    then some "tailoring session head changed"
    else if not (same_parent version.parent_version_id expected_parent)
    then some "version parent does not match expected parent"
    else if eqb expected 0
    then (if is_some expected_parent then some "first version cannot have a parent" else none)
    else if not (is_head_version session_id expected (get_version expected_parent db))
    then some "expected parent is not the session head"
    else none

unfoldable pub create_version_cas :
    (session_id : String) (expected_latest_version_number : ℕ)
    (expected_parent_version_id : Option String) (now : ℕ) (version : CvTailoringVersionWrite)
    → Tailoring CvTailoringVersion
create_version_cas session_id expected expected_parent now version db =
    elim (conflict_of session_id expected expected_parent version db) [
      | none ↦ write_version session_id expected now version db
      | some message ↦ (raised (parent_conflict message), db)
    ]

-- A row that is read, checked and put back.
unfoldable pub change_session :
    String
    → (CvTailoringSession → Outcome TailoringError CvTailoringSession)
    → Tailoring CvTailoringSession
change_session session_id step db = elim (get_session session_id db) [
  | none ↦ (raised (repository_error "tailoring session not found"), db)
  | some row ↦ elim (step row) [
    | raised e ↦ (raised e, db)
    | returned changed ↦ (
      returned changed,
      record db { sessions = put_first (has_id session_id) changed db.sessions },
    )
  ]
]

abbrev pub with_state : TailoringState → Option String → ℕ → CvTailoringSession → CvTailoringSession
with_state state error_code updated_at row = record row {
  state = state;
  error_code = error_code;
  updated_at = updated_at;
}

abbrev pub may_generate : TailoringState → Bool
may_generate TailoringState.ready = true
may_generate TailoringState.failed = true
may_generate _ = false

unfoldable pub mark_session_failed :
    (session_id error_code : String) (now : ℕ) → Tailoring CvTailoringSession
mark_session_failed session_id error_code now =
    change_session session_id
      (λ row. returned (with_state TailoringState.failed (some error_code) now row))

unfoldable pub mark_session_generating :
    (session_id : String) (touch_updated_at : Bool) (now : ℕ) → Tailoring CvTailoringSession
mark_session_generating session_id touch_updated_at now = change_session session_id (λ row.
    if may_generate row.state
    then returned (
        with_state TailoringState.generating none (if touch_updated_at then now else row.updated_at)
          row)
    else raised (repository_error "tailoring session cannot start generation"))

unfoldable pub complete_no_change :
    (session_id : String) (expected_latest_version_number : ℕ) → Tailoring CvTailoringSession
complete_no_change session_id expected = change_session session_id (λ row.
    if eqb row.latest_version_number expected
    then returned (with_state TailoringState.ready none row.updated_at row)
    else raised (parent_conflict "tailoring session head changed"))

unfoldable pub restore_session_ready :
    (session_id : String) (now : ℕ) → Tailoring CvTailoringSession
restore_session_ready session_id now = change_session session_id (λ row.
    if eqb row.latest_version_number 0
    then raised (repository_error "zero-version session cannot be ready")
    else returned (with_state TailoringState.ready none now row))

unfoldable pub mark_session_deleting :
    (session_id : String) (now : ℕ) → Tailoring CvTailoringSession
mark_session_deleting session_id now =
    change_session session_id (λ row. returned (with_state TailoringState.deleting none now row))

-- A `DELETE`, with the versions that the foreign key deletes with the sessions.
unfoldable pub delete_chosen : (String → Bool) → Store → Store
delete_chosen chosen db = record {
  sessions = keep (λ row. not (chosen row.id)) db.sessions;
  versions = keep (λ v. not (chosen v.session_id)) db.versions;
}

unfoldable pub delete_session : String → Tailoring Bool
delete_session session_id db = (
  returned (eqb (count_if (has_id session_id) db.sessions) 1),
  delete_chosen (λ i. i == session_id) db,
)
