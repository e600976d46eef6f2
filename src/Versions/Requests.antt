-- ===== src/Versions/Requests.antt =====
-- The statements of the repository as data, each in a session scope of its own, which commits
-- when the call returns and rolls back when it raises (backend/app/db/session.py).
use job_agent.Prelude.{ℕ, String, Bool, Option, List, [], ◌∷◌, returned, raised, ◌>>=◌}
use job_agent.Models.Tailoring.{Store}
use job_agent.Versions.{Tailoring, SessionWrite, CvTailoringVersionWrite, post_init, create_session}
use job_agent.Versions.Writes.{
  create_version_cas, mark_session_failed, mark_session_generating, complete_no_change,
  restore_session_ready, mark_session_deleting, delete_chosen, delete_session,
}

pub data Request : Type 0 where
  create : (new_id : String) (referenced : Bool) (arguments : SessionWrite) → Request
  add_version :
      (session_id : String) (expected : ℕ) (expected_parent : Option String)
      (version : CvTailoringVersionWrite)
      → Request
  fail : (session_id error_code : String) → Request
  generate : (session_id : String) (touch_updated_at : Bool) → Request
  no_change : (session_id : String) (expected : ℕ) → Request
  restore mark_deleting delete : (session_id : String) → Request
  -- The sessions that are deleted with their profile or attachment.
  cascade : (chosen : String → Bool) → Request

-- `session_scope`
unfoldable pub session_scope : {A : Type 0} → Tailoring A → Store → Store
session_scope call db =
    let (result, changed) = call db in elim result [ returned a ↦ changed | raised e ↦ db ]

unfoldable pub after : ℕ → Request → Store → Store
after now (create i referenced w) db = session_scope (create_session i now referenced w) db
after now (add_version s n p version) db =
    session_scope (post_init version >>= (λ w. create_version_cas s n p now w)) db
after now (fail s code) db = session_scope (mark_session_failed s code now) db
after now (generate s touch) db = session_scope (mark_session_generating s touch now) db
after now (no_change s n) db = session_scope (complete_no_change s n) db
after now (restore s) db = session_scope (restore_session_ready s now) db
after now (mark_deleting s) db = session_scope (mark_session_deleting s now) db
after now (delete s) db = session_scope (delete_session s) db
after now (cascade chosen) db = delete_chosen chosen db

unfoldable pub after_all : List (ℕ × Request) → Store → Store
after_all [] db = db
after_all ((now, r) ∷ rest) db = after_all rest (after now r db)
