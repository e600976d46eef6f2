-- ===== src/Versions/Sequences.antt =====
-- Every sequence of the statements of backend/app/repositories/cv_tailoring.py keeps the chains.
use job_agent.Prelude.{
  ℕ, String, Bool, true, false, Option, none, some, List, [], ◌∷◌, ◌≡◌, sym, ap, arith, ◌==◌, eqb,
  if◌then◌else◌, Outcome, returned, raised, ◌>>=◌,
}
use job_agent.Models.Tailoring.{CvTailoringSession, Store}
use job_agent.Models.Database.{TailoringState}
use job_agent.Prelude.Outcomes.{returned-inj}
use job_agent.Versions.{
  create_session, repository_error, parent_conflict, TailoringError, post_init,
}
use job_agent.Versions.Writes.{
  create_version_cas, may_generate, with_state, mark_session_failed, mark_session_generating,
  complete_no_change, restore_session_ready, mark_session_deleting, delete_session, change_session,
}
use job_agent.Versions.Numbers.{is_up_to}
use job_agent.Versions.Chain.{
  IsChained, session_scope-IsChained, create-IsChained, change-IsChained, delete-IsChained,
}
use job_agent.Versions.Requests.{
  Request, create, add_version, fail, generate, no_change, restore, mark_deleting, delete, cascade,
  session_scope, after, after_all,
}
use job_agent.Versions.Written.{add-IsChained}

abbrev SameHead : CvTailoringSession → CvTailoringSession → Type 0
SameHead changed row =
    (changed.id ≡ row.id) × (changed.latest_version_number ≡ row.latest_version_number)

with_state-SameHead :
    (state : TailoringState) (code : Option String) (at : ℕ) (row changed : CvTailoringSession)
    → ◌≡◌ {A = Outcome TailoringError CvTailoringSession}
        (returned (with_state state code at row))
        (returned changed)
    → SameHead changed row
with_state-SameHead state code at row changed e =
    let same : with_state state code at row ≡ changed = returned-inj e in
    (sym (ap (λ r. r.id) same), sym (ap (λ r. r.latest_version_number) same))

with_state_if-SameHead :
    (b : Bool) (error : TailoringError) (state : TailoringState) (code : Option String) (at : ℕ)
    (row changed : CvTailoringSession)
    → ◌≡◌ {A = Outcome TailoringError CvTailoringSession}
        (if b then returned (with_state state code at row) else raised error)
        (returned changed)
    → SameHead changed row
with_state_if-SameHead true error state code at row changed e =
    with_state-SameHead state code at row changed e
with_state_if-SameHead false error state code at row changed e = cc

with_state_unless-SameHead :
    (b : Bool) (error : TailoringError) (state : TailoringState) (code : Option String) (at : ℕ)
    (row changed : CvTailoringSession)
    → ◌≡◌ {A = Outcome TailoringError CvTailoringSession}
        (if b then raised error else returned (with_state state code at row))
        (returned changed)
    → SameHead changed row
with_state_unless-SameHead false error state code at row changed e =
    with_state-SameHead state code at row changed e
with_state_unless-SameHead true error state code at row changed e = cc

change_scope-IsChained :
    (s : String) (step : CvTailoringSession → Outcome TailoringError CvTailoringSession)
    → ((row changed : CvTailoringSession) → step row ≡ returned changed → SameHead changed row)
    → (db : Store) → IsChained db
    → IsChained (session_scope (change_session s step) db)
change_scope-IsChained s step keeps db h =
    session_scope-IsChained (change_session s step) db h
      (λ a ok. change-IsChained s step keeps db h)

after-IsChained : (now : ℕ) (r : Request) (db : Store) → IsChained db → IsChained (after now r db)
unfolding after mark_session_failed mark_session_generating complete_no_change restore_session_ready
    mark_session_deleting delete_session
after-IsChained now (create i referenced w) db h =
    session_scope-IsChained (create_session i now referenced w) db h
      (λ a ok. create-IsChained i now referenced w db h)
after-IsChained now (add_version s e p v) db h =
    session_scope-IsChained (post_init v >>= (λ w. create_version_cas s e p now w)) db h
      (λ a ok. add-IsChained s e now p v db h)
after-IsChained now (fail s code) db h =
    change_scope-IsChained s
      (λ row. returned (with_state TailoringState.failed (some code) now row))
      (λ row changed e. with_state-SameHead TailoringState.failed (some code) now row changed e) db
      h
after-IsChained now (generate s touch) db h =
    change_scope-IsChained s _
      (λ row changed e.
        with_state_if-SameHead (may_generate row.state)
          (repository_error "tailoring session cannot start generation") TailoringState.generating
          none (if touch then now else row.updated_at) row changed e)
      db h
after-IsChained now (no_change s n) db h =
    change_scope-IsChained s _
      (λ row changed e.
        with_state_if-SameHead (eqb row.latest_version_number n)
          (parent_conflict "tailoring session head changed") TailoringState.ready none
          row.updated_at row changed e)
      db h
after-IsChained now (restore s) db h =
    change_scope-IsChained s _
      (λ row changed e.
        with_state_unless-SameHead (eqb row.latest_version_number 0)
          (repository_error "zero-version session cannot be ready") TailoringState.ready none now
          row changed e)
      db h
after-IsChained now (mark_deleting s) db h =
    change_scope-IsChained s (λ row. returned (with_state TailoringState.deleting none now row))
      (λ row changed e. with_state-SameHead TailoringState.deleting none now row changed e) db h
after-IsChained now (delete s) db h =
    session_scope-IsChained (delete_session s) db h (λ a ok. delete-IsChained (λ i. i == s) db h)
after-IsChained now (cascade chosen) db h = delete-IsChained chosen db h

after_all-keeps :
    (requests : List (ℕ × Request)) (db : Store) → IsChained db → IsChained (after_all requests db)
unfolding after_all
after_all-keeps [] db h = h
after_all-keeps ((now, r) ∷ rest) db h =
    after_all-keeps rest (after now r db) (after-IsChained now r db h)

none_up_to : (n : ℕ) → 0 ≡ is_up_to n 0
none_up_to n = ground arith

-- From empty tables, after every sequence of the repository's calls in session scopes and of deletions
-- of a profile's or an attachment's sessions, each at any time and whether it returns or raises: a
-- session has exactly one version for each number from 1 to its latest number and no other, and a
-- version is number 1 and has no parent, or its parent is the version before it in the same session.
pub after_all-IsChained :
    (requests : List (ℕ × Request)) (db : Store)
    → db.sessions ≡ []
    → db.versions ≡ []
    → IsChained (after_all requests db)
after_all-IsChained requests db no_sessions no_versions = after_all-keeps requests db (record {
  numbers = λ s n. rw (no_sessions, no_versions) (none_up_to n);
  parents = rw no_versions tt;
})
