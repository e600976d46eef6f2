-- ===== src/Versions/Examples.antt =====
-- Runs of the repository of tailoring sessions and versions.
use job_agent.Prelude.{
  ◌≡◌, refl, true, false, none, some, [], ◌∷◌, returned, raised, String, Option,
}
use job_agent.Prelude.Table.{update_where, put_first}
use job_agent.Prelude.Sorting.{text_ltb, insert, sort, top}
use job_agent.Models.Json.{no_fields}
use job_agent.Models.Tailoring.{Store}
use job_agent.Versions.{
  SessionWrite, CvTailoringVersionWrite, value_error, parent_conflict, integrity_error,
  repository_error, new_session, post_init, create_session, get_session, list_sessions_for_profile,
  list_versions, get_version, get_latest_version,
}
use job_agent.Versions.Writes.{
  new_version, is_accepted, write_version, conflict_of, create_version_cas, change_session,
  mark_session_failed, mark_session_generating, complete_no_change, restore_session_ready,
  mark_session_deleting, delete_chosen, delete_session,
}
use job_agent.Versions.Numbers.{latest_of}
use job_agent.Versions.Requests.{
  create, add_version, fail, generate, restore, delete, session_scope, after, after_all,
}
use job_agent.Versions.Chain.{IsChained}
use job_agent.Versions.Sequences.{after_all-IsChained}
use job_agent.Versions.Race.{create_version_cas-once}
use job_agent.Versions.Chain.{written}
use job_agent.Versions.Progress.{create_version_cas-progress}

program : Unit {0}
unfolding update_where put_first text_ltb insert sort top post_init create_session get_session
    list_sessions_for_profile list_versions get_version get_latest_version is_accepted write_version
    conflict_of create_version_cas change_session mark_session_failed mark_session_generating
    complete_no_change restore_session_ready mark_session_deleting delete_chosen delete_session
    session_scope after after_all
program = tt

abbrev empty : Store
empty = record { sessions = []; versions = [] }

abbrev arguments : SessionWrite
arguments = record {
  profile_id = "p";
  source_attachment_id = "cv";
  source_hash = "h";
  profile_updated_at = 1;
  job_id = none;
  job_updated_at = none;
  job_label_json = none;
  instruction = "shorter";
  template_version = "latex-cv-v1";
}

abbrev version : String → Option String → CvTailoringVersionWrite
version i parent = record {
  id = i;
  parent_version_id = parent;
  created_by = "ai";
  content_json = no_fields;
  provenance_json = no_fields;
  source_revision_json = no_fields;
  tex_relative_path = "a.tex";
  pdf_relative_path = "a.pdf";
  tex_sha256 = "t";
  pdf_sha256 = "d";
  page_count = 1;
  page_warning = none;
  created_at = record { instant = 4; is_aware = true };
}

abbrev started : Store
started = record { sessions = new_session "s" 3 arguments ∷ []; versions = [] }

-- A session with two versions, the second on the first; a failure between them is mended.
abbrev two_versions : Store
two_versions =
    after_all
      ((3, create "s" true arguments)
        ∷ (4, add_version "s" 0 none (version "a" none))
        ∷ (5, generate "s" true)
        ∷ (6, fail "s" "E")
        ∷ (7, restore "s")
        ∷ (8, add_version "s" 1 (some "a") (version "b" (some "a")))
        ∷ [])
      empty

latest :
    (get_latest_version "s" two_versions ≡ some (new_version "s" 2 (version "b" (some "a"))))
    × (latest_of "s" two_versions.sessions ≡ 2)
unfolding program
latest = (refl, refl)

-- A version on a parent that is not the head, one without a zone, and a session without versions.
refused :
    ((create_version_cas "s" 2 (some "a") 9 (version "c" (some "a")) two_versions).0
      ≡ raised (parent_conflict "expected parent is not the session head"))
    × ((post_init
          (record (version "c" none) { created_at = record { instant = 4; is_aware = false } })
          empty).0
        ≡ raised (value_error "created_at must be timezone-aware"))
    × ((restore_session_ready "s" 9 started).0
        ≡ raised (repository_error "zero-version session cannot be ready"))
    × ((complete_no_change "s" 1 started).0
        ≡ raised (parent_conflict "tailoring session head changed"))
unfolding program
refused = (refl, refl, refl, refl)

-- The versions go with their session.
deleted : (after 9 (delete "s") two_versions ≡ empty) × (list_versions "s" empty ≡ [])
unfolding program
deleted = (refl, refl)

after_all-IsChained_example : IsChained two_versions
after_all-IsChained_example =
    after_all-IsChained
      ((3, create "s" true arguments)
        ∷ (4, add_version "s" 0 none (version "a" none))
        ∷ (5, generate "s" true)
        ∷ (6, fail "s" "E")
        ∷ (7, restore "s")
        ∷ (8, add_version "s" 1 (some "a") (version "b" (some "a")))
        ∷ [])
      empty refl refl

create_version_cas-once_example :
    let after = (create_version_cas "s" 0 none 4 (version "a" none) started).1 in
    (new_version "s" 1 (version "a" none) ≡ new_version "s" 1 (version "a" none))
    × (latest_of "s" after.sessions ≡ 1)
    × (create_version_cas "s" 0 none 5 (version "b" none) after
        ≡ (raised (parent_conflict "tailoring session head changed"), after))
    × ((write_version "s" 0 5 (version "b" none) after).0 ≡ raised integrity_error)
unfolding program
create_version_cas-once_example =
    create_version_cas-once "s" 0 4 5 none none (version "a" none) (version "b" none) started
      (new_version "s" 1 (version "a" none)) refl

create_version_cas-progress_example :
    create_version_cas "s" 2 (some "b") 9 (version "c" (some "b")) two_versions ≡ (
      returned (new_version "s" 3 (version "c" (some "b"))),
      written "s" 2 9 (version "c" (some "b")) two_versions,
    )
unfolding program
create_version_cas-progress_example =
    create_version_cas-progress "s" 2 9 (some "b") (version "c" (some "b")) two_versions
      after_all-IsChained_example refl refl refl refl
