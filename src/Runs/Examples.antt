-- ===== src/Runs/Examples.antt =====
-- Runs of the run repository on a small table.
use job_agent.Prelude.{
  ℕ, ◌≡◌, refl, true, ◌⊎◌, none, some, List, [], ◌∷◌, All, any, strip, returned, raised, is_blank,
}
use job_agent.Prelude.Table.{put_first}
use job_agent.Models.Json.{JsonObject, no_fields, field, null}
use job_agent.Models.Chat.{AgentRun, running, completed, failed, chat, cv_tailoring}
use job_agent.Runs.{
  get_run, allowed, assign_fields, settle_completed_at, transition, insert_run, create_run,
  create_tailoring_run, interrupt_run, resume_run, complete_run, fail_run, delete_run,
  validate_run_owner_xor, repository_error, invalid_transition, run_not_found,
}
use job_agent.Runs.Requests.{
  delete, Request, create, interrupt, resume, complete, fail, after, after_all,
}
use job_agent.Runs.Coupling.{IsCoupled, after_all-IsCoupled}
use job_agent.Runs.Transitions.{Absent, Refused, Moved, transition_cases}
use job_agent.Runs.Lifetime.{deletes, IsKept, after_all-terminal}

program : Unit {0}
unfolding get_run allowed assign_fields settle_completed_at transition insert_run create_run
    create_tailoring_run interrupt_run resume_run complete_run fail_run delete_run
    validate_run_owner_xor after after_all put_first is_blank strip
program = tt

abbrev approval : JsonObject
approval = field "tool" null no_fields

abbrev calls : List (ℕ × Request)
calls =
    (1, create "r" (some "m") chat none none none)
    ∷ (2, interrupt "r" approval)
    ∷ (3, resume "r")
    ∷ (4, complete "r")
    ∷ (5, fail "r" "LATE")
    ∷ []

abbrev done : AgentRun
done = record {
  id = "r";
  run_kind = chat;
  user_message_id = some "m";
  tailoring_session_id = none;
  parent_run_id = none;
  source_attachment_id = none;
  state = completed;
  pending_approval_json = none;
  error_code = none;
  completed_at = some 4;
  created_at = 1;
  updated_at = 4;
}

after_all-calls : after_all calls [] ≡ done ∷ []
unfolding program
after_all-calls = refl

create_refused :
    create_run "r" 1 (some "m") cv_tailoring (some "t") none none [] ≡ (raised repository_error, [])
unfolding program
create_refused = refl

tailoring_created :
    (create_tailoring_run "t" 1 "s" (some "r") none (done ∷ [])).0
    ≡ returned (record done {
      id = "t";
      run_kind = cv_tailoring;
      user_message_id = none;
      tailoring_session_id = some "s";
      parent_run_id = some "r";
      state = running;
      completed_at = none;
      created_at = 1;
      updated_at = 1;
    })
unfolding program
tailoring_created = refl

late_failure : fail_run "r" "LATE" 9 (done ∷ []) ≡ (raised invalid_transition, done ∷ [])
unfolding program
late_failure = refl

missing_run : resume_run "q" 9 (done ∷ []) ≡ (raised run_not_found, done ∷ [])
unfolding program
missing_run = refl

after_all-IsCoupled_example : All IsCoupled (after_all calls [])
after_all-IsCoupled_example = after_all-IsCoupled calls

transition_cases_example :
    Absent "r" failed none (some "LATE") true 9 (done ∷ [])
    ⊎ ((r : AgentRun) × (get_run "r" (done ∷ []) ≡ some r)
        × (Refused "r" failed none (some "LATE") true 9 (done ∷ []) r
            ⊎ Moved "r" failed none (some "LATE") true 9 (done ∷ []) r))
transition_cases_example = transition_cases "r" failed none (some "LATE") true 9 (done ∷ [])

-- The parent of a run that has ended is deleted, and a late failure changes nothing.
abbrev child : AgentRun
child = record done {
  id = "t";
  user_message_id = none;
  run_kind = cv_tailoring;
  tailoring_session_id = some "s";
  parent_run_id = some "r";
}

after_all-terminal_example :
    IsKept "t" child
      (λ parent. any (deletes parent) ((5, fail "t" "LATE") ∷ (6, delete "r") ∷ []) ≡ true)
      (after_all ((5, fail "t" "LATE") ∷ (6, delete "r") ∷ []) (done ∷ child ∷ []))
unfolding get_run strip
after_all-terminal_example =
    after_all-terminal "t" child ((5, fail "t" "LATE") ∷ (6, delete "r") ∷ []) (done ∷ child ∷ [])
      refl refl refl

child_unlinked :
    get_run "t" (after_all ((5, fail "t" "LATE") ∷ (6, delete "r") ∷ []) (done ∷ child ∷ []))
    ≡ some (record child { parent_run_id = none })
unfolding program
child_unlinked = refl
