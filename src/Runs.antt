-- ===== src/Runs.antt =====
-- backend/app/repositories/agent_runs.py: creation and transitions of agent runs.
-- The table is the list of its rows; a call returns or raises beside the table that it leaves.
-- The new id and the time stamp, which the code takes from `new_uuid` and `utc_now`, are arguments.
pub mod Requests
pub mod Coupling
pub mod Transitions
pub mod Lifetime
mod Examples
use job_agent.Prelude.{
  ℕ, String, Bool, true, false, not, ◌&&◌, ◌||◌, Option, none, some, List, [], ◌∷◌, ◌++◌, ◌==◌,
  first, keep, map, any, is_none, is_some, if◌then◌else◌, is_blank, Outcome, returned, raised,
  Action, pure, throw, ◌>>=◌, ◌>>◌, strip,
}
use job_agent.Prelude.Table.{put_first}
use job_agent.Models.Json.{JsonObject, no_fields, field}
use job_agent.Models.Chat.{
  AgentRun, RunState, running, interrupted, completed, failed, RunKind, chat, cv_tailoring,
  other_kind, is_terminal_run,
}

pub data RunError : Type 0 where
  repository_error run_not_found invalid_transition : RunError
  integrity_error : RunError

abbrev pub Runs : Type 0 → Type 0
Runs A = Action (List AgentRun) RunError A

-- The members of `_ALLOWED_TRANSITIONS[from_state]`.
unfoldable pub allowed : RunState → RunState → Bool
allowed running interrupted = true
allowed running completed = true
allowed running failed = true
allowed interrupted running = true
allowed _ _ = false

-- A text that is set and not blank.
abbrev pub has_text : Option String → Bool
has_text none = false
has_text (some s) = not (is_blank s)

-- A text that is absent or not blank.
abbrev pub blank_free : Option String → Bool
blank_free none = true
blank_free (some s) = not (is_blank s)

unfoldable pub validate_run_owner_xor :
    RunKind → Option String → Option String → Option String → Bool
validate_run_owner_xor chat user_message_id tailoring_session_id parent_run_id =
    has_text user_message_id && is_none tailoring_session_id && is_none parent_run_id
validate_run_owner_xor cv_tailoring user_message_id tailoring_session_id parent_run_id =
    is_none user_message_id && has_text tailoring_session_id && blank_free parent_run_id
validate_run_owner_xor (other_kind k) user_message_id tailoring_session_id parent_run_id = false

abbrev pub has_id : String → AgentRun → Bool
has_id run_id run = run.id == run_id

-- The unique constraint on `user_message_id`; NULL equals nothing.
abbrev pub same_message : Option String → AgentRun → Bool
same_message none run = false
same_message (some m) run = elim run.user_message_id [ none ↦ false | some n ↦ n == m ]

-- `session.add(run)` and the flush, with the primary key and the unique constraint.
unfoldable pub insert_run : AgentRun → Runs AgentRun
insert_run run runs =
    if any (has_id run.id) runs || any (same_message run.user_message_id) runs
    then (raised integrity_error, runs)
    else (returned run, runs ++ run ∷ [])

unfoldable pub create_run :
    (new_id : String) (now : ℕ) (user_message_id : Option String) (run_kind : RunKind)
    (tailoring_session_id parent_run_id source_attachment_id : Option String)
    → Runs AgentRun
create_run new_id now user_message_id run_kind tailoring_session_id parent_run_id
      source_attachment_id =
    if not (validate_run_owner_xor run_kind user_message_id tailoring_session_id parent_run_id)
    then throw repository_error
    else if not (blank_free source_attachment_id)
    then throw repository_error
    else insert_run (record {
      id = new_id;
      run_kind = run_kind;
      user_message_id = user_message_id;
      tailoring_session_id = tailoring_session_id;
      parent_run_id = parent_run_id;
      source_attachment_id = source_attachment_id;
      state = running;
      pending_approval_json = none;
      error_code = none;
      completed_at = none;
      created_at = now;
      updated_at = now;
    })

unfoldable pub create_tailoring_run :
    (new_id : String) (now : ℕ) (tailoring_session_id : String)
    (parent_run_id source_attachment_id : Option String)
    → Runs AgentRun
create_tailoring_run new_id now tailoring_session_id parent_run_id source_attachment_id =
    create_run new_id now none cv_tailoring (some tailoring_session_id) parent_run_id
      source_attachment_id

unfoldable pub get_run : String → List AgentRun → Option AgentRun
get_run run_id runs = first (has_id run_id) runs

-- The assignments of the branch for each target state.
unfoldable pub assign_fields :
    RunState → Option JsonObject → Option String → ℕ → AgentRun → AgentRun
assign_fields interrupted pending_approval_json error_code now run = record run {
  state = interrupted;
  updated_at = now;
  pending_approval_json = pending_approval_json;
  completed_at = none;
}
assign_fields running pending_approval_json error_code now run = record run {
  state = running;
  updated_at = now;
  pending_approval_json = none;
  completed_at = none;
  error_code = none;
}
assign_fields completed pending_approval_json error_code now run = record run {
  state = completed;
  updated_at = now;
  pending_approval_json = none;
  error_code = none;
  completed_at = some now;
}
assign_fields failed pending_approval_json error_code now run = record run {
  state = failed;
  updated_at = now;
  pending_approval_json = none;
  error_code = error_code;
  completed_at = some now;
}

-- The two `if` statements on `set_completed_at` before the flush.
unfoldable pub settle_completed_at : RunState → Bool → ℕ → AgentRun → AgentRun
settle_completed_at to_state set_completed_at now run =
    if set_completed_at && is_none run.completed_at
    then record run { completed_at = some now }
    else if not set_completed_at && not (is_terminal_run to_state)
    then record run { completed_at = none }
    else run

abbrev pub moved : RunState → Option JsonObject → Option String → Bool → ℕ → AgentRun → AgentRun
moved to_state pending_approval_json error_code set_completed_at now run =
    settle_completed_at to_state set_completed_at now
      (assign_fields to_state pending_approval_json error_code now run)

unfoldable pub transition :
    (run_id : String) (to_state : RunState) (pending_approval_json : Option JsonObject)
    (error_code : Option String) (set_completed_at : Bool) (now : ℕ)
    → Runs AgentRun
transition run_id to_state pending_approval_json error_code set_completed_at now runs =
    elim (get_run run_id runs) [
      | none ↦ (raised run_not_found, runs)
      | some run ↦
          if not (allowed run.state to_state)
          then (raised invalid_transition, runs)
          else let next =
              moved to_state pending_approval_json error_code set_completed_at now run in
            (returned next, put_first (has_id run_id) next runs)
    ]

unfoldable pub interrupt_run : String → JsonObject → ℕ → Runs AgentRun
interrupt_run run_id no_fields now = throw repository_error
interrupt_run run_id (field k v rest) now =
    transition run_id interrupted (some (field k v rest)) none false now

unfoldable pub resume_run : String → ℕ → Runs AgentRun
resume_run run_id now = transition run_id running none none false now

unfoldable pub complete_run : String → ℕ → Runs AgentRun
complete_run run_id now = transition run_id completed none none true now

unfoldable pub fail_run : String → String → ℕ → Runs AgentRun
fail_run run_id error_code now =
    if is_blank error_code
    then throw repository_error
    else transition run_id failed none (some error_code) true now

abbrev pub same_parent : Option String → String → Bool
same_parent none run_id = false
same_parent (some parent_run_id) run_id = parent_run_id == run_id

-- `ON DELETE SET NULL` of the foreign key `parent_run_id`.
abbrev pub unlinked : String → AgentRun → AgentRun
unlinked run_id run =
    if same_parent run.parent_run_id run_id then record run { parent_run_id = none } else run

unfoldable pub delete_run : String → Runs Bool
delete_run run_id runs =
    if is_blank run_id
    then (raised repository_error, runs)
    else elim (get_run (strip run_id) runs) [
      | none ↦ (returned false, runs)
      | some run ↦ (
        returned true,
        map (unlinked (strip run_id)) (keep (λ r. not (has_id (strip run_id) r)) runs),
      )
    ]
