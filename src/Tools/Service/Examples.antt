-- ===== src/Tools/Service/Examples.antt =====
-- Runs of the tool-execution service.
use job_agent.Prelude.{
  ℕ, suc, String, ◌≡◌, refl, true, false, none, some, [], ◌∷◌, arith, returned, raised, Action, pos,
  is_blank, strip,
}
use job_agent.Prelude.Table.{put_first}
use job_agent.Models.Json.{no_fields}
use job_agent.Tools.Labels.{humanize_activity_name}
use job_agent.Tools.Results.{
  ToolResult, parse_tool_result, serialize_result, couple_ok_and_code,
  validate_tool_result_terminal_coupling,
}
use job_agent.Tools.Results.RoundTrip.{parse-serialize}
use job_agent.Tools.Rows.{
  Call, get_by_identity, get_by_id, insert_or_reselect, get_or_create_pending, allowed,
  assign_fields, transition, mark_running, complete_execution, fail_execution, delete_execution,
  load_stored_result,
}
use job_agent.Tools.Rows.Identity.{IsUnique}
use job_agent.Tools.Service.{
  Store, Stamps, in_progress, stored_publication, session_scope, publish, in_block, resolve_label,
  claim_row, claim_identity, clamp_duration, store_result, settle, run_claimed, follow_claim,
  execute_tool, get_replay_result,
}
use job_agent.Tools.Service.Replay.{execute_tool-terminal, execute_tool-running}
use job_agent.Tools.Service.Once.{started, ended, statuses, execute_tool-new, execute_tool-again}
use job_agent.Tools.Service.Unique.{execute_tool-IsUnique}

program : Unit {0}
unfolding humanize_activity_name parse_tool_result serialize_result couple_ok_and_code
    validate_tool_result_terminal_coupling get_by_identity get_by_id insert_or_reselect
    get_or_create_pending allowed assign_fields transition mark_running complete_execution
    fail_execution delete_execution load_stored_result session_scope publish in_block resolve_label
    claim_row claim_identity clamp_duration store_result settle run_claimed follow_claim
    execute_tool get_replay_result put_first is_blank strip
program = tt

abbrev saved : ToolResult
saved = record { ok = true; code = none; summary = "saved"; payload = some no_fields }

abbrev refused : ToolResult
refused = record { ok = false; code = some "NOT_FOUND"; summary = "no such job"; payload = none }

abbrev save_job : Call
save_job = record {
  run_id = "r";
  tool_call_id = "c";
  tool_name = "save_job";
  arguments_summary_json = none;
  source_attachment_id = none;
}

abbrev stamps : Stamps
stamps = record {
  new_id = "x";
  created_at = 1;
  running_at = 2;
  finished_at = 3;
  elapsed_ms = pos 40;
}

abbrev empty : Store ℕ
empty = record { executions = []; listening = true; published = []; outside = 0 }

-- Counts its calls outside.
abbrev tool : ToolResult → Action (Store ℕ) String ToolResult
tool r s = (returned r, record s { outside = suc s.outside })

abbrev crash : Action (Store ℕ) String ToolResult
crash s = (raised "interrupt", s)

saved_once :
    let first = execute_tool stamps (tool saved) (λ xs. xs) save_job none false empty in
    let second = execute_tool stamps crash (λ xs. xs) save_job none false first.1 in
    (second.0 ≡ returned saved) × (second.1.outside ≡ 1)
unfolding program
saved_once = (refl, refl)

-- An interrupted invoker leaves the row running, and the call may re-enter it.
reentered :
    let first = execute_tool stamps crash (λ xs. xs) save_job none true empty in
    let second = execute_tool stamps (tool refused) (λ xs. xs) save_job none true first.1 in
    (second.0 ≡ returned refused)
    × (get_replay_result "r" "c" second.1.executions ≡ returned (some refused))
unfolding program
reentered = (refl, refl)

abbrev finished_store : Store ℕ
finished_store = record empty { executions = ended stamps save_job saved ∷ [] }

abbrev running_store : Store ℕ
running_store = record empty { executions = started stamps save_job ∷ [] }

parse-serialize_example : parse_tool_result (serialize_result refused) ≡ some refused
unfolding program
parse-serialize_example = parse-serialize refused refl

execute_tool-terminal_example :
    execute_tool stamps crash (λ xs. xs) save_job none false finished_store ≡ (
      returned saved,
      record finished_store {
        published = stored_publication "Save Job" (ended stamps save_job saved) saved ∷ [];
      },
    )
unfolding program
execute_tool-terminal_example =
    execute_tool-terminal stamps crash (λ xs. xs) save_job none finished_store
      (ended stamps save_job saved) refl refl false saved refl refl

execute_tool-running_example :
    execute_tool stamps crash (λ xs. xs) save_job none false running_store
    ≡ (raised in_progress, running_store)
unfolding program
execute_tool-running_example =
    execute_tool-running stamps crash (λ xs. xs) save_job none running_store
      (started stamps save_job) refl refl refl

execute_tool-new_example : execute_tool stamps (tool saved) (λ xs. xs) save_job none false empty ≡ (
  returned saved,
  record empty {
    executions = ended stamps save_job saved ∷ [];
    published = statuses "Save Job" stamps save_job saved;
    outside = 1;
  },
)
unfolding program
execute_tool-new_example =
    execute_tool-new stamps (tool saved) save_job none empty saved suc refl refl refl refl
      (λ t. refl) false

execute_tool-again_example :
    let first = execute_tool stamps (tool saved) (λ xs. xs) save_job none false empty in
    let second = execute_tool stamps crash (λ xs. xs) save_job (some "Again") true first.1 in
    (first.0 ≡ returned saved)
    × (second.0 ≡ returned saved)
    × (second.1.executions ≡ first.1.executions)
    × (second.1.outside ≡ first.1.outside)
unfolding program
execute_tool-again_example =
    execute_tool-again stamps (tool saved) save_job none empty saved suc refl refl refl refl
      (λ t. refl) false stamps crash (λ xs. xs) (some "Again") true

execute_tool-IsUnique_example :
    IsUnique (execute_tool stamps (tool saved) (λ xs. xs) save_job none false empty).1.executions
execute_tool-IsUnique_example =
    execute_tool-IsUnique stamps (tool saved) (λ t u. u) (λ xs. xs) save_job none false empty
      (λ xs u. u) (record { once = λ run tool. omega arith })
