-- ===== src/Tools/Rows.antt =====
-- backend/app/repositories/tool_executions.py: rows with the identity `(run_id, tool_call_id)`.
pub mod Identity
pub mod Stored
use job_agent.Prelude.{
  ℕ, String, Bool, true, false, not, ◌&&◌, ◌||◌, Option, none, some, List, [], ◌∷◌, ◌++◌, ◌==◌,
  first, keep, any, is_blank, strip, if◌then◌else◌, Outcome, returned, raised, Action, pure, throw,
  ◌>>=◌, ◌>>◌, ℤ, pos, negsuc,
}
use job_agent.Prelude.Table.{put_first}
use job_agent.Models.Json.{JsonObject}
use job_agent.Models.Chat.{ToolStatus}
use job_agent.Tools.Results.{
  ToolResult, serialize_result, parse_tool_result, validate_tool_result_terminal_coupling,
}

pub record ToolExecution : Type 0 where
  pub id : String
  pub run_id : String
  pub source_attachment_id : Option String
  pub tool_call_id : String
  pub tool_name : String
  pub arguments_summary_json : Option JsonObject
  pub status : ToolStatus
  pub duration_ms : Option ℤ
  pub error_code : Option String
  pub result_json : Option JsonObject
  pub created_at : ℕ
  pub updated_at : ℕ

pub data RowError : Type 0 where
  repository_error not_found invalid_transition coupling_error : RowError
  assertion_error : RowError

abbrev pub Rows : Type 0 → Type 0
Rows A = Action (List ToolExecution) RowError A

-- The members of `_ALLOWED_TRANSITIONS[from_status]`.
unfoldable pub allowed : ToolStatus → ToolStatus → Bool
allowed ToolStatus.pending ToolStatus.running = true
allowed ToolStatus.running ToolStatus.completed = true
allowed ToolStatus.running ToolStatus.failed = true
allowed _ _ = false

abbrev pub is_terminal : ToolStatus → Bool
is_terminal ToolStatus.completed = true
is_terminal ToolStatus.failed = true
is_terminal _ = false

abbrev pub has_identity : String → String → ToolExecution → Bool
has_identity run_id tool_call_id row = row.run_id == run_id && row.tool_call_id == tool_call_id

abbrev pub has_id : String → ToolExecution → Bool
has_id execution_id row = row.id == execution_id

unfoldable pub get_by_identity : String → String → List ToolExecution → Option ToolExecution
get_by_identity run_id tool_call_id rows = first (has_identity run_id tool_call_id) rows

unfoldable pub get_by_id : String → List ToolExecution → Option ToolExecution
get_by_id execution_id rows = first (has_id execution_id) rows

unfoldable pub delete_execution : String → Rows Bool
delete_execution execution_id rows =
    if is_blank execution_id
    then (raised repository_error, rows)
    else elim (get_by_id (strip execution_id) rows) [
      | none ↦ (returned false, rows)
      | some row ↦ (returned true, keep (λ r. not (has_id (strip execution_id) r)) rows)
    ]

abbrev pub blank_if_set : Option String → Bool
blank_if_set none = false
blank_if_set (some s) = is_blank s

-- What a call of a tool is stored under, and with.
pub record Call : Type 0 where
  pub run_id : String
  pub tool_call_id : String
  pub tool_name : String
  pub arguments_summary_json : Option JsonObject
  pub source_attachment_id : Option String

-- The calls that the three checks refuse.
abbrev pub is_refused : Call → Bool
is_refused call =
    is_blank call.tool_call_id || is_blank call.tool_name || blank_if_set call.source_attachment_id

abbrev pub new_row : String → ℕ → Call → ToolExecution
new_row new_id now call = record {
  id = new_id;
  run_id = call.run_id;
  source_attachment_id = call.source_attachment_id;
  tool_call_id = call.tool_call_id;
  tool_name = call.tool_name;
  arguments_summary_json = call.arguments_summary_json;
  status = ToolStatus.pending;
  duration_ms = none;
  error_code = none;
  result_json = none;
  created_at = now;
  updated_at = now;
}

-- The savepoint: the flush, and the second read after an `IntegrityError` of the primary key or of
-- the unique identity.
unfoldable pub insert_or_reselect : String → ℕ → Call → Rows (ToolExecution × Bool)
insert_or_reselect new_id now call rows =
    if any (has_id new_id) rows || any (has_identity call.run_id call.tool_call_id) rows
    then elim (get_by_identity call.run_id call.tool_call_id rows) [
      | none ↦ (raised repository_error, rows)
      | some existing ↦ (returned (existing, false), rows)
    ]
    else (returned (new_row new_id now call, true), rows ++ new_row new_id now call ∷ [])

-- `meanwhile` is what other writers do between the first read and the flush.
unfoldable pub get_or_create_pending :
    (new_id : String) (now : ℕ) (meanwhile : List ToolExecution → List ToolExecution) (call : Call)
    → Rows (ToolExecution × Bool)
get_or_create_pending new_id now meanwhile call rows =
    if is_refused call
    then (raised repository_error, rows)
    else elim (get_by_identity call.run_id call.tool_call_id rows) [
      | some existing ↦ (returned (existing, false), rows)
      | none ↦ insert_or_reselect new_id now call (meanwhile rows)
    ]

-- The branches of `_transition` on the target status.
unfoldable pub assign_fields :
    ToolStatus
    → Option ToolResult
    → Option ℤ
    → Option String
    → ℕ
    → ToolExecution
    → Outcome RowError ToolExecution
assign_fields ToolStatus.running result duration_ms error_code now row =
    returned (record row { status = ToolStatus.running; updated_at = now })
assign_fields ToolStatus.pending result duration_ms error_code now row = raised invalid_transition
assign_fields to_status (some result) (some duration_ms) error_code now row = returned (record row {
  status = to_status;
  updated_at = now;
  duration_ms = some duration_ms;
  result_json = some (serialize_result result);
  error_code = error_code;
})
assign_fields to_status _ _ error_code now row = raised assertion_error

-- The changed row, written back.
abbrev pub write_row : String → Outcome RowError ToolExecution → Rows ToolExecution
write_row execution_id (raised e) rows = (raised e, rows)
write_row execution_id (returned next) rows =
    (returned next, put_first (has_id execution_id) next rows)

unfoldable pub transition :
    (execution_id : String) (to_status : ToolStatus) (result : Option ToolResult)
    (duration_ms : Option ℤ) (error_code : Option String) (now : ℕ)
    → Rows ToolExecution
transition execution_id to_status result duration_ms error_code now rows =
    elim (get_by_id execution_id rows) [
      | none ↦ (raised not_found, rows)
      | some row ↦
          if not (allowed row.status to_status)
          then (raised invalid_transition, rows)
          else write_row execution_id
              (assign_fields to_status result duration_ms error_code now row) rows
    ]

unfoldable pub mark_running : String → ℕ → Rows ToolExecution
mark_running execution_id now = transition execution_id ToolStatus.running none none none now

unfoldable pub complete_execution : String → ToolResult → ℤ → ℕ → Rows ToolExecution
complete_execution execution_id result (negsuc n) now = throw repository_error
complete_execution execution_id result (pos n) now =
    if not (validate_tool_result_terminal_coupling result ToolStatus.completed none)
    then throw coupling_error
    else transition execution_id ToolStatus.completed (some result) (some (pos n)) none now

unfoldable pub fail_execution : String → ToolResult → ℤ → ℕ → Rows ToolExecution
fail_execution execution_id result (negsuc n) now = throw repository_error
fail_execution execution_id result (pos n) now =
    if not (validate_tool_result_terminal_coupling result ToolStatus.failed result.code)
    then throw coupling_error
    else transition execution_id ToolStatus.failed (some result) (some (pos n)) result.code now

-- The stored result of a terminal row, validated again.
unfoldable pub load_stored_result : ToolExecution → Outcome RowError ToolResult
load_stored_result row =
    if not (is_terminal row.status) then raised repository_error else elim row.result_json [
      | none ↦ raised repository_error
      | some stored ↦ elim (parse_tool_result stored) [
        | none ↦ raised coupling_error
        | some parsed ↦
            if validate_tool_result_terminal_coupling parsed row.status row.error_code
            then returned parsed
            else raised coupling_error
      ]
    ]
