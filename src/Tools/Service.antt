-- ===== src/Tools/Service.antt =====
-- backend/app/services/tool_execution.py: one durable execution for each identity.
-- The invoker, the clock and the new id are arguments; the invoker may change anything.
pub mod Replay
pub mod Once
pub mod Unique
mod Examples
use job_agent.Prelude.{
  ℕ, String, Bool, true, false, not, ◌&&◌, ◌||◌, Option, none, some, List, [], ◌∷◌, ◌++◌, ◌==◌,
  is_blank, strip, if◌then◌else◌, Outcome, returned, raised, Action, pure, throw, ◌>>=◌, ◌>>◌, ℤ,
  pos, negsuc,
}
use job_agent.Models.Chat.{ToolStatus}
use job_agent.Tools.Labels.{humanize_activity_name}
use job_agent.Tools.Results.{ToolResult}
use job_agent.Tools.Rows.{
  ToolExecution, RowError, repository_error, Rows, Call, get_or_create_pending, get_by_identity,
  get_by_id, mark_running, complete_execution, fail_execution, load_stored_result, is_terminal,
}

pub record Publication : Type 0 where
  pub tool_execution_id : String
  pub tool_call_id : String
  pub tool_name : String
  pub display_label : String
  pub status : ToolStatus
  pub duration_ms : Option ℤ
  pub summary : Option String
  pub error_code : Option String

pub data ExecError (E : Type 0) : Type 0 where
  row_error : RowError → ExecError E
  in_progress : ExecError E
  invoker_error : E → ExecError E

-- The committed rows, what the bound listener received, and all else.
pub record Store (S : Type 0) : Type 0 where
  pub executions : List ToolExecution
  pub listening : Bool
  pub published : List Publication
  pub outside : S

-- What the process supplies to one call.
pub record Stamps : Type 0 where
  pub new_id : String
  pub created_at : ℕ
  pub running_at : ℕ
  pub finished_at : ℕ
  pub elapsed_ms : ℤ

pub data Claim : Type 0 where
  new_pending reentry : ToolExecution → Claim
  replay : ToolResult → Publication → Claim

module _ {S E : Type 0} where
  -- `async with session_scope(factory)`: a commit, or a rollback where the block raises.
  unfoldable pub session_scope :
      {A : Type 0} → Action (List ToolExecution) (ExecError E) A → Action (Store S) (ExecError E) A
  session_scope body s =
      let (result, rows) = body s.executions in
      elim result [
        | returned a ↦ (returned a, record s { executions = rows })
        | raised e ↦ (raised e, s)
      ]

  unfoldable pub publish : Publication → Action (Store S) (ExecError E) (Unit {0})
  publish p s = (
    returned tt,
    record s { published = if s.listening then s.published ++ p ∷ [] else s.published },
  )

-- A repository call inside a block of the service.
unfoldable pub in_block : {E A : Type 0} → Rows A → Action (List ToolExecution) (ExecError E) A
in_block call rows =
    let (result, after) = call rows in
    elim result [ returned a ↦ (returned a, after) | raised e ↦ (raised (row_error e), after) ]

-- A status with no terminal coupling.
abbrev pub progress : String → ToolExecution → ToolStatus → Publication
progress label row status = record {
  tool_execution_id = row.id;
  tool_call_id = row.tool_call_id;
  tool_name = row.tool_name;
  display_label = label;
  status = status;
  duration_ms = none;
  summary = none;
  error_code = none;
}

abbrev pub stored_publication : String → ToolExecution → ToolResult → Publication
stored_publication label row stored = record {
  tool_execution_id = row.id;
  tool_call_id = row.tool_call_id;
  tool_name = row.tool_name;
  display_label = label;
  status = row.status;
  duration_ms = row.duration_ms;
  summary = some stored.summary;
  error_code = row.error_code;
}

-- The display label that is asked for, if it is set and not blank.
unfoldable pub resolve_label : Option String → String → String
resolve_label none tool_name = humanize_activity_name tool_name
resolve_label (some label) tool_name =
    if is_blank label then humanize_activity_name tool_name else strip label

module _ {E : Type 0} where
  abbrev pub replay_row : String → ToolExecution → Outcome (ExecError E) Claim
  replay_row label row = elim (load_stored_result row) [
    | returned stored ↦ returned (replay stored (stored_publication label row stored))
    | raised e ↦ raised (row_error e)
  ]

  -- The branches of the first block on the status of the row.
  unfoldable pub claim_row :
      ToolStatus → String → Bool → ToolExecution → Outcome (ExecError E) Claim
  claim_row ToolStatus.completed label allow row = replay_row label row
  claim_row ToolStatus.failed label allow row = replay_row label row
  claim_row ToolStatus.running label allow row =
      if allow then returned (reentry row) else raised in_progress
  claim_row ToolStatus.pending label allow row = returned (new_pending row)

  unfoldable pub claim_identity :
      Stamps
      → (List ToolExecution → List ToolExecution)
      → String
      → Bool
      → Call
      → Action (List ToolExecution) (ExecError E) Claim
  claim_identity stamps meanwhile label allow call = do
    (row, created) ← in_block (get_or_create_pending stamps.new_id stamps.created_at meanwhile call)
    λ rows. (claim_row row.status label allow row, rows)

-- `max(0, …)`
unfoldable pub clamp_duration : ℤ → ℤ
clamp_duration (pos n) = pos n
clamp_duration (negsuc n) = pos 0

abbrev pub terminal_publication :
    String → ToolExecution → ToolStatus → ℤ → ToolResult → Option String → Publication
terminal_publication label row status duration_ms result error_code = record {
  tool_execution_id = row.id;
  tool_call_id = row.tool_call_id;
  tool_name = row.tool_name;
  display_label = label;
  status = status;
  duration_ms = some duration_ms;
  summary = some result.summary;
  error_code = error_code;
}

module _ {E : Type 0} where
  -- The stored result wins where another path finished the row.
  unfoldable pub store_result :
      String
      → ToolExecution
      → ToolResult
      → ℤ
      → ℕ
      → Action (List ToolExecution) (ExecError E) (ToolResult × Publication)
  store_result label row result duration_ms now =
      if result.ok
      then (do
        in_block (complete_execution row.id result duration_ms now)
        pure (result, terminal_publication label row ToolStatus.completed duration_ms result none))
      else (do
        in_block (fail_execution row.id result duration_ms now)
        pure (
          result,
          terminal_publication label row ToolStatus.failed duration_ms result result.code,
        ))

  unfoldable pub settle :
      String
      → ToolExecution
      → ToolResult
      → ℤ
      → ℕ
      → Action (List ToolExecution) (ExecError E) (ToolResult × Publication)
  settle label row result duration_ms now rows = elim (get_by_id row.id rows) [
    | none ↦ store_result label row result duration_ms now rows
    | some live ↦
        if is_terminal live.status
        then elim (load_stored_result live) [
          | returned stored ↦ (
            returned (
              stored,
              record (stored_publication label live stored) { tool_execution_id = row.id },
            ),
            rows,
          )
          | raised e ↦ (raised (row_error e), rows)
        ]
        else store_result label row result duration_ms now rows
  ]

module _ {S E : Type 0} (stamps : Stamps) (invoke : Action (Store S) E ToolResult) where
  abbrev pub invoked : Action (Store S) (ExecError E) ToolResult
  invoked s =
      let (result, after) = invoke s in
      elim result [
        | returned r ↦ (returned r, after)
        | raised e ↦ (raised (invoker_error e), after)
      ]

  -- From the invocation to the end.
  unfoldable pub run_claimed : String → ToolExecution → Action (Store S) (ExecError E) ToolResult
  run_claimed label row = do
    result ← invoked
    (final, publication) ←
        session_scope
          (settle label row result (clamp_duration stamps.elapsed_ms) stamps.finished_at)
    publish publication
    pure final

  unfoldable pub follow_claim : String → Claim → Action (Store S) (ExecError E) ToolResult
  follow_claim label (replay result publication) = do publish publication; pure result
  follow_claim label (reentry row) = run_claimed label row
  follow_claim label (new_pending row) = do
    publish (progress label row ToolStatus.pending)
    started ← session_scope (in_block (mark_running row.id stamps.running_at))
    publish (progress label started ToolStatus.running)
    run_claimed label started

  unfoldable pub execute_tool :
      (meanwhile : List ToolExecution → List ToolExecution) (call : Call)
      (display_label : Option String) (allow_running_reentry : Bool)
      → Action (Store S) (ExecError E) ToolResult
  execute_tool meanwhile call display_label allow_running_reentry =
      let label = resolve_label display_label call.tool_name in
      do
        claim ← session_scope (claim_identity stamps meanwhile label allow_running_reentry call)
        follow_claim label claim

-- The stored terminal result of an identity, with no side effect.
unfoldable pub get_replay_result :
    String → String → List ToolExecution → Outcome RowError (Option ToolResult)
get_replay_result run_id tool_call_id rows = elim (get_by_identity run_id tool_call_id rows) [
  | none ↦ returned none
  | some row ↦
      if not (is_terminal row.status)
      then raised repository_error
      else elim (load_stored_result row) [ returned r ↦ returned (some r) | raised e ↦ raised e ]
]
