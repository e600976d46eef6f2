-- ===== src/Tools/Service/Replay.antt =====
-- A terminal row is replayed, and a running one is not run again.
use job_agent.Prelude.{
  String, ◌≡◌, Bool, true, false, Option, some, List, [], ◌∷◌, ◌++◌, arith, if◌then◌else◌, returned,
  raised, Action,
}
use job_agent.Models.Chat.{ToolStatus}
use job_agent.Tools.Results.{ToolResult}
use job_agent.Tools.Rows.{
  ToolExecution, Call, is_refused, get_by_identity, get_or_create_pending, is_terminal,
  load_stored_result,
}
use job_agent.Tools.Service.{
  Store, Stamps, in_progress, Publication, stored_publication, resolve_label, session_scope,
  publish, in_block, claim_row, claim_identity, follow_claim, execute_tool,
}

-- What the listener has received once `p` is published.
abbrev pub received : {S : Type 0} → Store S → Publication → List Publication
received s p = if s.listening then s.published ++ p ∷ [] else s.published

module _ {S E : Type 0} (stamps : Stamps) (invoke : Action (Store S) E ToolResult)
    (meanwhile : List ToolExecution → List ToolExecution) (call : Call) (label : Option String)
    (s : Store S) (row : ToolExecution) (accepted : is_refused call ≡ false)
    (found : get_by_identity call.run_id call.tool_call_id s.executions ≡ some row) where
  -- For an identity whose row is terminal with a readable result, the call returns the stored result
  -- whatever the invoker is, changes no row and nothing outside, and publishes the stored terminal
  -- status once.
  pub execute_tool-terminal :
      (allow : Bool) (stored : ToolResult)
      → is_terminal row.status ≡ true
      → load_stored_result row ≡ returned stored
      → execute_tool stamps invoke meanwhile call label allow s ≡ (
        returned stored,
        record s {
          published =
              received s (stored_publication (resolve_label label call.tool_name) row stored);
        },
      )
  unfolding execute_tool session_scope claim_identity in_block get_or_create_pending claim_row
      follow_claim publish
  execute_tool-terminal allow stored ended loaded = ground arith

  -- Without permission to re-enter, a call whose row is running raises `in_progress`; the invoker is
  -- not called, nothing is published and nothing changes.
  pub execute_tool-running :
      row.status ≡ ToolStatus.running
      → execute_tool stamps invoke meanwhile call label false s ≡ (raised in_progress, s)
  unfolding execute_tool session_scope claim_identity in_block get_or_create_pending claim_row
      follow_claim publish
  execute_tool-running running = ground arith
