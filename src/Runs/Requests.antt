-- ===== src/Runs/Requests.antt =====
-- The calls on the table of runs as data, to speak of sequences of calls.
use job_agent.Prelude.{ℕ, String, Option, List, [], ◌∷◌}
use job_agent.Models.Json.{JsonObject}
use job_agent.Models.Chat.{AgentRun, RunKind}
use job_agent.Runs.{create_run, interrupt_run, resume_run, complete_run, fail_run, delete_run}

pub data Request : Type 0 where
  create :
      (new_id : String) (user_message_id : Option String) (run_kind : RunKind)
      (tailoring_session_id parent_run_id source_attachment_id : Option String)
      → Request
  interrupt : (run_id : String) (pending_approval_json : JsonObject) → Request
  resume complete delete : (run_id : String) → Request
  fail : (run_id error_code : String) → Request

-- The table that a call leaves, at the time `now`.
unfoldable pub after : ℕ → Request → List AgentRun → List AgentRun
after now (create i u k t p s) runs = (create_run i now u k t p s runs).1
after now (interrupt i j) runs = (interrupt_run i j now runs).1
after now (resume i) runs = (resume_run i now runs).1
after now (complete i) runs = (complete_run i now runs).1
after now (fail i c) runs = (fail_run i c now runs).1
after now (delete i) runs = (delete_run i runs).1

unfoldable pub after_all : List (ℕ × Request) → List AgentRun → List AgentRun
after_all [] runs = runs
after_all ((now, r) ∷ rest) runs = after_all rest (after now r runs)
