-- ===== src/Models/Chat.antt =====
-- backend/app/db/models/chat.py and cv_tailoring.py.
use job_agent.Prelude.{ℕ, String, Bool, true, false, Option}
use job_agent.Models.Json.{JsonObject}

pub data RunState : Type 0 where
  running interrupted completed failed : RunState

-- `run_kind` is a text; `other_kind` is any text that is not one of the two constants.
pub data RunKind : Type 0 where
  chat cv_tailoring : RunKind
  other_kind : String → RunKind

pub record AgentRun : Type 0 where
  pub id : String
  pub run_kind : RunKind
  pub user_message_id : Option String
  pub tailoring_session_id : Option String
  pub parent_run_id : Option String
  pub source_attachment_id : Option String
  pub state : RunState
  pub pending_approval_json : Option JsonObject
  pub error_code : Option String
  pub completed_at : Option ℕ
  pub created_at : ℕ
  pub updated_at : ℕ

pub record Conversation : Type 0 where
  pub id : String
  pub profile_id : String
  pub title : String
  pub created_at : ℕ
  pub updated_at : ℕ
  pub last_opened_at : ℕ

pub record ChatMessage : Type 0 where
  pub id : String
  pub conversation_id : String
  pub role : String
  pub content : String
  pub structured_payload : Option JsonObject
  pub source_attachment_id : Option String
  pub redacted_at : Option ℕ
  pub created_at : ℕ
  pub updated_at : ℕ

-- `running` and so on of a tool execution.
pub data ToolStatus : Type 0 where
  pending running completed failed : ToolStatus

abbrev pub is_terminal_run : RunState → Bool
is_terminal_run RunState.completed = true
is_terminal_run RunState.failed = true
is_terminal_run _ = false
