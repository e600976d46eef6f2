-- ===== src/Models/Database.antt =====
-- The tables that the profile services share, each as the list of its rows.
use job_agent.Prelude.{String, Option, List}
use job_agent.Models.Chat.{AgentRun, Conversation, ChatMessage}
use job_agent.Models.Profiles.{Profile, ProfileDraft, ProfileReextractOperation, WorkspaceState}

pub data TailoringState : Type 0 where
  generating ready failed deleting : TailoringState

-- backend/app/db/models/cv_tailoring.py, the columns that the gates read.
pub record TailoringSession : Type 0 where
  pub id : String
  pub profile_id : String
  pub state : TailoringState

pub record Database : Type 0 where
  -- The ids of the attachments (backend/app/db/models/attachments.py).
  pub attachments : List String
  pub profiles : List Profile
  pub drafts : List ProfileDraft
  pub operations : List ProfileReextractOperation
  pub workspace : Option WorkspaceState
  pub runs : List AgentRun
  pub messages : List ChatMessage
  pub conversations : List Conversation
  pub tailoring_sessions : List TailoringSession
