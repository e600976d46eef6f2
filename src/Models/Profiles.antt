-- ===== src/Models/Profiles.antt =====
-- backend/app/db/models/profiles.py. Times are instants in UTC.
use job_agent.Prelude.{ℕ, String, Bool, true, false, Option}
use job_agent.Models.Json.{JsonObject}

pub data ProfileState : Type 0 where
  pending ready deleting : ProfileState

pub record Profile : Type 0 where
  pub id : String
  pub attachment_id : String
  pub display_name : String
  pub profile_json : Option JsonObject
  pub location : Option String
  pub extraction_version : Option String
  pub source_hash : Option String
  pub state : ProfileState
  pub created_at : ℕ
  pub updated_at : ℕ
  pub last_opened_at : ℕ

pub record ProfileDraft : Type 0 where
  pub id : String
  pub source_attachment_id : Option String
  pub target_profile_id : String
  pub reextract_operation_id : Option String
  pub draft_json : JsonObject
  pub created_at : ℕ
  pub updated_at : ℕ

pub data OperationState : Type 0 where
  running review_ready interrupted failed stale : OperationState

pub record ProfileReextractOperation : Type 0 where
  pub id : String
  pub profile_id : String
  pub source_attachment_id : String
  pub base_profile_updated_at : ℕ
  pub base_workspace_updated_at : ℕ
  pub state : OperationState
  pub error_code : Option String
  pub created_at : ℕ
  pub updated_at : ℕ

-- The one row `main`.
pub record WorkspaceState : Type 0 where
  pub active_profile_id : Option String
  pub updated_at : ℕ

abbrev pub is_ready : ProfileState → Bool
is_ready ProfileState.ready = true
is_ready _ = false

abbrev pub same_state : OperationState → OperationState → Bool
same_state OperationState.running OperationState.running = true
same_state OperationState.review_ready OperationState.review_ready = true
same_state OperationState.interrupted OperationState.interrupted = true
same_state OperationState.failed OperationState.failed = true
same_state OperationState.stale OperationState.stale = true
same_state _ _ = false
