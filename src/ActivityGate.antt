-- ===== src/ActivityGate.antt =====
-- backend/app/services/activity_gate.py: what must be idle before a lifecycle change.
-- A join on a primary key is a lookup of the key.
pub mod Gates
pub mod Order
pub mod Steps
pub mod Upload
pub mod Tailoring
pub mod Claims
mod Examples
use job_agent.Prelude.{
  ℕ, String, Bool, true, false, not, ◌&&◌, ◌||◌, Option, none, some, List, ◌==◌, first, keep, any,
  ltb, eqb, is_some, if◌then◌else◌, Outcome, returned, raised, Action, pure, throw, ◌>>=◌, ◌>>◌,
}
use job_agent.Prelude.Sorting.{text_ltb, top}
use job_agent.Models.Chat.{RunState, RunKind, AgentRun, ChatMessage, Conversation}
use job_agent.Models.Profiles.{
  Profile, ProfileDraft, OperationState, ProfileReextractOperation, is_ready, same_state,
}
use job_agent.Models.Database.{Database, TailoringState, TailoringSession}
use job_agent.Profiles.{
  ProfileError, equals_text, profile_by_id, get_profile, get_draft_for_profile,
  get_incomplete_profile,
}
use job_agent.Reextract.Claims.{get_owned_review_operation_id, get_actionable_operation_id}

-- `ActivityBlockedError`, without its summary.
pub record Blocked : Type 0 where
  pub code : String
  pub profile_id : Option String
  pub review_source : Option String
  pub operation_id : Option String
  pub review_revision : Option ℕ

pub data GateError : Type 0 where
  blocked : Blocked → GateError
  profile_error : ProfileError → GateError

abbrev pub blocked_with : String → GateError
blocked_with code = blocked (record {
  code = code;
  profile_id = none;
  review_source = none;
  operation_id = none;
  review_revision = none;
})

-- A gate reads the database and returns or raises.
abbrev pub Gate : Type 0
Gate = Action Database GateError (Unit {0})

-- `if c: raise ActivityBlockedError(…)`
abbrev pub block_if : Bool → GateError → Gate
block_if c e db = if c then (raised e, db) else (returned tt, db)

-- `_ACTIVE_RUN_STATES`
abbrev pub is_active : RunState → Bool
is_active RunState.running = true
is_active RunState.interrupted = true
is_active _ = false

abbrev pub is_running : RunState → Bool
is_running RunState.running = true
is_running _ = false

abbrev pub is_chat : RunKind → Bool
is_chat RunKind.chat = true
is_chat _ = false

abbrev pub is_generating : TailoringState → Bool
is_generating TailoringState.generating = true
is_generating _ = false

-- The conversation that the joins from a run reach.
abbrev pub conversation_of : Database → AgentRun → Option Conversation
conversation_of db run = elim run.user_message_id [
  | none ↦ none
  | some i ↦ elim (first (λ m. m.id == i) db.messages) [
    | none ↦ none
    | some message ↦ first (λ c. c.id == message.conversation_id) db.conversations
  ]
]

abbrev pub holds_of : (Conversation → Bool) → Option Conversation → Bool
holds_of owner none = false
holds_of owner (some c) = owner c

unfoldable pub has_chat_activity : (Conversation → Bool) → Database → Bool
has_chat_activity owner db =
    any (λ r. is_chat r.run_kind && is_active r.state && holds_of owner (conversation_of db r))
      db.runs

abbrev pub session_of : Database → AgentRun → Option TailoringSession
session_of db run = elim run.tailoring_session_id [
  | none ↦ none
  | some i ↦ first (λ s. s.id == i) db.tailoring_sessions
]

-- The optional restriction to one profile.
abbrev pub is_of : Option String → TailoringSession → Bool
is_of none session = true
is_of (some profile_id) session = session.profile_id == profile_id

abbrev pub in_session_of : Option String → Option TailoringSession → Bool
in_session_of profile_id none = false
in_session_of profile_id (some session) = is_of profile_id session

unfoldable pub has_tailoring_activity : Option String → Database → Bool
has_tailoring_activity profile_id db =
    any (λ r. is_active r.state && in_session_of profile_id (session_of db r)) db.runs
    || any (λ s. is_generating s.state && is_of profile_id s) db.tailoring_sessions

unfoldable pub assert_workspace_idle : String → Gate
assert_workspace_idle code db =
    block_if (any (λ r. is_active r.state) db.runs || has_tailoring_activity none db)
      (blocked_with code) db

abbrev pub owner_of : String → Database → Option String
owner_of conversation_id db = elim (first (λ c. c.id == conversation_id) db.conversations) [
  | none ↦ none
  | some c ↦ some c.profile_id
]

abbrev pub is_tailoring_for : Option String → Database → Bool
is_tailoring_for none db = false
is_tailoring_for (some profile_id) db = has_tailoring_activity (some profile_id) db

unfoldable pub assert_conversation_idle : String → String → Gate
assert_conversation_idle conversation_id code db =
    block_if
      (has_chat_activity (λ c. c.id == conversation_id) db
        || is_tailoring_for (owner_of conversation_id db) db)
      (blocked_with code) db

unfoldable pub assert_profile_idle : String → String → Gate
assert_profile_idle profile_id code db =
    block_if
      (has_chat_activity (λ c. c.profile_id == profile_id) db
        || has_tailoring_activity (some profile_id) db)
      (blocked_with code) db
