-- ===== src/ActivityGate/Examples.antt =====
-- Runs of the gates.
use job_agent.Prelude.{◌≡◌, ◌↔◌, refl, none, some, [], ◌∷◌, returned, raised, is_blank, strip}
use job_agent.Prelude.Sorting.{text_ltb, insert, sort, top}
use job_agent.Models.Json.{no_fields}
use job_agent.Models.Chat.{RunState, RunKind, AgentRun, ChatMessage, Conversation}
use job_agent.Models.Profiles.{ProfileState, Profile, ProfileDraft}
use job_agent.Models.Database.{Database}
use job_agent.Profiles.{required, get_profile, get_draft_for_profile, get_incomplete_profile}
use job_agent.Reextract.{required_id}
use job_agent.Reextract.Claims.{
  Base, get_owned_review_operation_id, get_actionable_operation_id, new_operation, flush_claim,
  write_claim, check_claim, claim_operation,
}
use job_agent.ActivityGate.{
  blocked, blocked_with, has_chat_activity, has_tailoring_activity, assert_workspace_idle,
  assert_conversation_idle, assert_profile_idle,
}
use job_agent.ActivityGate.Gates.{
  in_profiles, block_review, assert_profile_review_clear, block_operation, block_draft_owner,
  assert_upload_lifecycle_clear, assert_profile_reextract_clear, assert_tailoring_start_allowed,
}
use job_agent.ActivityGate.Order.{assert_conversation_idle_of_profile}
use job_agent.ActivityGate.Upload.{IsClear, assert_upload_lifecycle_clear_iff}
use job_agent.ActivityGate.Tailoring.{MayStart, assert_tailoring_start_allowed-parent}
use job_agent.ActivityGate.Claims.{assert_profile_reextract_clear-claim}

program : Unit {0}
unfolding text_ltb insert sort top is_blank strip required get_profile get_draft_for_profile
    get_incomplete_profile required_id get_owned_review_operation_id get_actionable_operation_id
    flush_claim write_claim check_claim claim_operation has_chat_activity has_tailoring_activity
    assert_workspace_idle assert_conversation_idle assert_profile_idle in_profiles block_review
    assert_profile_review_clear block_operation block_draft_owner assert_upload_lifecycle_clear
    assert_profile_reextract_clear assert_tailoring_start_allowed
program = tt

abbrev chat_run : RunState → AgentRun
chat_run state = record {
  id = "run";
  run_kind = RunKind.chat;
  user_message_id = some "m";
  tailoring_session_id = none;
  parent_run_id = none;
  source_attachment_id = none;
  state = state;
  pending_approval_json = none;
  error_code = none;
  completed_at = none;
  created_at = 1;
  updated_at = 1;
}

abbrev message : ChatMessage
message = record {
  id = "m";
  conversation_id = "c";
  role = "user";
  content = "hi";
  structured_payload = none;
  source_attachment_id = none;
  redacted_at = none;
  created_at = 1;
  updated_at = 1;
}

abbrev conversation : Conversation
conversation = record {
  id = "c";
  profile_id = "p";
  title = "New chat";
  created_at = 1;
  updated_at = 1;
  last_opened_at = 1;
}

abbrev profile : Profile
profile = record {
  id = "p";
  attachment_id = "cv";
  display_name = "P";
  profile_json = some no_fields;
  location = none;
  extraction_version = some "v";
  source_hash = some "h";
  state = ProfileState.ready;
  created_at = 1;
  updated_at = 1;
  last_opened_at = 1;
}

abbrev draft : ProfileDraft
draft = record {
  id = "d";
  source_attachment_id = none;
  target_profile_id = "p";
  reextract_operation_id = none;
  draft_json = no_fields;
  created_at = 1;
  updated_at = 4;
}

abbrev quiet : Database
quiet = record {
  attachments = "cv" ∷ [];
  profiles = profile ∷ [];
  drafts = [];
  operations = [];
  workspace = none;
  runs = chat_run RunState.completed ∷ [];
  messages = message ∷ [];
  conversations = conversation ∷ [];
  tailoring_sessions = [];
}

abbrev busy : Database
busy = record quiet { runs = chat_run RunState.running ∷ [] }

abbrev base : Base
base = record { source_attachment_id = "cv"; profile_updated_at = 1; workspace_updated_at = 2 }

-- A running chat blocks its profile and its conversation, and no other profile.
chat_blocks :
    ((assert_profile_idle "p" "X" busy).0 ≡ raised (blocked_with "X"))
    × ((assert_conversation_idle "c" "Y" busy).0 ≡ raised (blocked_with "Y"))
    × ((assert_profile_idle "q" "X" busy).0 ≡ returned tt)
unfolding program
chat_blocks = (refl, refl, refl)

-- A pending review of a ready profile stops an upload.
review_blocks_upload :
    (assert_upload_lifecycle_clear "W" (record quiet { drafts = draft ∷ [] })).0
    ≡ raised (
        blocked (record {
          code = "PROFILE_REVIEW_PENDING";
          profile_id = some "p";
          review_source = some "agent_update";
          operation_id = none;
          review_revision = some 4;
        }))
unfolding program
review_blocks_upload = refl

assert_conversation_idle_of_profile_example :
    assert_conversation_idle "c" "Y" quiet ≡ (returned tt, quiet)
unfolding program
assert_conversation_idle_of_profile_example =
    assert_conversation_idle_of_profile quiet "X" "c" "p" "Y" refl refl

assert_upload_lifecycle_clear_example :
    (assert_upload_lifecycle_clear "W" (record quiet { drafts = draft ∷ [] })
      ≡ (returned tt, record quiet { drafts = draft ∷ [] }))
    ↔ IsClear (record quiet { drafts = draft ∷ [] })
unfolding program
assert_upload_lifecycle_clear_example =
    assert_upload_lifecycle_clear_iff "W" (record quiet { drafts = draft ∷ [] })
      (record { trimmed = refl; named = refl }, tt)

assert_tailoring_start_allowed_example :
    ((assert_tailoring_start_allowed "p" (some "run") "T" busy).0 ≡ returned tt)
    ↔ MayStart "p" "run" busy
assert_tailoring_start_allowed_example = assert_tailoring_start_allowed-parent "p" "run" "T" busy

assert_profile_reextract_clear-claim_example :
    ((assert_profile_reextract_clear "p" quiet).0 ≡ returned tt)
    ↔ ((claim_operation "o" 5 (λ d. d) "p" base quiet).0 ≡ returned (new_operation "o" 5 "p" base))
unfolding program
assert_profile_reextract_clear-claim_example =
    assert_profile_reextract_clear-claim "o" 5 "p" base quiet
      (record { trimmed = refl; named = refl }) refl refl refl refl
