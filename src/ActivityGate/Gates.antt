-- ===== src/ActivityGate/Gates.antt =====
-- backend/app/services/activity_gate.py: the gates of reviews, uploads, re-extractions and tailoring.
use job_agent.Prelude.{
  String, Bool, false, not, ◌&&◌, ◌||◌, Option, none, some, List, ◌==◌, keep, any, ltb, eqb,
  is_some, if◌then◌else◌, returned, raised, Action, pure, throw, ◌>>=◌, ◌>>◌,
}
use job_agent.Prelude.Sorting.{text_ltb, top}
use job_agent.Models.Chat.{AgentRun}
use job_agent.Models.Profiles.{
  Profile, ProfileDraft, OperationState, ProfileReextractOperation, is_ready, same_state,
}
use job_agent.Models.Database.{Database}
use job_agent.Profiles.{
  ProfileError, profile_by_id, get_profile, get_draft_for_profile, get_incomplete_profile,
}
use job_agent.Reextract.Claims.{get_owned_review_operation_id, get_actionable_operation_id}
use job_agent.ActivityGate.{
  blocked_with, Gate, block_if, is_active, is_running, is_chat, conversation_of, holds_of,
  has_tailoring_activity, assert_workspace_idle, assert_profile_idle, GateError, blocked,
  profile_error,
}

-- A call of the profile repository.
unfoldable pub in_profiles :
    {A : Type 0} → Action Database ProfileError A → Action Database GateError A
in_profiles call db =
    let (result, after) = call db in
    elim result [ returned a ↦ (returned a, after) | raised e ↦ (raised (profile_error e), after) ]

abbrev pub review_error : String → String → ProfileDraft → GateError
review_error profile_id code draft = blocked (record {
  code = code;
  profile_id = some profile_id;
  review_source =
      some (if is_some draft.reextract_operation_id then "reextract" else "agent_update");
  operation_id = draft.reextract_operation_id;
  review_revision = some draft.updated_at;
})

unfoldable pub block_review : String → String → Option ProfileDraft → Option Profile → Gate
block_review profile_id code (some draft) (some profile) =
    block_if (is_ready profile.state) (review_error profile_id code draft)
block_review profile_id code _ _ = pure tt

unfoldable pub assert_profile_review_clear : (profile_id code : String) → Gate
assert_profile_review_clear profile_id code = do
  draft ← in_profiles (get_draft_for_profile profile_id)
  profile ← in_profiles (get_profile profile_id)
  block_review profile_id code draft profile

-- `ORDER BY updated_at, id`
abbrev pub oldest_first : ProfileReextractOperation → ProfileReextractOperation → Bool
oldest_first a b =
    ltb a.updated_at b.updated_at || (eqb a.updated_at b.updated_at && text_ltb a.id b.id)

abbrev pub oldest_draft_first : ProfileDraft → ProfileDraft → Bool
oldest_draft_first a b =
    ltb a.updated_at b.updated_at || (eqb a.updated_at b.updated_at && text_ltb a.id b.id)

abbrev pub in_state : OperationState → ProfileReextractOperation → Bool
in_state state op = same_state op.state state

unfoldable pub block_operation : Option ProfileReextractOperation → Gate
block_operation none = pure tt
block_operation (some op) = throw (
    blocked (record {
      code = "PROFILE_REEXTRACT_IN_PROGRESS";
      profile_id = some op.profile_id;
      review_source = none;
      operation_id = some op.id;
      review_revision = none;
    }))

-- The profile that a draft targets is ready.
abbrev pub targets_ready : List Profile → ProfileDraft → Bool
targets_ready profiles draft = elim (profile_by_id draft.target_profile_id profiles) [
  | none ↦ false
  | some profile ↦ is_ready profile.state
]

unfoldable pub block_draft_owner : Option ProfileDraft → Gate
block_draft_owner none = pure tt
block_draft_owner (some draft) =
    assert_profile_review_clear draft.target_profile_id "PROFILE_REVIEW_PENDING"

-- The steps of `assert_upload_lifecycle_clear`: the oldest operation in a state, the oldest draft of a
-- ready profile, an incomplete profile.
abbrev pub block_oldest : OperationState → Gate
block_oldest state db = block_operation (top oldest_first (keep (in_state state) db.operations)) db

abbrev pub block_oldest_draft : Gate
block_oldest_draft db =
    block_draft_owner (top oldest_draft_first (keep (targets_ready db.profiles) db.drafts)) db

abbrev pub block_incomplete : Gate
block_incomplete db =
    block_if (is_some (get_incomplete_profile db.profiles))
      (blocked_with "PROFILE_SETUP_IN_PROGRESS") db

unfoldable pub assert_upload_lifecycle_clear : (workspace_code : String) → Gate
assert_upload_lifecycle_clear workspace_code = do
  block_oldest OperationState.running
  block_oldest_draft
  block_oldest OperationState.review_ready
  block_incomplete
  assert_workspace_idle workspace_code

-- The two queries are those of `claim_operation`.
unfoldable pub assert_profile_reextract_clear : (profile_id : String) → Gate
assert_profile_reextract_clear profile_id db =
    if is_some (get_owned_review_operation_id profile_id db)
    then (raised (blocked_with "PROFILE_REVIEW_PENDING"), db)
    else block_if (is_some (get_actionable_operation_id profile_id db))
        (blocked_with "PROFILE_REEXTRACT_IN_PROGRESS") db

abbrev pub is_parent : String → String → Database → AgentRun → Bool
is_parent profile_id parent_run_id db run =
    run.id == parent_run_id
    && is_chat run.run_kind
    && is_running run.state
    && holds_of (λ c. c.profile_id == profile_id) (conversation_of db run)

unfoldable pub assert_tailoring_start_allowed :
    (profile_id : String) (parent_run_id : Option String) (code : String) → Gate
assert_tailoring_start_allowed profile_id none code db = assert_profile_idle profile_id code db
assert_tailoring_start_allowed profile_id (some parent_run_id) code db =
    if not (any (is_parent profile_id parent_run_id db) db.runs)
    then (raised (blocked_with code), db)
    else block_if
        (any (λ r. is_active r.state && not (r.id == parent_run_id)) db.runs
          || has_tailoring_activity none db)
        (blocked_with code) db
