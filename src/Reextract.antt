-- ===== src/Reextract.antt =====
-- backend/app/repositories/profile_reextract_operations.py: claims and compare-and-set transitions of
-- the re-extraction operations. The new id, the clock and the other writers are arguments.
pub mod Claims
pub mod Writes
pub mod Coherence
pub mod Requests
pub mod Sequences
pub mod Exclusive
pub mod Swaps
pub mod Reconcile
pub mod Reviews
mod Examples
use job_agent.Prelude.{
  ℕ, String, Bool, true, false, not, ◌&&◌, ◌||◌, Option, none, some, List, [], ◌∷◌, ◌++◌, ◌==◌,
  first, keep, any, count_if, eqb, ltb, is_some, is_blank, strip, if◌then◌else◌, Outcome, returned,
  raised, Action, pure, throw, ◌>>=◌, ◌>>◌,
}
use job_agent.Prelude.Table.{update_where}
use job_agent.Prelude.Sorting.{text_ltb, sort, top}
use job_agent.Models.Profiles.{
  Profile, ProfileDraft, OperationState, ProfileReextractOperation, WorkspaceState, same_state,
}
use job_agent.Models.Database.{Database}
use job_agent.Profiles.{
  ProfileError, equals_text, is_review_of, get_profile, get_draft_for_operation, get_state,
}

pub data OperationError : Type 0 where
  invalid_input integrity_error : OperationError
  conflict : (code : String) (operation_id : Option String) → OperationError
  profile_error : ProfileError → OperationError

abbrev pub Operations : Type 0 → Type 0
Operations A = Action Database OperationError A

-- `_TRANSITION_STATES` and `_TERMINAL_STATES`, the literals of the callers' types.
pub data TransitionState : Type 0 where
  review_ready interrupted failed stale : TransitionState

abbrev pub as_state : TransitionState → OperationState
as_state TransitionState.review_ready = OperationState.review_ready
as_state TransitionState.interrupted = OperationState.interrupted
as_state TransitionState.failed = OperationState.failed
as_state TransitionState.stale = OperationState.stale

abbrev pub is_terminal : OperationState → Bool
is_terminal OperationState.interrupted = true
is_terminal OperationState.failed = true
is_terminal OperationState.stale = true
is_terminal _ = false

abbrev pub is_actionable : OperationState → Bool
is_actionable OperationState.running = true
is_actionable OperationState.review_ready = true
is_actionable _ = false

-- The constructor of `ProfileReextractOperationConflict`, which checks its own arguments.
unfoldable pub new_conflict : String → Option String → OperationError
new_conflict code none = if is_blank code then invalid_input else conflict (strip code) none
new_conflict code (some operation_id) =
    if is_blank code || is_blank operation_id
    then invalid_input
    else conflict (strip code) (some (strip operation_id))

unfoldable pub required_id : String → Operations String
required_id value db =
    if is_blank value then (raised invalid_input, db) else (returned (strip value), db)

-- A call of the profile repository.
unfoldable pub in_profiles : {A : Type 0} → Action Database ProfileError A → Operations A
in_profiles call db =
    let (result, after) = call db in
    elim result [ returned a ↦ (returned a, after) | raised e ↦ (raised (profile_error e), after) ]

abbrev pub owned_by : String → String → ProfileReextractOperation → Bool
owned_by profile_id operation_id op = op.profile_id == profile_id && op.id == operation_id

-- `ORDER BY updated_at DESC, id DESC`
abbrev pub newest_first : ProfileReextractOperation → ProfileReextractOperation → Bool
newest_first a b =
    ltb b.updated_at a.updated_at || (eqb b.updated_at a.updated_at && text_ltb b.id a.id)

unfoldable pub get_operation : String → String → Operations (Option ProfileReextractOperation)
get_operation profile_id operation_id = do
  p ← required_id profile_id
  o ← required_id operation_id
  λ db. (returned (first (owned_by p o) db.operations), db)

abbrev pub is_open_review : String → String → ProfileReextractOperation → Bool
is_open_review profile_id operation_id op =
    owned_by profile_id operation_id op && same_state op.state OperationState.review_ready

abbrev pub as_stale : ℕ → ProfileReextractOperation → ProfileReextractOperation
as_stale now op = record op {
  state = OperationState.stale;
  error_code = some "PROFILE_REEXTRACT_STALE";
  updated_at = now;
}

-- The update of both stale branches, and the row read again.
unfoldable pub mark_stale : String → String → ℕ → Operations (Option ProfileReextractOperation)
mark_stale p o now db =
    get_operation p o
      (record db { operations = update_where (is_open_review p o) (as_stale now) db.operations })

-- The profile and the workspace are as they were when the operation was claimed.
unfoldable pub is_unchanged :
    String → Option Profile → Option WorkspaceState → ProfileReextractOperation → Bool
is_unchanged profile_id (some profile) (some workspace) op =
    eqb profile.updated_at op.base_profile_updated_at
    && equals_text workspace.active_profile_id profile_id
    && eqb workspace.updated_at op.base_workspace_updated_at
is_unchanged profile_id _ _ op = false

unfoldable pub reconcile_owned :
    String
    → String
    → ℕ
    → ProfileReextractOperation
    → Option ProfileDraft
    → Operations (Option ProfileReextractOperation)
reconcile_owned p o now op none = mark_stale p o now
reconcile_owned p o now op (some draft) = do
  profile ← in_profiles (get_profile p)
  λ db.
      if is_unchanged p profile (get_state db) op
      then (returned (some op), db)
      else mark_stale p o now db

unfoldable pub reconcile_found :
    String
    → String
    → ℕ
    → Option ProfileReextractOperation
    → Operations (Option ProfileReextractOperation)
reconcile_found p o now none = pure none
reconcile_found p o now (some op) =
    if not (same_state op.state OperationState.review_ready) then pure (some op) else (do
      owned_draft ← in_profiles (get_draft_for_operation p o)
      reconcile_owned p o now op owned_draft)

unfoldable pub reconcile_review_ready_to_stale :
    (profile_id operation_id : String) (now : ℕ) → Operations (Option ProfileReextractOperation)
reconcile_review_ready_to_stale profile_id operation_id now = do
  p ← required_id profile_id
  o ← required_id operation_id
  operation ← get_operation p o
  reconcile_found p o now operation

unfoldable pub get_latest_operation_for_profile :
    String → Operations (Option ProfileReextractOperation)
get_latest_operation_for_profile profile_id = do
  p ← required_id profile_id
  λ db. (returned (top newest_first (keep (λ op. op.profile_id == p) db.operations)), db)

unfoldable pub list_running_operations : Option String → Operations (List ProfileReextractOperation)
list_running_operations none db = (
  returned
      (sort newest_first (keep (λ op. same_state op.state OperationState.running) db.operations)),
  db,
)
list_running_operations (some profile_id) db =
    if is_blank profile_id then (raised invalid_input, db) else (
      returned (
          sort newest_first (
            keep
              (λ op.
                same_state op.state OperationState.running && op.profile_id == strip profile_id)
              db.operations)),
      db,
    )
