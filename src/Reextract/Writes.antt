-- ===== src/Reextract/Writes.antt =====
-- backend/app/repositories/profile_reextract_operations.py: the compare-and-set transition, the
-- deletions.
use job_agent.Prelude.{
  ℕ, String, Bool, true, not, ◌&&◌, Option, none, some, keep, any, count_if, eqb, is_blank, strip,
  if◌then◌else◌, returned, raised, pure, throw, ◌>>=◌,
}
use job_agent.Prelude.Table.{update_where}
use job_agent.Models.Profiles.{OperationState, ProfileReextractOperation, same_state}
use job_agent.Reextract.{
  invalid_input, integrity_error, Operations, TransitionState, as_state, required_id, owned_by,
}
use job_agent.Reextract.Claims.{has_draft, is_spent}

unfoldable pub validate_transition : TransitionState → Option String → Operations (Option String)
validate_transition TransitionState.review_ready none = pure none
validate_transition TransitionState.review_ready (some error_code) = throw invalid_input
validate_transition to_state none = throw invalid_input
validate_transition to_state (some error_code) =
    if is_blank error_code then throw invalid_input else pure (some (strip error_code))

abbrev pub is_running_operation : String → String → ProfileReextractOperation → Bool
is_running_operation profile_id operation_id op =
    owned_by profile_id operation_id op && same_state op.state OperationState.running

abbrev pub moved :
    OperationState → Option String → ℕ → ProfileReextractOperation → ProfileReextractOperation
moved to_state error_code now op = record op {
  state = to_state;
  error_code = error_code;
  updated_at = now;
}

-- One `UPDATE` on the running row; the answer is whether it changed exactly one row.
unfoldable pub swap_state : String → String → TransitionState → ℕ → Option String → Operations Bool
swap_state p o to_state now error_code db = (
  returned (eqb (count_if (is_running_operation p o) db.operations) 1),
  record db {
    operations =
        update_where (is_running_operation p o) (moved (as_state to_state) error_code now)
          db.operations;
  },
)

unfoldable pub transition_running_operation :
    (profile_id operation_id : String) (to_state : TransitionState) (error_code : Option String)
    (now : ℕ)
    → Operations Bool
transition_running_operation profile_id operation_id to_state error_code now = do
  p ← required_id profile_id
  o ← required_id operation_id
  error_code ← validate_transition to_state error_code
  swap_state p o to_state now error_code

abbrev pub is_expected : Option OperationState → OperationState → Bool
is_expected none current = true
is_expected (some expected) current = same_state current expected

abbrev pub is_chosen : String → String → Option OperationState → ProfileReextractOperation → Bool
is_chosen p o expected_state op = owned_by p o op && is_expected expected_state op.state

-- `DELETE`; the foreign key of the drafts restricts it.
unfoldable pub delete_chosen : String → String → Option OperationState → Operations Bool
delete_chosen p o expected_state db =
    if any (λ op. is_chosen p o expected_state op && has_draft db.drafts op) db.operations
    then (raised integrity_error, db)
    else (
      returned (eqb (count_if (is_chosen p o expected_state) db.operations) 1),
      record db { operations = keep (λ op. not (is_chosen p o expected_state op)) db.operations },
    )

unfoldable pub delete_operation :
    (profile_id operation_id : String) (expected_state : Option OperationState) → Operations Bool
delete_operation profile_id operation_id expected_state = do
  p ← required_id profile_id
  o ← required_id operation_id
  delete_chosen p o expected_state

unfoldable pub delete_terminal_operations_without_draft : String → Operations ℕ
delete_terminal_operations_without_draft profile_id = do
  p ← required_id profile_id
  λ db. (
    returned (count_if (is_spent p db.drafts) db.operations),
    record db { operations = keep (λ op. not (is_spent p db.drafts op)) db.operations },
  )
