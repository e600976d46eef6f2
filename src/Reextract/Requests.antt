-- ===== src/Reextract/Requests.antt =====
-- The statements of the repository as data, to speak of every sequence of calls of all sessions.
use job_agent.Prelude.{ℕ, String, Option, List, [], ◌∷◌}
use job_agent.Models.Database.{Database}
use job_agent.Models.Profiles.{OperationState}
use job_agent.Reextract.{TransitionState, reconcile_review_ready_to_stale}
use job_agent.Reextract.Claims.{Base, claim_operation, write_claim}
use job_agent.Reextract.Writes.{
  transition_running_operation, delete_operation, delete_terminal_operations_without_draft,
}

pub data Request : Type 0 where
  claim : (new_id profile_id : String) (base : Base) → Request
  -- The writing part of a claim, whose reads may be as old as one likes.
  late_claim : (new_id profile_id : String) (base : Base) → Request
  transition :
      (profile_id operation_id : String) (to_state : TransitionState) (error_code : Option String)
      → Request
  reconcile : (profile_id operation_id : String) → Request
  delete : (profile_id operation_id : String) (expected_state : Option OperationState) → Request
  delete_spent : (profile_id : String) → Request
  -- Any change of the other tables.
  elsewhere : Database → Request

unfoldable pub after : ℕ → Request → Database → Database
after now (claim i p b) db = (claim_operation i now (λ d. d) p b db).1
after now (late_claim i p b) db = (write_claim i now p b db).1
after now (transition p o t e) db = (transition_running_operation p o t e now db).1
after now (reconcile p o) db = (reconcile_review_ready_to_stale p o now db).1
after now (delete p o s) db = (delete_operation p o s db).1
after now (delete_spent p) db = (delete_terminal_operations_without_draft p db).1
after now (elsewhere d) db = record d { operations = db.operations }

unfoldable pub after_all : List (ℕ × Request) → Database → Database
after_all [] db = db
after_all ((now, r) ∷ rest) db = after_all rest (after now r db)
