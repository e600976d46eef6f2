-- ===== src/Reextract/Claims.antt =====
-- backend/app/repositories/profile_reextract_operations.py: `claim_operation` and its two reads.
use job_agent.Prelude.{
  ℕ, String, Bool, not, ◌&&◌, Option, none, some, List, [], ◌∷◌, ◌++◌, ◌==◌, keep, any, strip,
  if◌then◌else◌, Outcome, returned, raised, ◌>>=◌,
}
use job_agent.Prelude.Sorting.{top}
use job_agent.Models.Profiles.{ProfileDraft, OperationState, ProfileReextractOperation}
use job_agent.Models.Database.{Database}
use job_agent.Profiles.{equals_text, is_review_of}
use job_agent.Reextract.{
  OperationError, integrity_error, Operations, is_terminal, is_actionable, new_conflict,
  required_id, newest_first,
}

-- The queries for an id answer its row. `_get_owned_review_operation_id`: the join of the drafts with the operations they name.
abbrev pub owns_review : String → List ProfileDraft → ProfileReextractOperation → Bool
owns_review profile_id drafts op = any (is_review_of profile_id op.id) drafts

unfoldable pub get_owned_review_operation_id : String → Database → Option ProfileReextractOperation
get_owned_review_operation_id profile_id db =
    top newest_first (keep (owns_review profile_id db.drafts) db.operations)

abbrev pub is_actionable_of : String → ProfileReextractOperation → Bool
is_actionable_of profile_id op = op.profile_id == profile_id && is_actionable op.state

unfoldable pub get_actionable_operation_id : String → Database → Option ProfileReextractOperation
get_actionable_operation_id profile_id db =
    top newest_first (keep (is_actionable_of profile_id) db.operations)

-- `exists().where(ProfileDraft.reextract_operation_id == ProfileReextractOperation.id)`
abbrev pub has_draft : List ProfileDraft → ProfileReextractOperation → Bool
has_draft drafts op = any (λ d. equals_text d.reextract_operation_id op.id) drafts

-- A finished operation of the profile that no draft names.
abbrev pub is_spent : String → List ProfileDraft → ProfileReextractOperation → Bool
is_spent profile_id drafts op =
    op.profile_id == profile_id && is_terminal op.state && not (has_draft drafts op)

-- What the caller of a claim has read.
pub record Base : Type 0 where
  pub source_attachment_id : String
  pub profile_updated_at : ℕ
  pub workspace_updated_at : ℕ

abbrev pub new_operation : String → ℕ → String → Base → ProfileReextractOperation
new_operation new_id now profile_id base = record {
  id = new_id;
  profile_id = profile_id;
  source_attachment_id = strip base.source_attachment_id;
  base_profile_updated_at = base.profile_updated_at;
  base_workspace_updated_at = base.workspace_updated_at;
  state = OperationState.running;
  error_code = none;
  created_at = now;
  updated_at = now;
}

-- The rows that the foreign keys of an operation name.
abbrev pub is_referenced : Database → ProfileReextractOperation → Bool
is_referenced db op =
    any (λ r. r.id == op.profile_id) db.profiles
    && any (λ i. i == op.source_attachment_id) db.attachments

-- The flush: a new row is refused on the primary key, on a foreign key or on the partial unique index
-- of the actionable operations, which `is_actionable_operation_unique_conflict` tells from the other
-- errors; SQLite checks the indexes first.
-- A failed flush rolls the transaction back.
unfoldable pub flush_claim :
    ProfileReextractOperation
    → Database
    → List ProfileReextractOperation
    → Outcome OperationError ProfileReextractOperation × Database
flush_claim op db rows =
    if any (λ r. r.id == op.id) rows
    then (raised integrity_error, db)
    else if any (is_actionable_of op.profile_id) rows
    then (raised (new_conflict "PROFILE_REEXTRACT_IN_PROGRESS" none), db)
    else if not (is_referenced db op)
    then (raised integrity_error, db)
    else (returned op, record db { operations = rows ++ op ∷ [] })

-- The statements of a claim that write: the delete of the spent operations, and the flush.
unfoldable pub write_claim : String → ℕ → String → Base → Operations ProfileReextractOperation
write_claim new_id now profile_id base db =
    flush_claim (new_operation new_id now profile_id base) db
      (keep (λ op. not (is_spent profile_id db.drafts op)) db.operations)

-- The two reads of a claim, and what follows in the database that the writers in between leave.
unfoldable pub check_claim :
    String → ℕ → (Database → Database) → String → Base → Operations ProfileReextractOperation
check_claim new_id now meanwhile p base db = elim (get_owned_review_operation_id p db) [
  | some review ↦ (raised (new_conflict "PROFILE_REVIEW_PENDING" (some review.id)), db)
  | none ↦ elim (get_actionable_operation_id p db) [
    | some active ↦ (raised (new_conflict "PROFILE_REEXTRACT_IN_PROGRESS" (some active.id)), db)
    | none ↦ write_claim new_id now p base (meanwhile db)
  ]
]

unfoldable pub claim_operation :
    (new_id : String) (now : ℕ) (meanwhile : Database → Database) (profile_id : String)
    (base : Base)
    → Operations ProfileReextractOperation
claim_operation new_id now meanwhile profile_id base = do
  p ← required_id profile_id
  source ← required_id base.source_attachment_id
  check_claim new_id now meanwhile p base
