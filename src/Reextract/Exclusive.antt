-- ===== src/Reextract/Exclusive.antt =====
-- A claim that wins shuts out the later ones.
use job_agent.Prelude.{
  ℕ, String, true, false, not, some, List, ◌≡◌, ◌⊎◌, refl, arith, any, keep, is_blank, strip,
  Outcome, returned, raised, eq_refl,
}
use job_agent.Prelude.Counts.{any-snoc}
use job_agent.Models.Profiles.{ProfileReextractOperation}
use job_agent.Models.Database.{Database}
use job_agent.Reextract.{OperationError, new_conflict, required_id, is_actionable}
use job_agent.Reextract.Claims.{
  Base, new_operation, is_actionable_of, is_spent, get_owned_review_operation_id, flush_claim,
  write_claim, check_claim, claim_operation,
}

flush_claim-any :
    (op : ProfileReextractOperation) (db : Database) (rows : List ProfileReextractOperation)
    (r : ProfileReextractOperation)
    → is_actionable op.state ≡ true
    → (flush_claim op db rows).0 ≡ returned r
    → any (is_actionable_of op.profile_id) (flush_claim op db rows).1.operations ≡ true
unfolding flush_claim
flush_claim-any op db rows r active done =
    ground (arith, any-snoc (is_actionable_of op.profile_id) op rows, eq_refl op.profile_id)

pub claim_accepted :
    (i : String) (now : ℕ) (m : Database → Database) (p : String) (b : Base) (db : Database)
    → is_blank p ≡ false
    → is_blank b.source_attachment_id ≡ false
    → claim_operation i now m p b db ≡ check_claim i now m (strip p) b db
unfolding claim_operation required_id
claim_accepted i now m p b db named sourced = ground arith

pub claim_named :
    (i : String) (now : ℕ) (m : Database → Database) (p : String) (b : Base) (db : Database)
    {r : ProfileReextractOperation}
    → (claim_operation i now m p b db).0 ≡ returned r
    → (is_blank p ≡ false) × (is_blank b.source_attachment_id ≡ false)
unfolding claim_operation required_id
claim_named i now m p b db done = ground arith

pub check_claim-any :
    (i : String) (now : ℕ) (m : Database → Database) (p : String) (b : Base) (db : Database)
    {r : ProfileReextractOperation}
    → (check_claim i now m p b db).0 ≡ returned r
    → any (is_actionable_of p) (check_claim i now m p b db).1.operations ≡ true
unfolding check_claim write_claim
check_claim-any i now m p b db {r} done = ground (
  arith,
  flush_claim-any (new_operation i now p b) (m db)
      (keep (λ op. not (is_spent p (m db).drafts op)) (m db).operations) r refl,
)

-- The claim is refused for a review that the profile has, or for an operation that is under way.
abbrev pub Refused : String → Database → Outcome OperationError ProfileReextractOperation → Type 0
Refused p db result =
    ((review : ProfileReextractOperation) × (get_owned_review_operation_id p db ≡ some review)
      × (result ≡ raised (new_conflict "PROFILE_REVIEW_PENDING" (some review.id))))
    ⊎ ((active : ProfileReextractOperation) × (is_actionable_of p active ≡ true)
        × (result ≡ raised (new_conflict "PROFILE_REEXTRACT_IN_PROGRESS" (some active.id))))
