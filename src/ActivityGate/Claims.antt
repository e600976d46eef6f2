-- ===== src/ActivityGate/Claims.antt =====
-- The gates and the claims of re-extraction operations agree.
use job_agent.Prelude.{
  ℕ, String, false, not, none, List, [], ◌∷◌, ◌≡◌, ◌≢◌, ◌↔◌, refl, arith, ◌∙◌, ap, sym, any, ◌==◌,
  true, All, is_blank, strip, Bool-cases, inl, inr, returned,
}
use job_agent.Prelude.Counts.{any-keep-false}
use job_agent.Prelude.Sorting.{is_some-top}
use job_agent.Models.Profiles.{ProfileReextractOperation, OperationState}
use job_agent.Models.Database.{Database}
use job_agent.Reextract.{newest_first}
use job_agent.Reextract.Coherence.{has_id}
use job_agent.Reextract.Claims.{
  Base, new_operation, is_spent, is_actionable_of, get_actionable_operation_id, flush_claim,
  is_referenced, write_claim, check_claim, claim_operation,
}
use job_agent.Reextract.Exclusive.{claim_accepted, claim_named, check_claim-any}
use job_agent.ActivityGate.Gates.{
  in_state, assert_profile_reextract_clear, assert_upload_lifecycle_clear,
}
use job_agent.ActivityGate.Steps.{IsStored}
use job_agent.ActivityGate.Upload.{assert_upload_lifecycle_clear_iff}

idle_of_none :
    (p : String) (db : Database)
    → get_actionable_operation_id p db ≡ none
    → any (is_actionable_of p) db.operations ≡ false
unfolding get_actionable_operation_id
idle_of_none p db e = ground (arith, is_some-top newest_first (is_actionable_of p) db.operations)

module _ (i : String) (now : ℕ) (p : String) (base : Base) (db : Database)
    (fresh : any (has_id i) db.operations ≡ false)
    (referenced : is_referenced db (new_operation i now p base) ≡ true) where
  write_claim_fresh :
      any (is_actionable_of p) db.operations ≡ false
      → (write_claim i now p base db).0 ≡ returned (new_operation i now p base)
  unfolding write_claim flush_claim
  write_claim_fresh idle = ground (
    arith,
    any-keep-false (has_id i) (λ op. not (is_spent p db.drafts op)) db.operations fresh,
    any-keep-false (is_actionable_of p) (λ op. not (is_spent p db.drafts op)) db.operations idle,
  )

  check_claim_clear :
      (assert_profile_reextract_clear p db).0 ≡ returned tt
      → (check_claim i now (λ d. d) p base db).0 ≡ returned (new_operation i now p base)
  unfolding check_claim assert_profile_reextract_clear
  check_claim_clear clear = ground (arith, idle_of_none p db, write_claim_fresh)

  clear_of_claim :
      {op : ProfileReextractOperation}
      → (check_claim i now (λ d. d) p base db).0 ≡ returned op
      → (assert_profile_reextract_clear p db).0 ≡ returned tt
  unfolding check_claim assert_profile_reextract_clear
  clear_of_claim claimed = ground arith

-- For the id of a profile that exists, as it is stored, the id of an attachment that exists and a new
-- id of the operation, the gate lets the profile through exactly where a claim with no other writer
-- in between is granted, and what is granted is the new running operation.
pub assert_profile_reextract_clear-claim :
    (i : String) (now : ℕ) (p : String) (base : Base) (db : Database)
    → IsStored p
    → is_blank base.source_attachment_id ≡ false
    → any (has_id i) db.operations ≡ false
    → any (λ r. r.id == p) db.profiles ≡ true
    → any (λ a. a == strip base.source_attachment_id) db.attachments ≡ true
    → ((assert_profile_reextract_clear p db).0 ≡ returned tt)
      ↔ ((claim_operation i now (λ d. d) p base db).0 ≡ returned (new_operation i now p base))
assert_profile_reextract_clear-claim i now p base db stored sourced fresh owned attached =
    let accepted : claim_operation i now (λ d. d) p base db ≡ check_claim i now (λ d. d) p base db =
      claim_accepted i now (λ d. d) p base db stored.named sourced
      ∙ ap (λ q. check_claim i now (λ d. d) q base db) stored.trimmed in
    let referenced : is_referenced db (new_operation i now p base) ≡ true = ground arith in
    rw accepted (
      check_claim_clear i now p base db fresh referenced,
      clear_of_claim i now p base db fresh referenced,
    )

none_actionable :
    (p : String) (ops : List ProfileReextractOperation)
    → any (in_state OperationState.running) ops ≡ false
    → any (in_state OperationState.review_ready) ops ≡ false
    → any (is_actionable_of p) ops ≡ false
none_actionable p [] h k = refl
none_actionable p (op ∷ ops) h k = elim (Bool-cases (is_actionable_of p op)) [
  | inl e ↦ ground arith
  | inr e ↦ ground (arith, none_actionable p ops)
]

-- Once a claim is granted, whatever the other writers did meanwhile, an upload is not let through
-- where the drafts' profile ids are as they are stored.
pub claim_operation-blocks_upload :
    (i : String) (now : ℕ) (m : Database → Database) (p code : String) (base : Base) (db : Database)
    {op : ProfileReextractOperation}
    → (claim_operation i now m p base db).0 ≡ returned op
    → let after = (claim_operation i now m p base db).1 in
      All (λ d. IsStored d.target_profile_id) after.drafts
      → assert_upload_lifecycle_clear code after ≢ (returned tt, after)
claim_operation-blocks_upload i now m p code base db claimed stored passed =
    let (named, sourced) = claim_named i now m p base db claimed in
    let accepted = claim_accepted i now m p base db named sourced in
    let busy = check_claim-any i now m (strip p) base db (sym (ap (λ r. r.0) accepted) ∙ claimed) in
    let after = (claim_operation i now m p base db).1 in
    let clear = (assert_upload_lifecycle_clear_iff code after stored).0 passed in
    let idle = none_actionable (strip p) after.operations clear.running clear.review_ready in
    let same = ap (λ r. any (is_actionable_of (strip p)) r.1.operations) accepted in ground arith
