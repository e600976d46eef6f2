-- ===== src/Reextract/Sequences.antt =====
-- The constraints of the operations hold after every sequence of calls.
use job_agent.Prelude.{ℕ, String, not, Option, none, some, List, [], ◌∷◌, ◌≡◌, arith, strip, first}
use job_agent.Prelude.Text.{strip_idem, is_blank-strip}
use job_agent.Models.Profiles.{ProfileReextractOperation}
use job_agent.Models.Database.{Database}
use job_agent.Profiles.{required, get_profile, get_draft_for_operation}
use job_agent.Reextract.{
  TransitionState, required_id, owned_by, get_operation, mark_stale, in_profiles, reconcile_owned,
  reconcile_found, reconcile_review_ready_to_stale,
}
use job_agent.Reextract.Claims.{Base, check_claim, claim_operation, is_spent}
use job_agent.Reextract.Writes.{
  validate_transition, swap_state, transition_running_operation, is_chosen, delete_chosen,
  delete_operation, delete_terminal_operations_without_draft,
}
use job_agent.Reextract.Coherence.{
  IsCoherent, keep-IsCoherent, stale-IsCoherent, moved-IsCoherent, write_claim-IsCoherent,
}
use job_agent.Reextract.Requests.{
  Request, claim, late_claim, transition, reconcile, delete, delete_spent, elsewhere, after,
  after_all,
}

claim-IsCoherent :
    (i : String) (now : ℕ) (p : String) (b : Base) (db : Database)
    → IsCoherent db.operations
    → IsCoherent (claim_operation i now (λ d. d) p b db).1.operations
unfolding claim_operation check_claim required_id
claim-IsCoherent i now p b db h = ground (arith, write_claim-IsCoherent i now (strip p) b db h)

mark_stale-IsCoherent :
    (p o : String) (now : ℕ) (db : Database)
    → IsCoherent db.operations
    → IsCoherent (mark_stale p o now db).1.operations
unfolding mark_stale get_operation required_id
mark_stale-IsCoherent p o now db h = ground (arith, stale-IsCoherent p o now db.operations h)

reconcile_found-IsCoherent :
    (p o : String) (now : ℕ) (found : Option ProfileReextractOperation) (db : Database)
    → IsCoherent db.operations
    → IsCoherent (reconcile_found p o now found db).1.operations
unfolding reconcile_found reconcile_owned in_profiles get_profile get_draft_for_operation required
reconcile_found-IsCoherent p o now none db h = h
reconcile_found-IsCoherent p o now (some op) db h =
    ground (arith, mark_stale-IsCoherent p o now db h)

reconcile-IsCoherent :
    (p o : String) (now : ℕ) (db : Database)
    → IsCoherent db.operations
    → IsCoherent (reconcile_review_ready_to_stale p o now db).1.operations
unfolding reconcile_review_ready_to_stale get_operation required_id
reconcile-IsCoherent p o now db h = ground (
  arith,
  reconcile_found-IsCoherent (strip p) (strip o) now
      (first (owned_by (strip p) (strip o)) db.operations) db h,
  strip_idem p,
  strip_idem o,
  is_blank-strip p,
  is_blank-strip o,
)

transition-IsCoherent :
    (p o : String) (t : TransitionState) (e : Option String) (now : ℕ) (db : Database)
    → IsCoherent db.operations
    → IsCoherent (transition_running_operation p o t e now db).1.operations
unfolding transition_running_operation validate_transition swap_state required_id
transition-IsCoherent p o TransitionState.review_ready none now db h = ground (
  arith,
  moved-IsCoherent (strip p) (strip o) TransitionState.review_ready now none db.operations,
)
transition-IsCoherent p o TransitionState.review_ready (some c) now db h = ground arith
transition-IsCoherent p o TransitionState.interrupted none now db h = ground arith
transition-IsCoherent p o TransitionState.interrupted (some c) now db h = ground (
  arith,
  moved-IsCoherent (strip p) (strip o) TransitionState.interrupted now (some (strip c))
      db.operations,
)
transition-IsCoherent p o TransitionState.failed none now db h = ground arith
transition-IsCoherent p o TransitionState.failed (some c) now db h = ground (
  arith,
  moved-IsCoherent (strip p) (strip o) TransitionState.failed now (some (strip c)) db.operations,
)
transition-IsCoherent p o TransitionState.stale none now db h = ground arith
transition-IsCoherent p o TransitionState.stale (some c) now db h = ground (
  arith,
  moved-IsCoherent (strip p) (strip o) TransitionState.stale now (some (strip c)) db.operations,
)

after-IsCoherent :
    (now : ℕ) (r : Request) (db : Database)
    → IsCoherent db.operations
    → IsCoherent (after now r db).operations
unfolding after delete_operation delete_chosen delete_terminal_operations_without_draft required_id
after-IsCoherent now (claim i p b) db h = claim-IsCoherent i now p b db h
after-IsCoherent now (late_claim i p b) db h = write_claim-IsCoherent i now p b db h
after-IsCoherent now (transition p o t e) db h = transition-IsCoherent p o t e now db h
after-IsCoherent now (reconcile p o) db h = reconcile-IsCoherent p o now db h
after-IsCoherent now (delete p o s) db h =
    ground (arith, keep-IsCoherent (λ op. not (is_chosen (strip p) (strip o) s op)) db.operations h)
after-IsCoherent now (delete_spent p) db h =
    ground (arith, keep-IsCoherent (λ op. not (is_spent (strip p) db.drafts op)) db.operations h)
after-IsCoherent now (elsewhere d) db h = h

after_all-keeps :
    (requests : List (ℕ × Request)) (db : Database)
    → IsCoherent db.operations
    → IsCoherent (after_all requests db).operations
unfolding after_all
after_all-keeps [] db h = h
after_all-keeps ((now, r) ∷ rest) db h =
    after_all-keeps rest (after now r db) (after-IsCoherent now r db h)

-- From an empty table of operations, after every sequence of claims, late claims, transitions,
-- reconciliations, deletions and changes of the other tables, each at any time and whether it returns
-- or raises: an operation has an error code exactly when it is interrupted, failed or stale, no
-- profile has two operations that are running or ready for review, and no two have the same id.
pub after_all-IsCoherent :
    (requests : List (ℕ × Request)) (db : Database)
    → db.operations ≡ []
    → IsCoherent (after_all requests db).operations
after_all-IsCoherent requests db empty = after_all-keeps requests db (
    rw empty
      (record { coupled = tt; one_actionable = λ p. omega arith; one_id = λ i. omega arith }))
