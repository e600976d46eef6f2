-- ===== src/Reextract/Examples.antt =====
-- Runs of the repository of re-extraction operations.
use job_agent.Prelude.{
  ◌≡◌, ◌≢◌, ◌⊎◌, refl, true, none, some, [], ◌∷◌, returned, raised, is_blank, strip,
}
use job_agent.Prelude.Table.{update_where}
use job_agent.Prelude.Sorting.{text_ltb, insert, sort, top}
use job_agent.Models.Profiles.{Profile, ProfileState, ProfileReextractOperation, OperationState}
use job_agent.Models.Database.{Database}
use job_agent.Profiles.{required, get_profile, get_draft_for_operation, get_state}
use job_agent.Reextract.{
  TransitionState, required_id, in_profiles, get_operation, is_unchanged, mark_stale, new_conflict,
  conflict, reconcile_owned, reconcile_found, reconcile_review_ready_to_stale,
  get_latest_operation_for_profile, list_running_operations,
}
use job_agent.Reextract.Claims.{
  Base, get_owned_review_operation_id, get_actionable_operation_id, new_operation, flush_claim,
  write_claim, check_claim, claim_operation,
}
use job_agent.Reextract.Writes.{
  validate_transition, swap_state, transition_running_operation, delete_chosen, delete_operation,
  delete_terminal_operations_without_draft,
}
use job_agent.Reextract.Coherence.{IsCoherent}
use job_agent.Reextract.Requests.{claim, late_claim, transition, after, after_all}
use job_agent.Reextract.Sequences.{after_all-IsCoherent}
use job_agent.Reextract.Swaps.{transition_running_operation-once}
use job_agent.Reextract.Reviews.{
  IsCurrent, staled, AreStaled, reconcile_review_ready_to_stale-found,
}

program : Unit {0}
unfolding update_where text_ltb insert sort top is_blank required get_profile
    get_draft_for_operation get_state required_id in_profiles get_operation is_unchanged mark_stale
    new_conflict reconcile_owned reconcile_found reconcile_review_ready_to_stale
    get_latest_operation_for_profile list_running_operations get_owned_review_operation_id
    get_actionable_operation_id flush_claim write_claim check_claim claim_operation
    validate_transition swap_state transition_running_operation delete_chosen delete_operation
    delete_terminal_operations_without_draft after after_all strip
program = tt

abbrev profile : Profile
profile = record {
  id = "p";
  attachment_id = "cv";
  display_name = "P";
  profile_json = none;
  location = none;
  extraction_version = none;
  source_hash = none;
  state = ProfileState.ready;
  created_at = 1;
  updated_at = 1;
  last_opened_at = 1;
}

abbrev empty : Database
empty = record {
  attachments = "cv" ∷ [];
  profiles = profile ∷ [];
  drafts = [];
  operations = [];
  workspace = none;
  runs = [];
  messages = [];
  conversations = [];
  tailoring_sessions = [];
}

abbrev base : Base
base = record { source_attachment_id = "cv"; profile_updated_at = 1; workspace_updated_at = 2 }

abbrev reviewed : ProfileReextractOperation
reviewed = record (new_operation "o" 5 "p" base) { state = OperationState.review_ready }

abbrev in_review : Database
in_review = record empty { operations = reviewed ∷ [] }

-- A claim, its review, and a second claim, which waits for the review to end.
claimed_twice :
    let first = claim_operation "o" 5 (λ d. d) " p " base empty in
    let ready = transition_running_operation "p" "o" TransitionState.review_ready none 6 first.1 in
    let second = claim_operation "q" 7 (λ d. d) "p" base ready.1 in
    (ready.0 ≡ returned true)
    × (second.0 ≡ raised (conflict "PROFILE_REEXTRACT_IN_PROGRESS" (some "o")))
unfolding program
claimed_twice = (refl, refl)

-- The newest operation comes first.
listed :
    let older = new_operation "a" 5 "p" base in
    let newer = new_operation "b" 6 "q" base in
    (list_running_operations none (record empty { operations = older ∷ newer ∷ [] })).0
    ≡ returned (newer ∷ older ∷ [])
unfolding program
listed = refl

after_all-IsCoherent_example :
    IsCoherent
      (after_all
        ((5, claim "o" "p" base)
          ∷ (6, late_claim "q" "p" base)
          ∷ (7, transition "p" "o" TransitionState.failed (some "E"))
          ∷ (8, late_claim "q" "p" base)
          ∷ [])
        empty).operations
after_all-IsCoherent_example =
    after_all-IsCoherent
      ((5, claim "o" "p" base)
        ∷ (6, late_claim "q" "p" base)
        ∷ (7, transition "p" "o" TransitionState.failed (some "E"))
        ∷ (8, late_claim "q" "p" base)
        ∷ [])
      empty refl

transition_running_operation-once_example :
    let db = record empty { operations = new_operation "o" 5 "p" base ∷ [] } in
    let first = transition_running_operation "p" "o" TransitionState.review_ready none 6 db in
    let second = transition_running_operation "p" "o" TransitionState.failed (some "E") 7 first.1 in
    (second.0 ≢ returned true) × (second.1 ≡ first.1)
unfolding program
transition_running_operation-once_example =
    transition_running_operation-once "p" "o" TransitionState.review_ready TransitionState.failed
      none (some "E") 6 7 (record empty { operations = new_operation "o" 5 "p" base ∷ [] }) refl

reconcile_review_ready_to_stale-found_example :
    let result = reconcile_review_ready_to_stale "p" "o" 9 in_review in
    (((reviewed.state ≢ OperationState.review_ready) ⊎ IsCurrent "p" "o" in_review reviewed)
      × (result ≡ (returned (some reviewed), in_review)))
    ⊎ ((reviewed.state ≡ OperationState.review_ready)
        × (IsCurrent "p" "o" in_review reviewed → ⊥)
        × (result.0 ≡ returned (some (staled 9 reviewed)))
        × (result.1 ≡ record in_review { operations = result.1.operations })
        × AreStaled "p" "o" 9 in_review.operations result.1.operations)
unfolding program
reconcile_review_ready_to_stale-found_example =
    reconcile_review_ready_to_stale-found "p" "o" 9 in_review reviewed refl refl refl
