-- ===== src/ActivityGate/Steps.antt =====
-- What each step of the gate of an upload lets through.
use job_agent.Prelude.{
  String, true, false, ◌&&◌, Option, none, some, ◌≡◌, refl, arith, ◌∙◌, first, any, keep, All,
  is_some, is_none, is_blank, strip, Option-cases, inl, inr, returned, eq_refl,
}
use job_agent.Prelude.Counts.{is_some-first, any-weaken}
use job_agent.Prelude.Sorting.{top, is_some-top, top-holds, top-All, top-any}
use job_agent.Models.Profiles.{Profile, ProfileDraft, OperationState}
use job_agent.Models.Database.{Database}
use job_agent.Profiles.{
  required, targets, profile_by_id, get_profile, get_draft_for_profile, get_incomplete_profile,
}
use job_agent.ActivityGate.{
  is_active, is_generating, is_of, in_session_of, session_of, has_tailoring_activity,
  assert_workspace_idle,
}
use job_agent.ActivityGate.Gates.{
  in_state, oldest_first, oldest_draft_first, targets_ready, in_profiles, block_oldest,
  block_oldest_draft, block_operation, block_review, block_draft_owner, assert_profile_review_clear,
}

-- An id as it is stored.
pub record IsStored (profile_id : String) : Type 0 where
  pub trimmed : strip profile_id ≡ profile_id
  pub named : is_blank profile_id ≡ false

module _ (state : OperationState) (db : Database) where
  pub operation_passes :
      (block_oldest state db).0 ≡ returned tt → any (in_state state) db.operations ≡ false
  unfolding block_operation
  operation_passes passed = ground (arith, is_some-top oldest_first (in_state state) db.operations)

  pub operation_clear :
      any (in_state state) db.operations ≡ false → block_oldest state db ≡ (returned tt, db)
  unfolding block_operation
  operation_clear clear = ground (arith, is_some-top oldest_first (in_state state) db.operations)

module _ (db : Database) where
  review_blocks :
      (draft : ProfileDraft)
      → IsStored draft.target_profile_id
      → targets_ready db.profiles draft ≡ true
      → is_some (first (targets draft.target_profile_id) db.drafts) ≡ true
      → (assert_profile_review_clear draft.target_profile_id "PROFILE_REVIEW_PENDING" db).0
        ≡ returned tt
      → ⊥
  unfolding assert_profile_review_clear in_profiles get_draft_for_profile get_profile required
      block_review
  review_blocks draft stored ready found passed = ground (arith, stored.trimmed, stored.named)

  block_review-reads :
      (profile_id code : String) (draft : Option ProfileDraft) (profile : Option Profile)
      → (block_review profile_id code draft profile db).1 ≡ db
  unfolding block_review
  block_review-reads i code none profile = refl
  block_review-reads i code (some d) none = refl
  block_review-reads i code (some d) (some p) = ground arith

  review_reads :
      (profile_id code : String) → (assert_profile_review_clear profile_id code db).1 ≡ db
  unfolding assert_profile_review_clear in_profiles get_draft_for_profile get_profile required
  review_reads profile_id code = ground (
    arith,
    block_review-reads profile_id code (first (targets (strip profile_id)) db.drafts)
        (profile_by_id (strip profile_id) db.profiles),
  )

  pub draft_reads : (block_oldest_draft db).1 ≡ db
  unfolding block_draft_owner
  draft_reads =
      elim (Option-cases (top oldest_draft_first (keep (targets_ready db.profiles) db.drafts))) [
        | inl e ↦ rw e refl
        | inr (d, e) ↦ rw e (review_reads d.target_profile_id "PROFILE_REVIEW_PENDING")
      ]

  pub operation_reads : (state : OperationState) → (block_oldest state db).1 ≡ db
  unfolding block_operation
  operation_reads state =
      elim (Option-cases (top oldest_first (keep (in_state state) db.operations))) [
        | inl e ↦ rw e refl
        | inr (op, e) ↦ rw e refl
      ]

  pub draft_passes :
      All (λ d. IsStored d.target_profile_id) db.drafts
      → (block_oldest_draft db).0 ≡ returned tt
      → any (targets_ready db.profiles) db.drafts ≡ false
  unfolding block_draft_owner
  draft_passes stored passed =
      elim (Option-cases (top oldest_draft_first (keep (targets_ready db.profiles) db.drafts))) [
        | inl e ↦
            ground (arith, is_some-top oldest_draft_first (targets_ready db.profiles) db.drafts)
        | inr (d, e) ↦
            let found =
              top-any oldest_draft_first (targets d.target_profile_id) (targets_ready db.profiles)
                db.drafts (eq_refl d.target_profile_id) e in
            elim (review_blocks d
              (top-All oldest_draft_first _ (targets_ready db.profiles) db.drafts stored e)
              (top-holds oldest_draft_first (targets_ready db.profiles) db.drafts e)
              (is_some-first (targets d.target_profile_id) db.drafts ∙ found) (rw e at passed)) [ ]
      ]

  pub draft_clear :
      any (targets_ready db.profiles) db.drafts ≡ false → block_oldest_draft db ≡ (returned tt, db)
  unfolding block_draft_owner
  draft_clear clear =
      ground (arith, is_some-top oldest_draft_first (targets_ready db.profiles) db.drafts)

  pub incomplete_lem :
      is_some (get_incomplete_profile db.profiles) ≡ any (λ p. is_none p.profile_json) db.profiles
  unfolding get_incomplete_profile
  incomplete_lem = is_some-first (λ p. is_none p.profile_json) db.profiles

  pub idle_lem :
      (code : String)
      → any (λ r. is_active r.state) db.runs ≡ false
      → any (λ s. is_generating s.state) db.tailoring_sessions ≡ false
      → assert_workspace_idle code db ≡ (returned tt, db)
  unfolding assert_workspace_idle has_tailoring_activity
  idle_lem code runs sessions = ground (
    arith,
    any-weaken (λ r. is_active r.state)
        (λ r. is_active r.state && in_session_of none (session_of db r)) db.runs
        (λ r e. ground arith) runs,
    any-weaken (λ s. is_generating s.state) (λ s. is_generating s.state && is_of none s)
        db.tailoring_sessions (λ s e. ground arith) sessions,
  )
