-- ===== src/ActivityGate/Upload.antt =====
-- The gate of an upload passes exactly where nothing is under way.
use job_agent.Prelude.{
  String, false, ◌&&◌, none, ◌≡◌, ◌↔◌, refl, arith, ap, any, All, is_none, returned, ◌>>◌,
}
use job_agent.Prelude.Counts.{any-weaken}
use job_agent.Models.Profiles.{OperationState}
use job_agent.Models.Database.{Database}
use job_agent.ActivityGate.{is_active, is_generating, is_of, Gate, assert_workspace_idle}
use job_agent.ActivityGate.Gates.{
  in_state, targets_ready, block_oldest, block_oldest_draft, block_incomplete,
  assert_upload_lifecycle_clear,
}
use job_agent.ActivityGate.Order.{workspace_lem}
use job_agent.ActivityGate.Steps.{
  IsStored, operation_passes, operation_clear, draft_reads, operation_reads, draft_passes,
  draft_clear, incomplete_lem, idle_lem,
}

-- No operation is running or waits for its review, no ready profile has a draft, no profile is
-- incomplete, and the workspace is idle.
pub record IsClear (db : Database) : Type 0 where
  pub running : any (in_state OperationState.running) db.operations ≡ false
  pub draft : any (targets_ready db.profiles) db.drafts ≡ false
  pub review_ready : any (in_state OperationState.review_ready) db.operations ≡ false
  pub incomplete : any (λ p. is_none p.profile_json) db.profiles ≡ false
  pub run : any (λ r. is_active r.state) db.runs ≡ false
  pub generation : any (λ s. is_generating s.state) db.tailoring_sessions ≡ false

-- A gate that reads only, and then another one.
then_passes :
    (m n : Gate) (db : Database)
    → (m db).1 ≡ db
    → (m >> n) db ≡ (returned tt, db)
    → ((m db).0 ≡ returned tt) × (n db ≡ (returned tt, db))
then_passes m n db reads passed = ground arith

then_clear :
    (m n : Gate) (db : Database)
    → m db ≡ (returned tt, db)
    → n db ≡ (returned tt, db)
    → (m >> n) db ≡ (returned tt, db)
then_clear m n db passes rest = rw passes rest

module _ (code : String) (db : Database) where
  abbrev last_steps : Gate
  last_steps = block_incomplete >> assert_workspace_idle code

  abbrev late_steps : Gate
  late_steps = block_oldest OperationState.review_ready >> last_steps

  upload_steps :
      assert_upload_lifecycle_clear code
      ≡ (block_oldest OperationState.running >> (block_oldest_draft >> late_steps))
  unfolding assert_upload_lifecycle_clear
  upload_steps = refl

  last_passes :
      last_steps db ≡ (returned tt, db)
      → (any (λ p. is_none p.profile_json) db.profiles ≡ false)
        × (any (λ r. is_active r.state) db.runs ≡ false)
        × (any (λ s. is_generating s.state && is_of none s) db.tailoring_sessions ≡ false)
  last_passes passed =
      let (first_passed, rest) =
        then_passes block_incomplete (assert_workspace_idle code) db (ground arith) passed in
      let (runs, sessions) = workspace_lem db code (ap (λ r. r.0) rest) in
      (ground (arith, incomplete_lem db), runs, sessions)

  last_clear : IsClear db → last_steps db ≡ (returned tt, db)
  last_clear clear =
      then_clear block_incomplete (assert_workspace_idle code) db
        (ground (arith, incomplete_lem db, clear.incomplete))
        (idle_lem db code clear.run clear.generation)

  upload_passes :
      All (λ d. IsStored d.target_profile_id) db.drafts
      → (block_oldest OperationState.running >> (block_oldest_draft >> late_steps)) db
        ≡ (returned tt, db)
      → IsClear db
  upload_passes stored passed =
      let (no_running, after_running) =
        then_passes (block_oldest OperationState.running) (block_oldest_draft >> late_steps) db
          (operation_reads db OperationState.running) passed in
      let (no_draft, after_draft) =
        then_passes block_oldest_draft late_steps db (draft_reads db) after_running in
      let (no_review, after_review) =
        then_passes (block_oldest OperationState.review_ready) last_steps db
          (operation_reads db OperationState.review_ready) after_draft in
      let (complete, runs, sessions) = last_passes after_review in
      record {
        running = operation_passes OperationState.running db no_running;
        draft = draft_passes db stored no_draft;
        review_ready = operation_passes OperationState.review_ready db no_review;
        incomplete = complete;
        run = runs;
        generation =
            any-weaken (λ s. is_generating s.state && is_of none s) (λ s. is_generating s.state)
              db.tailoring_sessions (λ s e. ground arith) sessions;
      }

  upload_clear :
      IsClear db
      → (block_oldest OperationState.running >> (block_oldest_draft >> late_steps)) db
        ≡ (returned tt, db)
  upload_clear clear =
      then_clear (block_oldest OperationState.running) (block_oldest_draft >> late_steps) db
        (operation_clear OperationState.running db clear.running)
        (then_clear block_oldest_draft late_steps db (draft_clear db clear.draft) (
          then_clear (block_oldest OperationState.review_ready) last_steps db
            (operation_clear OperationState.review_ready db clear.review_ready) (last_clear clear)))

-- Where the drafts' profile ids are as they are stored, an upload is let through exactly if no
-- operation is running or waits for its review, no ready profile has a draft, no profile is
-- incomplete, and no run or generation is active; and then nothing changes.
pub assert_upload_lifecycle_clear_iff :
    (code : String) (db : Database)
    → All (λ d. IsStored d.target_profile_id) db.drafts
    → (assert_upload_lifecycle_clear code db ≡ (returned tt, db)) ↔ IsClear db
assert_upload_lifecycle_clear_iff code db stored =
    rw (upload_steps code db) (upload_passes code db stored, upload_clear code db)
