-- ===== src/Reextract/Reconcile.antt =====
-- What `reconcile_review_ready_to_stale` answers, and that it settles at once.
use job_agent.Prelude.{
  ℕ, String, Bool, true, false, not, ◌&&◌, ◌||◌, none, some, ◌≡◌, refl, arith, ap, ◌∙◌, first,
  is_some, is_blank, strip, Bool-cases, Option-cases, inl, inr, returned, raised, if◌then◌else◌,
}
use job_agent.Prelude.Text.{strip_idem, is_blank-strip}
use job_agent.Prelude.Table.{update_where, first-update_where, first-holds}
use job_agent.Models.Profiles.{ProfileReextractOperation, OperationState, same_state}
use job_agent.Models.Database.{Database}
use job_agent.Profiles.{
  required, profile_by_id, is_review_of, get_profile, get_draft_for_operation, get_state,
}
use job_agent.Reextract.{
  invalid_input, required_id, owned_by, in_profiles, get_operation, is_open_review, as_stale,
  mark_stale, is_unchanged, reconcile_owned, reconcile_found, reconcile_review_ready_to_stale,
}

-- The review's draft exists, and the profile and the workspace are those of the claim.
abbrev pub is_current : String → String → Database → ProfileReextractOperation → Bool
is_current p o db op =
    is_some (first (is_review_of p o) db.drafts)
    && is_unchanged p (profile_by_id p db.profiles) db.workspace op

abbrev pub with_stale : String → String → ℕ → Database → Database
with_stale p o now db = record db {
  operations = update_where (is_open_review p o) (as_stale now) db.operations;
}

module _ (p o : String) (p_clean : strip p ≡ p) (o_clean : strip o ≡ o)
    (p_named : is_blank p ≡ false) (o_named : is_blank o ≡ false) where
  get_operation_lem :
      (db : Database) → get_operation p o db ≡ (returned (first (owned_by p o) db.operations), db)
  unfolding get_operation required_id
  get_operation_lem db = ground arith

  found_after :
      (now : ℕ) (db : Database) (op : ProfileReextractOperation)
      → first (owned_by p o) db.operations ≡ some op
      → same_state op.state OperationState.review_ready ≡ true
      → first (owned_by p o) (with_stale p o now db).operations ≡ some (as_stale now op)
  found_after now db op found opened = ground (
    arith,
    first-update_where (owned_by p o) (is_open_review p o) (as_stale now) db.operations
        (λ x e. refl),
    first-holds (owned_by p o) db.operations found,
  )

  reconcile_found_lem :
      (now : ℕ) (db : Database) (op : ProfileReextractOperation)
      → first (owned_by p o) db.operations ≡ some op
      → reconcile_found p o now (some op) db ≡ (
          if not (same_state op.state OperationState.review_ready) || is_current p o db op
          then (returned (some op), db)
          else (returned (some (as_stale now op)), with_stale p o now db))
  unfolding reconcile_found reconcile_owned mark_stale in_profiles get_profile
      get_draft_for_operation required get_state is_unchanged
  reconcile_found_lem now db op found =
      ground (arith, get_operation_lem (with_stale p o now db), found_after now db op)

reconcile_split :
    (p o : String) (now : ℕ) (db : Database)
    → is_blank p ≡ false
    → is_blank o ≡ false
    → reconcile_review_ready_to_stale p o now db
      ≡ reconcile_found
          (strip p)
          (strip o)
          now
          (first (owned_by (strip p) (strip o)) db.operations)
          db
unfolding reconcile_review_ready_to_stale required_id
reconcile_split p o now db named_p named_o = ground (
  arith,
  get_operation_lem (strip p) (strip o) (strip_idem p) (strip_idem o) (is_blank-strip p ∙ named_p)
      (is_blank-strip o ∙ named_o) db,
)

module _ (p o : String) (now : ℕ) (db : Database) where
  -- An operation that the ids find is answered as it is if it is not ready for review, or if its
  -- draft is there and neither its profile nor the selection of the workspace has changed since the
  -- claim; else it is set to stale, with the code and the time of the call, and nothing else changes.
  reconcile_review_ready_to_stale_lem :
      (op : ProfileReextractOperation)
      → is_blank p ≡ false
      → is_blank o ≡ false
      → first (owned_by (strip p) (strip o)) db.operations ≡ some op
      → reconcile_review_ready_to_stale p o now db ≡ (
          if not (same_state op.state OperationState.review_ready)
            || is_current (strip p) (strip o) db op
          then (returned (some op), db)
          else (returned (some (as_stale now op)), with_stale (strip p) (strip o) now db))
  reconcile_review_ready_to_stale_lem op named_p named_o found =
      reconcile_split p o now db named_p named_o
      ∙ ap (λ f. reconcile_found (strip p) (strip o) now f db) found
      ∙ reconcile_found_lem (strip p) (strip o) (strip_idem p) (strip_idem o)
          (is_blank-strip p ∙ named_p) (is_blank-strip o ∙ named_o) now db op found

  reconcile-none :
      is_blank p ≡ false
      → is_blank o ≡ false
      → first (owned_by (strip p) (strip o)) db.operations ≡ none
      → reconcile_review_ready_to_stale p o now db ≡ (returned none, db)
  unfolding reconcile_found
  reconcile-none named_p named_o missing =
      reconcile_split p o now db named_p named_o
      ∙ ap (λ f. reconcile_found (strip p) (strip o) now f db) missing

  reconcile-blank :
      (is_blank p || is_blank o) ≡ true
      → reconcile_review_ready_to_stale p o now db ≡ (raised invalid_input, db)
  unfolding reconcile_review_ready_to_stale required_id
  reconcile-blank blank = ground arith

pub reconcile-kept :
    (p o : String) (now : ℕ) (db : Database) (op : ProfileReextractOperation)
    → is_blank p ≡ false
    → is_blank o ≡ false
    → first (owned_by (strip p) (strip o)) db.operations ≡ some op
    → (not (same_state op.state OperationState.review_ready)
        || is_current (strip p) (strip o) db op)
      ≡ true
    → reconcile_review_ready_to_stale p o now db ≡ (returned (some op), db)
reconcile-kept p o now db op named_p named_o found e =
    reconcile_review_ready_to_stale_lem p o now db op named_p named_o found
    ∙ ap
        (λ b.
          if b
          then (returned (some op), db)
          else (returned (some (as_stale now op)), with_stale (strip p) (strip o) now db))
        e

pub reconcile-changed :
    (p o : String) (now : ℕ) (db : Database) (op : ProfileReextractOperation)
    → is_blank p ≡ false
    → is_blank o ≡ false
    → first (owned_by (strip p) (strip o)) db.operations ≡ some op
    → (not (same_state op.state OperationState.review_ready)
        || is_current (strip p) (strip o) db op)
      ≡ false
    → reconcile_review_ready_to_stale p o now db
      ≡ (returned (some (as_stale now op)), with_stale (strip p) (strip o) now db)
reconcile-changed p o now db op named_p named_o found e =
    reconcile_review_ready_to_stale_lem p o now db op named_p named_o found
    ∙ ap
        (λ b.
          if b
          then (returned (some op), db)
          else (returned (some (as_stale now op)), with_stale (strip p) (strip o) now db))
        e

reconcile-settled :
    (p o : String) (now now' : ℕ) (db : Database) (op : ProfileReextractOperation)
    → is_blank p ≡ false
    → is_blank o ≡ false
    → first (owned_by (strip p) (strip o)) db.operations ≡ some op
    → let once = reconcile_review_ready_to_stale p o now db in
      reconcile_review_ready_to_stale p o now' once.1 ≡ once
reconcile-settled p o now now' db op named_p named_o found =
    elim (Bool-cases (
      not (same_state op.state OperationState.review_ready)
      || is_current (strip p) (strip o) db op)) [
        | inl e ↦
            rw (reconcile-kept p o now db op named_p named_o found e)
              (reconcile-kept p o now' db op named_p named_o found e)
        | inr e ↦
            let shown =
              found_after (strip p) (strip o) (strip_idem p) (strip_idem o)
                (is_blank-strip p ∙ named_p) (is_blank-strip o ∙ named_o) now db op found
                (ground arith) in
            rw (reconcile-changed p o now db op named_p named_o found e) (
              reconcile-kept p o now' (with_stale (strip p) (strip o) now db) (as_stale now op)
                named_p named_o shown refl)
      ]

-- A second reconciliation, at any later time, gives the answer of the first and changes nothing.
pub reconcile_review_ready_to_stale_idem :
    (p o : String) (now now' : ℕ) (db : Database)
    → let once = reconcile_review_ready_to_stale p o now db in
      reconcile_review_ready_to_stale p o now' once.1 ≡ once
reconcile_review_ready_to_stale_idem p o now now' db =
    elim (Bool-cases (is_blank p || is_blank o)) [
      | inl e ↦ rw (reconcile-blank p o now db e) (reconcile-blank p o now' db e)
      | inr e ↦
          let named_p : is_blank p ≡ false = ground arith in
          let named_o : is_blank o ≡ false = ground arith in
          elim (Option-cases (first (owned_by (strip p) (strip o)) db.operations)) [
            | inl missing ↦
                rw (reconcile-none p o now db named_p named_o missing)
                  (reconcile-none p o now' db named_p named_o missing)
            | inr (op, found) ↦ reconcile-settled p o now now' db op named_p named_o found
          ]
    ]
