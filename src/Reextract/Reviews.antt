-- ===== src/Reextract/Reviews.antt =====
-- What `reconcile_review_ready_to_stale` of backend/app/repositories/profile_reextract_operations.py
-- keeps and what it sets to stale.
use job_agent.Prelude.{
  ℕ, String, true, false, not, ◌||◌, Option, none, some, List, [], ◌∷◌, ◌==◌, ◌≡◌, ◌≢◌, ◌↔◌, ◌⊎◌,
  refl, ap, arith, first, is_blank, strip, eq_iff, IsIn, Bool-cases, inl, inr, returned,
}
use job_agent.Prelude.Members.{any-IsIn, any_of_IsIn}
use job_agent.Prelude.Counts.{is_some-first}
use job_agent.Prelude.Table.{update_where, some-inj}
use job_agent.Models.Profiles.{
  Profile, ProfileDraft, ProfileReextractOperation, OperationState, WorkspaceState, same_state,
}
use job_agent.Models.Database.{Database}
use job_agent.Profiles.{profile_by_id, is_review_of, equals_text}
use job_agent.Reextract.{
  owned_by, is_open_review, as_stale, is_unchanged, reconcile_review_ready_to_stale,
}
use job_agent.Reextract.Reconcile.{is_current, reconcile-kept, reconcile-changed}

-- The review has its draft, its profile has the time that the claim read, and the workspace has the
-- time that the claim read and the profile as its active one.
pub record IsCurrent (p o : String) (db : Database) (op : ProfileReextractOperation) : Type 0 where
  pub draft : ProfileDraft
  pub profile : Profile
  pub workspace : WorkspaceState
  pub present : IsIn draft db.drafts
  pub drafts_profile : draft.target_profile_id ≡ p
  pub drafts_operation : draft.reextract_operation_id ≡ some o
  pub profile_found : first (λ r. r.id == p) db.profiles ≡ some profile
  pub profile_time : profile.updated_at ≡ op.base_profile_updated_at
  pub workspace_found : db.workspace ≡ some workspace
  pub active : workspace.active_profile_id ≡ some p
  pub workspace_time : workspace.updated_at ≡ op.base_workspace_updated_at

-- The row that is stored for a review that is set to stale.
abbrev pub staled : ℕ → ProfileReextractOperation → ProfileReextractOperation
staled now op = record {
  id = op.id;
  profile_id = op.profile_id;
  source_attachment_id = op.source_attachment_id;
  base_profile_updated_at = op.base_profile_updated_at;
  base_workspace_updated_at = op.base_workspace_updated_at;
  state = OperationState.stale;
  error_code = some "PROFILE_REEXTRACT_STALE";
  created_at = op.created_at;
  updated_at = now;
}

-- Row for row: a row with the two ids that is ready for review is set to stale, and no other changes.
abbrev pub AreStaled :
    String → String → ℕ → List ProfileReextractOperation → List ProfileReextractOperation → Type 0
AreStaled p o now [] [] = Unit
AreStaled p o now (x ∷ xs) (y ∷ ys) =
    (((x.profile_id ≡ p)
        × (x.id ≡ o)
        × (x.state ≡ OperationState.review_ready)
        × (y ≡ staled now x))
      ⊎ (((x.profile_id ≢ p) ⊎ (x.id ≢ o) ⊎ (x.state ≢ OperationState.review_ready)) × (y ≡ x)))
    × AreStaled p o now xs ys
AreStaled p o now _ _ = ⊥

review_ready_iff :
    (s : OperationState)
    → (same_state s OperationState.review_ready ≡ true) ↔ (s ≡ OperationState.review_ready)
review_ready_iff OperationState.running = (λ h. cc, λ h. cc)
review_ready_iff OperationState.review_ready = (λ h. refl, λ h. refl)
review_ready_iff OperationState.interrupted = (λ h. cc, λ h. cc)
review_ready_iff OperationState.failed = (λ h. cc, λ h. cc)
review_ready_iff OperationState.stale = (λ h. cc, λ h. cc)

equals_text_iff : (a : Option String) (t : String) → (equals_text a t ≡ true) ↔ (a ≡ some t)
equals_text_iff none t = (λ h. cc, λ h. cc)
equals_text_iff (some s) t = (λ h. ap some ((eq_iff s t).0 h), λ h. (eq_iff s t).1 (some-inj h))

not_review_ready :
    (s : OperationState)
    → same_state s OperationState.review_ready ≡ false
    → s ≢ OperationState.review_ready
not_review_ready s h e = cc (h, (review_ready_iff s).1 e)

differs : (s t : String) → (s == t) ≡ false → s ≢ t
differs s t h e = cc (h, (eq_iff s t).1 e)

update-AreStaled :
    (p o : String) (now : ℕ) (ops : List ProfileReextractOperation)
    → AreStaled p o now ops (update_where (is_open_review p o) (as_stale now) ops)
unfolding update_where
update-AreStaled p o now [] = tt
update-AreStaled p o now (x ∷ xs) = elim (Bool-cases (is_open_review p o x)) [
  | inl e ↦ rw e (
    inl (
      (eq_iff x.profile_id p).0 (ground arith),
      (eq_iff x.id o).0 (ground arith),
      (review_ready_iff x.state).0 (ground arith),
      refl,
    ),
    update-AreStaled p o now xs,
  )
  | inr e ↦
      let why : (x.profile_id ≢ p) ⊎ (x.id ≢ o) ⊎ (x.state ≢ OperationState.review_ready) =
        elim (Bool-cases (x.profile_id == p)) [
          | inr d ↦ inl (differs x.profile_id p d)
          | inl c ↦ elim (Bool-cases (x.id == o)) [
            | inr d ↦ inr (inl (differs x.id o d))
            | inl d ↦ inr (inr (not_review_ready x.state (ground arith)))
          ]
        ] in
      rw e (inr (why, refl), update-AreStaled p o now xs)
]

unchanged_iff :
    (p : String) (found : Option Profile) (place : Option WorkspaceState)
    (op : ProfileReextractOperation)
    → is_unchanged p found place op ≡ true
    → (profile : Profile) × (workspace : WorkspaceState) × (found ≡ some profile)
      × (place ≡ some workspace)
      × (profile.updated_at ≡ op.base_profile_updated_at)
      × (workspace.active_profile_id ≡ some p)
      × (workspace.updated_at ≡ op.base_workspace_updated_at)
unfolding is_unchanged
unchanged_iff p none place op h = cc
unchanged_iff p (some profile) none op h = cc
unchanged_iff p (some profile) (some workspace) op h = (
  profile,
  workspace,
  refl,
  refl,
  ground arith,
  (equals_text_iff workspace.active_profile_id p).0 (ground arith),
  ground arith,
)

to_current_review :
    (p o : String) (db : Database) (op : ProfileReextractOperation)
    → is_current p o db op ≡ true
    → IsCurrent p o db op
to_current_review p o db op h =
    let (draft, present, fits) =
      any-IsIn (is_review_of p o) db.drafts
        (ground (arith, is_some-first (is_review_of p o) db.drafts)) in
    let (profile, workspace, found, place, time, active, place_time) =
      unchanged_iff p (profile_by_id p db.profiles) db.workspace op (ground arith) in
    record {
      draft = draft;
      profile = profile;
      workspace = workspace;
      present = present;
      drafts_profile = (eq_iff draft.target_profile_id p).0 (ground arith);
      drafts_operation = (equals_text_iff draft.reextract_operation_id o).0 (ground arith);
      profile_found = found;
      profile_time = time;
      workspace_found = place;
      active = active;
      workspace_time = place_time;
    }

of_current_review :
    (p o : String) (db : Database) (op : ProfileReextractOperation)
    → IsCurrent p o db op
    → is_current p o db op ≡ true
unfolding is_unchanged
of_current_review p o db op h =
    let fits : is_review_of p o h.draft ≡ true = ground (
      arith,
      (eq_iff h.draft.target_profile_id p).1 h.drafts_profile,
      (equals_text_iff h.draft.reextract_operation_id o).1 h.drafts_operation,
    ) in
    let drafted = any_of_IsIn (is_review_of p o) h.draft db.drafts h.present fits in
    let active = (equals_text_iff h.workspace.active_profile_id p).1 h.active in
    let unchanged : is_unchanged p (profile_by_id p db.profiles) db.workspace op ≡ true =
      rw (h.profile_found, h.workspace_found)
        (ground (arith, active, h.profile_time, h.workspace_time)) in
    ground (arith, is_some-first (is_review_of p o) db.drafts)

-- A reconciliation of an operation that the ids find. Either the operation is not ready for review or
-- it is current: it is answered as it is and nothing changes. Or it is ready for review and not
-- current: it is answered as stale, with the code PROFILE_REEXTRACT_STALE and the time of the call;
-- every row of the operations with the two ids that is ready for review is so set to stale, and
-- nothing else changes.
pub reconcile_review_ready_to_stale-found :
    (p o : String) (now : ℕ) (db : Database) (op : ProfileReextractOperation)
    → is_blank p ≡ false
    → is_blank o ≡ false
    → first (owned_by (strip p) (strip o)) db.operations ≡ some op
    → let result = reconcile_review_ready_to_stale p o now db in
      (((op.state ≢ OperationState.review_ready) ⊎ IsCurrent (strip p) (strip o) db op)
        × (result ≡ (returned (some op), db)))
      ⊎ ((op.state ≡ OperationState.review_ready)
          × (IsCurrent (strip p) (strip o) db op → ⊥)
          × (result.0 ≡ returned (some (staled now op)))
          × (result.1 ≡ record db { operations = result.1.operations })
          × AreStaled (strip p) (strip o) now db.operations result.1.operations)
reconcile_review_ready_to_stale-found p o now db op named_p named_o found =
    let current = is_current (strip p) (strip o) db op in
    elim (Bool-cases (not (same_state op.state OperationState.review_ready) || current)) [
      | inl e ↦ inl (
        elim (Bool-cases current) [
          | inl c ↦ inr (to_current_review (strip p) (strip o) db op c)
          | inr c ↦ inl (not_review_ready op.state (ground arith))
        ],
        reconcile-kept p o now db op named_p named_o found e,
      )
      | inr e ↦
          let changed = reconcile-changed p o now db op named_p named_o found e in
          rw changed (
            inr (
              (review_ready_iff op.state).0 (ground arith),
              (λ c. let k = of_current_review (strip p) (strip o) db op c in ground arith),
              refl,
              refl,
              update-AreStaled (strip p) (strip o) now db.operations,
            ))
    ]
