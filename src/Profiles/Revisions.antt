-- ===== src/Profiles/Revisions.antt =====
-- The revision check of a draft's deletion.
use job_agent.Prelude.{
  ℕ, String, true, false, not, none, some, ◌==◌, ◌≡◌, ◌⊎◌, arith, eq_refl, first, eqb, is_blank,
  strip, Bool-cases, inl, inr, returned,
}
use job_agent.Prelude.Counts.{first-keep-none}
use job_agent.Prelude.Text.{strip_idem, is_blank-strip}
use job_agent.Models.Profiles.{ProfileDraft}
use job_agent.Models.Database.{Database}
use job_agent.Profiles.{required, targets, get_draft_for_profile}
use job_agent.Profiles.Drafts.{required_if_set, delete_found, delete_draft_for_profile}
use job_agent.Profiles.Constraints.{AreCoherent}

delete_split :
    (p : String) (rev : ℕ) (db : Database)
    → is_blank p ≡ false
    → delete_draft_for_profile p (some rev) none db
      ≡ delete_found (some rev) none (first (targets (strip p)) db.drafts) db
unfolding delete_draft_for_profile get_draft_for_profile required required_if_set
delete_split p rev db named = ground (arith, strip_idem p, is_blank-strip p)

-- Where no profile has two drafts, a deletion with an expected revision deletes the draft of the
-- profile, so that it has none, if the draft has this revision, and else answers `false` and changes
-- nothing.
pub delete_draft_for_profile-revision :
    (p : String) (rev : ℕ) (row : ProfileDraft) (db : Database)
    → is_blank p ≡ false
    → AreCoherent db.drafts
    → first (targets (strip p)) db.drafts ≡ some row
    → let result = delete_draft_for_profile p (some rev) none db in
      ((row.updated_at ≡ rev)
        × (result.0 ≡ returned true)
        × (first (targets (strip p)) result.1.drafts ≡ none))
      ⊎ ((eqb row.updated_at rev ≡ false) × (result ≡ (returned false, db)))
unfolding delete_found
delete_draft_for_profile-revision p rev row db named h found =
    elim (Bool-cases (eqb row.updated_at rev)) [
      | inr e ↦ inr (e, ground (arith, delete_split p rev db named))
      | inl e ↦
          let gone =
            first-keep-none (targets (strip p)) (λ d. not (d.id == row.id)) row db.drafts found
              (h.one_target (strip p)) (ground (arith, eq_refl row.id)) in
          inl (
            ground arith,
            ground (arith, delete_split p rev db named),
            ground (arith, delete_split p rev db named),
          )
    ]
