-- ===== src/Profiles/Examples.antt =====
-- Runs of the profile repository.
use job_agent.Prelude.{◌≡◌, refl, none, some, [], ◌∷◌, raised, is_blank, strip}
use job_agent.Prelude.Table.{put_first}
use job_agent.Models.Json.{no_fields}
use job_agent.Models.Profiles.{ProfileState, Profile, ProfileDraft}
use job_agent.Models.Database.{Database}
use job_agent.Profiles.{
  profile_repository_error, profile_integrity_error, required, get_profile, get_draft_for_profile,
}
use job_agent.Profiles.Drafts.{
  required_if_set, DraftValues, new_draft, flush_changed, change_draft, is_owned, insert_draft,
  create_draft, save_draft, upsert_draft_for_profile, delete_found, delete_draft_for_profile,
}
use job_agent.Profiles.Constraints.{AreCoherent}
use job_agent.Profiles.Requests.{upsert, delete, after, after_all, after_all-AreCoherent}
use job_agent.Profiles.Rows.{
  insert_profile, create_pending_profile, create_profile, rename, update_display_name,
}
use job_agent.Profiles.Complete
use job_agent.Profiles.Complete.{AreValid, create_pending, create, change_name, after_all-AreValid}

program : Unit {0}
unfolding put_first is_blank strip required get_profile get_draft_for_profile required_if_set
    flush_changed change_draft is_owned insert_draft create_draft save_draft
    upsert_draft_for_profile delete_found delete_draft_for_profile insert_profile
    create_pending_profile create_profile rename update_display_name after after_all
program = tt

abbrev empty : Database
empty = record {
  attachments = "cv" ∷ [];
  profiles = [];
  drafts = [];
  operations = [];
  workspace = none;
  runs = [];
  messages = [];
  conversations = [];
  tailoring_sessions = [];
}

abbrev profile : Profile
profile = record {
  id = "p";
  attachment_id = "cv";
  display_name = "P";
  profile_json = none;
  location = none;
  extraction_version = none;
  source_hash = none;
  state = ProfileState.pending;
  created_at = 1;
  updated_at = 1;
  last_opened_at = 1;
}

abbrev one : Database
one = record empty { profiles = profile ∷ [] }

abbrev values : DraftValues
values = record {
  draft_json = no_fields;
  source_attachment_id = some "cv";
  reextract_operation_id = none;
}

abbrev draft : ProfileDraft
draft = new_draft "d" 5 "p" values

abbrev drafted : Database
drafted = record one { drafts = draft ∷ [] }

-- A second incomplete profile is refused, and a draft that names a missing operation.
refused :
    ((create_pending_profile "q" 2 "cv2" "Q" one).0 ≡ raised profile_integrity_error)
    × ((upsert_draft_for_profile "d" 2 "p"
          (record values { reextract_operation_id = some "o" })
          one).0
        ≡ raised profile_repository_error)
unfolding program
refused = (refl, refl)

after_all-AreCoherent_example :
    AreCoherent
      (after_all
        ((5, upsert "d" "p" values)
          ∷ (6, upsert "e" "p" values)
          ∷ (7, delete "p" (some 6) none)
          ∷ [])
        one).drafts
after_all-AreCoherent_example =
    after_all-AreCoherent
      ((5, upsert "d" "p" values) ∷ (6, upsert "e" "p" values) ∷ (7, delete "p" (some 6) none) ∷ [])
      one refl

after_all-AreValid_example :
    AreValid
      (Complete.after_all
        ((1, create_pending "p" "cv" "P")
          ∷ (2, create_pending "q" "cv2" "Q")
          ∷ (3, create "r" "cv3" "R" no_fields none "v" "h")
          ∷ (4, change_name "p" "New")
          ∷ [])
        empty).profiles
after_all-AreValid_example =
    after_all-AreValid
      ((1, create_pending "p" "cv" "P")
        ∷ (2, create_pending "q" "cv2" "Q")
        ∷ (3, create "r" "cv3" "R" no_fields none "v" "h")
        ∷ (4, change_name "p" "New")
        ∷ [])
      empty refl
