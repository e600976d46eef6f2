-- ===== src/Profiles.antt =====
-- backend/app/repositories/profiles.py and workspace_state.py: the queries that the services use.
-- A column with a unique constraint is read as the first row that has the value.
pub mod Drafts
pub mod Saved
pub mod Constraints
pub mod Requests
pub mod Revisions
pub mod Rows
pub mod Complete
mod Examples
use job_agent.Prelude.{
  String, Bool, false, Option, none, some, List, ◌==◌, ◌&&◌, first, is_none, is_blank, strip,
  if◌then◌else◌, returned, raised, Action, ◌>>=◌,
}
use job_agent.Models.Profiles.{Profile, ProfileDraft, WorkspaceState}
use job_agent.Models.Database.{Database}

pub data ProfileError : Type 0 where
  profile_repository_error profile_integrity_error : ProfileError

abbrev pub equals_text : Option String → String → Bool
equals_text none t = false
equals_text (some s) t = s == t

-- `_required`
unfoldable pub required : {S : Type 0} → String → Action S ProfileError String
required value s =
    if is_blank value then (raised profile_repository_error, s) else (returned (strip value), s)

abbrev pub profile_by_id : String → List Profile → Option Profile
profile_by_id profile_id rows = first (λ r. r.id == profile_id) rows

abbrev pub targets : String → ProfileDraft → Bool
targets profile_id draft = draft.target_profile_id == profile_id

abbrev pub is_review_of : String → String → ProfileDraft → Bool
is_review_of profile_id operation_id draft =
    draft.target_profile_id == profile_id && equals_text draft.reextract_operation_id operation_id

unfoldable pub get_profile : String → Action Database ProfileError (Option Profile)
get_profile profile_id = do
  p ← required profile_id
  λ db. (returned (profile_by_id p db.profiles), db)

unfoldable pub get_incomplete_profile : List Profile → Option Profile
get_incomplete_profile rows = first (λ r. is_none r.profile_json) rows

unfoldable pub get_draft_for_profile : String → Action Database ProfileError (Option ProfileDraft)
get_draft_for_profile profile_id = do
  p ← required profile_id
  λ db. (returned (first (targets p) db.drafts), db)

unfoldable pub get_draft_for_operation :
    String → String → Action Database ProfileError (Option ProfileDraft)
get_draft_for_operation profile_id operation_id = do
  p ← required profile_id
  o ← required operation_id
  λ db. (returned (first (is_review_of p o) db.drafts), db)

unfoldable pub get_state : Database → Option WorkspaceState
get_state db = db.workspace
