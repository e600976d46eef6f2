-- ===== src/Profiles/Requests.antt =====
-- The calls on the drafts as data, and the constraints after every sequence of them.
use job_agent.Prelude.{ℕ, String, Option, List, [], ◌∷◌, ◌≡◌, arith, first, strip, inl, inr}
use job_agent.Models.Database.{Database}
use job_agent.Profiles.{targets}
use job_agent.Profiles.Drafts.{DraftValues, upsert_draft_for_profile, delete_draft_for_profile}
use job_agent.Profiles.Saved.{delete_cases}
use job_agent.Profiles.Constraints.{AreCoherent, upsert-AreCoherent, delete_found-AreCoherent}

pub data Request : Type 0 where
  upsert : (new_id profile_id : String) (values : DraftValues) → Request
  delete :
      (profile_id : String) (expected_revision : Option ℕ) (expected_operation_id : Option String)
      → Request
  -- Any change of the other tables.
  elsewhere : Database → Request

unfoldable pub after : ℕ → Request → Database → Database
after now (upsert i p v) db = (upsert_draft_for_profile i now p v db).1
after now (delete p r o) db = (delete_draft_for_profile p r o db).1
after now (elsewhere d) db = record d { drafts = db.drafts }

unfoldable pub after_all : List (ℕ × Request) → Database → Database
after_all [] db = db
after_all ((now, r) ∷ rest) db = after_all rest (after now r db)

delete-AreCoherent :
    (p : String) (r : Option ℕ) (o : Option String) (db : Database)
    → AreCoherent db.drafts
    → AreCoherent (delete_draft_for_profile p r o db).1.drafts
delete-AreCoherent p r o db h = elim (delete_cases p r o) [
  | inl f ↦ rw (f db) h
  | inr (q, f) ↦ rw (f db) (delete_found-AreCoherent r q (first (targets (strip p)) db.drafts) db h)
]

after-AreCoherent :
    (now : ℕ) (r : Request) (db : Database)
    → AreCoherent db.drafts
    → AreCoherent (after now r db).drafts
unfolding after
after-AreCoherent now (upsert i p v) db h = upsert-AreCoherent i now p v db h
after-AreCoherent now (delete p r o) db h = delete-AreCoherent p r o db h
after-AreCoherent now (elsewhere d) db h = h

after_all-keeps :
    (requests : List (ℕ × Request)) (db : Database)
    → AreCoherent db.drafts
    → AreCoherent (after_all requests db).drafts
unfolding after_all
after_all-keeps [] db h = h
after_all-keeps ((now, r) ∷ rest) db h =
    after_all-keeps rest (after now r db) (after-AreCoherent now r db h)

-- From an empty table of drafts, after every sequence of upserts, deletions and changes of the other
-- tables, each at any time and whether it returns or raises: no profile has two drafts, no operation
-- has two, and a draft of an operation names a source attachment.
pub after_all-AreCoherent :
    (requests : List (ℕ × Request)) (db : Database)
    → db.drafts ≡ []
    → AreCoherent (after_all requests db).drafts
after_all-AreCoherent requests db empty = after_all-keeps requests db (
    rw empty
      (record { one_target = λ p. omega arith; one_operation = λ o. omega arith; sourced = tt }))
