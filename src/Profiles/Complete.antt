-- ===== src/Profiles/Complete.antt =====
-- The constraints of profiles hold after every sequence of calls.
use job_agent.Prelude.{
  ℕ, String, Bool, true, ◌&&◌, ◌||◌, Option, none, some, List, [], ◌∷◌, ◌==◌, ◌≡◌, ◌≤◌, refl, arith,
  eq_iff, any, count_if, All, is_some, is_none, is_blank, strip, Bool-cases, Option-cases, inl, inr,
}
use job_agent.Prelude.Table.{All-append, All-put_first, All-first}
use job_agent.Prelude.Counts.{
  count_if-append, count_if-put_first, count_if_of_any-false, any-weaken,
}
use job_agent.Models.Json.{JsonObject}
use job_agent.Models.Profiles.{ProfileState, Profile}
use job_agent.Models.Database.{Database}
use job_agent.Profiles.{required, profile_by_id}
use job_agent.Profiles.Rows.{
  insert_profile, create_pending_profile, create_profile, rename, update_display_name,
  set_active_profile_id,
}

abbrev pub has_all : Profile → Bool
has_all p = is_some p.profile_json && is_some p.extraction_version && is_some p.source_hash

abbrev pub has_none : Profile → Bool
has_none p =
    is_none p.profile_json
    && is_none p.location
    && is_none p.extraction_version
    && is_none p.source_hash

-- The CHECK constraint on the state.
abbrev pub state_check : ProfileState → Profile → Bool
state_check ProfileState.pending p = has_none p
state_check ProfileState.ready p = has_all p
state_check ProfileState.deleting p = has_none p || has_all p

pub record IsChecked (p : Profile) : Type 0 where
  pub check : state_check p.state p ≡ true

abbrev pub of_attachment : String → Profile → Bool
of_attachment a p = p.attachment_id == a

abbrev pub is_incomplete : Profile → Bool
is_incomplete p = is_none p.profile_json

pub record AreValid (ps : List Profile) : Type 0 where
  pub checked : All IsChecked ps
  pub one_incomplete : count_if is_incomplete ps ≤ 1
  pub one_attachment : (a : String) → count_if (of_attachment a) ps ≤ 1

insert_profile-AreValid :
    (row : Profile) (db : Database)
    → IsChecked row
    → AreValid db.profiles
    → AreValid (insert_profile row db).1.profiles
unfolding insert_profile
insert_profile-AreValid row db checked h =
    let clash = λ (r : Profile).
      r.id == row.id
      || r.attachment_id == row.attachment_id
      || (is_none r.profile_json && is_none row.profile_json) in
    elim (Bool-cases (any clash db.profiles)) [
      | inl e ↦ rw e h
      | inr e ↦ rw e (record {
        checked = All-append IsChecked db.profiles (row ∷ []) h.checked (checked, tt);
        one_incomplete = elim (Bool-cases (is_incomplete row)) [
          | inl t ↦
              let free =
                any-weaken clash is_incomplete db.profiles (λ x u. ground (arith, t, u)) e in
              ground (
                arith,
                count_if-append is_incomplete db.profiles (row ∷ []),
                count_if_of_any-false is_incomplete db.profiles free,
              )
          | inr t ↦
              ground (arith, count_if-append is_incomplete db.profiles (row ∷ []), h.one_incomplete)
        ];
        one_attachment = λ a. elim (Bool-cases (of_attachment a row)) [
          | inl t ↦
              let same = (eq_iff row.attachment_id a).0 t in
              let free =
                any-weaken clash (of_attachment a) db.profiles (λ x u. ground (arith, same)) e in
              ground (
                arith,
                count_if-append (of_attachment a) db.profiles (row ∷ []),
                count_if_of_any-false (of_attachment a) db.profiles free,
              )
          | inr t ↦
              ground (
                arith,
                count_if-append (of_attachment a) db.profiles (row ∷ []),
                h.one_attachment a,
              )
        ];
      })
    ]

state_check-renamed :
    (state : ProfileState) (row : Profile) (name : String) (now : ℕ)
    → state_check state row ≡ true
    → state_check state (record row { display_name = name; updated_at = now }) ≡ true
state_check-renamed ProfileState.pending row name now h = h
state_check-renamed ProfileState.ready row name now h = h
state_check-renamed ProfileState.deleting row name now h = h

rename-AreValid :
    (p : String) (now : ℕ) (name : String) (db : Database)
    → AreValid db.profiles
    → AreValid (rename p now name (profile_by_id p db.profiles) db).1.profiles
unfolding rename
rename-AreValid p now name db h = elim (Option-cases (profile_by_id p db.profiles)) [
  | inl e ↦ rw e h
  | inr (row, e) ↦ elim (Bool-cases (is_blank name)) [
    | inl f ↦ rw (e, f) h
    | inr f ↦
        let kept = All-first IsChecked (λ r. r.id == p) db.profiles h.checked e in
        let next = record row { display_name = strip name; updated_at = now } in
        rw (e, f)
          (record {
            checked =
                All-put_first IsChecked (λ r. r.id == p) next db.profiles
                  (record { check = state_check-renamed row.state row (strip name) now kept.check })
                  h.checked;
            one_incomplete = omega (
              arith,
              h.one_incomplete,
              count_if-put_first is_incomplete (λ r. r.id == p) next row db.profiles e refl,
            );
            one_attachment = λ a. omega (
              arith,
              h.one_attachment a,
              count_if-put_first (of_attachment a) (λ r. r.id == p) next row db.profiles e refl,
            );
          })
  ]
]

pub data Request : Type 0 where
  create_pending : (new_id attachment_id display_name : String) → Request
  create :
      (new_id attachment_id display_name : String) (profile_json : JsonObject)
      (location : Option String) (extraction_version source_hash : String)
      → Request
  change_name : (profile_id display_name : String) → Request
  select : (profile_id : Option String) → Request
  -- Any change of the other tables.
  elsewhere : Database → Request

unfoldable pub after : ℕ → Request → Database → Database
after now (create_pending i a n) db = (create_pending_profile i now a n db).1
after now (create i a n j l v h) db = (create_profile i now a n j l v h db).1
after now (change_name p n) db = (update_display_name now p n db).1
after now (select p) db = (set_active_profile_id now p db).1
after now (elsewhere d) db = record d { profiles = db.profiles }

unfoldable pub after_all : List (ℕ × Request) → Database → Database
after_all [] db = db
after_all ((now, r) ∷ rest) db = after_all rest (after now r db)

after-AreValid :
    (now : ℕ) (r : Request) (db : Database)
    → AreValid db.profiles
    → AreValid (after now r db).profiles
unfolding after create_pending_profile create_profile update_display_name set_active_profile_id
    required
after-AreValid now (create_pending i a n) db h =
    let row : Profile = record {
      id = i;
      attachment_id = strip a;
      display_name = strip n;
      profile_json = none;
      location = none;
      extraction_version = none;
      source_hash = none;
      state = ProfileState.pending;
      created_at = now;
      updated_at = now;
      last_opened_at = now;
    } in
    ground (arith, insert_profile-AreValid row db (record { check = refl }) h)
after-AreValid now (create i a n j l v s) db h =
    let row : Profile = record {
      id = i;
      attachment_id = strip a;
      display_name = strip n;
      profile_json = some j;
      location = l;
      extraction_version = some (strip v);
      source_hash = some (strip s);
      state = ProfileState.ready;
      created_at = now;
      updated_at = now;
      last_opened_at = now;
    } in
    ground (arith, insert_profile-AreValid row db (record { check = refl }) h)
after-AreValid now (change_name p n) db h = ground (arith, rename-AreValid (strip p) now n db h)
after-AreValid now (select p) db h = h
after-AreValid now (elsewhere d) db h = h

after_all-keeps :
    (requests : List (ℕ × Request)) (db : Database)
    → AreValid db.profiles
    → AreValid (after_all requests db).profiles
unfolding after_all
after_all-keeps [] db h = h
after_all-keeps ((now, r) ∷ rest) db h =
    after_all-keeps rest (after now r db) (after-AreValid now r db h)

-- From an empty table of profiles, after every sequence of creations, renamings, selections and changes
-- of the other tables, each at any time and whether it returns or raises: every profile meets the CHECK
-- constraint of its state, at most one has no profile data, and no two have one attachment.
pub after_all-AreValid :
    (requests : List (ℕ × Request)) (db : Database)
    → db.profiles ≡ []
    → AreValid (after_all requests db).profiles
after_all-AreValid requests db empty = after_all-keeps requests db (
    rw empty
      (record { checked = tt; one_incomplete = omega arith; one_attachment = λ a. omega arith }))
