-- ===== src/Versions/Chain.antt =====
-- The versions of a session are the chain 1, 2, … up to the session's latest number, after every
-- sequence of statements of backend/app/repositories/cv_tailoring.py.
use job_agent.Prelude.{
  ℕ, suc, String, Bool, true, not, ◌||◌, some, List, [], ◌∷◌, ◌++◌, ◌≡◌, refl, sym, ap, arith, ◌==◌,
  eq_iff, first, keep, any, count_if, Bool-cases, Option-cases, inl, inr, ◌∙◌, All, All-weaken,
  All-keep_of, Outcome, returned, raised, Outcome-cases,
}
use mathlib.Core.Path.{subst}
use job_agent.Prelude.Table.{update_where, put_first, All-append}
use job_agent.Prelude.Counts.{count_if-append}
use job_agent.Models.Tailoring.{CvTailoringSession, CvTailoringVersion, Store}
use job_agent.Versions.{
  has_id, TailoringError, Tailoring, SessionWrite, CvTailoringVersionWrite, create_session,
  new_session, get_session,
}
use job_agent.Versions.Writes.{
  is_numbered, is_head, moved_to, new_version, change_session, delete_chosen,
}
use job_agent.Versions.Numbers.{
  latest_of, is_up_to, is_parent, has_parent, latest_of-append, latest_of-put_first,
  latest_of-moved_to, latest_of-moved_to_ne, latest_of-keep, count_if-keep_numbered,
  any-keep_parent, any-append_left,
}
use job_agent.Versions.Requests.{session_scope}

-- Each session has exactly one version for each number from 1 to its latest, and no other; a version
-- is the first and has no parent, or follows its parent, which is of its session.
pub record IsChained (db : Store) : Type 0 where
  pub numbers :
      (s : String) (n : ℕ)
      → count_if (is_numbered s n) db.versions ≡ is_up_to n (latest_of s db.sessions)
  pub parents : All (λ v. has_parent db.versions v ≡ true) db.versions

has_parent-append :
    (vs more : List CvTailoringVersion) (v : CvTailoringVersion)
    → has_parent vs v ≡ true
    → has_parent (vs ++ more) v ≡ true
has_parent-append vs more v h = ground (arith, any-append_left (is_parent v) vs more)

parents-append :
    (vs : List CvTailoringVersion) (v : CvTailoringVersion)
    → All (λ x. has_parent vs x ≡ true) vs
    → has_parent vs v ≡ true
    → All (λ x. has_parent (vs ++ v ∷ []) x ≡ true) (vs ++ v ∷ [])
parents-append vs v h hv =
    All-append (λ x. has_parent (vs ++ v ∷ []) x ≡ true) vs (v ∷ [])
      (All-weaken (λ x. has_parent vs x ≡ true) (λ x. has_parent (vs ++ v ∷ []) x ≡ true)
        (has_parent-append vs (v ∷ [])) vs h)
      (has_parent-append vs (v ∷ []) v hv, tt)

-- A transaction ends in the state before it, or in that of the call that returned.
pub session_scope-IsChained :
    {A : Type 0} (call : Tailoring A) (db : Store)
    → IsChained db
    → ((a : A) → (call db).0 ≡ returned a → IsChained (call db).1)
    → IsChained (session_scope call db)
unfolding session_scope
session_scope-IsChained call db h step = elim (Outcome-cases (call db).0) [
  | inl (a, e) ↦
      subst (λ r. IsChained (elim r [ returned x ↦ (call db).1 | raised x ↦ db ])) (sym e)
        (step a e)
  | inr (error, e) ↦
      subst (λ r. IsChained (elim r [ returned x ↦ (call db).1 | raised x ↦ db ])) (sym e) h
]

pub create-IsChained :
    (i : String) (now : ℕ) (referenced : Bool) (w : SessionWrite) (db : Store)
    → IsChained db
    → IsChained (create_session i now referenced w db).1
unfolding create_session
create-IsChained i now referenced w db h =
    elim (Bool-cases (any (has_id i) db.sessions || not referenced)) [
      | inl e ↦ rw (create_session, e) h
      | inr e ↦
          let added : IsChained (record db { sessions = db.sessions ++ new_session i now w ∷ [] }) =
            record {
              numbers = λ s n.
                  h.numbers s n
                  ∙ ap (is_up_to n)
                      (sym (latest_of-append s db.sessions (new_session i now w) refl));
              parents = h.parents;
            } in
          rw (create_session, e) added
    ]

put-IsChained :
    (s : String) (row changed : CvTailoringSession) (db : Store)
    → first (has_id s) db.sessions ≡ some row
    → (changed.id ≡ row.id) × (changed.latest_version_number ≡ row.latest_version_number)
    → IsChained db
    → IsChained (record db { sessions = put_first (has_id s) changed db.sessions })
put-IsChained s row changed db found kept h = record {
  numbers = λ t n.
      h.numbers t n
      ∙ ap (is_up_to n) (sym (latest_of-put_first s t db.sessions row changed found kept.0 kept.1));
  parents = h.parents;
}

pub change-IsChained :
    (s : String) (step : CvTailoringSession → Outcome TailoringError CvTailoringSession)
    → ((row changed : CvTailoringSession)
        → step row ≡ returned changed
        → (changed.id ≡ row.id) × (changed.latest_version_number ≡ row.latest_version_number))
    → (db : Store) → IsChained db
    → IsChained (change_session s step db).1
unfolding change_session get_session
change-IsChained s step keeps db h = elim (Option-cases (first (has_id s) db.sessions)) [
  | inl e ↦ rw (change_session, e) h
  | inr (row, found) ↦ elim (Outcome-cases (step row)) [
    | inr (error, e) ↦ rw (change_session, found, e) h
    | inl (changed, e) ↦
        let put = put-IsChained s row changed db found (keeps row changed e) h in
        rw (change_session, found, e) put
  ]
]

pub delete-IsChained :
    (chosen : String → Bool) (db : Store) → IsChained db → IsChained (delete_chosen chosen db)
unfolding delete_chosen
delete-IsChained chosen db h = record {
  numbers = λ s n. ground (
    arith,
    count_if-keep_numbered chosen s n db.versions,
    latest_of-keep chosen s db.sessions,
    h.numbers s n,
  );
  parents =
      All-keep_of (λ v. has_parent db.versions v ≡ true)
        (λ v. has_parent (keep (λ p. not (chosen p.session_id)) db.versions) v ≡ true)
        (λ v. not (chosen v.session_id))
        (λ v hv kept. ground (arith, any-keep_parent chosen v db.versions)) db.versions h.parents;
}

-- A version that the checks let through, and the flush.
pub record IsWritten (s : String) (e now : ℕ) (v : CvTailoringVersionWrite) (db : Store)
    : Type 0 where
  pub owner : CvTailoringSession
  pub found : first (has_id s) db.sessions ≡ some owner
  pub at_head : owner.latest_version_number ≡ e
  pub follows : has_parent db.versions (new_version s (suc e) v) ≡ true

abbrev pub written : String → ℕ → ℕ → CvTailoringVersionWrite → Store → Store
written s e now v db = record {
  sessions = update_where (is_head s e) (moved_to (suc e) now) db.sessions;
  versions = db.versions ++ new_version s (suc e) v ∷ [];
}

number-written :
    (s t : String) (e now n : ℕ) (v : CvTailoringVersionWrite) (db : Store)
    → IsWritten s e now v db
    → IsChained db
    → count_if (is_numbered t n) (db.versions ++ new_version s (suc e) v ∷ [])
      ≡ is_up_to n (latest_of t (written s e now v db).sessions)
number-written s t e now n v db w h =
    let counted = count_if-append (is_numbered t n) db.versions (new_version s (suc e) v ∷ []) in
    elim (Bool-cases (s == t)) [
      | inr d ↦
          ground (arith, counted, h.numbers t n, latest_of-moved_to_ne s t e now db.sessions d)
      | inl i ↦
          let moved = latest_of-moved_to s e now db.sessions w.owner w.found w.at_head in
          let same : s ≡ t = (eq_iff s t).0 i in
          let before : latest_of s db.sessions ≡ e = rw w.found w.at_head in
          let moved_t =
            subst (λ x. latest_of x (written s e now v db).sessions ≡ suc e) same moved in
          let before_t = subst (λ x. latest_of x db.sessions ≡ e) same before in
          ground (arith, counted, h.numbers t n, moved_t, before_t)
    ]

pub written-IsChained :
    (s : String) (e now : ℕ) (v : CvTailoringVersionWrite) (db : Store)
    → IsWritten s e now v db
    → IsChained db
    → IsChained (written s e now v db)
written-IsChained s e now v db w h = record {
  numbers = λ t n. number-written s t e now n v db w h;
  parents = parents-append db.versions (new_version s (suc e) v) h.parents w.follows;
}
