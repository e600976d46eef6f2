-- ===== src/Versions/Race.antt =====
-- Two writers of one session's next version: create_version_cas of
-- backend/app/repositories/cv_tailoring.py lets one through.
use mathlib.Core.Path.{subst}
use job_agent.Prelude.{
  ℕ, suc, String, false, Option, none, some, ◌≡◌, refl, sym, ap, arith, eq_refl, first, count_if,
  eqb, Bool-cases, Option-cases, inl, inr, ◌∙◌, returned, raised,
}
use job_agent.Prelude.Counts.{any-snoc}
use job_agent.Prelude.Outcomes.{returned-inj}
use job_agent.Models.Tailoring.{CvTailoringSession, CvTailoringVersion, Store}
use job_agent.Versions.{
  has_id, CvTailoringVersionWrite, get_session, parent_conflict, integrity_error,
}
use job_agent.Versions.Writes.{
  is_numbered, is_head, new_version, owns_head, conflict_of, write_version, create_version_cas,
  is_accepted,
}
use job_agent.Versions.Numbers.{number_of, latest_of, latest_of-moved_to}
use job_agent.Versions.Chain.{written}
use job_agent.Versions.Written.{conflict_of-IsWritten}

write_version-returned :
    (s : String) (e now : ℕ) (v : CvTailoringVersionWrite) (db : Store) (r : CvTailoringVersion)
    → (write_version s e now v db).0 ≡ returned r
    → write_version s e now v db ≡ (returned (new_version s (suc e) v), written s e now v db)
unfolding write_version
write_version-returned s e now v db r h =
    elim (Bool-cases (is_accepted (new_version s (suc e) v) db)) [
      | inr a ↦ ground arith
      | inl a ↦ elim (Bool-cases (eqb (count_if (is_head s e) db.sessions) 1)) [
        | inl c ↦ rw (write_version, a, c) refl
        | inr c ↦ ground arith
      ]
    ]

create_version_cas-returned :
    (s : String) (e now : ℕ) (p : Option String) (v : CvTailoringVersionWrite) (db : Store)
    (r : CvTailoringVersion)
    → (create_version_cas s e p now v db).0 ≡ returned r
    → (conflict_of s e p v db ≡ none)
      × (create_version_cas s e p now v db
          ≡ (returned (new_version s (suc e) v), written s e now v db))
unfolding create_version_cas
create_version_cas-returned s e now p v db r h = elim (Option-cases (conflict_of s e p v db)) [
  | inr (message, c) ↦ ground arith
  | inl c ↦
      let wrote : (write_version s e now v db).0 ≡ returned r = (rw (create_version_cas, c) at h) in
      (c, rw (create_version_cas, c) (write_version-returned s e now v db r wrote))
]

owns_head-passed :
    (e : ℕ) (found : Option CvTailoringSession)
    → number_of found ≡ suc e
    → owns_head e found ≡ false
owns_head-passed e none h = refl
owns_head-passed e (some row) h = ground arith

refused_now :
    (s : String) (e now : ℕ) (q : Option String) (w : CvTailoringVersionWrite) (db : Store)
    → latest_of s db.sessions ≡ suc e
    → create_version_cas s e q now w db
      ≡ (raised (parent_conflict "tailoring session head changed"), db)
unfolding create_version_cas conflict_of get_session
refused_now s e now q w db h =
    let passed = owns_head-passed e (first (has_id s) db.sessions) h in
    let conflict : conflict_of s e q w db ≡ some "tailoring session head changed" = ground arith in
    rw (create_version_cas, conflict) refl

refused_late :
    (s : String) (e now late : ℕ) (v w : CvTailoringVersionWrite) (db : Store)
    → (write_version s e late w (written s e now v db)).0 ≡ raised integrity_error
unfolding write_version is_accepted
refused_late s e now late v w db =
    let taken =
      any-snoc (is_numbered s (suc e)) (new_version s (suc e) v) db.versions
        (ground (arith, eq_refl s)) in
    ground arith

-- A call that returns has written the version after the expected number. After it a second call with
-- the same expected number, whatever its version and parent, raises the conflict of the head and
-- changes nothing; and a writer that had passed its checks before raises when its row is flushed.
pub create_version_cas-once :
    (s : String) (e now late : ℕ) (p q : Option String) (v w : CvTailoringVersionWrite) (db : Store)
    (r : CvTailoringVersion)
    → (create_version_cas s e p now v db).0 ≡ returned r
    → let after = (create_version_cas s e p now v db).1 in
      (r ≡ new_version s (suc e) v)
      × (latest_of s after.sessions ≡ suc e)
      × (create_version_cas s e q late w after
          ≡ (raised (parent_conflict "tailoring session head changed"), after))
      × ((write_version s e late w after).0 ≡ raised integrity_error)
create_version_cas-once s e now late p q v w db r h =
    let (c, done) = create_version_cas-returned s e now p v db r h in
    let i = conflict_of-IsWritten s e now p v db c in
    let latest = latest_of-moved_to s e now db.sessions i.owner i.found i.at_head in
    let state : (create_version_cas s e p now v db).1 ≡ written s e now v db = ap (λ o. o.1) done in
    let Claim : Store → Type 0 = λ x.
      (latest_of s x.sessions ≡ suc e)
      × (create_version_cas s e q late w x
          ≡ (raised (parent_conflict "tailoring session head changed"), x))
      × ((write_version s e late w x).0 ≡ raised integrity_error) in
    let (a, b, c) = subst Claim (sym state) (
      latest,
      refused_now s e late q w (written s e now v db) latest,
      refused_late s e now late v w db,
    ) in
    (returned-inj (sym h ∙ ap (λ o. o.0) done), a, b, c)
