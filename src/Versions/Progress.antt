-- ===== src/Versions/Progress.antt =====
-- create_version_cas of backend/app/repositories/cv_tailoring.py writes the next version where its checks
-- find no conflict.
use job_agent.Prelude.{
  ℕ, suc, String, Bool, true, false, not, ◌&&◌, Option, none, some, List, [], ◌∷◌, ◌≡◌, refl, sym,
  ap, arith, ◌==◌, first, any, count_if, eqb, is_some, is_none, Bool-cases, Option-cases, inl, inr,
  ◌∙◌, returned,
}
use job_agent.Prelude.Counts.{is_some-first}
use job_agent.Prelude.Sorting.{any-count_if}
use job_agent.Prelude.Table.{some-inj}
use job_agent.Models.Tailoring.{CvTailoringSession, CvTailoringVersion, Store}
use job_agent.Profiles.{equals_text}
use job_agent.Versions.{has_id, is_owner, CvTailoringVersionWrite, get_session}
use job_agent.Versions.Writes.{
  is_numbered, is_head, is_parent_key, new_version, conflict_of, write_version, create_version_cas,
  is_accepted,
}
use job_agent.Versions.Numbers.{latest_of, is_up_to, is_parent}
use job_agent.Versions.Chain.{IsChained, written}
use job_agent.Versions.Written.{no_parent, conflict_of-IsWritten}

-- The values of a write that its constructor lets through.
abbrev pub is_valid : CvTailoringVersionWrite → Bool
is_valid v = not (eqb v.page_count 0) && v.created_at.is_aware && is_owner v.created_by

number_free :
    (s : String) (e : ℕ) (vs : List CvTailoringVersion)
    → count_if (is_numbered s (suc e)) vs ≡ is_up_to (suc e) e
    → any (is_numbered s (suc e)) vs ≡ false
number_free s e vs h = ground (arith, any-count_if (is_numbered s (suc e)) vs)

parent_key_of :
    (v : CvTailoringVersion) (vs : List CvTailoringVersion)
    → any (is_parent v) vs ≡ true
    → any (is_parent_key v) vs ≡ true
parent_key_of v [] h = cc
parent_key_of v (p ∷ vs) h = ground (arith, parent_key_of v vs)

parent_given :
    (v : CvTailoringVersion) (vs : List CvTailoringVersion)
    → any (is_parent v) vs ≡ true
    → is_some v.parent_version_id ≡ true
parent_given v [] h = cc
parent_given v (p ∷ vs) h = elim (Option-cases v.parent_version_id) [
  | inr (a, e) ↦ rw e refl
  | inl e ↦
      let unkeyed : equals_text v.parent_version_id p.id ≡ false = rw e refl in
      parent_given v vs (ground arith)
]

no_head :
    (s : String) (e : ℕ) (rows : List CvTailoringSession)
    → count_if (has_id s) rows ≡ 0
    → count_if (is_head s e) rows ≡ 0
no_head s e [] h = refl
no_head s e (r ∷ rows) h = ground (arith, no_head s e rows)

one_head :
    (s : String) (e : ℕ) (rows : List CvTailoringSession) (owner : CvTailoringSession)
    → first (has_id s) rows ≡ some owner
    → owner.latest_version_number ≡ e
    → count_if (has_id s) rows ≡ 1
    → count_if (is_head s e) rows ≡ 1
one_head s e [] owner found n one = cc
one_head s e (r ∷ rows) owner found n one = elim (Bool-cases (r.id == s)) [
  | inl i ↦
      let same : r ≡ owner = some-inj (rw i at found) in
      let number : r.latest_version_number ≡ e = ap (λ x. x.latest_version_number) same ∙ n in
      ground (arith, no_head s e rows)
  | inr i ↦ ground (arith, one_head s e rows owner)
]

no_value : (o : Option String) → is_none o ≡ true → is_some o ≡ false
no_value none h = refl
no_value (some a) h = cc

coupled :
    (s : String) (e : ℕ) (p : Option String) (v : CvTailoringVersionWrite) (db : Store)
    → conflict_of s e p v db ≡ none
    → eqb e 0 ≡ true
    → is_some v.parent_version_id ≡ false
unfolding conflict_of get_session
coupled s e p v db c z =
    no_value v.parent_version_id (no_parent v.parent_version_id p (ground arith) (ground arith))

accepted :
    (s : String) (e now : ℕ) (p : Option String) (v : CvTailoringVersionWrite) (db : Store)
    → IsChained db
    → conflict_of s e p v db ≡ none
    → is_valid v ≡ true
    → any (λ o. o.id == v.id) db.versions ≡ false
    → is_accepted (new_version s (suc e) v) db ≡ true
unfolding is_accepted
accepted s e now p v db h c valid new =
    let w = conflict_of-IsWritten s e now p v db c in
    let latest : latest_of s db.sessions ≡ e = rw w.found w.at_head in
    let free = number_free s e db.versions (h.numbers s (suc e) ∙ ap (is_up_to (suc e)) latest) in
    let exists : any (has_id s) db.sessions ≡ true =
      sym (is_some-first (has_id s) db.sessions) ∙ ap is_some w.found in
    elim (Bool-cases (eqb e 0)) [
      | inl z ↦ let orphan = coupled s e p v db c z in ground arith
      | inr z ↦
          let follows : any (is_parent (new_version s (suc e) v)) db.versions ≡ true =
            (let f = w.follows in ground arith) in
          let key = parent_key_of (new_version s (suc e) v) db.versions follows in
          let given = parent_given (new_version s (suc e) v) db.versions follows in ground arith
    ]

-- Where the chains hold, the checks find no conflict, the values are valid, the id is new and the
-- session's id is its own, the call returns the version after the expected number, on its parent.
pub create_version_cas-progress :
    (s : String) (e now : ℕ) (p : Option String) (v : CvTailoringVersionWrite) (db : Store)
    → IsChained db
    → conflict_of s e p v db ≡ none
    → is_valid v ≡ true
    → any (λ o. o.id == v.id) db.versions ≡ false
    → count_if (has_id s) db.sessions ≡ 1
    → create_version_cas s e p now v db ≡ (returned (new_version s (suc e) v), written s e now v db)
unfolding create_version_cas write_version
create_version_cas-progress s e now p v db h c valid new one =
    let w = conflict_of-IsWritten s e now p v db c in
    let a = accepted s e now p v db h c valid new in
    let b = one_head s e db.sessions w.owner w.found w.at_head one in
    rw (create_version_cas, c, write_version, a, b) refl
