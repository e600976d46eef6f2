-- ===== src/Versions/Written.antt =====
-- create_version_cas of backend/app/repositories/cv_tailoring.py keeps the chains.
use mathlib.Core.Path.{subst}
use job_agent.Prelude.{
  ℕ, suc, String, true, false, Option, none, some, List, ◌≡◌, refl, sym, arith, eq_iff, first,
  count_if, eqb, is_some, is_none, Bool-cases, Option-cases, inl, inr, ◌⊎◌, Outcome, returned,
  raised, ◌>>=◌, and_then,
}
use job_agent.Prelude.Table.{first-holds}
use job_agent.Models.Tailoring.{CvTailoringSession, CvTailoringVersion, Store}
use job_agent.Profiles.{equals_text}
use job_agent.Versions.{
  has_id, TailoringError, value_error, is_owner, CvTailoringVersionWrite, post_init, get_session,
  get_version,
}
use job_agent.Versions.Writes.{
  is_numbered, is_head, new_version, same_parent, owns_head, is_head_version, conflict_of,
  write_version, create_version_cas, is_accepted,
}
use job_agent.Versions.Numbers.{is_parent, has_parent, any-first}
use job_agent.Versions.Chain.{IsChained, IsWritten, written, written-IsChained}

owner_of_head :
    (s : String) (e : ℕ) (found : Option CvTailoringSession)
    → owns_head e found ≡ true
    → (owner : CvTailoringSession) × (found ≡ some owner) × (owner.latest_version_number ≡ e)
owner_of_head s e none h = cc
owner_of_head s e (some owner) h = (owner, refl, ground arith)

same_parent_key :
    (a b : Option String) (i : String)
    → same_parent a b ≡ true
    → equals_text b i ≡ true
    → equals_text a i ≡ true
same_parent_key none none i h e = cc
same_parent_key none (some b) i h e = cc
same_parent_key (some a) none i h e = cc
same_parent_key (some a) (some b) i h e = let same : a ≡ b = (eq_iff a b).0 h in rw same e

pub no_parent :
    (a p : Option String) → same_parent a p ≡ true → is_some p ≡ false → is_none a ≡ true
no_parent none p h e = refl
no_parent (some a) none h e = cc
no_parent (some a) (some b) h e = cc

first_has_parent :
    (s : String) (e : ℕ) (p : Option String) (v : CvTailoringVersionWrite)
    (vs : List CvTailoringVersion)
    → same_parent v.parent_version_id p ≡ true
    → eqb e 0 ≡ true
    → is_some p ≡ false
    → has_parent vs (new_version s (suc e) v) ≡ true
first_has_parent s e p v vs same zero_head none_given =
    ground (arith, no_parent v.parent_version_id p same none_given)

next_has_parent :
    (s : String) (e : ℕ) (p : Option String) (v : CvTailoringVersionWrite) (db : Store)
    → same_parent v.parent_version_id p ≡ true
    → is_head_version s e (get_version p db) ≡ true
    → has_parent db.versions (new_version s (suc e) v) ≡ true
unfolding get_version
next_has_parent s e p v db same headed =
    elim (Option-cases (first (λ x. equals_text p x.id) db.versions)) [
      | inl absent ↦ ground arith
      | inr (parent, found) ↦
          let headed_parent : is_numbered s e parent ≡ true =
            subst (λ o. is_head_version s e o ≡ true) found headed in
          let key : equals_text p parent.id ≡ true =
            first-holds (λ x. equals_text p x.id) db.versions found in
          let keyed = same_parent_key v.parent_version_id p parent.id same key in
          let is_next : is_parent (new_version s (suc e) v) parent ≡ true = ground arith in
          let present =
            any-first (λ x. equals_text p x.id) (is_parent (new_version s (suc e) v)) db.versions
              parent found is_next in
          ground arith
    ]

pub conflict_of-IsWritten :
    (s : String) (e now : ℕ) (p : Option String) (v : CvTailoringVersionWrite) (db : Store)
    → conflict_of s e p v db ≡ none
    → IsWritten s e now v db
unfolding conflict_of get_session
conflict_of-IsWritten s e now p v db h =
    let owns : owns_head e (first (has_id s) db.sessions) ≡ true = ground arith in
    let (owner, found, at_head) = owner_of_head s e (first (has_id s) db.sessions) owns in
    let same : same_parent v.parent_version_id p ≡ true = ground arith in
    record {
      owner = owner;
      found = found;
      at_head = at_head;
      follows = elim (Bool-cases (eqb e 0)) [
        | inl z ↦ first_has_parent s e p v db.versions same z (ground arith)
        | inr z ↦ next_has_parent s e p v db same (ground arith)
      ];
    }

write-IsChained :
    (s : String) (e now : ℕ) (v : CvTailoringVersionWrite) (db : Store)
    → IsChained db
    → IsChained (written s e now v db)
    → IsChained (write_version s e now v db).1
unfolding write_version
write-IsChained s e now v db h next = elim (Bool-cases (is_accepted (new_version s (suc e) v) db)) [
  | inr a ↦ rw (write_version, a) h
  | inl a ↦ elim (Bool-cases (eqb (count_if (is_head s e) db.sessions) 1)) [
    | inl c ↦ rw (write_version, a, c) next
    | inr c ↦ rw (write_version, a, c) next
  ]
]

cas-IsChained :
    (s : String) (e now : ℕ) (p : Option String) (v : CvTailoringVersionWrite) (db : Store)
    → IsChained db
    → IsChained (create_version_cas s e p now v db).1
unfolding create_version_cas
cas-IsChained s e now p v db h = elim (Option-cases (conflict_of s e p v db)) [
  | inr (message, c) ↦ rw (create_version_cas, c) h
  | inl c ↦
      let next =
        write-IsChained s e now v db h
          (written-IsChained s e now v db (conflict_of-IsWritten s e now p v db c) h) in
      rw (create_version_cas, c) next
]

post_init-cases :
    (v : CvTailoringVersionWrite) (db : Store)
    → (post_init v db ≡ (returned v, db))
      ⊎ ((e : TailoringError) × (post_init v db ≡ (raised e, db)))
unfolding post_init
post_init-cases v db = elim (Bool-cases (eqb v.page_count 0)) [
  | inl a ↦ inr (value_error "page_count must be a positive integer", rw (post_init, a) refl)
  | inr a ↦ elim (Bool-cases v.created_at.is_aware) [
    | inr b ↦ inr (value_error "created_at must be timezone-aware", rw (post_init, a, b) refl)
    | inl b ↦ elim (Bool-cases (is_owner v.created_by)) [
      | inl c ↦ inl (rw (post_init, a, b, c) refl)
      | inr c ↦ inr (
        value_error "created_by is not an approved tailoring owner",
        rw (post_init, a, b, c) refl,
      )
    ]
  ]
]

pub add-IsChained :
    (s : String) (e now : ℕ) (p : Option String) (v : CvTailoringVersionWrite) (db : Store)
    → IsChained db
    → IsChained ((post_init v >>= (λ w. create_version_cas s e p now w)) db).1
add-IsChained s e now p v db h =
    let after_check : Outcome TailoringError CvTailoringVersionWrite × Store → Type 0 =
      λ o. IsChained (and_then o.0 (λ w. create_version_cas s e p now w) o.1).1 in
    elim (post_init-cases v db) [
      | inl c ↦ subst after_check (sym c) (cas-IsChained s e now p v db h)
      | inr (error, c) ↦ subst after_check (sym c) h
    ]
