-- ===== src/Profiles/Constraints.antt =====
-- The constraints of profile_drafts hold after every sequence of calls.
use job_agent.Prelude.{
  ℕ, String, Bool, true, not, ◌&&◌, ◌||◌, Option, none, some, List, [], ◌∷◌, ◌==◌, ◌≡◌, ◌≤◌, refl,
  arith, ◌∙◌, ap, sym, eq_iff, first, any, keep, count_if, All, is_some, strip, Bool-cases,
  Option-cases, inl, inr,
}
use job_agent.Prelude.Table.{All-append, All-keep, All-put_first, All-first}
use job_agent.Prelude.Counts.{
  count_if-append, count_if-keep_le, count_if-put_first, count_if_of_any-false, any-weaken,
}
use job_agent.Models.Profiles.{Profile, ProfileDraft}
use job_agent.Models.Database.{Database}
use job_agent.Profiles.{required, profile_by_id, equals_text, targets, get_profile}
use job_agent.Profiles.Drafts.{
  same_text, share_text, DraftValues, changed_draft, flush_changed, change_draft, is_owned,
  new_draft, collides, insert_draft, create_draft, save_draft, upsert_draft_for_profile,
  delete_found,
}
use job_agent.Profiles.Saved.{upsert_cases}

abbrev pub of_operation : String → ProfileDraft → Bool
of_operation o d = equals_text d.reextract_operation_id o

-- `reextract_source_coupling`
pub record IsSourced (d : ProfileDraft) : Type 0 where
  pub coupled : (not (is_some d.reextract_operation_id) || is_some d.source_attachment_id) ≡ true

pub record AreCoherent (ds : List ProfileDraft) : Type 0 where
  pub one_target : (p : String) → count_if (targets p) ds ≤ 1
  pub one_operation : (o : String) → count_if (of_operation o) ds ≤ 1
  pub sourced : All IsSourced ds

equals_text-share :
    (a b : Option String) (o : String)
    → equals_text a o ≡ true
    → equals_text b o ≡ true
    → share_text a b ≡ true
equals_text-share none b o h k = cc
equals_text-share (some s) none o h k = cc
equals_text-share (some s) (some t) o h k =
    (eq_iff s t).1 ((eq_iff s o).0 h ∙ sym ((eq_iff t o).0 k))

same_text-eq : (a b : Option String) → same_text a b ≡ true → a ≡ b
same_text-eq none none h = refl
same_text-eq none (some t) h = cc
same_text-eq (some s) none h = cc
same_text-eq (some s) (some t) h = ap some ((eq_iff s t).0 h)

insert_draft-AreCoherent :
    (row : ProfileDraft) (db : Database)
    → IsSourced row
    → AreCoherent db.drafts
    → AreCoherent (insert_draft row db).1.drafts
unfolding insert_draft
insert_draft-AreCoherent row db sourced h = elim (Bool-cases (any (collides row) db.drafts)) [
  | inl e ↦ rw e h
  | inr e ↦ rw e (record {
    one_target = λ p. elim (Bool-cases (targets p row)) [
      | inl t ↦
          let same = (eq_iff row.target_profile_id p).0 t in
          let free =
            any-weaken (collides row) (targets p) db.drafts (λ x u. ground (arith, same)) e in
          ground (
            arith,
            count_if-append (targets p) db.drafts (row ∷ []),
            count_if_of_any-false (targets p) db.drafts free,
          )
      | inr t ↦ ground (arith, count_if-append (targets p) db.drafts (row ∷ []), h.one_target p)
    ];
    one_operation = λ o. elim (Bool-cases (of_operation o row)) [
      | inl t ↦
          let free =
            any-weaken (collides row) (of_operation o) db.drafts
              (λ x u.
                ground
                  (arith, equals_text-share x.reextract_operation_id row.reextract_operation_id o))
              e in
          ground (
            arith,
            count_if-append (of_operation o) db.drafts (row ∷ []),
            count_if_of_any-false (of_operation o) db.drafts free,
          )
      | inr t ↦
          ground (arith, count_if-append (of_operation o) db.drafts (row ∷ []), h.one_operation o)
    ];
    sourced = All-append IsSourced db.drafts (row ∷ []) h.sourced (sourced, tt);
  })
]

owned-sourced :
    (p : String) (v : DraftValues) (db : Database)
    → is_owned p v db.operations ≡ true
    → (not (is_some v.reextract_operation_id) || is_some v.source_attachment_id) ≡ true
unfolding is_owned
owned-sourced p v db e = elim (Option-cases v.reextract_operation_id) [
  | inl f ↦ rw f refl
  | inr (o, f) ↦ elim (Option-cases v.source_attachment_id) [
    | inr (s, g) ↦ rw (f, g) refl
    | inl g ↦ ground arith
  ]
]

flush_changed-AreCoherent :
    (p : String) (row next : ProfileDraft) (db : Database)
    → first (targets p) db.drafts ≡ some row
    → next.target_profile_id ≡ row.target_profile_id
    → next.reextract_operation_id ≡ row.reextract_operation_id
    → IsSourced next
    → AreCoherent db.drafts
    → AreCoherent (flush_changed p next db).1.drafts
unfolding flush_changed
flush_changed-AreCoherent p row next db found target operation sourced h =
    elim (Bool-cases (
      any
        (λ d. not (d.id == next.id) && share_text d.source_attachment_id next.source_attachment_id)
        db.drafts)) [
          | inl e ↦ rw e h
          | inr e ↦ rw e (record {
            one_target = λ q. omega (
              arith,
              h.one_target q,
              count_if-put_first (targets q) (targets p) next row db.drafts found
                  (ap (λ t. t == q) target),
            );
            one_operation = λ o. omega (
              arith,
              h.one_operation o,
              count_if-put_first (of_operation o) (targets p) next row db.drafts found
                  (ap (λ t. equals_text t o) operation),
            );
            sourced = All-put_first IsSourced (targets p) next db.drafts sourced h.sourced;
          })
        ]

change_draft-AreCoherent :
    (p : String) (now : ℕ) (v : DraftValues) (row : ProfileDraft) (db : Database)
    → first (targets p) db.drafts ≡ some row
    → AreCoherent db.drafts
    → AreCoherent (change_draft p now v row db).1.drafts
unfolding change_draft
change_draft-AreCoherent p now v row db found h =
    let kept = All-first IsSourced (targets p) db.drafts h.sourced found in
    elim (Bool-cases (same_text row.reextract_operation_id v.reextract_operation_id)) [
      | inr e ↦ rw e h
      | inl e ↦
          elim (Bool-cases (
            is_some row.reextract_operation_id
            && not (same_text row.source_attachment_id v.source_attachment_id))) [
              | inl f ↦ rw (e, f) h
              | inr f ↦
                  rw (e, f)
                    (flush_changed-AreCoherent p row (changed_draft now v row) db found refl refl
                      (record {
                        coupled = ground (
                          arith,
                          kept.coupled,
                          same_text-eq row.source_attachment_id v.source_attachment_id,
                        );
                      })
                      h)
            ]
    ]

create_draft-AreCoherent :
    (p i : String) (now : ℕ) (v : DraftValues) (profile : Option Profile) (db : Database)
    → AreCoherent db.drafts
    → AreCoherent (create_draft p i now v profile db).1.drafts
unfolding create_draft is_owned
create_draft-AreCoherent p i now v none db h = h
create_draft-AreCoherent p i now v (some profile) db h =
    elim (Bool-cases (is_owned p v db.operations)) [
      | inr e ↦ rw e h
      | inl e ↦ rw e (
          insert_draft-AreCoherent (new_draft i now p v) db
            (record { coupled = owned-sourced p v db e }) h)
    ]

save_draft-AreCoherent :
    (p i : String) (now : ℕ) (v : DraftValues) (db : Database)
    → AreCoherent db.drafts
    → AreCoherent (save_draft p i now v (first (targets p) db.drafts) db).1.drafts
unfolding save_draft get_profile required
save_draft-AreCoherent p i now v db h = elim (Option-cases (first (targets p) db.drafts)) [
  | inr (row, e) ↦ ground (arith, change_draft-AreCoherent p now v row db e h)
  | inl e ↦
      ground (arith, create_draft-AreCoherent p i now v (profile_by_id (strip p) db.profiles) db h)
]

pub upsert-AreCoherent :
    (i : String) (now : ℕ) (p : String) (v : DraftValues) (db : Database)
    → AreCoherent db.drafts
    → AreCoherent (upsert_draft_for_profile i now p v db).1.drafts
upsert-AreCoherent i now p v db h = elim (upsert_cases i now p v) [
  | inl f ↦ rw (f db) h
  | inr (w, f) ↦ rw (f db) (save_draft-AreCoherent (strip p) i now w db h)
]

keep-AreCoherent :
    (r : ProfileDraft → Bool) (ds : List ProfileDraft) → AreCoherent ds → AreCoherent (keep r ds)
keep-AreCoherent r ds h = record {
  one_target = λ p. omega (arith, h.one_target p, count_if-keep_le (targets p) r ds);
  one_operation = λ o. omega (arith, h.one_operation o, count_if-keep_le (of_operation o) r ds);
  sourced = All-keep IsSourced r ds h.sourced;
}

pub delete_found-AreCoherent :
    (r : Option ℕ) (o : Option String) (row : Option ProfileDraft) (db : Database)
    → AreCoherent db.drafts
    → AreCoherent (delete_found r o row db).1.drafts
unfolding delete_found
delete_found-AreCoherent r o none db h = h
delete_found-AreCoherent r o (some row) db h =
    ground (arith, keep-AreCoherent (λ d. not (d.id == row.id)) db.drafts h)
