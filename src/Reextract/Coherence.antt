-- ===== src/Reextract/Coherence.antt =====
-- What the CHECK constraints and the indexes of profile_reextract_operations promise, under every
-- statement of the repository.
use job_agent.Prelude.{
  ℕ, String, Bool, true, false, not, Option, List, [], ◌∷◌, ◌++◌, ◌==◌, ◌≡◌, refl, ◌≤◌, arith, any,
  keep, count_if, All, is_some, Bool-cases, inl, inr, eq_iff,
}
use job_agent.Prelude.Table.{update_where, All-append, All-keep}
use job_agent.Prelude.Counts.{
  All-update_where_if, count_if-append, count_if-keep_le, count_if-update_where_le,
  count_if_of_any-false,
}
use job_agent.Models.Profiles.{ProfileReextractOperation}
use job_agent.Models.Database.{Database}
use job_agent.Reextract.{TransitionState, as_state, is_terminal, is_open_review, as_stale}
use job_agent.Reextract.Claims.{
  is_actionable_of, is_spent, Base, new_operation, is_referenced, flush_claim, write_claim,
}
use job_agent.Reextract.Writes.{moved, is_running_operation}

-- `error_coupling`: an error code exactly in the finished states.
pub record IsCoupled (op : ProfileReextractOperation) : Type 0 where
  pub error_code : is_some op.error_code ≡ is_terminal op.state

abbrev pub has_id : String → ProfileReextractOperation → Bool
has_id i op = op.id == i

pub record IsCoherent (ops : List ProfileReextractOperation) : Type 0 where
  pub coupled : All IsCoupled ops
  -- At most one running or reviewed operation of each profile.
  pub one_actionable : (profile_id : String) → count_if (is_actionable_of profile_id) ops ≤ 1
  pub one_id : (i : String) → count_if (has_id i) ops ≤ 1

pub keep-IsCoherent :
    (r : ProfileReextractOperation → Bool) (ops : List ProfileReextractOperation)
    → IsCoherent ops
    → IsCoherent (keep r ops)
keep-IsCoherent r ops h = record {
  coupled = All-keep IsCoupled r ops h.coupled;
  one_actionable =
      λ p. omega (arith, h.one_actionable p, count_if-keep_le (is_actionable_of p) r ops);
  one_id = λ i. omega (arith, h.one_id i, count_if-keep_le (has_id i) r ops);
}

pub update-IsCoherent :
    (q : ProfileReextractOperation → Bool)
    (f : ProfileReextractOperation → ProfileReextractOperation)
    (ops : List ProfileReextractOperation)
    → ((x : ProfileReextractOperation) → q x ≡ true → IsCoupled (f x))
    → ((p : String) (x : ProfileReextractOperation)
        → q x ≡ true
        → is_actionable_of p (f x) ≡ true
        → is_actionable_of p x ≡ true)
    → ((x : ProfileReextractOperation) → (f x).id ≡ x.id)
    → IsCoherent ops
    → IsCoherent (update_where q f ops)
update-IsCoherent q f ops couples stays same h = record {
  coupled = All-update_where_if IsCoupled q f ops (λ x e _. couples x e) h.coupled;
  one_actionable = λ p.
      omega (
        arith,
        h.one_actionable p,
        count_if-update_where_le (is_actionable_of p) q f ops (stays p),
      );
  one_id = λ i. omega (
    arith,
    h.one_id i,
    count_if-update_where_le (has_id i) q f ops (λ x _ e. ground (arith, same x)),
  );
}

pub append-IsCoherent :
    (op : ProfileReextractOperation) (ops : List ProfileReextractOperation)
    → IsCoupled op
    → any (has_id op.id) ops ≡ false
    → any (is_actionable_of op.profile_id) ops ≡ false
    → IsCoherent ops
    → IsCoherent (ops ++ op ∷ [])
append-IsCoherent op ops c fresh idle h = record {
  coupled = All-append IsCoupled ops (op ∷ []) h.coupled (c, tt);
  one_actionable = λ p. elim (Bool-cases (op.profile_id == p)) [
    | inl e ↦
        let same = (eq_iff op.profile_id p).0 e in
        ground (
          arith,
          count_if-append (is_actionable_of p) ops (op ∷ []),
          count_if_of_any-false (is_actionable_of op.profile_id) ops idle,
          same,
        )
    | inr e ↦ ground (arith, count_if-append (is_actionable_of p) ops (op ∷ []), h.one_actionable p)
  ];
  one_id = λ i. elim (Bool-cases (op.id == i)) [
    | inl e ↦
        let same = (eq_iff op.id i).0 e in
        ground (
          arith,
          count_if-append (has_id i) ops (op ∷ []),
          count_if_of_any-false (has_id op.id) ops fresh,
          same,
        )
    | inr e ↦ ground (arith, count_if-append (has_id i) ops (op ∷ []), h.one_id i)
  ];
}

pub stale-IsCoherent :
    (p o : String) (now : ℕ) (ops : List ProfileReextractOperation)
    → IsCoherent ops
    → IsCoherent (update_where (is_open_review p o) (as_stale now) ops)
stale-IsCoherent p o now ops h =
    update-IsCoherent (is_open_review p o) (as_stale now) ops (λ x e. record { error_code = refl })
      (λ q x e a. ground arith) (λ x. refl) h

pub moved-IsCoherent :
    (p o : String) (to_state : TransitionState) (now : ℕ) (error_code : Option String)
    (ops : List ProfileReextractOperation)
    → is_some error_code ≡ is_terminal (as_state to_state)
    → IsCoherent ops
    → IsCoherent
        (update_where (is_running_operation p o) (moved (as_state to_state) error_code now) ops)
moved-IsCoherent p o to_state now error_code ops c h =
    update-IsCoherent (is_running_operation p o) (moved (as_state to_state) error_code now) ops
      (λ x e. record { error_code = c }) (λ q x e a. ground arith) (λ x. refl) h

flush_claim-IsCoherent :
    (op : ProfileReextractOperation) (db : Database) (rows : List ProfileReextractOperation)
    → IsCoupled op
    → IsCoherent db.operations
    → IsCoherent rows
    → IsCoherent (flush_claim op db rows).1.operations
unfolding flush_claim
flush_claim-IsCoherent op db rows c before h = elim (Bool-cases (any (has_id op.id) rows)) [
  | inl e ↦ rw e before
  | inr fresh ↦ elim (Bool-cases (any (is_actionable_of op.profile_id) rows)) [
    | inl e ↦ rw (fresh, e) before
    | inr idle ↦ elim (Bool-cases (is_referenced db op)) [
      | inr e ↦ rw (fresh, idle, e) before
      | inl e ↦ rw (fresh, idle, e) (append-IsCoherent op rows c fresh idle h)
    ]
  ]
]

pub write_claim-IsCoherent :
    (new_id : String) (now : ℕ) (p : String) (base : Base) (db : Database)
    → IsCoherent db.operations
    → IsCoherent (write_claim new_id now p base db).1.operations
unfolding write_claim
write_claim-IsCoherent new_id now p base db h =
    flush_claim-IsCoherent (new_operation new_id now p base) db
      (keep (λ op. not (is_spent p db.drafts op)) db.operations) (record { error_code = refl }) h
      (keep-IsCoherent _ db.operations h)
