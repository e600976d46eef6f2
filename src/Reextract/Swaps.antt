-- ===== src/Reextract/Swaps.antt =====
-- Of the transitions of one operation at most one wins.
use job_agent.Prelude.{
  ℕ, String, Bool, true, false, Option, none, some, ◌≡◌, ◌≢◌, ◌⊎◌, refl, arith, any, is_blank,
  strip, Bool-cases, inl, inr, returned, raised, pure, throw, if◌then◌else◌,
}
use job_agent.Prelude.Counts.{
  any-update_where_self, update_where_of_any-false, count_if_of_any-false,
}
use job_agent.Models.Database.{Database}
use job_agent.Reextract.{invalid_input, TransitionState, as_state, required_id}
use job_agent.Reextract.Writes.{
  moved, is_running_operation, validate_transition, swap_state, transition_running_operation,
}

module _ (p o : String) (t : TransitionState) (now : ℕ) (e : Option String) where
  swap_state-none :
      (db : Database)
      → any (is_running_operation p o) (swap_state p o t now e db).1.operations ≡ false
  unfolding swap_state
  swap_state-none db =
      any-update_where_self (is_running_operation p o) (moved (as_state t) e now) db.operations
        (λ x. elim t [
          | TransitionState.review_ready ↦ ground arith
          | TransitionState.interrupted ↦ ground arith
          | TransitionState.failed ↦ ground arith
          | TransitionState.stale ↦ ground arith
        ])

  swap_state-lost :
      (db : Database)
      → any (is_running_operation p o) db.operations ≡ false
      → swap_state p o t now e db ≡ (returned false, db)
  unfolding swap_state
  swap_state-lost db h =
      rw
        (
          update_where_of_any-false (is_running_operation p o) (moved (as_state t) e now)
              db.operations h,
          count_if_of_any-false (is_running_operation p o) db.operations h,
        )
        refl

coded :
    (b : Bool) (c : String)
    → ((db : Database)
        → (if b then throw invalid_input else pure (some (strip c))) db
          ≡ (raised invalid_input, db))
      ⊎ ((d : Option String) × ((db : Database)
            → (if b then throw invalid_input else pure (some (strip c))) db ≡ (returned d, db)))
coded true c = inl (λ db. refl)
coded false c = inr (some (strip c), λ db. refl)

validate_cases :
    (t : TransitionState) (e : Option String)
    → ((db : Database) → validate_transition t e db ≡ (raised invalid_input, db))
      ⊎ ((c : Option String) × ((db : Database) → validate_transition t e db ≡ (returned c, db)))
unfolding validate_transition
validate_cases TransitionState.review_ready none = inr (none, λ db. refl)
validate_cases TransitionState.review_ready (some c) = inl (λ db. refl)
validate_cases TransitionState.interrupted none = inl (λ db. refl)
validate_cases TransitionState.interrupted (some c) = coded (is_blank c) c
validate_cases TransitionState.failed none = inl (λ db. refl)
validate_cases TransitionState.failed (some c) = coded (is_blank c) c
validate_cases TransitionState.stale none = inl (λ db. refl)
validate_cases TransitionState.stale (some c) = coded (is_blank c) c

transition_cases :
    (p o : String) (t : TransitionState) (e : Option String) (now : ℕ)
    → ((db : Database) → transition_running_operation p o t e now db ≡ (raised invalid_input, db))
      ⊎ ((c : Option String) × ((db : Database)
            → transition_running_operation p o t e now db
              ≡ swap_state (strip p) (strip o) t now c db))
unfolding transition_running_operation required_id
transition_cases p o t e now = elim (Bool-cases (is_blank p)) [
  | inl bp ↦ inl (λ db. rw bp refl)
  | inr np ↦ elim (Bool-cases (is_blank o)) [
    | inl bo ↦ inl (λ db. rw (np, bo) refl)
    | inr named ↦ elim (validate_cases t e) [
      | inl v ↦ inl (λ db. ground (arith, v db))
      | inr (c, v) ↦ inr (c, λ db. ground (arith, v db))
    ]
  ]
]

-- Of two transitions of one operation the first that passes its checks is the only one that can win:
-- the second does not answer `true` and changes nothing, whatever its target is.
pub transition_running_operation-once :
    (p o : String) (t t' : TransitionState) (e e' : Option String) (now now' : ℕ) (db : Database)
    {won : Bool}
    → (transition_running_operation p o t e now db).0 ≡ returned won
    → let first = transition_running_operation p o t e now db in
      let second = transition_running_operation p o t' e' now' first.1 in
      (second.0 ≢ returned true) × (second.1 ≡ first.1)
transition_running_operation-once p o t t' e e' now now' db done =
    elim (transition_cases p o t e now) [
      | inl f ↦ let wrong = f db in ground arith
      | inr (c, f) ↦ elim (transition_cases p o t' e' now') [
        | inl g ↦ rw (f db, g (swap_state (strip p) (strip o) t now c db).1) (λ x. cc, refl)
        | inr (d, g) ↦
            let after = (swap_state (strip p) (strip o) t now c db).1 in
            rw
              (
                f db,
                g after,
                swap_state-lost (strip p) (strip o) t' now' d after
                    (swap_state-none (strip p) (strip o) t now c db),
              )
              (λ x. cc, refl)
      ]
    ]
