-- ===== src/Tools/Rows/Identity.antt =====
-- At most one row for each identity.
use job_agent.Prelude.{
  Action, ℕ, ◌≤◌, String, ◌≡◌, refl, true, false, Option, none, some, List, [], ◌∷◌, ◌++◌, arith,
  Outcome, returned, raised, any, count_if, eq_iff, ℤ, pos, negsuc, Bool-cases, inl, inr,
  Option-cases, first,
}
use job_agent.Prelude.Counts.{count_if-append, count_if_of_any-false, count_if-put_first}
use job_agent.Models.Chat.{ToolStatus}
use job_agent.Tools.Results.{ToolResult}
use job_agent.Tools.Rows.{
  ToolExecution, RowError, write_row, Call, has_id, has_identity, get_by_id, new_row,
  insert_or_reselect, get_or_create_pending, transition, assign_fields, mark_running,
  complete_execution, fail_execution, allowed,
}

pub record IsUnique (rows : List ToolExecution) : Type 0 where
  pub once : (run tool : String) → count_if (has_identity run tool) rows ≤ 1

module _ (new : ToolExecution) (rows : List ToolExecution) where
  same_identity :
      (run tool : String)
      → has_identity run tool new ≡ true
      → any (has_identity new.run_id new.tool_call_id) rows ≡ false
      → any (has_identity run tool) rows ≡ false
  same_identity run tool e absent =
      let r : new.run_id ≡ run = (eq_iff new.run_id run).0 (ground arith) in
      let c : new.tool_call_id ≡ tool = (eq_iff new.tool_call_id tool).0 (ground arith) in
      rw (← r, ← c) absent

  snoc-IsUnique :
      any (has_identity new.run_id new.tool_call_id) rows ≡ false
      → IsUnique rows
      → IsUnique (rows ++ new ∷ [])
  snoc-IsUnique absent u = record {
    once = λ run tool. elim (Bool-cases (has_identity run tool new)) [
      | inl e ↦
          let none_yet =
            count_if_of_any-false (has_identity run tool) rows (same_identity run tool e absent) in
          rw (count_if-append, e) (omega (arith, none_yet))
      | inr e ↦ rw (count_if-append, e) (omega (arith, u.once run tool))
    ];
  }

pub get_or_create_pending-IsUnique :
    (new_id : String) (now : ℕ) (meanwhile : List ToolExecution → List ToolExecution) (call : Call)
    (rows : List ToolExecution)
    → ((xs : List ToolExecution) → IsUnique xs → IsUnique (meanwhile xs))
    → IsUnique rows
    → IsUnique (get_or_create_pending new_id now meanwhile call rows).1
unfolding get_or_create_pending insert_or_reselect
get_or_create_pending-IsUnique new_id now meanwhile call rows keeps u =
    let later = meanwhile rows in
    let v = keeps rows u in
    elim (Bool-cases (any (has_identity call.run_id call.tool_call_id) later)) [
      | inl taken ↦ ground (arith, u, v)
      | inr free ↦ ground (arith, u, v, snoc-IsUnique (new_row new_id now call) later free v)
    ]

assign_fields-identity :
    (to : ToolStatus) (r : Option ToolResult) (d : Option ℤ) (e : Option String) (now : ℕ)
    (row next : ToolExecution) (run tool : String)
    → assign_fields to r d e now row ≡ returned next
    → has_identity run tool next ≡ has_identity run tool row
unfolding assign_fields
assign_fields-identity to r d e now row next run tool h = ground arith

pub transition-IsUnique :
    (id : String) (to : ToolStatus) (r : Option ToolResult) (d : Option ℤ) (e : Option String)
    (now : ℕ) (rows : List ToolExecution)
    → IsUnique rows
    → IsUnique (transition id to r d e now rows).1
unfolding transition get_by_id
transition-IsUnique id to r d e now rows u = elim (Option-cases (first (has_id id) rows)) [
  | inl absent ↦ rw (absent, transition) u
  | inr (row, found) ↦ elim (Bool-cases (allowed row.status to)) [
    | inl way ↦ rw (found, transition, way) (stored row found (assign_fields to r d e now row) refl)
    | inr no_way ↦ rw (found, transition, no_way) u
  ]
]
  where
    stored :
        (row : ToolExecution)
        → first (has_id id) rows ≡ some row
        → (o : Outcome RowError ToolExecution) → assign_fields to r d e now row ≡ o
        → IsUnique (write_row id o rows).1
    stored row found (raised x) h = u
    stored row found (returned next) h = record {
      once = λ run tool.
          rw
            (count_if-put_first (has_identity run tool) (has_id id) next row rows found
              (assign_fields-identity to r d e now row next run tool h))
            (u.once run tool);
    }

-- The calls of the service keep the identity unique.
pub record Keeps {E A : Type 0} (m : Action (List ToolExecution) E A) : Type 0 where
  pub at : (rows : List ToolExecution) → IsUnique rows → IsUnique (m rows).1

pub mark_running-Keeps : (id : String) (now : ℕ) → Keeps (mark_running id now)
unfolding mark_running
mark_running-Keeps id now = record {
  at = λ rows u. transition-IsUnique id ToolStatus.running none none none now rows u;
}

pub complete_execution-Keeps :
    (id : String) (r : ToolResult) (d : ℤ) (now : ℕ) → Keeps (complete_execution id r d now)
unfolding complete_execution
complete_execution-Keeps id r (negsuc n) now = record { at = λ rows u. u }
complete_execution-Keeps id r (pos n) now = record {
  at = λ rows u.
      ground (
        arith,
        transition-IsUnique id ToolStatus.completed (some r) (some (pos n)) none now rows u,
      );
}

pub fail_execution-Keeps :
    (id : String) (r : ToolResult) (d : ℤ) (now : ℕ) → Keeps (fail_execution id r d now)
unfolding fail_execution
fail_execution-Keeps id r (negsuc n) now = record { at = λ rows u. u }
fail_execution-Keeps id r (pos n) now = record {
  at = λ rows u.
      ground
        (arith, transition-IsUnique id ToolStatus.failed (some r) (some (pos n)) r.code now rows u);
}
