-- ===== src/Tools/Rows/Stored.antt =====
-- What a terminal transition stores, and reading it back.
use job_agent.Prelude.{
  ℕ, String, ◌≡◌, true, false, Option, none, some, List, [], ◌∷◌, ◌++◌, arith, if◌then◌else◌,
  returned, any, eq_refl, eq_iff, ℤ, pos, inl, inr, Option-cases, ap,
}
use job_agent.Prelude.Table.{put_first-snoc, first-snoc}
use job_agent.Models.Chat.{ToolStatus}
use job_agent.Tools.Results.{
  ToolResult, is_valid, serialize_result, couple_ok_and_code,
  validate_tool_result_terminal_coupling,
}
use job_agent.Tools.Results.RoundTrip.{parse-serialize}
use job_agent.Tools.Rows.{
  ToolExecution, has_id, get_by_id, load_stored_result, complete_execution, fail_execution,
  transition, allowed, assign_fields,
}

abbrev pub terminal_status : ToolResult → ToolStatus
terminal_status r = if r.ok then ToolStatus.completed else ToolStatus.failed

-- The row with the result `r`.
abbrev pub finished : ToolResult → ℕ → ℕ → ToolExecution → ToolExecution
finished r duration_ms now row = record row {
  status = terminal_status r;
  updated_at = now;
  duration_ms = some (pos duration_ms);
  result_json = some (serialize_result r);
  error_code = r.code;
}

coupled_of_valid :
    (r : ToolResult)
    → is_valid r ≡ true
    → validate_tool_result_terminal_coupling r (terminal_status r) r.code ≡ true
unfolding couple_ok_and_code validate_tool_result_terminal_coupling
coupled_of_valid r valid = elim (Option-cases r.code) [
  | inl e ↦ ground arith
  | inr (c, e) ↦ ground (arith, eq_iff c c)
]

pub load-finished :
    (r : ToolResult) (d now : ℕ) (row : ToolExecution)
    → is_valid r ≡ true
    → load_stored_result (finished r d now row) ≡ returned r
unfolding load_stored_result
load-finished r d now row valid = ground (arith, parse-serialize r valid, coupled_of_valid r valid)

-- A transition of the last row of a table, where no other row has its id.
pub transition_last :
    (rows : List ToolExecution) (row next : ToolExecution) (to : ToolStatus) (r : Option ToolResult)
    (d : Option ℤ) (e : Option String) (now : ℕ)
    → any (has_id row.id) rows ≡ false
    → allowed row.status to ≡ true
    → assign_fields to r d e now row ≡ returned next
    → transition row.id to r d e now (rows ++ row ∷ []) ≡ (returned next, rows ++ next ∷ [])
unfolding transition get_by_id
transition_last rows row next to r d e now fresh way assigned =
    let named = eq_refl row.id in
    rw (first-snoc (has_id row.id) row rows fresh named, transition, way, assigned)
      (ap (λ x. (returned next, x)) (put_first-snoc (has_id row.id) row next rows fresh named))

module _ (rows : List ToolExecution) (row : ToolExecution) (r : ToolResult) (d now : ℕ)
    (fresh : any (has_id row.id) rows ≡ false) (running : row.status ≡ ToolStatus.running)
    (valid : is_valid r ≡ true) where
  completed_parts :
      r.ok ≡ true
      → (allowed row.status ToolStatus.completed ≡ true)
        × (assign_fields ToolStatus.completed (some r) (some (pos d)) none now row
            ≡ returned (finished r d now row))
        × (validate_tool_result_terminal_coupling r ToolStatus.completed none ≡ true)
  unfolding allowed assign_fields couple_ok_and_code validate_tool_result_terminal_coupling
  completed_parts ok = (ground arith, ground arith, ground arith)

  failed_parts :
      r.ok ≡ false
      → (allowed row.status ToolStatus.failed ≡ true)
        × (assign_fields ToolStatus.failed (some r) (some (pos d)) r.code now row
            ≡ returned (finished r d now row))
        × (validate_tool_result_terminal_coupling r ToolStatus.failed r.code ≡ true)
  unfolding allowed assign_fields
  failed_parts bad = (ground arith, ground arith, ground (arith, coupled_of_valid r valid))

  pub complete_last :
      r.ok ≡ true
      → complete_execution row.id r (pos d) now (rows ++ row ∷ [])
        ≡ (returned (finished r d now row), rows ++ finished r d now row ∷ [])
  unfolding complete_execution
  complete_last ok =
      let (way, assigned, coupled) = completed_parts ok in
      rw coupled (
        transition_last rows row (finished r d now row) ToolStatus.completed (some r) (some (pos d))
          none now fresh way assigned)

  pub fail_last :
      r.ok ≡ false
      → fail_execution row.id r (pos d) now (rows ++ row ∷ [])
        ≡ (returned (finished r d now row), rows ++ finished r d now row ∷ [])
  unfolding fail_execution
  fail_last bad =
      let (way, assigned, coupled) = failed_parts bad in
      rw coupled (
        transition_last rows row (finished r d now row) ToolStatus.failed (some r) (some (pos d))
          r.code now fresh way assigned)
