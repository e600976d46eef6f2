-- ===== src/Tools/Service/Unique.antt =====
-- The whole service keeps one row for each identity.
use job_agent.Prelude.{
  ℕ, String, Bool, Option, List, arith, Outcome, returned, raised, Action, and_then, ◌>>=◌, pure, ℤ,
}
use job_agent.Tools.Results.{ToolResult}
use job_agent.Tools.Rows.{ToolExecution, Call, Rows}
use job_agent.Tools.Rows.Identity.{
  IsUnique, Keeps, get_or_create_pending-IsUnique, mark_running-Keeps, complete_execution-Keeps,
  fail_execution-Keeps,
}
use job_agent.Tools.Service.{
  Store, Stamps, ExecError, Publication, Claim, new_pending, reentry, replay, resolve_label,
  clamp_duration, session_scope, publish, in_block, claim_identity, store_result, settle, invoked,
  run_claimed, follow_claim, execute_tool,
}

-- A statement of the service keeps the identity unique.
record Safe {S E A : Type 0} (m : Action (Store S) E A) : Type 0 where
  at : (s : Store S) → IsUnique s.executions → IsUnique (m s).1.executions

module _ {S E A : Type 0} where
  session_scope-Safe :
      (body : Action (List ToolExecution) (ExecError E) A)
      → Keeps body
      → Safe (session_scope {S = S} body)
  unfolding session_scope
  session_scope-Safe body k = record { at = λ s u. ground (arith, k.at s.executions u) }

  pure-Safe : (a : A) → Safe (pure {S = Store S} {E = E} a)
  pure-Safe a = record { at = λ s u. u }

module _ {S E A B : Type 0} where
  and_then-Safe :
      (r : Outcome E A) (f : A → Action (Store S) E B) (s : Store S)
      → ((a : A) → Safe (f a))
      → IsUnique s.executions
      → IsUnique (and_then r f s).1.executions
  and_then-Safe (returned a) f s k u = (k a).at s u
  and_then-Safe (raised e) f s k u = u

  bind-Safe :
      (m : Action (Store S) E A) (f : A → Action (Store S) E B)
      → Safe m
      → ((a : A) → Safe (f a))
      → Safe (m >>= f)
  bind-Safe m f km kf = record { at = λ s u. and_then-Safe (m s).0 f (m s).1 kf (km.at s u) }

in_block-Keeps : {E A : Type 0} (m : Rows A) → Keeps m → Keeps (in_block {E = E} m)
unfolding in_block
in_block-Keeps m k = record { at = λ rows u. ground (arith, k.at rows u) }

claim_identity-Keeps :
    {E : Type 0} (stamps : Stamps) (meanwhile : List ToolExecution → List ToolExecution)
    (label : String) (allow : Bool) (call : Call)
    → ((xs : List ToolExecution) → IsUnique xs → IsUnique (meanwhile xs))
    → Keeps (claim_identity {E = E} stamps meanwhile label allow call)
unfolding claim_identity in_block
claim_identity-Keeps stamps meanwhile label allow call keeps = record {
  at = λ rows u. ground (
    arith,
    get_or_create_pending-IsUnique stamps.new_id stamps.created_at meanwhile call rows keeps u,
  );
}

store_result-Keeps :
    {E : Type 0} (label : String) (row : ToolExecution) (r : ToolResult) (d : ℤ) (now : ℕ)
    → Keeps (store_result {E = E} label row r d now)
unfolding store_result in_block
store_result-Keeps label row r d now = record {
  at = λ rows u. ground (
    arith,
    (complete_execution-Keeps row.id r d now).at rows u,
    (fail_execution-Keeps row.id r d now).at rows u,
  );
}

settle-Keeps :
    {E : Type 0} (label : String) (row : ToolExecution) (r : ToolResult) (d : ℤ) (now : ℕ)
    → Keeps (settle {E = E} label row r d now)
unfolding settle
settle-Keeps {E} label row r d now = record {
  at = λ rows u. ground (arith, (store_result-Keeps {E = E} label row r d now).at rows u);
}

publish-Safe : {S E : Type 0} (p : Publication) → Safe (publish {S = S} {E = E} p)
unfolding publish
publish-Safe p = record { at = λ s u. u }

module _ {S E : Type 0} (stamps : Stamps) (invoke : Action (Store S) E ToolResult)
    (safe : (t : Store S) → IsUnique t.executions → IsUnique (invoke t).1.executions) where
  invoked-Safe : Safe (invoked stamps invoke)
  invoked-Safe = record { at = λ s u. ground (arith, safe s u) }

  run_claimed-Safe :
      (label : String) (row : ToolExecution) → Safe (run_claimed stamps invoke label row)
  unfolding run_claimed
  run_claimed-Safe label row = bind-Safe _ _ invoked-Safe λ result.
      bind-Safe _ _
        (session_scope-Safe _
          (settle-Keeps label row result (clamp_duration stamps.elapsed_ms) stamps.finished_at))
        λ final. bind-Safe _ _ (publish-Safe final.1) λ _. pure-Safe final.0

  follow_claim-Safe :
      (label : String) (claim : Claim) → Safe (follow_claim stamps invoke label claim)
  unfolding follow_claim
  follow_claim-Safe label (replay result p) = bind-Safe _ _ (publish-Safe p) λ _. pure-Safe result
  follow_claim-Safe label (reentry row) = run_claimed-Safe label row
  follow_claim-Safe label (new_pending row) = bind-Safe _ _ (publish-Safe _) λ _.
      bind-Safe _ _
        (session_scope-Safe _ (in_block-Keeps _ (mark_running-Keeps row.id stamps.running_at)))
        λ started. bind-Safe _ _ (publish-Safe _) λ _. run_claimed-Safe label started

  -- Where the other writers and the invoker keep at most one row for each identity
  -- `(run_id, tool_call_id)`, so does the whole call, on every path: replay, re-entry, a new row, a
  -- rollback and an exception of the invoker.
  pub execute_tool-IsUnique :
      (meanwhile : List ToolExecution → List ToolExecution) (call : Call) (label : Option String)
      (allow : Bool) (s : Store S)
      → ((xs : List ToolExecution) → IsUnique xs → IsUnique (meanwhile xs))
      → IsUnique s.executions
      → IsUnique (execute_tool stamps invoke meanwhile call label allow s).1.executions
  unfolding execute_tool
  execute_tool-IsUnique meanwhile call label allow s keeps u =
      let shown = resolve_label label call.tool_name in
      (bind-Safe _ _
          (session_scope-Safe _ (claim_identity-Keeps stamps meanwhile shown allow call keeps))
          (follow_claim-Safe shown)).at
        s u
