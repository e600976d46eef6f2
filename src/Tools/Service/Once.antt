-- ===== src/Tools/Service/Once.antt =====
-- A new identity is executed once.
use mathlib.Core.List.{append_assoc}
use job_agent.Prelude.{
  ℕ, String, ◌≡◌, refl, Bool, true, false, Option, none, some, List, [], ◌∷◌, ◌++◌, arith,
  if◌then◌else◌, returned, Action, any, eq_refl, ℤ, pos, negsuc, ap, Bool-cases, inl, inr,
}
use job_agent.Prelude.Table.{first-snoc, any_of_first-none}
use job_agent.Models.Chat.{ToolStatus}
use job_agent.Tools.Results.{ToolResult, is_valid, couple_ok_and_code}
use job_agent.Tools.Rows.{
  ToolExecution, Call, is_refused, new_row, has_id, has_identity, get_by_identity, get_by_id,
  get_or_create_pending, insert_or_reselect, mark_running, allowed, assign_fields,
}
use job_agent.Tools.Rows.Stored.{finished, load-finished, transition_last, complete_last, fail_last}
use job_agent.Tools.Service.{
  Store, Stamps, Publication, new_pending, progress, stored_publication, resolve_label,
  clamp_duration, session_scope, publish, in_block, claim_row, claim_identity, store_result, settle,
  run_claimed, follow_claim, execute_tool,
}
use job_agent.Tools.Service.Replay.{execute_tool-terminal}

abbrev pub shown_ms : ℤ → ℕ
shown_ms (pos n) = n
shown_ms (negsuc n) = 0

-- The row of a new identity after each of the three blocks.
abbrev pub waiting : Stamps → Call → ToolExecution
waiting stamps call = new_row stamps.new_id stamps.created_at call

abbrev pub started : Stamps → Call → ToolExecution
started stamps call = record (waiting stamps call) {
  status = ToolStatus.running;
  updated_at = stamps.running_at;
}

abbrev pub ended : Stamps → Call → ToolResult → ToolExecution
ended stamps call r =
    finished r (shown_ms stamps.elapsed_ms) stamps.finished_at (started stamps call)

-- What the listener receives in a whole run.
abbrev pub statuses : String → Stamps → Call → ToolResult → List Publication
statuses label stamps call r =
    progress label (waiting stamps call) ToolStatus.pending
    ∷ progress label (started stamps call) ToolStatus.running
    ∷ stored_publication label (ended stamps call r) r
    ∷ []

code_of_ok : (r : ToolResult) → is_valid r ≡ true → r.ok ≡ true → r.code ≡ none
unfolding couple_ok_and_code
code_of_ok r valid ok = ground arith

module _ (stamps : Stamps) (call : Call) (rows : List ToolExecution)
    (unused : any (has_id stamps.new_id) rows ≡ false) where
  claim_new :
      {E : Type 0} (label : String) (allow : Bool)
      → is_refused call ≡ false
      → get_by_identity call.run_id call.tool_call_id rows ≡ none
      → claim_identity {E = E} stamps (λ xs. xs) label allow call rows
        ≡ (returned (new_pending (waiting stamps call)), rows ++ waiting stamps call ∷ [])
  unfolding claim_identity in_block get_or_create_pending insert_or_reselect claim_row
      get_by_identity
  claim_new label allow accepted absent =
      ground (arith, any_of_first-none (has_identity call.run_id call.tool_call_id) rows absent)

  start_new :
      mark_running stamps.new_id stamps.running_at (rows ++ waiting stamps call ∷ [])
      ≡ (returned (started stamps call), rows ++ started stamps call ∷ [])
  unfolding mark_running allowed assign_fields
  start_new =
      transition_last rows (waiting stamps call) (started stamps call) ToolStatus.running none none
        none stamps.running_at unused refl refl

  settle_new :
      {E : Type 0} (label : String) (r : ToolResult)
      → is_valid r ≡ true
      → settle {E = E} label
          (started stamps call)
          r
          (pos (shown_ms stamps.elapsed_ms))
          stamps.finished_at
          (rows ++ started stamps call ∷ [])
        ≡ (
          returned (r, stored_publication label (ended stamps call r) r),
          rows ++ ended stamps call r ∷ [],
        )
  unfolding settle store_result in_block get_by_id
  settle_new label r valid =
      let d = shown_ms stamps.elapsed_ms in
      let row = started stamps call in
      let found = first-snoc (has_id stamps.new_id) row rows unused (eq_refl stamps.new_id) in
      elim (Bool-cases r.ok) [
        | inl ok ↦ ground (
          arith,
          found,
          code_of_ok r valid ok,
          complete_last rows row r d stamps.finished_at unused refl valid ok,
        )
        | inr bad ↦
            ground (arith, found, fail_last rows row r d stamps.finished_at unused refl valid bad)
      ]

clamp_lem : (d : ℤ) → clamp_duration d ≡ pos (shown_ms d)
unfolding clamp_duration
clamp_lem (pos n) = refl
clamp_lem (negsuc n) = refl

abbrev publish_if : {A : Type 0} → Bool → List A → A → List A
publish_if b xs x = if b then xs ++ x ∷ [] else xs

publish_three :
    {A : Type 0} (b : Bool) (xs : List A) (x y z : A)
    → publish_if b (publish_if b (publish_if b xs x) y) z ≡ (if b then xs ++ x ∷ y ∷ z ∷ [] else xs)
publish_three false xs x y z = refl
publish_three true xs x y z = simp append_assoc

module _ {S E : Type 0} (stamps : Stamps) (invoke : Action (Store S) E ToolResult) (call : Call)
    (label : Option String) (s : Store S) (r : ToolResult) (work : S → S)
    (accepted : is_refused call ≡ false)
    (absent : get_by_identity call.run_id call.tool_call_id s.executions ≡ none)
    (unused : any (has_id stamps.new_id) s.executions ≡ false) (valid : is_valid r ≡ true)
    (works : (t : Store S) → invoke t ≡ (returned r, record t { outside = work t.outside })) where
  abbrev pub shown_as : String
  shown_as = resolve_label label call.tool_name

  abbrev store : List ToolExecution → List Publication → S → Store S
  store rows published outside = record {
    executions = rows;
    listening = s.listening;
    published = published;
    outside = outside;
  }

  run_new :
      (published : List Publication)
      → run_claimed stamps invoke shown_as
          (started stamps call)
          (store (s.executions ++ started stamps call ∷ []) published s.outside)
        ≡ (
          returned r,
          store
              (s.executions ++ ended stamps call r ∷ [])
              (publish_if s.listening published
                (stored_publication shown_as (ended stamps call r) r))
              (work s.outside),
        )
  unfolding run_claimed session_scope publish
  run_new published =
      let before = store (s.executions ++ started stamps call ∷ []) published s.outside in
      ground (
        arith,
        works before,
        clamp_lem stamps.elapsed_ms,
        settle_new stamps call s.executions unused {E = E} shown_as r valid,
      )

  follow_new :
      follow_claim stamps invoke shown_as
        (new_pending (waiting stamps call))
        (store (s.executions ++ waiting stamps call ∷ []) s.published s.outside)
      ≡ (
        returned r,
        store
            (s.executions ++ ended stamps call r ∷ [])
            (if s.listening then s.published ++ statuses shown_as stamps call r else s.published)
            (work s.outside),
      )
  unfolding follow_claim session_scope publish in_block
  follow_new =
      let one =
        publish_if s.listening s.published
          (progress shown_as (waiting stamps call) ToolStatus.pending) in
      let two =
        publish_if s.listening one (progress shown_as (started stamps call) ToolStatus.running) in
      ground (
        arith,
        start_new stamps call s.executions unused,
        run_new two,
        publish_three s.listening s.published
            (progress shown_as (waiting stamps call) ToolStatus.pending)
            (progress shown_as (started stamps call) ToolStatus.running)
            (stored_publication shown_as (ended stamps call r) r),
      )

  abbrev pub store_after : Store S
  store_after = record {
    executions = s.executions ++ ended stamps call r ∷ [];
    listening = s.listening;
    published = if s.listening then s.published ++ statuses shown_as stamps call r else s.published;
    outside = work s.outside;
  }

  -- A call with a new identity, with no other writer in between and an invoker that returns `r` and
  -- changes only what lies outside, returns `r`, stores it in one new row, and publishes `pending`,
  -- `running` and the terminal status, in this order.
  pub execute_tool-new :
      (allow : Bool)
      → execute_tool stamps invoke (λ xs. xs) call label allow s ≡ (returned r, store_after)
  unfolding execute_tool session_scope
  execute_tool-new allow = ground (
    arith,
    claim_new stamps call s.executions unused {E = E} shown_as allow accepted absent,
    follow_new,
  )

  ended-found :
      get_by_identity call.run_id call.tool_call_id (s.executions ++ ended stamps call r ∷ [])
      ≡ some (ended stamps call r)
  unfolding get_by_identity
  ended-found =
      let q = has_identity call.run_id call.tool_call_id in
      first-snoc q (ended stamps call r) s.executions (any_of_first-none q s.executions absent)
        (rw (eq_refl call.run_id, eq_refl call.tool_call_id) refl)

  -- Two calls with one identity. The first has arguments that are accepted, an identity and a row id
  -- that the table does not have, and no other writer in between; its invoker, in every state, returns
  -- the valid result `r` and changes only what lies outside. The first call then returns `r`. The
  -- second, made in the state that the first leaves, with any times and new id, invoker, writers in
  -- between, label and permission, returns `r` too, and changes no row and nothing outside.
  pub execute_tool-again :
      {F : Type 0} (allow : Bool) (stamps' : Stamps) (invoke' : Action (Store S) F ToolResult)
      (meanwhile' : List ToolExecution → List ToolExecution) (label' : Option String)
      (allow' : Bool)
      → let first = execute_tool stamps invoke (λ xs. xs) call label allow s in
        let second = execute_tool stamps' invoke' meanwhile' call label' allow' first.1 in
        (first.0 ≡ returned r)
        × (second.0 ≡ returned r)
        × (second.1.executions ≡ first.1.executions)
        × (second.1.outside ≡ first.1.outside)
  execute_tool-again allow stamps' invoke' meanwhile' label' allow' =
      let again =
        execute_tool-terminal stamps' invoke' meanwhile' call label' store_after
          (ended stamps call r) accepted ended-found allow' r (ground arith)
          (load-finished r (shown_ms stamps.elapsed_ms) stamps.finished_at (started stamps call)
            valid) in
      rw (execute_tool-new allow)
        (refl, ap (λ x. x.0) again, ap (λ x. x.1.executions) again, ap (λ x. x.1.outside) again)
