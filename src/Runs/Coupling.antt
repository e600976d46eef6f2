-- ===== src/Runs/Coupling.antt =====
-- The CHECK constraints of `agent_runs` hold after every sequence of calls.
use job_agent.Prelude.{
  ℕ, String, ◌≡◌, refl, Bool, true, false, not, ◌&&◌, Option, none, some, List, [], ◌∷◌, arith, All,
  is_some, is_none, strip, Bool-cases, Option-cases, first, keep, map, inl, inr,
}
use job_agent.Prelude.Table.{All-append, All-keep, All-first, All-put_first}
use job_agent.Models.Json.{JsonObject, no_fields, field}
use job_agent.Models.Chat.{
  AgentRun, RunState, running, interrupted, completed, failed, RunKind, chat, cv_tailoring,
  other_kind, is_terminal_run,
}
use job_agent.Runs.{
  has_id, get_run, allowed, moved, assign_fields, settle_completed_at, transition, insert_run,
  create_run, interrupt_run, resume_run, complete_run, fail_run, delete_run, unlinked, same_parent,
  validate_run_owner_xor,
}
use job_agent.Runs.Requests.{
  Request, create, interrupt, resume, complete, fail, delete, after, after_all,
}

abbrev pub is_interrupted : RunState → Bool
is_interrupted interrupted = true
is_interrupted _ = false

abbrev pub is_failed : RunState → Bool
is_failed failed = true
is_failed _ = false

-- The constraint `owner_coupling`.
abbrev pub owner_coupled : RunKind → Option String → Option String → Option String → Bool
owner_coupled chat message tailoring parent = is_some message && is_none tailoring && is_none parent
owner_coupled cv_tailoring message tailoring parent = is_none message && is_some tailoring
owner_coupled (other_kind k) message tailoring parent = false

pub record IsCoupled (r : AgentRun) : Type 0 where
  pub pending_approval : is_some r.pending_approval_json ≡ is_interrupted r.state
  pub completed_at : is_some r.completed_at ≡ is_terminal_run r.state
  pub error_code : is_some r.error_code ≡ is_failed r.state
  pub owner :
      owner_coupled r.run_kind r.user_message_id r.tailoring_session_id r.parent_run_id ≡ true

transition-IsCoupled :
    (i : String) (to : RunState) (j : Option JsonObject) (c : Option String) (b : Bool) (now : ℕ)
    (runs : List AgentRun)
    → ((r : AgentRun) → allowed r.state to ≡ true → IsCoupled r → IsCoupled (moved to j c b now r))
    → All IsCoupled runs
    → All IsCoupled (transition i to j c b now runs).1
unfolding transition get_run
transition-IsCoupled i to j c b now runs step h = elim (Option-cases (first (has_id i) runs)) [
  | inl absent ↦ rw (absent, transition) h
  | inr (r, found) ↦ elim (Bool-cases (allowed r.state to)) [
    | inl ok ↦
        rw (found, transition, ok)
          (All-put_first IsCoupled (has_id i) (moved to j c b now r) runs
            (step r ok (All-first IsCoupled (has_id i) runs h found)) h)
    | inr bad ↦ rw (found, transition, bad) h
  ]
]

owner_coupled-none :
    (k : RunKind) (u t p : Option String)
    → owner_coupled k u t p ≡ true
    → owner_coupled k u t none ≡ true
owner_coupled-none chat u t p h = ground arith
owner_coupled-none cv_tailoring u t p h = h
owner_coupled-none (other_kind k) u t p h = h

insert_run-IsCoupled :
    (r : AgentRun) (runs : List AgentRun)
    → IsCoupled r
    → All IsCoupled runs
    → All IsCoupled (insert_run r runs).1
unfolding insert_run
insert_run-IsCoupled r runs c h = ground (arith, All-append IsCoupled runs (r ∷ []) h (c, tt))

owner_coupled_of_valid :
    (k : RunKind) (u t p : Option String)
    → validate_run_owner_xor k u t p ≡ true
    → owner_coupled k u t p ≡ true
unfolding validate_run_owner_xor
owner_coupled_of_valid chat u t p h = ground arith
owner_coupled_of_valid cv_tailoring u t p h = ground arith
owner_coupled_of_valid (other_kind k) u t p h = cc

create_run-IsCoupled :
    (i : String) (now : ℕ) (u : Option String) (k : RunKind) (t p s : Option String)
    (runs : List AgentRun)
    → All IsCoupled runs
    → All IsCoupled (create_run i now u k t p s runs).1
unfolding create_run
create_run-IsCoupled i now u k t p s runs h =
    let r : AgentRun = record {
      id = i;
      run_kind = k;
      user_message_id = u;
      tailoring_session_id = t;
      parent_run_id = p;
      source_attachment_id = s;
      state = running;
      pending_approval_json = none;
      error_code = none;
      completed_at = none;
      created_at = now;
      updated_at = now;
    } in
    elim (Bool-cases (validate_run_owner_xor k u t p)) [
      | inl valid ↦
          let coupled : IsCoupled r = record {
            pending_approval = refl;
            completed_at = refl;
            error_code = refl;
            owner = owner_coupled_of_valid k u t p valid;
          } in
          rw valid (ground (arith, insert_run-IsCoupled r runs coupled h))
      | inr invalid ↦ rw invalid h
    ]

unlinked-IsCoupled : (i : String) (r : AgentRun) → IsCoupled r → IsCoupled (unlinked i r)
unlinked-IsCoupled i r h = elim (Bool-cases (same_parent r.parent_run_id i)) [
  | inr e ↦ rw e h
  | inl e ↦
      let alone : IsCoupled (record r { parent_run_id = none }) = record {
        pending_approval = h.pending_approval;
        completed_at = h.completed_at;
        error_code = h.error_code;
        owner =
            owner_coupled-none r.run_kind r.user_message_id r.tailoring_session_id r.parent_run_id
              h.owner;
      } in
      rw e alone
]

All-unlinked :
    (i : String) (runs : List AgentRun) → All IsCoupled runs → All IsCoupled (map (unlinked i) runs)
All-unlinked i [] h = tt
All-unlinked i (r ∷ runs) h = (unlinked-IsCoupled i r h.0, All-unlinked i runs h.1)

after-IsCoupled :
    (now : ℕ) (q : Request) (runs : List AgentRun)
    → All IsCoupled runs
    → All IsCoupled (after now q runs)
unfolding after interrupt_run resume_run complete_run fail_run delete_run allowed assign_fields
    settle_completed_at
after-IsCoupled now (create i u k t p s) runs h = create_run-IsCoupled i now u k t p s runs h
after-IsCoupled now (interrupt i no_fields) runs h = h
after-IsCoupled now (interrupt i (field k v rest)) runs h =
    transition-IsCoupled i interrupted (some (field k v rest)) none false now runs
      (λ r ok c. ground arith) h
after-IsCoupled now (resume i) runs h =
    transition-IsCoupled i running none none false now runs (λ r ok c. ground arith) h
after-IsCoupled now (complete i) runs h =
    transition-IsCoupled i completed none none true now runs (λ r ok c. ground arith) h
after-IsCoupled now (fail i e) runs h =
    ground
      (arith, transition-IsCoupled i failed none (some e) true now runs (λ r ok c. ground arith) h)
after-IsCoupled now (delete i) runs h = ground (
  arith,
  All-unlinked (strip i) (keep (λ r. not (has_id (strip i) r)) runs)
      (All-keep IsCoupled (λ r. not (has_id (strip i) r)) runs h),
)

after_all-keeps :
    (requests : List (ℕ × Request)) (runs : List AgentRun)
    → All IsCoupled runs
    → All IsCoupled (after_all requests runs)
unfolding after_all
after_all-keeps [] runs h = h
after_all-keeps ((now, q) ∷ rest) runs h =
    after_all-keeps rest (after now q runs) (after-IsCoupled now q runs h)

-- After every sequence of calls on an empty table, each at any time and whether it returns or
-- raises, every run meets the CHECK constraints: a pending approval is stored exactly while the run
-- is interrupted, `completed_at` exactly when it is completed or failed, an error code exactly when
-- it is failed, and the run has exactly the owner that its kind wants.
pub after_all-IsCoupled : (requests : List (ℕ × Request)) → All IsCoupled (after_all requests [])
after_all-IsCoupled requests = after_all-keeps requests [] tt
