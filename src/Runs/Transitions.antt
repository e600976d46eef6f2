-- ===== src/Runs/Transitions.antt =====
-- What a transition does, on every branch.
use job_agent.Prelude.{
  ℕ, String, ◌≡◌, refl, Bool, true, false, ◌⊎◌, inl, inr, ◌≢◌, Option, none, some, List, arith,
  eq_iff, Outcome, returned, raised, Option-cases, Bool-cases,
}
use job_agent.Prelude.Table.{put_first, first-put_first_self, first-put_first_ne, first-holds}
use job_agent.Models.Json.{JsonObject}
use job_agent.Models.Chat.{AgentRun, RunState, running, interrupted, completed, failed}
use job_agent.Runs.{
  RunError, run_not_found, invalid_transition, has_id, get_run, allowed, moved, assign_fields,
  settle_completed_at, transition,
}

-- The approved transitions, as a relation.
pub data Approved : RunState → RunState → Type 0 where
  interrupts : Approved running interrupted
  completes : Approved running completed
  fails : Approved running failed
  resumes : Approved interrupted running

pub Approved-allowed : {s t : RunState} → Approved s t → allowed s t ≡ true
unfolding allowed
Approved-allowed interrupts = refl
Approved-allowed completes = refl
Approved-allowed fails = refl
Approved-allowed resumes = refl

allowed-Approved : (s t : RunState) → allowed s t ≡ true → Approved s t
unfolding allowed
allowed-Approved running interrupted e = interrupts
allowed-Approved running completed e = completes
allowed-Approved running failed e = fails
allowed-Approved interrupted running e = resumes
allowed-Approved running running e = cc
allowed-Approved interrupted interrupted e = cc
allowed-Approved interrupted completed e = cc
allowed-Approved interrupted failed e = cc
allowed-Approved completed t e = cc
allowed-Approved failed t e = cc

state-moved :
    (to : RunState) (j : Option JsonObject) (c : Option String) (b : Bool) (now : ℕ) (r : AgentRun)
    → (moved to j c b now r).state ≡ to
unfolding assign_fields settle_completed_at
state-moved to j c b now r = ground arith

id-moved :
    (to : RunState) (j : Option JsonObject) (c : Option String) (b : Bool) (now : ℕ) (r : AgentRun)
    → (moved to j c b now r).id ≡ r.id
unfolding assign_fields settle_completed_at
id-moved to j c b now r = ground arith

module _ (i : String) (to : RunState) (j : Option JsonObject) (c : Option String) (b : Bool)
    (now : ℕ) (runs : List AgentRun) where
  abbrev pub result : Outcome RunError AgentRun × List AgentRun
  result = transition i to j c b now runs

  abbrev pub Absent : Type 0
  Absent = (get_run i runs ≡ none) × (result ≡ (raised run_not_found, runs))

  abbrev pub Refused : AgentRun → Type 0
  Refused r = ¬ Approved r.state to × (result ≡ (raised invalid_transition, runs))

  abbrev pub Moved : AgentRun → Type 0
  Moved r =
      Approved r.state to
      × (result.0 ≡ returned (moved to j c b now r))
      × ((moved to j c b now r).state ≡ to)
      × (get_run i result.1 ≡ some (moved to j c b now r))
      × ((k : String) → k ≢ i → get_run k result.1 ≡ get_run k runs)

  result_of_found :
      (r : AgentRun)
      → get_run i runs ≡ some r
      → allowed r.state to ≡ true
      → result ≡ (returned (moved to j c b now r), put_first (has_id i) (moved to j c b now r) runs)
  unfolding transition
  result_of_found r found ok = rw (found, transition, ok) refl

  has_id-moved : (r : AgentRun) → get_run i runs ≡ some r → has_id i (moved to j c b now r) ≡ true
  unfolding get_run
  has_id-moved r found = rw (id-moved to j c b now r) (first-holds (has_id i) runs found)

  has_id_ne : (k : String) (r : AgentRun) → k ≢ i → has_id i r ≡ true → has_id k r ≡ false
  has_id_ne k r ne e = ground (arith, eq_iff r.id k, eq_iff r.id i)

  moves : (r : AgentRun) → get_run i runs ≡ some r → allowed r.state to ≡ true → Moved r
  unfolding get_run
  moves r found ok =
      let next = moved to j c b now r in
      let named = has_id-moved r found in
      rw (result_of_found r found ok) (
        allowed-Approved r.state to ok,
        refl,
        state-moved to j c b now r,
        first-put_first_self (has_id i) next r runs named found,
        λ k ne.
            first-put_first_ne (has_id i) (has_id k) next runs (has_id_ne k next ne named)
              (λ z e. has_id_ne k z ne e),
      )

  -- A transition of the run `i` to the state `to` has three outcomes. Without such a run it raises
  -- `run_not_found`, and if the change of state is not approved it raises `invalid_transition`; both
  -- leave the table as it was. Otherwise it returns the changed run, which has the state `to`, is
  -- found under `i` from then on, and leaves every other run as it was.
  pub transition_cases :
      Absent ⊎ ((r : AgentRun) × (get_run i runs ≡ some r) × (Refused r ⊎ Moved r))
  unfolding transition
  transition_cases = elim (Option-cases (get_run i runs)) [
    | inl absent ↦ inl (absent, rw (absent, transition) refl)
    | inr (r, found) ↦ elim (Bool-cases (allowed r.state to)) [
      | inl ok ↦ inr (r, found, inr (moves r found ok))
      | inr bad ↦ inr (
        r,
        found,
        inl ((λ a. ground (arith, Approved-allowed a)), rw (found, transition, bad) refl),
      )
    ]
  ]
