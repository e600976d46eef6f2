-- ===== src/Runs/Lifetime.antt =====
-- A run that is completed or failed stays as it is.
use job_agent.Prelude.{
  ℕ, String, ◌≡◌, refl, ◌∙◌, Bool, true, false, not, inl, inr, Option, none, some, List, [], ◌∷◌,
  arith, eq_iff, ◌==◌, any, ◌⊎◌, sym, ap, first, keep, map, is_blank, Option-cases, Bool-cases,
  strip,
}
use job_agent.Prelude.Table.{first-append, first-keep, some-inj}
use job_agent.Models.Json.{JsonObject, no_fields, field}
use job_agent.Models.Chat.{
  AgentRun, RunKind, RunState, running, interrupted, completed, failed, is_terminal_run,
}
use job_agent.Runs.{
  has_id, get_run, allowed, transition, insert_run, create_run, interrupt_run, resume_run,
  complete_run, fail_run, delete_run, unlinked, same_parent, blank_free, validate_run_owner_xor,
}
use job_agent.Runs.Requests.{
  Request, create, interrupt, resume, complete, fail, delete, after, after_all,
}
use job_agent.Runs.Transitions.{Approved, Approved-allowed, transition_cases}

abbrev pub deletes : String → ℕ × Request → Bool
deletes k (now, delete i) = strip i == k
deletes k (now, q) = false

not-allowed_of_terminal : (s t : RunState) → is_terminal_run s ≡ true → allowed s t ≡ false
unfolding allowed
not-allowed_of_terminal running t h = cc
not-allowed_of_terminal interrupted t h = cc
not-allowed_of_terminal completed t h = refl
not-allowed_of_terminal failed t h = refl

unlinked-id : (i : String) (r : AgentRun) → (unlinked i r).id ≡ r.id
unlinked-id i r = elim (Bool-cases (same_parent r.parent_run_id i)) [
  | inl e ↦ rw e refl
  | inr e ↦ rw e refl
]

unlinked-other :
    (i : String) (r : AgentRun) → same_parent r.parent_run_id i ≡ false → unlinked i r ≡ r
unlinked-other i r e = rw e refl

unlinked-child :
    (i : String) (r : AgentRun)
    → same_parent r.parent_run_id i ≡ true
    → unlinked i r ≡ record r { parent_run_id = none }
unlinked-child i r e = rw e refl

parent_of :
    (o : Option String) (i : String)
    → same_parent o i ≡ true
    → (p : String) × (o ≡ some p) × ((i == p) ≡ true)
parent_of none i h = cc
parent_of (some p) i h = (p, refl, (eq_iff i p).1 (sym ((eq_iff p i).0 h)))

-- The run is as it was, or it has lost its link to a parent that is gone.
abbrev pub IsKept : String → AgentRun → (String → Type 0) → List AgentRun → Type 0
IsKept k r Gone runs =
    (get_run k runs ≡ some r)
    ⊎ ((parent : String) × (r.parent_run_id ≡ some parent)
        × Gone parent
        × (get_run k runs ≡ some (record r { parent_run_id = none })))

first-unlinked :
    (k i : String) (runs : List AgentRun) (r : AgentRun)
    → first (has_id k) runs ≡ some r
    → first (has_id k) (map (unlinked i) runs) ≡ some (unlinked i r)
first-unlinked k i [] r found = cc
first-unlinked k i (x ∷ runs) r found =
    let same_id : (unlinked i x).id ≡ x.id = unlinked-id i x in
    let test : ((unlinked i x).id == k) ≡ (x.id == k) = ap (λ y. y == k) same_id in
    elim (Bool-cases (x.id == k)) [
      | inl e ↦
          let same : x ≡ r = some-inj (rw e at found) in
          let here : first (has_id k) (unlinked i x ∷ map (unlinked i) runs) ≡ some (unlinked i x) =
            rw (test ∙ e) refl in
          here ∙ ap (λ y. some (unlinked i y)) same
      | inr e ↦ rw (test ∙ e) (first-unlinked k i runs r (rw e at found))
    ]

unlinked-IsKept :
    (k i : String) (r : AgentRun) (runs : List AgentRun)
    → get_run k runs ≡ some (unlinked i r)
    → IsKept k r (λ p. (i == p) ≡ true) runs
unlinked-IsKept k i r runs found = elim (Bool-cases (same_parent r.parent_run_id i)) [
  | inr e ↦ inl (found ∙ ap some (unlinked-other i r e))
  | inl e ↦
      let (p, is_parent, same) = parent_of r.parent_run_id i e in
      inr (p, is_parent, same, found ∙ ap some (unlinked-child i r e))
]

delete_run-IsKept :
    (k : String) (r : AgentRun) (i : String) (runs : List AgentRun)
    → (strip i == k) ≡ false
    → get_run k runs ≡ some r
    → IsKept k r (λ p. (strip i == p) ≡ true) (delete_run i runs).1
unfolding delete_run get_run
delete_run-IsKept k r i runs d found =
    let others =
      first-keep (has_id k) (λ x. not (has_id (strip i) x)) runs
        (λ x e. ground (arith, eq_iff x.id k, eq_iff x.id (strip i), eq_iff (strip i) k)) in
    let rest = map (unlinked (strip i)) (keep (λ x. not (has_id (strip i) x)) runs) in
    let kept =
      unlinked-IsKept k (strip i) r rest (
        first-unlinked k (strip i) (keep (λ x. not (has_id (strip i) x)) runs) r
          (others ∙ found)) in
    elim (Bool-cases (is_blank i)) [
      | inl blank ↦ rw (delete_run, blank) (inl found)
      | inr named ↦ elim (Option-cases (first (has_id (strip i)) runs)) [
        | inl absent ↦ rw (delete_run, named, absent) (inl found)
        | inr (run, present) ↦ rw (delete_run, named, present) kept
      ]
    ]

module _ (k : String) (r : AgentRun) (ended : is_terminal_run r.state ≡ true) where
  clash :
      (runs : List AgentRun) (i : String) (s : AgentRun) (to : RunState)
      → (k == i) ≡ true
      → get_run i runs ≡ some s
      → get_run k runs ≡ some r
      → Approved s.state to
      → ⊥
  clash runs i s to same at found way =
      let named : k ≡ i = (eq_iff k i).0 same in
      let e : r ≡ s = cc in cc (Approved-allowed way, not-allowed_of_terminal r.state to ended)

  transition-keeps :
      (i : String) (to : RunState) (j : Option JsonObject) (c : Option String) (b : Bool) (now : ℕ)
      (runs : List AgentRun)
      → get_run k runs ≡ some r
      → get_run k (transition i to j c b now runs).1 ≡ some r
  transition-keeps i to j c b now runs found = elim (transition_cases i to j c b now runs) [
    | inl (absent, e) ↦ rw e found
    | inr (s, at, inl (no_way, e)) ↦ rw e found
    | inr (s, at, inr (way, e, _, _, others)) ↦ elim (Bool-cases (k == i)) [
      | inl same ↦ absurd (clash runs i s to same at found way)
      | inr other ↦ others k (λ p. cc ((eq_iff k i).1 p)) ∙ found
    ]
  ]

  insert_run-keeps :
      (new : AgentRun) (runs : List AgentRun)
      → get_run k runs ≡ some r
      → get_run k (insert_run new runs).1 ≡ some r
  unfolding insert_run get_run
  insert_run-keeps new runs found = ground (arith, first-append (has_id k) runs (new ∷ []))

  create_run-keeps :
      (i : String) (now : ℕ) (u : Option String) (kind : RunKind) (t p s : Option String)
      (runs : List AgentRun)
      → get_run k runs ≡ some r
      → get_run k (create_run i now u kind t p s runs).1 ≡ some r
  unfolding create_run
  create_run-keeps i now u kind t p s runs found =
      elim (Bool-cases (validate_run_owner_xor kind u t p)) [
        | inl valid ↦ elim (Bool-cases (blank_free s)) [
          | inl filled ↦ rw (valid, filled) (insert_run-keeps _ runs found)
          | inr blank ↦ rw (valid, blank) found
        ]
        | inr invalid ↦ rw invalid found
      ]

  after-IsKept :
      (now : ℕ) (q : Request) (runs : List AgentRun)
      → deletes k (now, q) ≡ false
      → get_run k runs ≡ some r
      → IsKept k r (λ p. deletes p (now, q) ≡ true) (after now q runs)
  unfolding after interrupt_run resume_run complete_run fail_run
  after-IsKept now (create i u kind t p s) runs d found =
      inl (create_run-keeps i now u kind t p s runs found)
  after-IsKept now (interrupt i no_fields) runs d found = inl found
  after-IsKept now (interrupt i (field n v rest)) runs d found =
      inl (transition-keeps i interrupted (some (field n v rest)) none false now runs found)
  after-IsKept now (resume i) runs d found =
      inl (transition-keeps i running none none false now runs found)
  after-IsKept now (complete i) runs d found =
      inl (transition-keeps i completed none none true now runs found)
  after-IsKept now (fail i e) runs d found =
      inl (ground (arith, transition-keeps i failed none (some e) true now runs found))
  after-IsKept now (delete i) runs d found = delete_run-IsKept k r i runs d found

-- A run that is completed or failed stays exactly as it is through every sequence of calls of the
-- repository that does not delete it, in every field but one: its link to a parent run is kept, or it
-- is cleared and the calls delete the parent.
pub after_all-terminal :
    (k : String) (r : AgentRun) (requests : List (ℕ × Request)) (runs : List AgentRun)
    → is_terminal_run r.state ≡ true
    → any (deletes k) requests ≡ false
    → get_run k runs ≡ some r
    → IsKept k r (λ parent. any (deletes parent) requests ≡ true) (after_all requests runs)
unfolding after_all
after_all-terminal k r [] runs ended d found = inl found
after_all-terminal k r ((now, q) ∷ rest) runs ended d found =
    elim (after-IsKept k r ended now q runs (ground arith) found) [
      | inl same ↦ elim (after_all-terminal k r rest (after now q runs) ended (ground arith) same) [
        | inl e ↦ inl e
        | inr (p, of, gone, e) ↦ inr (p, of, ground arith, e)
      ]
      | inr (p, of, gone, cleared) ↦
          elim (after_all-terminal k (record r { parent_run_id = none }) rest (after now q runs)
            ended (ground arith) cleared) [
              | inl e ↦ inr (p, of, ground arith, e)
              | inr (q', no_parent, _, e) ↦ cc
            ]
    ]
