-- ===== src/TailoringGuard/Service.antt =====
-- backend/app/agent/tailoring_graph.py: `ground_patch` with the guard of
-- backend/app/services/cv_tailoring_guard.py, in the run of the graph.
use job_agent.Prelude.{
  ℕ, String, Bool, true, false, Option, some, List, ◌≡◌, ◌⊎◌, Outcome, returned, raised, Action,
  inl, inr,
}
use job_agent.Prelude.Outcomes.{returned-inj}
use job_agent.Models.Json.{JsonObject}
use job_agent.Models.Tailored.{TailoredCvContent, TailoredPatchSet}
use job_agent.TailoringGraph.{
  Services, Issue, FactBank, TailoringAgentState, guarded, grounding_failed,
  initial_tailoring_state,
}
use job_agent.TailoringGraph.Nodes.{Node, walk}
use job_agent.TailoringGraph.Ends.{walk-Ends}
use job_agent.TailoringGuard.{Checks}
use job_agent.TailoringGuard.Assembly.{guard_tailored_patch}
use job_agent.TailoringGuard.Assembly.Grounded.{IsGuarded, guard_tailored_patch-IsGuarded}

-- The checks of the graph: the facts of the state, and the provider as the semantic checker.
abbrev pub graph_checks : Checks → FactBank → (String → List String → Bool) → Checks
graph_checks checks facts supports = record checks {
  fact_bank = facts;
  semantic_checker = some supports;
  require_semantic_support = true;
  require_deterministic_support = false;
}

-- The answers of the provider while the guard runs are one function, or the call raises.
abbrev pub Support : Type 0 → Type 0 → Type 0
Support W X = Action W X (String → List String → Bool)

-- A run ends with the error code, or with a content in which the texts of the selected sections
-- are grounded in the facts of the state, and the rest is the parent's.
abbrev pub IsSettled : Checks → TailoredCvContent → TailoringAgentState → Type 0
IsSettled checks parent st =
    (st.error ≡ some grounding_failed)
    ⊎ ((content : TailoredCvContent) × (supports : String → List String → Bool) × (st.patch
          ≡ some (guarded content))
        × IsGuarded (graph_checks checks st.fact_bank supports) st.selected_section_ids parent
            content)

module _ {W X : Type 0} (uuid : ℕ → String) (checks : Checks) (parent : TailoredCvContent) where
  answer :
      TailoredPatchSet
      → List String
      → FactBank
      → ℕ
      → Outcome X (String → List String → Bool) × W
      → Outcome X (Option TailoredCvContent × List Issue) × (W × ℕ)
  unfolding guard_tailored_patch
  answer p ids facts n (raised e, w) = (raised e, (w, n))
  answer p ids facts n (returned supports, w) =
      let (result, last) =
        guard_tailored_patch uuid (graph_checks checks facts supports) p parent ids n in
      (returned result, (w, last))

  unfoldable pub with_guard : Support W X → Services (W × ℕ) X → Services (W × ℕ) X
  unfolding answer
  with_guard ask services = record services {
    guard = λ p ids facts s. answer p ids facts s.1 (ask s.0);
  }

  answer-IsGuarded :
      (p : TailoredPatchSet) (ids : List String) (facts : FactBank) (n : ℕ)
      (asked : Outcome X (String → List String → Bool) × W) {content : TailoredCvContent}
      {issues : List Issue}
      → (answer p ids facts n asked).0 ≡ returned (some content, issues)
      → (supports : String → List String → Bool) × IsGuarded
          (graph_checks checks facts supports)
          ids
          parent
          content
  unfolding answer
  answer-IsGuarded p ids facts n (raised e, w) h = cc
  answer-IsGuarded p ids facts n (returned supports, w) h = (
    supports,
    guard_tailored_patch-IsGuarded (graph_checks checks facts supports) ids uuid p parent n
        (returned-inj h),
  )

  pub walk-IsSettled :
      (ask : Support W X) (services : Services (W × ℕ) X) (run_id instruction : String)
      (job_context : Option JsonObject) (outline : List JsonObject) (requested : List String)
      (s : W × ℕ)
      → (path : List Node) × (last : TailoringAgentState) × (after : W × ℕ) × (walk
            (with_guard ask services)
            6
            Node.selecting
            (initial_tailoring_state run_id instruction job_context outline requested)
            s
          ≡ some (path, last, after))
        × IsSettled checks parent last
  unfolding with_guard
  walk-IsSettled ask services run_id instruction job_context outline requested s =
      let ends =
        walk-Ends (with_guard ask services) run_id instruction job_context outline requested s in
      (
        ends.path,
        ends.last,
        ends.after,
        ends.run,
        elim ends.settled [
          | inl e ↦ inl e
          | inr g ↦
              let (supports, ok) =
                answer-IsGuarded g.patch ends.last.selected_section_ids ends.last.fact_bank
                  g.before.1 (ask g.before.0) g.answer in
              inr (g.content, supports, g.stored, ok)
        ],
      )
