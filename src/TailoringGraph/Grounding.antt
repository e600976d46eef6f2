-- ===== src/TailoringGraph/Grounding.antt =====
-- What the node that grounds leaves, and how a run from a node ends.
use job_agent.Prelude.{
  ℕ, ◌≤◌, Bool, true, false, Option, none, some, List, [], ◌∷◌, ◌≡◌, ◌⊎◌, inl, inr, refl, arith,
  ltb, ◌||◌, is_some, length, count_if, returned, Outcome-cases,
}
use job_agent.Models.Tailored.{TailoredCvContent, TailoredPatchSet}
use job_agent.TailoringGraph.{
  TailoringAgentState, Services, Issue, Patch, proposed, guarded, grounding_failed,
}
use job_agent.TailoringGraph.Nodes.{take_guarded, ground_raw, Node, next, walk}

abbrev pub is_repairing : Node → Bool
is_repairing Node.repairing = true
is_repairing _ = false

abbrev pub has_issues : List Issue → Bool
has_issues [] = false
has_issues (i ∷ is) = true

next_repairing :
    (st : TailoringAgentState)
    → st.error ≡ none
    → has_issues st.issues ≡ true
    → next Node.grounding st ≡ some Node.repairing
unfolding next
next_repairing st clean some_issues = ground arith

module _ {S X : Type 0} (services : Services S X) where
  -- The guard returned this content for the selection and the facts of the state.
  pub record IsGuarded (st : TailoringAgentState) : Type 0 where
    pub content : TailoredCvContent
    pub patch : TailoredPatchSet
    pub before : S
    pub issues : List Issue
    pub answer :
        (services.guard patch st.selected_section_ids st.fact_bank before).0
        ≡ returned (some content, issues)
    pub stored : st.patch ≡ some (guarded content)
    pub no_error : st.error ≡ none
    pub no_issues : st.issues ≡ []

  -- The last state has the error code, or a content that the guard returned.
  abbrev pub Settled : TailoringAgentState → Type 0
  Settled st = (st.error ≡ some grounding_failed) ⊎ IsGuarded st

  -- A run of at most so many nodes and repairs, which keeps the selection.
  pub record Ends (n repairs : ℕ) (node : Node) (st : TailoringAgentState) (s : S) : Type 0 where
    pub path : List Node
    pub last : TailoringAgentState
    pub after : S
    pub run : walk services n node st s ≡ some (path, last, after)
    pub steps : length path ≤ n
    pub repairs_made : count_if is_repairing path ≤ repairs
    pub settled : Settled last

  -- The node that grounds stores the guard's content, or reports issues.
  pub ground_some :
      (st : TailoringAgentState) (s : S) (p : Patch)
      → IsGuarded (ground_raw services (some p) st s).0
        ⊎ ((issues : List Issue) × ((ground_raw services (some p) st s).0
              ≡ take_guarded st (none, issues)))
  unfolding ground_raw take_guarded
  ground_some st s (guarded content) = inr ([], refl)
  ground_some st s (proposed p) =
      elim (Outcome-cases (services.guard p st.selected_section_ids st.fact_bank s).0) [
        | inr (x, f) ↦ rw f (inr ([], refl))
        | inl ((none, issues), f) ↦ rw f (inr (issues, refl))
        | inl ((some content, issues), f) ↦ rw f (
            inl (record {
              content = content;
              patch = p;
              before = s;
              issues = issues;
              answer = f;
              stored = refl;
              no_error = refl;
              no_issues = refl;
            }))
      ]

  -- After a repair the node that grounds is the last.
  pub ground_repaired :
      (raw : Option Patch) (st : TailoringAgentState) (s : S)
      → ltb 0 st.repair_count ≡ true
      → Settled (ground_raw services raw st s).0
        × (next Node.grounding (ground_raw services raw st s).0 ≡ none)
  unfolding ground_raw take_guarded next
  ground_repaired none st s repaired = rw repaired (inl refl, refl)
  ground_repaired (some p) st s repaired = elim (ground_some st s p) [
    | inl g ↦ (inr g, ground (arith, g.no_error, g.no_issues))
    | inr (issues, e) ↦ rw (e, repaired) (inl refl, refl)
  ]

  -- Before one it is the last or leads to the repair.
  pub ground_first :
      (raw : Option Patch) (st : TailoringAgentState) (s : S)
      → ltb 0 st.repair_count ≡ false
      → st.error ≡ none
      → (is_some raw || has_issues st.issues) ≡ true
      → (Settled (ground_raw services raw st s).0
          × (next Node.grounding (ground_raw services raw st s).0 ≡ none))
        ⊎ (next Node.grounding (ground_raw services raw st s).0 ≡ some Node.repairing)
  unfolding ground_raw take_guarded next
  ground_first none st s first_time clean ready =
      inr (ground (arith, next_repairing st clean ready))
  ground_first (some p) st s first_time clean ready = elim (ground_some st s p) [
    | inl g ↦ inl (inr g, ground (arith, g.no_error, g.no_issues))
    | inr ([], e) ↦ inr (ground arith)
    | inr (i ∷ is, e) ↦ inr (ground arith)
  ]
