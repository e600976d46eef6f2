-- ===== src/TailoringGraph/Scope.antt =====
-- The selection of a run stays within the outline.
use job_agent.Prelude.{
  ℕ, zero, suc, String, Bool, true, not, Option, none, some, List, [], ◌∷◌, ◌≡◌, refl, arith, inl,
  inr, Bool-cases, Option-cases, any, Outcome-cases,
}
use job_agent.Models.Json.{JsonObject}
use job_agent.TailoringGraph.{
  TailoringAgentState, SelectionMessage, Services, Patch, proposed, guarded,
  initial_tailoring_state,
}
use job_agent.TailoringGraph.Ends.{walk-Ends}
use job_agent.TailoringGraph.Nodes.{
  in_outline, take_selection, take_guarded, select_raw, select_sections, load_selected_sections,
  rewrite_sections, ground_raw, ground_patch, repair_once, Node, next, run_node, walk,
}

abbrev pub in_scope : TailoringAgentState → Bool
in_scope st = not (any (λ i. not (in_outline st.outline i)) st.selected_section_ids)

take_selection-scope :
    (st : TailoringAgentState) (ids : List String)
    → in_scope st ≡ true
    → in_scope (take_selection st ids) ≡ true
unfolding take_selection
take_selection-scope st ids h = elim (Bool-cases (any (λ i. not (in_outline st.outline i)) ids)) [
  | inl e ↦ rw e h
  | inr e ↦ rw (e, e) refl
]

module _ {S X : Type 0} (services : Services S X) where
  select-scope :
      (raw : List String) (st : TailoringAgentState) (s : S)
      → in_scope st ≡ true
      → in_scope (select_raw services raw st s).0 ≡ true
  unfolding select_raw
  select-scope (i ∷ rest) st s h = take_selection-scope st (i ∷ rest) h
  select-scope [] st s h =
      let message : SelectionMessage = record {
        instruction = st.instruction;
        job_context = st.job_context;
        outline = st.outline;
      } in
      elim (Outcome-cases (services.select message s).0) [
        | inl (ids, e) ↦ rw e (take_selection-scope st ids h)
        | inr (x, e) ↦ rw e h
      ]

  ground-scope :
      (raw : Option Patch) (st : TailoringAgentState) (s : S)
      → in_scope st ≡ true
      → in_scope (ground_raw services raw st s).0 ≡ true
  unfolding ground_raw take_guarded
  ground-scope none st s h = ground arith
  ground-scope (some (guarded content)) st s h = ground arith
  ground-scope (some (proposed p)) st s h =
      elim (Outcome-cases (services.guard p st.selected_section_ids st.fact_bank s).0) [
        | inr (x, e) ↦ rw e (ground arith)
        | inl ((none, issues), e) ↦ rw e (ground arith)
        | inl ((some content, issues), e) ↦ rw e h
      ]

  node-scope :
      (node : Node) (st : TailoringAgentState) (s : S)
      → in_scope st ≡ true
      → in_scope (run_node services node st s).0 ≡ true
  unfolding run_node select_sections load_selected_sections rewrite_sections ground_patch
      repair_once
  node-scope Node.selecting st s h = select-scope st.requested_section_ids st s h
  node-scope Node.loading st s h = ground arith
  node-scope Node.rewriting st s h = ground arith
  node-scope Node.grounding st s h = ground-scope st.patch st s h
  node-scope Node.repairing st s h = ground arith

  walk-scope :
      (n : ℕ) (node : Node) (st last : TailoringAgentState) (s after : S) (path : List Node)
      → in_scope st ≡ true
      → walk services n node st s ≡ some (path, last, after)
      → in_scope last ≡ true
  unfolding walk
  walk-scope zero node st last s after path h e = cc
  walk-scope (suc n) node st last s after path h e =
      let kept = node-scope node st s h in
      elim (Option-cases (next node (run_node services node st s).0)) [
        | inl f ↦ ground arith
        | inr (following, f) ↦
            elim (Option-cases (
              walk services n following (run_node services node st s).0
                (run_node services node st s).1)) [
                  | inl g ↦ ground arith
                  | inr ((rest, end, u), g) ↦
                      let inner =
                        walk-scope n following (run_node services node st s).0 end
                          (run_node services node st s).1 u rest kept g in
                      ground arith
                ]
      ]

-- From its initial state the graph ends with a selection of which every id is in the outline.
pub walk-in_scope :
    {S X : Type 0} (services : Services S X) (run_id instruction : String)
    (job_context : Option JsonObject) (outline : List JsonObject) (requested : List String) (s : S)
    → (path : List Node) × (last : TailoringAgentState) × (after : S) × (walk services 6
          Node.selecting
          (initial_tailoring_state run_id instruction job_context outline requested)
          s
        ≡ some (path, last, after))
      × (in_scope last ≡ true)
unfolding initial_tailoring_state
walk-in_scope services run_id instruction job_context outline requested s =
    let ends = walk-Ends services run_id instruction job_context outline requested s in
    (
      ends.path,
      ends.last,
      ends.after,
      ends.run,
      walk-scope services 6 Node.selecting
          (initial_tailoring_state run_id instruction job_context outline requested) ends.last s
          ends.after ends.path refl ends.run,
    )
