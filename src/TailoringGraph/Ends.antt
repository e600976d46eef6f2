-- ===== src/TailoringGraph/Ends.antt =====
-- Every run of the graph ends, after one repair at most.
use job_agent.Prelude.{
  ℕ, suc, ◌+◌, String, true, false, not, Option, none, some, List, [], ◌∷◌, ◌≡◌, ◌⊎◌, inl, inr,
  refl, arith, Bool-cases, ltb, ◌||◌, is_some, any, count_if, Outcome-cases,
}
use job_agent.Models.Json.{JsonObject}
use job_agent.TailoringGraph.{
  TailoringAgentState, SelectionMessage, Services, grounding_failed, initial_tailoring_state,
}
use job_agent.TailoringGraph.Nodes.{
  in_outline, take_selection, select_raw, select_sections, load_selected_sections, rewrite_sections,
  ground_raw, ground_patch, repair_once, Node, next, run_node, walk,
}
use job_agent.TailoringGraph.Grounding.{
  is_repairing, has_issues, Settled, Ends, ground_repaired, ground_first,
}

module _ {S X : Type 0} (services : Services S X) where
  -- The run from the node that grounds, after a repair.
  Ends-repaired :
      (st : TailoringAgentState) (s : S)
      → ltb 0 st.repair_count ≡ true
      → Ends services 1 0 Node.grounding st s
  unfolding walk run_node ground_patch
  Ends-repaired st s repaired =
      let (settled, over) = ground_repaired services st.patch st s repaired in
      record {
        path = Node.grounding ∷ [];
        last = (ground_raw services st.patch st s).0;
        after = (ground_raw services st.patch st s).1;
        run = ground arith;
        steps = omega arith;
        repairs_made = omega arith;
        settled = settled;
      }

  -- A node in front of a run that ends.
  Ends-after :
      (n r : ℕ) (node following : Node) (st : TailoringAgentState) (s : S)
      → next node (run_node services node st s).0 ≡ some following
      → Ends services n r following (run_node services node st s).0 (run_node services node st s).1
      → Ends services (suc n) (count_if is_repairing (node ∷ []) + r) node st s
  unfolding walk
  Ends-after n r node following st s e rest = record {
    path = node ∷ rest.path;
    last = rest.last;
    after = rest.after;
    run = ground (arith, rest.run);
    steps = omega (arith, rest.steps);
    repairs_made = omega (arith, rest.repairs_made);
    settled = rest.settled;
  }

  -- A run that ends at its first node.
  Ends-here :
      (n r : ℕ) (node : Node) (st : TailoringAgentState) (s : S)
      → is_repairing node ≡ false
      → next node (run_node services node st s).0 ≡ none
      → Settled services (run_node services node st s).0
      → Ends services (suc n) r node st s
  unfolding walk
  Ends-here n r node st s other over settled = record {
    path = node ∷ [];
    last = (run_node services node st s).0;
    after = (run_node services node st s).1;
    run = ground arith;
    steps = omega arith;
    repairs_made = ground arith;
    settled = settled;
  }

  repaired_count :
      (st : TailoringAgentState) (s : S) → (repair_once services st s).0.repair_count ≡ 1
  unfolding repair_once
  repaired_count st s = ground arith

  Ends-repairing : (st : TailoringAgentState) (s : S) → Ends services 2 1 Node.repairing st s
  unfolding run_node next
  Ends-repairing st s = Ends-after 1 0 Node.repairing Node.grounding st s refl (
      Ends-repaired (repair_once services st s).0 (repair_once services st s).1
        (ground (arith, repaired_count st s)))

  Ends-grounding :
      (st : TailoringAgentState) (s : S)
      → ltb 0 st.repair_count ≡ false
      → st.error ≡ none
      → (is_some st.patch || has_issues st.issues) ≡ true
      → Ends services 3 1 Node.grounding st s
  unfolding run_node ground_patch
  Ends-grounding st s first_time clean ready =
      elim (ground_first services st.patch st s first_time clean ready) [
        | inl (settled, over) ↦ Ends-here 2 1 Node.grounding st s refl over settled
        | inr e ↦ Ends-after 2 1 Node.grounding Node.repairing st s e (
            Ends-repairing (ground_raw services st.patch st s).0
              (ground_raw services st.patch st s).1)
      ]

  rewritten :
      (st : TailoringAgentState) (s : S)
      → let out = (rewrite_sections services st s).0 in
        (out.repair_count ≡ st.repair_count)
        × (out.error ≡ st.error)
        × ((is_some out.patch || has_issues out.issues) ≡ true)
  unfolding rewrite_sections
  rewritten st s = ground arith

  Ends-rewriting :
      (st : TailoringAgentState) (s : S)
      → ltb 0 st.repair_count ≡ false
      → st.error ≡ none
      → Ends services 4 1 Node.rewriting st s
  unfolding run_node next
  Ends-rewriting st s first_time clean =
      let (count, error, ready) = rewritten st s in
      Ends-after 3 1 Node.rewriting Node.grounding st s refl (
        Ends-grounding (rewrite_sections services st s).0 (rewrite_sections services st s).1
          (ground (arith, count)) (ground (arith, error)) ready)

  loaded :
      (st : TailoringAgentState) (s : S)
      → st.error ≡ none
      → let out = (load_selected_sections services st s).0 in
        (out.repair_count ≡ st.repair_count)
        × ((out.error ≡ none) ⊎ (out.error ≡ some grounding_failed))
  unfolding load_selected_sections
  loaded st s clean = elim (Outcome-cases (services.load st.selected_section_ids s).0) [
    | inl (a, e) ↦ rw e (refl, inl clean)
    | inr (x, e) ↦ rw e (refl, inr refl)
  ]

  Ends-loading :
      (st : TailoringAgentState) (s : S)
      → ltb 0 st.repair_count ≡ false
      → st.error ≡ none
      → Ends services 5 1 Node.loading st s
  unfolding run_node next
  Ends-loading st s first_time clean =
      let (count, outcome) = loaded st s clean in
      elim outcome [
        | inl e ↦ Ends-after 4 1 Node.loading Node.rewriting st s (ground (arith, e)) (
            Ends-rewriting (load_selected_sections services st s).0
              (load_selected_sections services st s).1 (ground (arith, count)) e)
        | inr e ↦ Ends-here 4 1 Node.loading st s refl (ground (arith, e)) (inl e)
      ]

  taken :
      (st : TailoringAgentState) (ids : List String)
      → st.error ≡ none
      → ((take_selection st ids).repair_count ≡ st.repair_count)
        × (((take_selection st ids).error ≡ none)
            ⊎ ((take_selection st ids).error ≡ some grounding_failed))
  unfolding take_selection
  taken st ids clean = elim (Bool-cases (any (λ i. not (in_outline st.outline i)) ids)) [
    | inl e ↦ rw e (refl, inr refl)
    | inr e ↦ rw e (refl, inl clean)
  ]

  selected_raw :
      (raw : List String) (st : TailoringAgentState) (s : S)
      → st.error ≡ none
      → let out = (select_raw services raw st s).0 in
        (out.repair_count ≡ st.repair_count)
        × ((out.error ≡ none) ⊎ (out.error ≡ some grounding_failed))
  unfolding select_raw
  selected_raw (i ∷ rest) st s clean = taken st (i ∷ rest) clean
  selected_raw [] st s clean =
      let message : SelectionMessage = record {
        instruction = st.instruction;
        job_context = st.job_context;
        outline = st.outline;
      } in
      elim (Outcome-cases (services.select message s).0) [
        | inl (ids, e) ↦ rw e (taken st ids clean)
        | inr (x, e) ↦ rw e (refl, inr refl)
      ]

  Ends-selecting :
      (st : TailoringAgentState) (s : S)
      → ltb 0 st.repair_count ≡ false
      → st.error ≡ none
      → Ends services 6 1 Node.selecting st s
  unfolding run_node next select_sections
  Ends-selecting st s first_time clean =
      let (count, outcome) = selected_raw st.requested_section_ids st s clean in
      elim outcome [
        | inl e ↦ Ends-after 5 1 Node.selecting Node.loading st s (ground (arith, e)) (
            Ends-loading (select_sections services st s).0 (select_sections services st s).1
              (ground (arith, count)) e)
        | inr e ↦ Ends-here 5 1 Node.selecting st s refl (ground (arith, e)) (inl e)
      ]

-- From its initial state the graph ends, whatever the provider, the loader and the guard answer, raise
-- or change: it visits at most six nodes, repairs at most once, and leaves either the error
-- TAILORING_GROUNDING_FAILED, or no error, no issues and a content that the guard returned for the
-- selection and the facts of the state.
pub walk-Ends :
    {S X : Type 0} (services : Services S X) (run_id instruction : String)
    (job_context : Option JsonObject) (outline : List JsonObject) (requested : List String) (s : S)
    → Ends services 6 1 Node.selecting
        (initial_tailoring_state run_id instruction job_context outline requested)
        s
unfolding initial_tailoring_state
walk-Ends services run_id instruction job_context outline requested s =
    Ends-selecting services
      (initial_tailoring_state run_id instruction job_context outline requested) s (ground arith)
      refl
