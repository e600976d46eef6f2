-- ===== src/TailoringGraph/Examples.antt =====
-- Runs of the graph.
use job_agent.Prelude.{
  ℕ, suc, String, ◌≡◌, refl, true, Option, none, some, List, [], ◌∷◌, returned, ltb, if◌then◌else◌,
}
use job_agent.Models.Json.{JsonObject, no_fields, field, text, get_field}
use job_agent.Models.Tailored.{TailoredCvContent}
use job_agent.TailoringGraph.{
  TailoringAgentState, Services, Patch, guarded, initial_tailoring_state,
}
use job_agent.TailoringGraph.Nodes.{
  take_selection, take_guarded, select_raw, select_sections, load_selected_sections,
  rewrite_sections, ground_raw, ground_patch, repair_once, Node, next, run_node, walk,
}
use job_agent.TailoringGraph.Grounding.{Ends}
use job_agent.TailoringGraph.Ends.{walk-Ends}
use job_agent.TailoringGraph.Scope.{in_scope, walk-in_scope}

program : Unit {0}
unfolding get_field initial_tailoring_state take_selection take_guarded select_raw select_sections
    load_selected_sections rewrite_sections ground_raw ground_patch repair_once next run_node walk
program = tt

abbrev content : TailoredCvContent
content = record {
  header = record {
    full_name = "A";
    location = none;
    phone = none;
    email = none;
    github_url = none;
  };
  sections = [];
}

-- The first patch is refused and the second is accepted; the state counts the rewrites.
abbrev second_try : Services ℕ String
second_try = record {
  select = λ m s. (returned ("s" ∷ []), s);
  load = λ ids s. (returned ([], []), s);
  rewrite = λ m s. (returned (record { sections = [] }), suc s);
  guard = λ p ids facts s. (
    returned (
        if ltb 1 s
        then (some content, [])
        else (none, record { code = "UNKNOWN_FACT"; path = "sections[0]" } ∷ [])),
    s,
  );
}

abbrev outline : List JsonObject
outline = field "id" (text "s") no_fields ∷ []

abbrev shown : Option (List Node × TailoringAgentState × ℕ) → Option (List Node × Option Patch × ℕ)
shown none = none
shown (some (path, last, calls)) = some (path, last.patch, calls)

repaired :
    shown (walk second_try 6 Node.selecting (initial_tailoring_state "r" "" none outline []) 0)
    ≡ some (
      Node.selecting ∷ Node.loading ∷ Node.rewriting ∷ Node.grounding ∷ Node.repairing
          ∷ Node.grounding ∷ [],
      some (guarded content),
      2,
    )
unfolding program
repaired = refl

walk-Ends_example :
    Ends second_try 6 1 Node.selecting (initial_tailoring_state "r" "" none outline []) 0
walk-Ends_example = walk-Ends second_try "r" "" none outline [] 0

walk-in_scope_example :
    (path : List Node) × (last : TailoringAgentState) × (after : ℕ) × (walk second_try 6
        Node.selecting
        (initial_tailoring_state "r" "" none outline ("x" ∷ []))
        0
      ≡ some (path, last, after))
    × (in_scope last ≡ true)
walk-in_scope_example = walk-in_scope second_try "r" "" none outline ("x" ∷ []) 0
