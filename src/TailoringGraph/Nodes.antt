-- ===== src/TailoringGraph/Nodes.antt =====
-- backend/app/agent/tailoring_graph.py: the nodes, the edges and the run of the compiled graph.
use job_agent.Prelude.{
  ℕ, zero, suc, String, Bool, false, not, Option, none, some, List, [], ◌∷◌, ◌==◌, any, ltb,
  if◌then◌else◌, Outcome, returned, raised, Action,
}
use job_agent.Models.Json.{JsonObject, text, get_field}
use job_agent.Models.Tailored.{TailoredCvContent}
use job_agent.TailoringGraph.{
  grounding_failed, schema_issue, identity_skeleton_of, Issue, Patch, TailoringAgentState,
  RewriteMessage, Services, proposed, guarded,
}

-- `try: a = m except Exception: …`, and the state that each way leads to.
abbrev pub either_way :
    {X A : Type 0}
    → (A → TailoringAgentState)
    → TailoringAgentState
    → Outcome X A
    → TailoringAgentState
either_way ok failed (returned a) = ok a
either_way ok failed (raised e) = failed

abbrev pub attempt :
    {S X A : Type 0}
    → Action S X A
    → (A → TailoringAgentState)
    → TailoringAgentState
    → S
    → TailoringAgentState × S
attempt m ok failed s = let (result, after) = m s in (either_way ok failed result, after)

abbrev pub names_item : String → JsonObject → Bool
names_item section_id o = elim (get_field "id" o) [ some (text i) ↦ i == section_id | _ ↦ false ]

-- `section_id in outline_ids`
abbrev pub in_outline : List JsonObject → String → Bool
in_outline outline section_id = any (names_item section_id) outline

abbrev pub with_error : TailoringAgentState → TailoringAgentState
with_error st = record st { error = some grounding_failed }

-- The checks of a selection after it is read.
unfoldable pub take_selection : TailoringAgentState → List String → TailoringAgentState
take_selection st selected =
    if any (λ i. not (in_outline st.outline i)) selected
    then with_error st
    else record st { selected_section_ids = selected }

abbrev pub rewrite_message :
    TailoringAgentState → Option (Option Patch × List Issue) → RewriteMessage
rewrite_message st repair = record {
  instruction = st.instruction;
  job_context = st.job_context;
  selected_sections = st.selected_sections;
  identity_skeleton = st.identity_skeleton;
  fact_bank = st.fact_bank;
  repair = repair;
}

-- `[…] or [schema issue]`
abbrev pub sanitized : List Issue → List Issue
sanitized [] = schema_issue ∷ []
sanitized (i ∷ is) = i ∷ is

-- The answer of the guard, or `none` where it raised.
unfoldable pub take_guarded :
    TailoringAgentState → Option TailoredCvContent × List Issue → TailoringAgentState
take_guarded st (some content, issues) = record st {
  patch = some (guarded content);
  issues = [];
  error = none;
}
take_guarded st (none, issues) =
    if ltb 0 st.repair_count
    then record st { issues = sanitized issues; error = some grounding_failed }
    else record st { issues = sanitized issues }

module _ {S X : Type 0} (services : Services S X) where
  unfoldable pub select_raw : List String → TailoringAgentState → S → TailoringAgentState × S
  select_raw [] st =
      attempt
        (services.select (record {
          instruction = st.instruction;
          job_context = st.job_context;
          outline = st.outline;
        }))
        (take_selection st) (with_error st)
  select_raw (i ∷ rest) st = λ s. (take_selection st (i ∷ rest), s)

  unfoldable pub select_sections : TailoringAgentState → S → TailoringAgentState × S
  select_sections st s = select_raw st.requested_section_ids st s

  unfoldable pub load_selected_sections : TailoringAgentState → S → TailoringAgentState × S
  load_selected_sections st =
      attempt (services.load st.selected_section_ids)
        (λ loaded. record st {
          selected_sections = loaded.0;
          identity_skeleton = identity_skeleton_of loaded.0;
          fact_bank = loaded.1;
        })
        (with_error st)

  unfoldable pub rewrite_sections : TailoringAgentState → S → TailoringAgentState × S
  rewrite_sections st =
      attempt (services.rewrite (rewrite_message st none))
        (λ p. record st { patch = some (proposed p); issues = [] })
        (record st { patch = none; issues = schema_issue ∷ [] })

  -- A guarded content is no patch set, so that its validation raises.
  unfoldable pub ground_raw : Option Patch → TailoringAgentState → S → TailoringAgentState × S
  ground_raw none st s = (if ltb 0 st.repair_count then with_error st else st, s)
  ground_raw (some (guarded content)) st s = (take_guarded st (none, []), s)
  ground_raw (some (proposed p)) st s =
      attempt (services.guard p st.selected_section_ids st.fact_bank) (take_guarded st)
        (take_guarded st (none, [])) s

  unfoldable pub ground_patch : TailoringAgentState → S → TailoringAgentState × S
  ground_patch st s = ground_raw st.patch st s

  unfoldable pub repair_once : TailoringAgentState → S → TailoringAgentState × S
  repair_once st =
      attempt (services.rewrite (rewrite_message st (some (st.patch, st.issues))))
        (λ p. record st { patch = some (proposed p); repair_count = 1; issues = [] })
        (record st { patch = none; repair_count = 1; issues = schema_issue ∷ [] })

pub data Node : Type 0 where
  selecting loading rewriting grounding repairing : Node

-- The edges; `none` is `END`.
unfoldable pub next : Node → TailoringAgentState → Option Node
next Node.selecting st = elim st.error [ none ↦ some Node.loading | some e ↦ none ]
next Node.loading st = elim st.error [ none ↦ some Node.rewriting | some e ↦ none ]
next Node.rewriting st = some Node.grounding
next Node.grounding st = elim st.error [
  | some e ↦ none
  | none ↦ elim st.issues [ [] ↦ none | i ∷ is ↦ some Node.repairing ]
]
next Node.repairing st = some Node.grounding

module _ {S X : Type 0} (services : Services S X) where
  unfoldable pub run_node : Node → TailoringAgentState → S → TailoringAgentState × S
  run_node Node.selecting = select_sections services
  run_node Node.loading = load_selected_sections services
  run_node Node.rewriting = rewrite_sections services
  run_node Node.grounding = ground_patch services
  run_node Node.repairing = repair_once services

  -- The run of the compiled graph from a node, where `START` leads to the selection: the nodes visited and the last state. `none` is a run
  -- that has not ended after so many nodes.
  unfoldable pub walk :
      ℕ → Node → TailoringAgentState → S → Option (List Node × TailoringAgentState × S)
  walk zero node st s = none
  walk (suc n) node st s =
      let (after, t) = run_node node st s in
      elim (next node after) [
        | none ↦ some (node ∷ [], after, t)
        | some following ↦ elim (walk n following after t) [
          | none ↦ none
          | some (path, last, u) ↦ some (node ∷ path, last, u)
        ]
      ]
