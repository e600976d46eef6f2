-- ===== src/TailoringGraph.antt =====
-- backend/app/agent/tailoring_graph.py: the five nodes and the edges of the tailoring graph.
-- The structured calls of the provider, the loader of the selected context and the guard of
-- services/cv_tailoring_guard.py are arguments, which may raise and change whatever lies outside.
pub mod Nodes
pub mod Grounding
pub mod Ends
pub mod Scope
mod Examples
use job_agent.Prelude.{
  ℕ, zero, suc, String, Bool, true, false, not, ◌||◌, Option, none, some, List, [], ◌∷◌, ◌==◌, map,
  any, ltb, if◌then◌else◌, Outcome, returned, raised, Action,
}
use job_agent.Models.Json.{Json, JsonObject, text, get_field}
use job_agent.Models.Tailored.{
  TailoredAttribute, TailoredItem, TailoredSection, TailoredCvContent, TailoredFactEvidence,
  TailoredPatchSet,
}

pub record ItemSkeleton : Type 0 where
  pub source_entry_id : Option String
  pub attribute_names : List String

pub record SectionSkeleton : Type 0 where
  pub section_id : String
  pub items : List ItemSkeleton

pub record Issue : Type 0 where
  pub code : String
  pub path : String

abbrev pub FactBank : Type 0
FactBank = List (String × TailoredFactEvidence)

-- What the `patch` of the state holds: the model's patch set, or the content that the guard returned.
pub data Patch : Type 0 where
  proposed : TailoredPatchSet → Patch
  guarded : TailoredCvContent → Patch

pub record TailoringAgentState : Type 0 where
  pub run_id : String
  pub instruction : String
  pub job_context : Option JsonObject
  pub outline : List JsonObject
  pub requested_section_ids : List String
  pub selected_section_ids : List String
  pub selected_sections : List TailoredSection
  pub identity_skeleton : List SectionSkeleton
  pub fact_bank : FactBank
  pub patch : Option Patch
  pub repair_count : ℕ
  pub issues : List Issue
  pub error : Option String

-- The human messages of the three prompts.
pub record SelectionMessage : Type 0 where
  pub instruction : String
  pub job_context : Option JsonObject
  pub outline : List JsonObject

pub record RewriteMessage : Type 0 where
  pub instruction : String
  pub job_context : Option JsonObject
  pub selected_sections : List TailoredSection
  pub identity_skeleton : List SectionSkeleton
  pub fact_bank : FactBank
  -- The prior patch and the issues, in a repair.
  pub repair : Option (Option Patch × List Issue)

pub record Services (S X : Type 0) : Type 0 where
  pub select : SelectionMessage → Action S X (List String)
  pub load : List String → Action S X (List TailoredSection × FactBank)
  pub rewrite : RewriteMessage → Action S X TailoredPatchSet
  pub guard :
      TailoredPatchSet → List String → FactBank → Action S X (Option TailoredCvContent × List Issue)

abbrev pub grounding_failed : String
grounding_failed = "TAILORING_GROUNDING_FAILED"

abbrev pub schema_issue : Issue
schema_issue = record { code = "SCHEMA_VALIDATION_FAILED"; path = "patch" }

unfoldable pub initial_tailoring_state :
    (run_id instruction : String) (job_context : Option JsonObject) (outline : List JsonObject)
    (requested_section_ids : List String)
    → TailoringAgentState
initial_tailoring_state run_id instruction job_context outline requested_section_ids = record {
  run_id = run_id;
  instruction = instruction;
  job_context = job_context;
  outline = outline;
  requested_section_ids = requested_section_ids;
  selected_section_ids = [];
  selected_sections = [];
  identity_skeleton = [];
  fact_bank = [];
  patch = none;
  repair_count = 0;
  issues = [];
  error = none;
}

abbrev pub item_skeleton : TailoredItem → ItemSkeleton
item_skeleton i = record {
  source_entry_id = i.source_entry_id;
  attribute_names = map (λ a. a.name) i.attributes;
}

abbrev pub section_skeleton : TailoredSection → SectionSkeleton
section_skeleton s = record { section_id = s.id; items = map item_skeleton s.items }

-- `_identity_skeleton`
abbrev pub identity_skeleton_of : List TailoredSection → List SectionSkeleton
identity_skeleton_of sections = map section_skeleton sections
