-- ===== src/TailoringGuard/Examples.antt =====
-- A patch of one section that is accepted, and two that are refused.
use job_agent.Prelude.{
  ℕ, String, true, false, Option, none, some, List, [], ◌∷◌, ◌≡◌, refl, cut, suc, ltb,
  if◌then◌else◌, returned, raised,
}
use job_agent.Prelude.Ascii.{ascii}
use job_agent.Prelude.Words.{decimal}
use job_agent.Models.Tailored.{
  CvSectionKind, SourceBoundText, TailoredItem, TailoredCvContent, TailoredPatchSet,
}
use job_agent.Models.Json.{JsonObject, no_fields, field, text, get_field}
use job_agent.TailoringGraph.{
  Services, TailoringAgentState, Patch, guarded, initial_tailoring_state,
}
use job_agent.TailoringGraph.Nodes.{
  take_selection, take_guarded, select_raw, select_sections, load_selected_sections,
  rewrite_sections, ground_raw, ground_patch, repair_once, Node, next, run_node, walk,
}
use job_agent.TailoringGuard.Service.{Support, with_guard, IsSettled, walk-IsSettled}
use job_agent.TailoringGuard.{Checks, issue}
use job_agent.TailoringGuard.Assembly.{guard_tailored_patch}
use job_agent.TailoringGuard.Assembly.Grounded.{IsGuarded, guard_tailored_patch-IsGuarded}
use job_agent.TailoringGuard.Manual.Edited.{AreEdited, guard_manual_tailored_content-IsEdited}
use job_agent.TailoringGuard.Manual.{guard_manual_tailored_content}

abbrev cites : String → String → SourceBoundText
cites words fact_id = record { text = words; source_fact_ids = fact_id ∷ [] }

abbrev item_with : String → SourceBoundText → TailoredItem
item_with i body = record {
  id = i;
  source_entry_id = some "e1";
  title = none;
  subtitle = none;
  date_text = none;
  location = none;
  body = body;
  bullets = [];
  attributes = [];
}

abbrev content_with : SourceBoundText → TailoredCvContent
content_with body = record {
  header = record {
    full_name = "A";
    location = none;
    phone = none;
    email = none;
    github_url = none;
  };
  sections =
      record {
        id = "s1";
        ordinal = 0;
        heading = "Work";
        kind = CvSectionKind.experience;
        items = item_with "e1" body ∷ [];
      }
      ∷ [];
}

abbrev patch_with : SourceBoundText → TailoredPatchSet
patch_with body = record {
  sections =
      record {
        section_id = "s1";
        items =
            record {
              source_entry_id = some "e1";
              title = none;
              subtitle = none;
              date_text = none;
              location = none;
              body = body;
              bullets = [];
              attributes = [];
            }
            ∷ [];
      }
      ∷ [];
}

abbrev checks : Checks
checks = record {
  unicode = ascii;
  fact_bank =
      (
        "f1",
        record {
          fact_id = "f1";
          section_id = "s1";
          source_entry_id = "e1";
          field_path = "body";
          source_text = "Led 5 engineers";
        },
      )
      ∷ [];
  approved_skill_labels = "Go" ∷ [];
  semantic_checker = none;
  require_semantic_support = true;
  require_deterministic_support = false;
}

abbrev uuid : ℕ → String
uuid n = "new"

abbrev parent : TailoredCvContent
parent = content_with (cites "Led 5 engineers" "f1")

program : Unit {0}
unfolding ascii cut decimal guard_tailored_patch guard_manual_tailored_content
program = tt

accepts :
    (guard_tailored_patch uuid checks
      (patch_with (cites "led 5 ENGINEERS" "f1"))
      parent
      ("s1" ∷ [])
      0).0
    ≡ (some (content_with (cites "led 5 ENGINEERS" "f1")), [])
unfolding program
accepts = refl

refuses_number :
    (guard_tailored_patch uuid checks
      (patch_with (cites "Led 50 engineers" "f1"))
      parent
      ("s1" ∷ [])
      0).0
    ≡ (none, issue "UNSUPPORTED_ANCHOR" "sections[0].items[0].body" ∷ [])
unfolding program
refuses_number = refl

refuses_unknown_fact :
    (guard_tailored_patch uuid checks
      (patch_with (cites "Led 5 engineers" "f2"))
      parent
      ("s1" ∷ [])
      0).0
    ≡ (none, issue "UNKNOWN_FACT" "sections[0].items[0].body" ∷ [])
unfolding program
refuses_unknown_fact = refl

guard_tailored_patch-IsGuarded_example :
    IsGuarded checks ("s1" ∷ []) parent (content_with (cites "led 5 ENGINEERS" "f1"))
guard_tailored_patch-IsGuarded_example =
    guard_tailored_patch-IsGuarded checks ("s1" ∷ []) uuid
      (patch_with (cites "led 5 ENGINEERS" "f1")) parent 0 accepts

accepts_edit :
    (guard_manual_tailored_content uuid checks
      (content_with (cites "engineers led: 5" "f1"))
      parent
      ("s1" ∷ [])
      0).0
    ≡ (some (content_with (cites "engineers led: 5" "f1")), [])
unfolding program
accepts_edit = refl

guard_manual_tailored_content-IsEdited_example :
    (parent.header ≡ parent.header)
    × AreEdited
        ("s1" ∷ [])
        (content_with (cites "engineers led: 5" "f1")).sections
        parent.sections
        (content_with (cites "engineers led: 5" "f1")).sections
    × IsGuarded
        (record checks { require_semantic_support = false; require_deterministic_support = true })
        ("s1" ∷ [])
        parent
        (content_with (cites "engineers led: 5" "f1"))
guard_manual_tailored_content-IsEdited_example =
    guard_manual_tailored_content-IsEdited uuid checks
      (content_with (cites "engineers led: 5" "f1")) parent ("s1" ∷ []) 0 accepts_edit

-- The provider rewrites the section, and its first text has a number that is not in the CV.
abbrev provider : Services (ℕ × ℕ) String
provider = record {
  select = λ m s. (returned ("s1" ∷ []), s);
  load = λ ids s. (returned (parent.sections, checks.fact_bank), s);
  rewrite = λ m s. (
    returned
        (patch_with (cites (if ltb 0 s.0 then "led 5 ENGINEERS" else "Led 50 engineers") "f1")),
    (suc s.0, s.1),
  );
  guard = λ p ids facts s. (raised "unused", s);
}

abbrev agrees : Support ℕ String
agrees w = (returned (λ words cited. true), w)

abbrev outline : List JsonObject
outline = field "id" (text "s1") no_fields ∷ []

graph : Unit {0}
unfolding program with_guard walk next run_node select_sections select_raw take_selection
    load_selected_sections rewrite_sections ground_patch ground_raw take_guarded repair_once
    initial_tailoring_state get_field
graph = tt

abbrev patch_left : Option (List Node × TailoringAgentState × (ℕ × ℕ)) → Option Patch
patch_left none = none
patch_left (some (path, last, s)) = last.patch

repairs_number :
    patch_left (
      walk
        (with_guard uuid checks parent agrees provider)
        6
        Node.selecting
        (initial_tailoring_state "r" "" none outline [])
        (0, 0))
    ≡ some (guarded (content_with (cites "led 5 ENGINEERS" "f1")))
unfolding graph
repairs_number = refl

walk-IsSettled_example :
    (path : List Node) × (last : TailoringAgentState) × (after : ℕ × ℕ) × (walk
        (with_guard uuid checks parent agrees provider)
        6
        Node.selecting
        (initial_tailoring_state "r" "" none outline [])
        (0, 0)
      ≡ some (path, last, after))
    × IsSettled checks parent last
walk-IsSettled_example =
    walk-IsSettled uuid checks parent agrees provider "r" "" none outline [] (0, 0)
