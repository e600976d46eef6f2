-- ===== src/Lib.antt =====
-- A verification library for the backend of JobAgent, a local workspace in which an agent reads CVs
-- and job posts, keeps one profile per CV, scores jobs against it and tailors the CV to a job. The
-- backend is in backend/app, a FastAPI service over one SQLite database, a graph database and a chat
-- provider.
--
-- The parts and how they interact. A chat turn or a tailoring session creates a run
-- (repositories/agent_runs.py), builds the prompt (agent/context.py), calls the provider
-- (services/provider_retry.py), and runs tool calls under a durable identity
-- (services/tool_execution.py over repositories/tool_executions.py), so that a run that is resumed
-- replays a finished call. A profile can be extracted again from its CV; the operation is a row that
-- is claimed, reviewed and made stale (repositories/profile_reextract_operations.py). The services
-- that change profiles and conversations first ask the activity gates (services/activity_gate.py)
-- whether a run, a review or a generation is in the way. A tailoring run walks a graph of five nodes
-- (agent/tailoring_graph.py), which calls the provider and the grounding guard. Jobs are scored against
-- the profile of the candidate (services/match_scoring.py): skills are named and related by a taxonomy
-- that is loaded from a seed file (services/skill_normalization.py), each skill of a Job is matched
-- (services/skill_matching.py), six components are weighted and the candidates ordered
-- (services/match_components.py), and each result is explained (services/match_explanations.py).
--
-- The files. A table is the list of its rows in the order of insertion, a nullable column an `Option`,
-- a time a number, and a repository function an `Action`, which takes the tables and gives a result or
-- an exception together with the tables afterwards. New ids, clocks and what other writers do meanwhile
-- are arguments. The paths below stand under backend/app.
--   Prelude            names of the libraries, texts (`str.strip`, `len`, slices), tables and their
--                      lemmas, exceptions (Prelude/Effects), `ORDER BY` (Prelude/Sorting).
--   Models             db/models/chat.py, profiles.py, cv_tailoring.py: the rows, one record each, and
--                      the database that the profile services share.
--   Provider           services/provider_retry.py: `classify_provider_error`,
--                      `is_retryable_provider_code`, `invoke_with_provider_retry`. The provider call is
--                      an argument. The loop has fuel 2, for the first call and the
--                      MAX_PROVIDER_RETRIES = 1 retry.
--   Context            agent/context.py: `apply_recent_context_budget`, with its ceilings of 20 messages
--                      and 12000 characters, and `normalize_turn_attachment_ids`.
--   Runs               repositories/agent_runs.py: `create_run`, `create_tailoring_run`, `_transition`
--                      (`transition`) and its four callers, `delete_run` with the links it clears. Runs/Requests has the calls as
--                      data, for statements on every sequence of calls.
--   Tools/Results      schemas/tools.py: `ToolResult`, its validators, its JSON form.
--   Tools/Labels       schemas/agent_activity.py: `humanize_activity_name`, for ASCII names.
--   Tools/Rows         repositories/tool_executions.py.
--   Tools/Service      services/tool_execution.py: `execute_tool` and `get_replay_result`. A session
--                      scope commits the rows or rolls them back. `perf_counter` is an argument.
--   Profiles           repositories/profiles.py and workspace_state.py: the lookups; Profiles/Rows has the
--                      profiles, Profiles/Drafts the drafts. Profiles/Complete and Profiles/Requests have
--                      the calls as data.
--   Messages           repositories/chat_messages.py.
--   Reextract          repositories/profile_reextract_operations.py: reading and reconciling; its
--                      Claims and Writes have the claim, the transition and the deletions.
--   ActivityGate       services/activity_gate.py: the idle gates; its Gates has the others.
--   TailoringGraph     agent/tailoring_graph.py: the state, the five nodes and the edges. `walk` is the run
--                      of the compiled graph; the fuel is 6, the length of its longest path.
--                      The provider's answers, the loader and the guard are arguments.
--   TailoringGuard     services/cv_tailoring_guard.py: its Tokens has the patterns as scanners, its Support
--                      and Fields the checks of one text, its Structure
--                      `validate_patch_structure_and_facts`, its Assembly `assemble_guarded_content` and
--                      `guard_tailored_patch`, its Manual `guard_manual_tailored_content`. Its Service
--                      puts the guard into the tailoring graph, with the provider's semantic checks as an
--                      argument. `new_uuid` is a supply of ids that is counted.
--   Versions           repositories/cv_tailoring.py: the sessions and the reads; its Writes has the
--                      compare-and-set of a session's head, the changes of state and the deletion, its
--                      Requests the calls as data, each in a session scope.
--   Taxonomy           services/skill_normalization.py: its Text has the comparison forms, its Reading and
--                      Loading `load_skill_taxonomy`, its Normalizer the class `SkillNormalizer`. A seed
--                      is the value that `json.loads` returns.
--   Matching           services/skill_matching.py (Coverage), match_components.py (Components, Ranking),
--                      job_display.py (Labels), match_explanations.py with schemas/matching.py (Evidence,
--                      Explanation) and match_scoring.py (Scoring). Floats are a record of the operations
--                      that the code uses (Prelude/Floats), with the laws of comparison away from NaN as
--                      hypotheses; what Python reads from the Unicode tables is a record too
--                      (Prelude/Words).
--
-- Not modelled: the messages of exceptions (an exception is its class and its code, except in
-- Versions), the foreign keys of an insert (except those of a version and of a re-extraction
-- operation), time zones (times are instants), connection and driver failures, and the parts that
-- only pass requests on: the HTTP routes, the schemas of requests, the event stream, the graph
-- database, the provider's adapters, the file storage, the migrations and the user interface. The
-- services of the profile lifecycle, of chat turns, of job intake, of CV extraction and of
-- tailored documents are not modelled. A column with a unique constraint is read as the first
-- row with the value. The texts are sequences of code points; letter case is that of ASCII.
mod Prelude
pub mod Provider
pub mod Context
pub mod Models
pub mod Runs
pub mod Profiles
pub mod Messages
pub mod Reextract
pub mod ActivityGate
pub mod TailoringGraph
pub mod Taxonomy
pub mod Matching
pub mod TailoringGuard
pub mod Tools
pub mod Versions
