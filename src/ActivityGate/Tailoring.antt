-- ===== src/ActivityGate/Tailoring.antt =====
-- What the gate of a tailoring session lets through.
use job_agent.Prelude.{
  String, true, false, not, ◌&&◌, none, some, ◌==◌, ◌≡◌, ◌≢◌, ◌↔◌, ◌⊎◌, refl, arith, All,
  All-weaken, IsIn, first, eq_iff, Bool-cases, Option-cases, inl, inr, returned,
}
use job_agent.Prelude.Members.{any-IsIn, any_of_IsIn, any_of_All-false, All-both}
use job_agent.Prelude.Sorting.{All-of_any-false}
use job_agent.Models.Chat.{
  AgentRun, ChatMessage, Conversation, RunState, running, interrupted, completed, failed, RunKind,
  chat, cv_tailoring, other_kind,
}
use job_agent.Models.Database.{Database, TailoringState, TailoringSession}
use job_agent.ActivityGate.{
  is_active, is_running, is_chat, is_generating, is_of, session_of, in_session_of, holds_of,
  conversation_of, has_tailoring_activity,
}
use job_agent.ActivityGate.Gates.{is_parent, assert_tailoring_start_allowed}

-- The run answers a message of a conversation of the profile, each found by its key.
pub record IsInProfile (profile_id : String) (db : Database) (run : AgentRun) : Type 0 where
  pub message_id : String
  pub message : ChatMessage
  pub conversation : Conversation
  pub answers : run.user_message_id ≡ some message_id
  pub message_found : first (λ m. m.id == message_id) db.messages ≡ some message
  pub conversation_found :
      first (λ c. c.id == message.conversation_id) db.conversations ≡ some conversation
  pub owned : conversation.profile_id ≡ profile_id

abbrev pub IsUnended : AgentRun → Type 0
IsUnended run = (run.state ≡ running) ⊎ (run.state ≡ interrupted)

-- The run belongs to no session that exists.
abbrev pub HasNoSession : Database → AgentRun → Type 0
HasNoSession db run =
    (i : String)
    → run.tailoring_session_id ≡ some i
    → first (λ s. s.id == i) db.tailoring_sessions ≡ none

-- What a start below a parent run needs.
pub record MayStart (profile_id parent : String) (db : Database) : Type 0 where
  pub run : AgentRun
  pub present : IsIn run db.runs
  pub named : run.id ≡ parent
  pub is_chat_run : run.run_kind ≡ chat
  pub is_running_run : run.state ≡ running
  pub in_profile : IsInProfile profile_id db run
  pub alone : All (λ r. IsUnended r → (r.id ≡ parent) × HasNoSession db r) db.runs
  pub none_generating : All (λ s. s.state ≢ TailoringState.generating) db.tailoring_sessions

running_iff : (s : RunState) → (is_running s ≡ true) ↔ (s ≡ running)
running_iff running = (λ h. refl, λ h. refl)
running_iff interrupted = (λ h. cc, λ h. cc)
running_iff completed = (λ h. cc, λ h. cc)
running_iff failed = (λ h. cc, λ h. cc)

active_iff : (s : RunState) → (is_active s ≡ true) ↔ ((s ≡ running) ⊎ (s ≡ interrupted))
active_iff running = (λ h. inl refl, λ h. refl)
active_iff interrupted = (λ h. inr refl, λ h. refl)
active_iff completed = (λ h. cc, λ h. elim h [ inl e ↦ cc | inr e ↦ cc ])
active_iff failed = (λ h. cc, λ h. elim h [ inl e ↦ cc | inr e ↦ cc ])

chat_iff : (k : RunKind) → (is_chat k ≡ true) ↔ (k ≡ chat)
chat_iff chat = (λ h. refl, λ h. refl)
chat_iff cv_tailoring = (λ h. cc, λ h. cc)
chat_iff (other_kind k) = (λ h. cc, λ h. cc)

generating_iff : (s : TailoringState) → (is_generating s ≡ true) ↔ (s ≡ TailoringState.generating)
generating_iff TailoringState.generating = (λ h. refl, λ h. refl)
generating_iff TailoringState.ready = (λ h. cc, λ h. cc)
generating_iff TailoringState.failed = (λ h. cc, λ h. cc)
generating_iff TailoringState.deleting = (λ h. cc, λ h. cc)

to_profile :
    (p : String) (db : Database) (run : AgentRun)
    → holds_of (λ c. c.profile_id == p) (conversation_of db run) ≡ true
    → IsInProfile p db run
to_profile p db run h = elim (Option-cases run.user_message_id) [
  | inl e ↦ cc (rw e at h)
  | inr (i, e) ↦ elim (Option-cases (first (λ m. m.id == i) db.messages)) [
    | inl f ↦ cc (rw (conversation_of, e, f) at h)
    | inr (m, f) ↦ elim (Option-cases (first (λ c. c.id == m.conversation_id) db.conversations)) [
      | inl g ↦ cc (rw (conversation_of, e, f, g) at h)
      | inr (c, g) ↦ record {
        message_id = i;
        message = m;
        conversation = c;
        answers = e;
        message_found = f;
        conversation_found = g;
        owned = (eq_iff c.profile_id p).0 (rw (conversation_of, e, f, g) at h);
      }
    ]
  ]
]

of_profile :
    (p : String) (db : Database) (run : AgentRun)
    → IsInProfile p db run
    → holds_of (λ c. c.profile_id == p) (conversation_of db run) ≡ true
of_profile p db run h =
    rw (conversation_of, h.answers, h.message_found, h.conversation_found)
      ((eq_iff h.conversation.profile_id p).1 h.owned)

no_session :
    (db : Database) (r : AgentRun)
    → in_session_of none (session_of db r) ≡ false
    → HasNoSession db r
no_session db r h i e = elim (Option-cases (first (λ s. s.id == i) db.tailoring_sessions)) [
  | inl f ↦ f
  | inr (s, f) ↦ cc (rw (e, f) at h)
]

of_no_session :
    (db : Database) (r : AgentRun)
    → HasNoSession db r
    → in_session_of none (session_of db r) ≡ false
of_no_session db r h = elim (Option-cases r.tailoring_session_id) [
  | inl e ↦ rw e refl
  | inr (i, e) ↦ rw (e, h i e) refl
]

only_parent :
    (parent : String) (db : Database) (r : AgentRun)
    → (is_active r.state && not (r.id == parent)) ≡ false
    → (is_active r.state && in_session_of none (session_of db r)) ≡ false
    → IsUnended r
    → (r.id ≡ parent) × HasNoSession db r
only_parent parent db r h k unended =
    let active = (active_iff r.state).1 unended in
    ((eq_iff r.id parent).0 (ground arith), no_session db r (ground arith))

quiet_run :
    (parent : String) (db : Database) (r : AgentRun)
    → (IsUnended r → (r.id ≡ parent) × HasNoSession db r)
    → ((is_active r.state && not (r.id == parent)) ≡ false)
      × ((is_active r.state && in_session_of none (session_of db r)) ≡ false)
quiet_run parent db r h = elim (Bool-cases (is_active r.state)) [
  | inr e ↦ rw e (refl, refl)
  | inl e ↦
      let (named, unbound) = h ((active_iff r.state).0 e) in
      rw (e, (eq_iff r.id parent).1 named, of_no_session db r unbound) (refl, refl)
]

not_generating :
    (s : TailoringSession)
    → (s.state ≢ TailoringState.generating)
    → (is_generating s.state && is_of none s) ≡ false
not_generating s h = elim (Bool-cases (is_generating s.state)) [
  | inl e ↦ absurd (h ((generating_iff s.state).0 e))
  | inr e ↦ rw e refl
]

-- A start below a parent run is allowed exactly if some run with the id of the parent is a running
-- chat run that answers a message in a conversation of the profile, every run that is running or
-- interrupted has the id of the parent and belongs to no session that exists, and no session is
-- generating.
pub assert_tailoring_start_allowed-parent :
    (profile_id parent code : String) (db : Database)
    → ((assert_tailoring_start_allowed profile_id (some parent) code db).0 ≡ returned tt)
      ↔ MayStart profile_id parent db
unfolding assert_tailoring_start_allowed has_tailoring_activity
assert_tailoring_start_allowed-parent p parent code db = (
  λ passed.
      let (run, present, fits) = any-IsIn (is_parent p parent db) db.runs (ground arith) in
      let others =
        All-of_any-false (λ r. is_active r.state && not (r.id == parent)) db.runs (ground arith) in
      let sessions =
        All-of_any-false (λ r. is_active r.state && in_session_of none (session_of db r)) db.runs
          (ground arith) in
      let calm =
        All-of_any-false (λ s. is_generating s.state && is_of none s) db.tailoring_sessions
          (ground arith) in
      record {
        run = run;
        present = present;
        named = (eq_iff run.id parent).0 (ground arith);
        is_chat_run = (chat_iff run.run_kind).0 (ground arith);
        is_running_run = (running_iff run.state).0 (ground arith);
        in_profile = to_profile p db run (ground arith);
        alone = All-both _ _ _ (only_parent parent db) db.runs others sessions;
        none_generating =
            All-weaken _ _ (λ s h e. let g = (generating_iff s.state).1 e in ground arith)
              db.tailoring_sessions calm;
      },
  λ may.
      let fits : is_parent p parent db may.run ≡ true =
        rw
          (
            (eq_iff may.run.id parent).1 may.named,
            (chat_iff may.run.run_kind).1 may.is_chat_run,
            (running_iff may.run.state).1 may.is_running_run,
            of_profile p db may.run may.in_profile,
          )
          refl in
      let present = any_of_IsIn (is_parent p parent db) may.run db.runs may.present fits in
      let others =
        any_of_All-false (λ r. is_active r.state && not (r.id == parent)) db.runs
          (All-weaken _ _ (λ r h. (quiet_run parent db r h).0) db.runs may.alone) in
      let sessions =
        any_of_All-false (λ r. is_active r.state && in_session_of none (session_of db r)) db.runs
          (All-weaken _ _ (λ r h. (quiet_run parent db r h).1) db.runs may.alone) in
      let calm =
        any_of_All-false (λ s. is_generating s.state && is_of none s) db.tailoring_sessions
          (All-weaken _ _ (λ s h. not_generating s h) db.tailoring_sessions may.none_generating) in
      ground arith,
)
