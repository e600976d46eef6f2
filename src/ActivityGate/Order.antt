-- ===== src/ActivityGate/Order.antt =====
-- How the idle gates imply each other.
use job_agent.Prelude.{
  String, true, false, ◌&&◌, none, some, ◌==◌, ◌≡◌, arith, first, any, eq_iff, eq_refl,
  Option-cases, inl, inr, returned,
}
use job_agent.Prelude.Table.{first-holds}
use job_agent.Prelude.Counts.{any-weaken}
use job_agent.Models.Chat.{AgentRun}
use job_agent.Models.Database.{Database}
use job_agent.ActivityGate.{
  is_active, is_chat, is_generating, conversation_of, session_of, in_session_of, is_of, holds_of,
  owner_of, has_chat_activity, has_tailoring_activity, assert_workspace_idle,
  assert_conversation_idle, assert_profile_idle,
}

module _ (db : Database) (code : String) where
  pub workspace_lem :
      (assert_workspace_idle code db).0 ≡ returned tt
      → (any (λ r. is_active r.state) db.runs ≡ false)
        × (any (λ s. is_generating s.state && is_of none s) db.tailoring_sessions ≡ false)
  unfolding assert_workspace_idle has_tailoring_activity
  workspace_lem idle = ground arith

  -- If the whole workspace is idle then so is every profile, whatever code the gates use.
  pub assert_profile_idle_of_workspace :
      (profile_id code' : String)
      → (assert_workspace_idle code db).0 ≡ returned tt
      → assert_profile_idle profile_id code' db ≡ (returned tt, db)
  unfolding assert_profile_idle has_chat_activity has_tailoring_activity
  assert_profile_idle_of_workspace p code' idle =
      let (runs, sessions) = workspace_lem idle in
      ground (
        arith,
        any-weaken (λ r. is_active r.state)
            (λ r.
              is_chat r.run_kind
              && is_active r.state
              && holds_of (λ c. c.profile_id == p) (conversation_of db r))
            db.runs (λ r e. ground arith) runs,
        any-weaken (λ r. is_active r.state)
            (λ r. is_active r.state && in_session_of (some p) (session_of db r)) db.runs
            (λ r e. ground arith) runs,
        any-weaken (λ s. is_generating s.state && is_of none s)
            (λ s. is_generating s.state && is_of (some p) s) db.tailoring_sessions
            (λ s e. ground arith) sessions,
      )

  found_owner :
      (i j p : String)
      → owner_of i db ≡ some p
      → holds_of (λ c. c.id == i) (first (λ c. c.id == j) db.conversations) ≡ true
      → holds_of (λ c. c.profile_id == p) (first (λ c. c.id == j) db.conversations) ≡ true
  found_owner i j p owned held = elim (Option-cases (first (λ c. c.id == j) db.conversations)) [
    | inl e ↦ ground arith
    | inr (c, e) ↦
        let at_j : c.id ≡ j = (eq_iff c.id j).0 (first-holds (λ d. d.id == j) db.conversations e) in
        let at_i : c.id ≡ i = (eq_iff c.id i).0 (ground arith) in
        let found : first (λ d. d.id == i) db.conversations ≡ some c = ground arith in
        let owner : c.profile_id ≡ p = ground arith in ground (arith, eq_refl p)
  ]

  run_owner :
      (i p : String) (r : AgentRun)
      → owner_of i db ≡ some p
      → holds_of (λ c. c.id == i) (conversation_of db r) ≡ true
      → holds_of (λ c. c.profile_id == p) (conversation_of db r) ≡ true
  run_owner i p r owned held = elim (Option-cases r.user_message_id) [
    | inl e ↦ ground arith
    | inr (m, e) ↦ elim (Option-cases (first (λ x. x.id == m) db.messages)) [
      | inl f ↦ ground arith
      | inr (message, f) ↦ ground (arith, found_owner i message.conversation_id p owned)
    ]
  ]

  -- If a profile is idle then so is each of its conversations, whatever code the gates use.
  pub assert_conversation_idle_of_profile :
      (conversation_id profile_id code' : String)
      → owner_of conversation_id db ≡ some profile_id
      → (assert_profile_idle profile_id code db).0 ≡ returned tt
      → assert_conversation_idle conversation_id code' db ≡ (returned tt, db)
  unfolding assert_profile_idle assert_conversation_idle has_chat_activity
  assert_conversation_idle_of_profile i p code' owned idle = ground (
    arith,
    any-weaken
        (λ r.
          is_chat r.run_kind
          && is_active r.state
          && holds_of (λ c. c.profile_id == p) (conversation_of db r))
        (λ r.
          is_chat r.run_kind
          && is_active r.state
          && holds_of (λ c. c.id == i) (conversation_of db r))
        db.runs (λ r e. ground (arith, run_owner i p r owned)),
  )
