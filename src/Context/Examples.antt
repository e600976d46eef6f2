-- ===== src/Context/Examples.antt =====
-- Runs of the window selection on small inputs.
use job_agent.Prelude.{
  ◌≡◌, ◌≤◌, refl, List, [], ◌∷◌, ◌++◌, none, some, reverse, length, returned, raised, pos, negsuc,
  String, cut, is_blank,
}
use job_agent.Context.{
  Message, ContextMessage, select_window, fitted, apply_recent_context_budget,
  normalize_turn_attachment_ids, max_messages_negative,
}
use job_agent.Context.Budget.{chars, apply_recent_context_budget_bounds}
use job_agent.Context.Window.{unskipped, as_window, Stops, apply_recent_context_budget_window}

abbrev message : String → String → Message
message id content = record { id = id; role = "user"; content = content }

abbrev shown : String → String → ContextMessage
shown id content = record { id = id; role = "user"; content = content }

abbrev history : List Message
history = message "c" "hello" ∷ message "b" "wide" ∷ message "x" "new" ∷ message "a" "hi" ∷ []

selects_two :
    apply_recent_context_budget history (pos 3) (pos 10) (some ("x" ∷ []))
    ≡ returned (shown "b" "wide" ∷ shown "c" "hello" ∷ [])
unfolding apply_recent_context_budget select_window fitted
selects_two = refl

cuts_oversized :
    apply_recent_context_budget history (pos 3) (pos 2) none ≡ returned (shown "c" "he" ∷ [])
unfolding apply_recent_context_budget select_window fitted cut
cuts_oversized = refl

refuses_negative :
    apply_recent_context_budget history (negsuc 0) (pos 2) none ≡ raised max_messages_negative
unfolding apply_recent_context_budget
refuses_negative = refl

ids_normalized : normalize_turn_attachment_ids (some (" a" ∷ "" ∷ "b" ∷ "a " ∷ [])) ≡ "a" ∷ "b" ∷ []
unfolding normalize_turn_attachment_ids is_blank
ids_normalized = refl

apply_recent_context_budget_bounds_example :
    (window : List ContextMessage) × (apply_recent_context_budget history (pos 3) (pos 10) none
      ≡ returned window)
    × (length window ≤ 3)
    × (chars window ≤ 10)
apply_recent_context_budget_bounds_example = apply_recent_context_budget_bounds history 3 10 none

apply_recent_context_budget_window_example :
    (taken : List Message) × (rest : List Message) × (taken ++ rest ≡ unskipped [] history)
    × (apply_recent_context_budget history (pos 3) (pos 10) none
        ≡ returned (reverse (as_window 10 taken)))
    × Stops 3 10 (as_window 10 taken) rest
apply_recent_context_budget_window_example = apply_recent_context_budget_window history 3 10 none
