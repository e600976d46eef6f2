-- ===== src/Context.antt =====
-- backend/app/agent/context.py: the window of recent messages that enters the prompt, and the
-- attachment ids of a turn.
pub mod Budget
pub mod Window
pub mod AttachmentIds
mod Examples
use job_agent.Prelude.{
  ℕ, ◌+◌, String, Bool, true, false, not, ◌&&◌, ◌||◌, Option, none, some, List, [], ◌∷◌, ◌++◌, map,
  reverse, ◌==◌, leb, ltb, any, if◌then◌else◌, length, len, cut, strip, is_blank, ℤ, pos, negsuc,
  Outcome, returned, raised,
}

-- A durable message, as far as the selection reads it.
pub record Message : Type 0 where
  pub id : String
  pub role : String
  pub content : String

-- The projection that the model receives.
pub record ContextMessage : Type 0 where
  pub id : String
  pub role : String
  pub content : String

pub data ValueError : Type 0 where
  max_messages_negative char_budget_negative : ValueError

abbrev pub recent_context_max_messages : ℤ
recent_context_max_messages = pos 20

abbrev pub recent_context_char_budget : ℤ
recent_context_char_budget = pos 12000

abbrev pub contains : List String → String → Bool
contains xs x = any (λ y. y == x) xs

is_empty {ℓ} : {A : Type ℓ} → List A → Bool
is_empty [] = true
is_empty (x ∷ xs) = false

module _ (max_messages char_budget : ℕ) (skip : List String) where
  -- The content that is kept: an oversized first message is cut to the budget.
  unfoldable pub fitted : List ContextMessage → Message → String
  unfolding is_empty
  fitted selected row =
      if is_empty selected && ltb char_budget (len row.content)
      then cut char_budget row.content
      else row.content

  abbrev pub projected : List ContextMessage → Message → ContextMessage
  projected selected row = record { id = row.id; role = row.role; content = fitted selected row }

  -- The `for` loop; `selected` is `selected_rev`, the newest message first.
  unfoldable pub select_window :
      (rows : List Message) (selected : List ContextMessage) (used_chars : ℕ) → List ContextMessage
  unfolding is_empty
  select_window [] selected used_chars = selected
  select_window (row ∷ rows) selected used_chars =
      let skipped = select_window rows selected used_chars in
      let kept =
        select_window rows (selected ++ projected selected row ∷ [])
          (used_chars + len (fitted selected row)) in
      if leb max_messages (length selected)
      then selected
      else if contains skip row.id
      then skipped
      else if not (is_empty selected) && ltb char_budget (used_chars + len row.content)
      then selected
      else kept

-- `exclude_ids or frozenset()`
abbrev pub or_empty_set : Option (List String) → List String
or_empty_set none = []
or_empty_set (some ids) = ids

unfoldable pub apply_recent_context_budget :
    List Message → ℤ → ℤ → Option (List String) → Outcome ValueError (List ContextMessage)
apply_recent_context_budget messages_newest_first (negsuc m) char_budget exclude_ids =
    raised max_messages_negative
apply_recent_context_budget messages_newest_first (pos m) (negsuc b) exclude_ids =
    raised char_budget_negative
apply_recent_context_budget messages_newest_first (pos m) (pos b) exclude_ids =
    returned (reverse (select_window m b (or_empty_set exclude_ids) messages_newest_first [] 0))

-- The loop of `normalize_turn_attachment_ids`; `out` and `seen` hold the same values.
unfoldable pub normalize_from : List String → List String → List String
normalize_from [] out = out
normalize_from (raw ∷ rest) out =
    normalize_from rest
      (if is_blank raw || contains out (strip raw) then out else out ++ strip raw ∷ [])

unfoldable pub normalize_turn_attachment_ids : Option (List String) → List String
unfolding normalize_from
normalize_turn_attachment_ids turn_attachment_ids =
    normalize_from (or_empty_set turn_attachment_ids) []
