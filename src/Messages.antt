-- ===== src/Messages.antt =====
-- backend/app/repositories/chat_messages.py: the messages of the conversations.
pub mod Lists
pub mod Pages
mod Examples
use job_agent.Prelude.{
  ℕ, String, Bool, true, false, not, ◌&&◌, ◌||◌, Option, none, some, List, [], ◌∷◌, ◌++◌, ◌==◌,
  first, any, keep, take, ltb, eqb, is_some, is_none, is_blank, strip, if◌then◌else◌, Outcome,
  returned, raised, Action,
}
use job_agent.Prelude.Table.{put_first}
use job_agent.Prelude.Sorting.{text_ltb, sort}
use job_agent.Models.Json.{JsonObject}
use job_agent.Models.Chat.{ChatMessage}

pub data MessageError : Type 0 where
  repository_error invalid_role integrity_error : MessageError

abbrev pub Messages : Type 0 → Type 0
Messages A = Action (List ChatMessage) MessageError A

abbrev pub cv_deleted_marker : String
cv_deleted_marker = "[CV deleted]"

-- `CHAT_MESSAGE_ROLES`
abbrev pub is_role : String → Bool
is_role role = role == "user" || role == "assistant" || role == "system"

abbrev pub blank_if_set : Option String → Bool
blank_if_set none = false
blank_if_set (some s) = is_blank s

abbrev pub has_id : String → ChatMessage → Bool
has_id i m = m.id == i

-- The flush of a new row, under the primary key.
unfoldable pub flush_message : ChatMessage → Messages ChatMessage
flush_message row rows =
    if any (has_id row.id) rows
    then (raised integrity_error, rows)
    else (returned row, rows ++ row ∷ [])

unfoldable pub insert_message :
    (new_id : String) (now : ℕ) (conversation_id role content : String)
    (structured_payload : Option JsonObject) (source_attachment_id : Option String)
    (redacted_at : Option ℕ)
    → Messages ChatMessage
insert_message new_id now conversation_id role content structured_payload source_attachment_id
      redacted_at rows =
    if not (is_role role)
    then (raised invalid_role, rows)
    else if (content == "" && is_none structured_payload)
        || blank_if_set source_attachment_id
        || is_blank conversation_id
    then (raised repository_error, rows)
    else flush_message
        (record {
          id = new_id;
          conversation_id = strip conversation_id;
          role = role;
          content = content;
          structured_payload = structured_payload;
          source_attachment_id = source_attachment_id;
          redacted_at = redacted_at;
          created_at = now;
          updated_at = now;
        })
        rows

unfoldable pub get_by_id : String → List ChatMessage → Option ChatMessage
get_by_id message_id rows =
    if is_blank message_id then none else first (has_id (strip message_id)) rows

-- The order of `(created_at, id)`.
abbrev pub earlier : ChatMessage → ChatMessage → Bool
earlier a b = ltb a.created_at b.created_at || (eqb a.created_at b.created_at && text_ltb a.id b.id)

abbrev pub later : ChatMessage → ChatMessage → Bool
later a b = earlier b a

abbrev pub in_conversation : String → ChatMessage → Bool
in_conversation conversation_id m = m.conversation_id == conversation_id

unfoldable pub list_messages : String → List ChatMessage → List ChatMessage
list_messages conversation_id rows = sort earlier (keep (in_conversation conversation_id) rows)

-- The cursor pair of `before`.
abbrev pub is_before : Option (ℕ × String) → ChatMessage → Bool
is_before none m = true
is_before (some (created_at, i)) m =
    ltb m.created_at created_at || (eqb m.created_at created_at && text_ltb m.id i)

unfoldable pub list_messages_before :
    (conversation_id : String) (limit : ℕ) (before : Option (ℕ × String))
    → List ChatMessage
    → Outcome MessageError (List ChatMessage)
list_messages_before conversation_id limit before rows =
    if ltb limit 1
    then raised repository_error
    else returned (
        take limit
          (sort later (keep (λ m. in_conversation conversation_id m && is_before before m) rows)))

abbrev pub is_from : String → ChatMessage → Bool
is_from attachment_id m = elim m.source_attachment_id [ none ↦ false | some a ↦ a == attachment_id ]

unfoldable pub list_by_source_attachment_id :
    String → List ChatMessage → Outcome MessageError (List ChatMessage)
list_by_source_attachment_id attachment_id rows =
    if is_blank attachment_id
    then raised repository_error
    else returned (sort earlier (keep (is_from (strip attachment_id)) rows))

unfoldable pub list_with_structured_payload : List ChatMessage → List ChatMessage
list_with_structured_payload rows = sort earlier (keep (λ m. is_some m.structured_payload) rows)

abbrev pub redacted : ℕ → ChatMessage → ChatMessage
redacted now row = record row {
  content = cv_deleted_marker;
  structured_payload = none;
  source_attachment_id = none;
  redacted_at = some now;
  updated_at = now;
}

-- `now` is `redacted_at`, or the clock where it is not given.
unfoldable pub redact_for_cv_deletion : String → ℕ → Messages ChatMessage
redact_for_cv_deletion message_id now rows = elim (first (has_id message_id) rows) [
  | none ↦ (raised repository_error, rows)
  | some row ↦ (returned (redacted now row), put_first (has_id message_id) (redacted now row) rows)
]
