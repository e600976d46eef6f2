-- ===== src/Messages/Examples.antt =====
-- Runs of the message repository.
use job_agent.Prelude.{
  ℕ, String, ◌≡◌, refl, Bool, ◌&&◌, none, some, List, [], ◌∷◌, count_if, take, ◌≤◌, ◌==◌, arith,
  eq_iff, Bool-cases, inl, inr, returned, raised, is_blank, strip,
}
use job_agent.Prelude.Table.{put_first}
use job_agent.Prelude.Sorting.{text_ltb, insert, sort}
use job_agent.Prelude.Sorted.{IsSorted}
use job_agent.Models.Chat.{ChatMessage}
use job_agent.Messages.{
  invalid_role, earlier, in_conversation, has_id, flush_message, insert_message, get_by_id,
  list_messages, list_messages_before, list_by_source_attachment_id, list_with_structured_payload,
  redact_for_cv_deletion,
}
use job_agent.Messages.Pages.{list_messages_before_lem}
use job_agent.Messages.Lists.{list_messages_lem}

program : Unit {0}
unfolding put_first text_ltb insert sort is_blank strip flush_message insert_message get_by_id
    list_messages list_messages_before list_by_source_attachment_id list_with_structured_payload
    redact_for_cv_deletion
program = tt

abbrev message : String → ℕ → ChatMessage
message i now = record {
  id = i;
  conversation_id = "c";
  role = "user";
  content = "hi";
  structured_payload = none;
  source_attachment_id = some "cv";
  redacted_at = none;
  created_at = now;
  updated_at = now;
}

abbrev rows : List ChatMessage
rows = message "b" 2 ∷ message "a" 1 ∷ message "c" 2 ∷ []

-- A page of two, the page before it, and a role that is not stored.
paged :
    (list_messages_before "c" 2 none rows ≡ returned (message "c" 2 ∷ message "b" 2 ∷ []))
    × (list_messages_before "c" 2 (some (2, "b")) rows ≡ returned (message "a" 1 ∷ []))
    × ((insert_message "d" 3 "c" "tool" "hi" none none none rows).0 ≡ raised invalid_role)
unfolding program
paged = (refl, refl, refl)

list_messages_example :
    IsSorted earlier (list_messages "c" rows)
    × ((q : ChatMessage → Bool)
        → count_if q (list_messages "c" rows) ≡ count_if (λ m. in_conversation "c" m && q m) rows)
list_messages_example = list_messages_lem "c" rows

one_id : (i : String) → count_if (has_id i) rows ≤ 1
one_id i = elim (Bool-cases ("b" == i)) [
  | inl e ↦ rw⁻¹ ((eq_iff "b" i).0 e) (omega arith)
  | inr e ↦ elim (Bool-cases ("a" == i)) [
    | inl f ↦ rw⁻¹ ((eq_iff "a" i).0 f) (omega arith)
    | inr f ↦ ground (arith, e, f)
  ]
]

list_messages_before_example :
    (list_messages_before "c" 2 (some (2, "b")) rows ≡ returned (take 2 (message "a" 1 ∷ [])))
    × (list_messages_before "c" 2 none rows
        ≡ returned (take 2 (message "c" 2 ∷ message "b" 2 ∷ message "a" 1 ∷ [])))
unfolding program
list_messages_before_example =
    list_messages_before_lem "c" 2 rows (message "c" 2 ∷ []) (message "a" 1 ∷ []) (message "b" 2)
      (omega arith) one_id refl
