-- ===== src/Messages/Lists.antt =====
-- The history lists are complete and in order, and a redaction is idempotent.
use job_agent.Prelude.{
  ℕ, String, Bool, true, ◌&&◌, List, [], ◌∷◌, ◌≡◌, refl, arith, ◌∙◌, first, keep, count_if,
  Bool-cases, Option-cases, inl, inr,
}
use job_agent.Prelude.Table.{put_first, first-holds, first-put_first_self}
use job_agent.Prelude.Sorting.{text_ltb-asym, count_if-sort}
use job_agent.Prelude.Sorted.{text_ltb-negtrans, IsSorted, IsOrder, sort-IsSorted}
use job_agent.Models.Chat.{ChatMessage}
use job_agent.Messages.{
  earlier, in_conversation, list_messages, has_id, redacted, redact_for_cv_deletion,
}

earlier-IsOrder : IsOrder earlier
earlier-IsOrder = record {
  asym = λ x y h. ground (arith, text_ltb-asym x.id y.id);
  negtrans = λ x y z h k. ground (arith, text_ltb-negtrans x.id y.id z.id);
}

count_if-keep_and :
    (p q : ChatMessage → Bool) (xs : List ChatMessage)
    → count_if q (keep p xs) ≡ count_if (λ m. p m && q m) xs
count_if-keep_and p q [] = refl
count_if-keep_and p q (x ∷ xs) = ground (arith, count_if-keep_and p q xs)

-- The history of a conversation is in the order of creation time and id, and holds every message of
-- the conversation as often as the table does and no other: of whatever condition, as many messages
-- of the history meet it as messages of the conversation.
pub list_messages_lem :
    (conversation_id : String) (rows : List ChatMessage)
    → IsSorted earlier (list_messages conversation_id rows)
      × ((q : ChatMessage → Bool)
          → count_if q (list_messages conversation_id rows)
            ≡ count_if (λ m. in_conversation conversation_id m && q m) rows)
unfolding list_messages
list_messages_lem c rows = (
  sort-IsSorted earlier earlier-IsOrder (keep (in_conversation c) rows),
  λ q.
      count_if-sort earlier q (keep (in_conversation c) rows)
      ∙ count_if-keep_and (in_conversation c) q rows,
)

put_first-twice :
    (i : String) (y z : ChatMessage) (xs : List ChatMessage)
    → has_id i y ≡ true
    → put_first (has_id i) z (put_first (has_id i) y xs) ≡ put_first (has_id i) z xs
unfolding put_first
put_first-twice i y z [] h = refl
put_first-twice i y z (x ∷ xs) h = elim (Bool-cases (has_id i x)) [
  | inl e ↦ rw (e, h) refl
  | inr e ↦ let rest = put_first-twice i y z xs h in rw (e, e, rest) refl
]

-- A redaction of a message that is redacted already gives the same answer and the same table as if it
-- were the only one.
pub redact_for_cv_deletion_idem :
    (message_id : String) (now now' : ℕ) (rows : List ChatMessage)
    → redact_for_cv_deletion message_id now' (redact_for_cv_deletion message_id now rows).1
      ≡ redact_for_cv_deletion message_id now' rows
unfolding redact_for_cv_deletion
redact_for_cv_deletion_idem i now now' rows = elim (Option-cases (first (has_id i) rows)) [
  | inl e ↦ ground arith
  | inr (row, e) ↦
      let same = first-holds (has_id i) rows e in
      ground (
        arith,
        first-put_first_self (has_id i) (redacted now row) row rows same e,
        put_first-twice i (redacted now row) (redacted now' row) rows same,
      )
]
