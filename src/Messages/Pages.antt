-- ===== src/Messages/Pages.antt =====
-- The pages of the history, from cursor to cursor, take the whole of it in order.
use mathlib.Core.Path.{subst}
use job_agent.Prelude.{
  ℕ, ◌≤◌, String, Bool, true, false, ◌&&◌, none, some, List, [], ◌∷◌, ◌++◌, ◌==◌, ◌≡◌, refl, arith,
  ap, ◌∙◌, eq_refl, keep, take, count_if, All, ltb, returned,
}
use job_agent.Prelude.Counts.{count_if-keep_le}
use job_agent.Prelude.Sorting.{text_ltb-asym, sort, count_if-sort}
use job_agent.Prelude.Sorted.{
  text_ltb-negtrans, text_ltb-total, IsSorted, IsOrder, sort-IsSorted, sort-keep,
}
use job_agent.Models.Chat.{ChatMessage}
use job_agent.Messages.{earlier, later, in_conversation, has_id, list_messages_before}

later-IsOrder : IsOrder later
later-IsOrder = record {
  asym = λ x y h. ground (arith, text_ltb-asym y.id x.id);
  negtrans = λ x y z h k. ground (arith, text_ltb-negtrans z.id y.id x.id);
}

keep-keep :
    (p q : ChatMessage → Bool) (xs : List ChatMessage)
    → keep (λ m. p m && q m) xs ≡ keep q (keep p xs)
keep-keep p q [] = refl
keep-keep p q (x ∷ xs) = ground (arith, keep-keep p q xs)

earlier_irrefl : (m : ChatMessage) → earlier m m ≡ false
earlier_irrefl m = ground (arith, text_ltb-asym m.id m.id)

earlier-total :
    (m y : ChatMessage) → earlier m y ≡ false → (y.id == m.id) ≡ false → earlier y m ≡ true
earlier-total m y h other = ground (arith, text_ltb-total m.id y.id, eq_refl m.id)

-- All the messages after `m` in the list come before its cursor.
keep-after :
    (m : ChatMessage) (ys : List ChatMessage)
    → All (λ y. later y m ≡ false) ys
    → count_if (has_id m.id) ys ≡ 0
    → keep (λ y. earlier y m) ys ≡ ys
keep-after m [] h one = refl
keep-after m (y ∷ ys) h one = ground (arith, earlier-total m y h.0, keep-after m ys h.1)

All-middle :
    (P : ChatMessage → Type 0) (pre post : List ChatMessage) (m : ChatMessage)
    → All P (pre ++ m ∷ post)
    → P m
All-middle P [] post m h = h.0
All-middle P (x ∷ pre) post m h = All-middle P pre post m h.1

keep-true :
    (p : ChatMessage → Bool) (xs : List ChatMessage) → keep (λ m. p m && true) xs ≡ keep p xs
keep-true p [] = refl
keep-true p (x ∷ xs) = ground (arith, keep-true p xs)

keep-cursor :
    (pre post : List ChatMessage) (m : ChatMessage)
    → IsSorted later (pre ++ m ∷ post)
    → count_if (has_id m.id) (pre ++ m ∷ post) ≤ 1
    → keep (λ y. earlier y m) (pre ++ m ∷ post) ≡ post
keep-cursor [] post m sorted one =
    ground (arith, earlier_irrefl m, eq_refl m.id, keep-after m post sorted.0)
keep-cursor (x ∷ pre) post m sorted one =
    let after = All-middle (λ y. later y x ≡ false) pre post m sorted.0 in
    ground (arith, keep-cursor pre post m sorted.1)

-- Where no two messages have one id, the page from a cursor is the part of the whole history, newest
-- first, that follows the message of the cursor, up to the limit; without a cursor it is the start of
-- the history.
pub list_messages_before_lem :
    (c : String) (limit : ℕ) (rows pre post : List ChatMessage) (m : ChatMessage)
    → 1 ≤ limit
    → ((i : String) → count_if (has_id i) rows ≤ 1)
    → sort later (keep (in_conversation c) rows) ≡ pre ++ m ∷ post
    → (list_messages_before c limit (some (m.created_at, m.id)) rows ≡ returned (take limit post))
      × (list_messages_before c limit none rows ≡ returned (take limit (pre ++ m ∷ post)))
unfolding list_messages_before
list_messages_before_lem c limit rows pre post m positive one whole =
    let sorted : IsSorted later (pre ++ m ∷ post) =
      subst (IsSorted later) whole
        (sort-IsSorted later later-IsOrder (keep (in_conversation c) rows)) in
    let once : count_if (has_id m.id) (pre ++ m ∷ post) ≤ 1 =
      subst (λ xs. count_if (has_id m.id) xs ≤ 1) whole
        (omega (
          arith,
          one m.id,
          count_if-sort later (has_id m.id) (keep (in_conversation c) rows),
          count_if-keep_le (has_id m.id) (in_conversation c) rows,
        )) in
    let page : sort later (keep (λ x. in_conversation c x && earlier x m) rows) ≡ post =
      ap (sort later) (keep-keep (in_conversation c) (λ x. earlier x m) rows)
      ∙ sort-keep later later-IsOrder (λ x. earlier x m) (keep (in_conversation c) rows)
      ∙ ap (keep (λ x. earlier x m)) whole
      ∙ keep-cursor pre post m sorted once in
    let start : sort later (keep (λ x. in_conversation c x && true) rows) ≡ pre ++ m ∷ post =
      ap (sort later) (keep-true (in_conversation c) rows) ∙ whole in
    let large : ltb limit 1 ≡ false = ground arith in
    (
      rw large (ap (λ xs. returned (take limit xs)) page),
      rw large (ap (λ xs. returned (take limit xs)) start),
    )
