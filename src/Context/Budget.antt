-- ===== src/Context/Budget.antt =====
-- The two ceilings of the window.
use mathlib.Core.List.{reverse-cons}
use job_agent.Prelude.{
  ℕ, ◌+◌, ◌≤◌, String, ◌≡◌, refl, false, not, ◌&&◌, List, Bool-cases, inl, inr, leb, ltb, [], ◌∷◌,
  ◌++◌, Option, reverse, arith, length, len, len-cut, length-append, returned, pos,
}
use job_agent.Context.{
  Message, ContextMessage, fitted, is_empty, contains, projected, select_window,
  apply_recent_context_budget, or_empty_set,
}

abbrev pub chars : List ContextMessage → ℕ
chars [] = 0
chars (m ∷ ms) = len m.content + chars ms

pub chars-append : (xs ys : List ContextMessage) → chars (xs ++ ys) ≡ chars xs + chars ys
chars-append [] ys = omega arith
chars-append (x ∷ xs) ys = omega (arith, chars-append xs ys)

module _ (max_messages char_budget : ℕ) (skip : List String) where
  record Fits (selected : List ContextMessage) : Type 0 where
    count : length selected ≤ max_messages
    size : chars selected ≤ char_budget

  next-Fits :
      (selected : List ContextMessage) (row : Message)
      → leb max_messages (length selected) ≡ false
      → (not (is_empty selected) && ltb char_budget (chars selected + len row.content)) ≡ false
      → Fits (selected ++ projected max_messages char_budget skip selected row ∷ [])
  unfolding fitted
  next-Fits [] row h k = ground (arith, len-cut char_budget row.content)
  next-Fits (m ∷ ms) row h k =
      let new = row.content in
      record {
        count =
            ground (
              arith,
              length-append ms (record { id = row.id; role = row.role; content = new } ∷ []),
            );
        size =
            ground (
              arith,
              chars-append ms (record { id = row.id; role = row.role; content = new } ∷ []),
            );
      }

  select_window-Fits :
      (rows : List Message) (selected : List ContextMessage) (used_chars : ℕ)
      → used_chars ≡ chars selected
      → Fits selected
      → Fits (select_window max_messages char_budget skip rows selected used_chars)
  unfolding select_window
  select_window-Fits [] selected used_chars e f = f
  select_window-Fits (row ∷ rows) selected used_chars e f =
      let next = projected max_messages char_budget skip selected row in
      let kept =
        select_window-Fits rows (selected ++ next ∷ [])
          (used_chars + len (fitted max_messages char_budget skip selected row)) in
      let skipped = select_window-Fits rows selected used_chars e f in
      elim (Bool-cases (leb max_messages (length selected))) [
        | inl full ↦ rw full f
        | inr room ↦ elim (Bool-cases (contains skip row.id)) [
          | inl out ↦ rw (room, out) skipped
          | inr wanted ↦
              elim (Bool-cases
                (not (is_empty selected) && ltb char_budget (used_chars + len row.content))) [
                  | inl over ↦ rw (room, wanted, over) f
                  | inr fits ↦
                      rw (room, wanted, fits)
                        (kept (ground (arith, chars-append selected (next ∷ [])))
                          (next-Fits selected row room (rw e at fits)))
                ]
        ]
      ]

length-reverse {ℓ} : {A : Type ℓ} (xs : List A) → length (reverse xs) ≡ length xs
length-reverse [] = refl
length-reverse (x ∷ xs) =
    rw reverse-cons (omega (arith, length-append (reverse xs) (x ∷ []), length-reverse xs))

chars-reverse : (xs : List ContextMessage) → chars (reverse xs) ≡ chars xs
chars-reverse [] = refl
chars-reverse (x ∷ xs) =
    rw reverse-cons (omega (arith, chars-append (reverse xs) (x ∷ []), chars-reverse xs))

-- For ceilings that are not negative the call returns a window with at most `max_messages`
-- messages and at most `char_budget` characters of content in all, whatever the messages are.
pub apply_recent_context_budget_bounds :
    (rows : List Message) (m b : ℕ) (exclude_ids : Option (List String))
    → (window : List ContextMessage) × (apply_recent_context_budget rows (pos m) (pos b) exclude_ids
        ≡ returned window)
      × (length window ≤ m)
      × (chars window ≤ b)
unfolding apply_recent_context_budget
apply_recent_context_budget_bounds rows m b exclude_ids =
    let skip = or_empty_set exclude_ids in
    let selected = select_window m b skip rows [] 0 in
    let f =
      select_window-Fits m b skip rows [] 0 refl
        (record { count = omega arith; size = omega arith }) in
    (
      reverse selected,
      refl,
      omega (arith, length-reverse selected, f.count),
      omega (arith, chars-reverse selected, f.size),
    )
